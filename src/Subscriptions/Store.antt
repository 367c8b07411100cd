-- ===== src/Subscriptions/Store.antt =====
-- The rows of prisma/schema.prisma behind subscriptions, and calls that may throw half way. These
-- services run in no transaction: what a call has written before an exception stays written.
use v_backend.Base.{ℕ, Bool, List, Option, HttpError}
use v_backend.Plans.Exceptions.{PlanType}
use v_backend.Base.Effects
pub use v_backend.Base.Effects.{
  continue, ◌>>=◌, ◌>>◌, return, throw, write, read, >>=-done, >>=-returned,
}

pub data SubscriptionStatus : Type 0 where
  active canceled past_due trialing paused : SubscriptionStatus

pub data Provider : Type 0 where
  stripe pagseguro : Provider

pub record Account : Type 0 where
  pub id : ℕ
  pub plan_type : PlanType

-- Provider ids are opaque texts that are only compared.
pub record Subscription : Type 0 where
  pub id : ℕ
  pub account_id : ℕ
  pub plan_type : PlanType
  pub status : SubscriptionStatus
  pub payment_provider : Provider
  pub provider_subscription_id : ℕ
  pub provider_customer_id : Option ℕ
  pub current_period_start : ℕ
  pub current_period_end : ℕ
  pub cancel_at_period_end : Bool
  pub canceled_at : Option ℕ
  pub trial_start : Option ℕ
  pub trial_end : Option ℕ

pub record WebhookEvent : Type 0 where
  pub id : ℕ
  pub provider : Provider
  pub event_id : ℕ
  pub processed : Bool
  pub processed_at : Option ℕ
  pub error : Option HttpError
  pub retry_count : ℕ

pub record Store : Type 0 where
  pub accounts : List Account
  pub subscriptions : List Subscription
  pub events : List WebhookEvent
  pub next_subscription : ℕ
  pub next_event : ℕ

-- A call on these tables.
abbrev pub Effect : Type 0 → Type 0
Effect A = Effects.Effect Store A
