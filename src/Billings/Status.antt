-- ===== src/Billings/Status.antt =====
-- shared/billing/billing-status.ts: the state of a charge, derived from its amounts.
use v_backend.Base.{◌≡◌, ◌↔◌, Bool, ℤ, pos, ◌≤ℤ◌, ltb_ℤ, not, if◌then◌else◌, arith}
use v_backend.Db.Rows.{BillingStatus, PaymentStatus}

pub record DerivedBilling : Type 0 where
  pub status : BillingStatus
  pub payment_status : PaymentStatus

-- `a <= b`
abbrev pub leb_ℤ : ℤ → ℤ → Bool
leb_ℤ a b = not (ltb_ℤ b a)

unfoldable pub derive_billing_status : ℤ → ℤ → DerivedBilling
derive_billing_status paid_amount total_amount =
    if leb_ℤ paid_amount (pos 0)
    then record { status = BillingStatus.pending; payment_status = PaymentStatus.pending }
    else (if leb_ℤ total_amount paid_amount
        then record { status = BillingStatus.paid; payment_status = PaymentStatus.confirmed }
        else record { status = BillingStatus.partial; payment_status = PaymentStatus.pending })

-- The state contradicts no amounts: pending is nothing paid, paid is all of it, partial is between;
-- the payment is confirmed exactly when the charge is paid.
pub record Matches (paid_amount total_amount : ℤ) (d : DerivedBilling) : Type 0 where
  pub pending_iff : (d.status ≡ BillingStatus.pending) ↔ (paid_amount ≤ℤ pos 0)
  pub paid_iff :
      (d.status ≡ BillingStatus.paid) ↔ ((pos 1 ≤ℤ paid_amount) × (total_amount ≤ℤ paid_amount))
  pub partial_iff :
      (d.status ≡ BillingStatus.partial)
      ↔ ((pos 1 ≤ℤ paid_amount) × ¬ (total_amount ≤ℤ paid_amount))
  pub confirmed_iff : (d.payment_status ≡ PaymentStatus.confirmed) ↔ (d.status ≡ BillingStatus.paid)

-- The state that is derived contradicts no amounts: it is pending where nothing is paid, paid where
-- something is paid and nothing is left, partial where something is, and confirmed where it is paid.
pub derive_billing_status-Matches :
    (paid_amount total_amount : ℤ)
    → Matches paid_amount total_amount (derive_billing_status paid_amount total_amount)
unfolding derive_billing_status
derive_billing_status-Matches p t = record {
  pending_iff = ground arith;
  paid_iff = ground arith;
  partial_iff = ground arith;
  confirmed_iff = ground arith;
}
