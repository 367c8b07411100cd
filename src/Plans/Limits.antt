-- ===== src/Plans/Limits.antt =====
-- `PlanLimitsService`: what a plan allows an account to create. Settings, exceptions and counts are
-- read from the state that the functions take; messages are left out.

use v_backend.Base.{
  ℕ, Bool, true, false, not, ◌&&◌, ◌||◌, Option, none, some, leb, ltb, if◌then◌else◌, ℤ, pos,
  negsuc, pos_part, ◌-ℤ◌, ltb_ℤ,
}
use v_backend.Plans.Exceptions.{
  PlanType, free, pro, enterprise, other, CustomLimits, ResolvedExceptions,
}

-- constants/plan-limits.ts; -1 stands for no limit.
abbrev pub no_limit : ℤ
no_limit = negsuc 0

pub record PlanFeatures : Type 0 where
  pub reports : Bool
  pub export_data : Bool
  pub multiple_images : Bool
  pub priority_support : Bool
  pub custom_branding : Bool
  pub api_access : Bool

pub record PlanLimits : Type 0 where
  pub max_products : ℤ
  pub max_customers : ℤ
  pub max_orders_per_month : ℤ
  pub unlimited : Bool

abbrev pub free_limits : PlanLimits
free_limits = record {
  max_products = pos 50;
  max_customers = pos 100;
  max_orders_per_month = pos 30;
  unlimited = false;
}

-- `PLAN_LIMITS[planType] || PLAN_LIMITS.free`
unfoldable pub get_limits : PlanType → PlanLimits
get_limits free = free_limits
get_limits pro = record {
  max_products = pos 500;
  max_customers = pos 1000;
  max_orders_per_month = pos 500;
  unlimited = false;
}
get_limits enterprise = record {
  max_products = no_limit;
  max_customers = no_limit;
  max_orders_per_month = no_limit;
  unlimited = true;
}
get_limits other = free_limits

abbrev free_features : PlanFeatures
free_features = record {
  reports = false;
  export_data = false;
  multiple_images = false;
  priority_support = false;
  custom_branding = false;
  api_access = false;
}

unfoldable pub features_of : PlanType → PlanFeatures
features_of free = free_features
features_of pro = record {
  reports = true;
  export_data = true;
  multiple_images = true;
  priority_support = false;
  custom_branding = false;
  api_access = false;
}
features_of enterprise = record {
  reports = true;
  export_data = true;
  multiple_images = true;
  priority_support = true;
  custom_branding = true;
  api_access = true;
}
features_of other = free_features

-- The settings that the service reads; a number is none where the key is not set.
pub record Settings : Type 0 where
  pub free_plan_products_limit : Option ℤ
  pub free_plan_customers_limit : Option ℤ
  pub free_plan_sales_limit : Option ℤ
  pub window_start : Option ℕ
  pub window_end : Option ℕ

started : Option ℕ → ℕ → Bool
started none now = true
started (some t) now = leb t now

-- `SettingsService.getUnlimitedPeriodWindow().isActive`
unfoldable pub is_unlimited_period_active : Settings → ℕ → Bool
unfolding started
is_unlimited_period_active s now = elim s.window_end [
  | none ↦ false
  | some end ↦ ltb now end && started s.window_start now
]

pub record Resolved : Type 0 where
  pub effective_plan : PlanType
  pub unlimited_from_exception : Bool
  pub custom_limits : Option CustomLimits

-- `a ?? b`
abbrev pub or_else {ℓ} : {A : Type ℓ} → Option A → A → A
or_else none b = b
or_else (some a) b = a

unfoldable pub resolve_effective_plan : ResolvedExceptions → PlanType → Resolved
resolve_effective_plan x plan = elim x.window [
  | none ↦ record {
    effective_plan = or_else x.granted plan;
    unlimited_from_exception = false;
    custom_limits = x.custom;
  }
  | some w ↦ record { effective_plan = plan; unlimited_from_exception = true; custom_limits = none }
]

unfoldable pub is_free : PlanType → Bool
is_free free = true
is_free pro = false
is_free enterprise = false
is_free other = false

-- `getEffectiveFeatures`
unfoldable pub get_effective_features : Settings → ℕ → ResolvedExceptions → PlanType → PlanFeatures
unfolding resolve_effective_plan is_free is_unlimited_period_active features_of
get_effective_features s now x plan =
    let r = resolve_effective_plan x plan in
    let lifted =
      is_free r.effective_plan
      && (r.unlimited_from_exception || is_unlimited_period_active s now) in
    features_of (if lifted then pro else r.effective_plan)

pub data UnlimitedReason : Type 0 where
  unlimited_period admin_grant admin_unlimited_window : UnlimitedReason

pub record LimitCheckResult : Type 0 where
  pub allowed : Bool
  pub current : ℕ
  pub limit : ℤ
  pub unlimited_reason : Option UnlimitedReason

-- `a === b`; plans that are none of the known ones are not told apart, since none of them is unlimited.
unfoldable pub same_plan : PlanType → PlanType → Bool
same_plan free free = true
same_plan pro pro = true
same_plan enterprise enterprise = true
same_plan other other = true
same_plan _ _ = false

unfoldable pub is_no_limit : ℤ → Bool
is_no_limit (pos n) = false
is_no_limit (negsuc n) = leb n 0

unfoldable pub custom_or : (CustomLimits → Option ℤ) → Option CustomLimits → ℤ → ℤ
custom_or f none d = d
custom_or f (some c) d = or_else (f c) d

-- The body that `canCreateProduct`, `canCreateCustomer` and `canCreateOrder` share: `limit_of` and
-- `custom` pick the resource's number, `free_override` is its setting, `count` the rows that exist.
unfoldable pub check_limit :
    (PlanLimits → ℤ)
    → (CustomLimits → Option ℤ)
    → Option ℤ
    → Settings
    → ℕ
    → ResolvedExceptions
    → PlanType
    → ℕ
    → LimitCheckResult
unfolding resolve_effective_plan get_limits is_no_limit is_free is_unlimited_period_active custom_or
    same_plan
check_limit limit_of custom free_override s now x plan count =
    let r = resolve_effective_plan x plan in
    let limits = get_limits r.effective_plan in
    let base =
      if is_free r.effective_plan
      then or_else free_override (limit_of free_limits)
      else limit_of limits in
    let maximum = custom_or custom r.custom_limits base in
    let granted = if same_plan r.effective_plan plan then none else some admin_grant in
    if r.unlimited_from_exception
    then record {
      allowed = true;
      current = count;
      limit = no_limit;
      unlimited_reason = some admin_unlimited_window;
    }
    else (if limits.unlimited || is_no_limit (limit_of limits)
        then record { allowed = true; current = 0; limit = no_limit; unlimited_reason = granted }
        else (if is_free r.effective_plan && is_unlimited_period_active s now
            then record {
              allowed = true;
              current = count;
              limit = no_limit;
              unlimited_reason = some unlimited_period;
            }
            else (if not (ltb_ℤ (pos count) maximum)
                then record {
                  allowed = false;
                  current = count;
                  limit = maximum;
                  unlimited_reason = none;
                }
                else record {
                  allowed = true;
                  current = count;
                  limit = maximum;
                  unlimited_reason = none;
                })))

unfoldable pub can_create_product :
    Settings → ℕ → ResolvedExceptions → PlanType → ℕ → LimitCheckResult
unfolding check_limit
can_create_product s =
    check_limit (λ l. l.max_products) (λ c. c.max_products) s.free_plan_products_limit s

unfoldable pub can_create_customer :
    Settings → ℕ → ResolvedExceptions → PlanType → ℕ → LimitCheckResult
unfolding check_limit
can_create_customer s =
    check_limit (λ l. l.max_customers) (λ c. c.max_customers) s.free_plan_customers_limit s

-- `count` is that of the orders since the first of the month.
unfoldable pub can_create_order :
    Settings → ℕ → ResolvedExceptions → PlanType → ℕ → LimitCheckResult
unfolding check_limit
can_create_order s =
    check_limit (λ l. l.max_orders_per_month) (λ c. c.max_orders_per_month) s.free_plan_sales_limit
      s

-- One line of `effectiveLimits` in `getUsageSummary`.
unfoldable pub effective_limit :
    (PlanLimits → ℤ) → (CustomLimits → Option ℤ) → Settings → ℕ → ResolvedExceptions → PlanType → ℤ
unfolding resolve_effective_plan get_limits is_free is_unlimited_period_active custom_or
effective_limit limit_of custom s now x plan =
    let r = resolve_effective_plan x plan in
    let lifted =
      (is_free r.effective_plan && is_unlimited_period_active s now)
      || r.unlimited_from_exception in
    if lifted
    then no_limit
    else custom_or custom r.custom_limits (limit_of (get_limits r.effective_plan))

-- One line of `remaining`.
unfoldable pub remaining_of : ℤ → ℕ → ℤ
unfolding is_no_limit
remaining_of limit used = if is_no_limit limit then no_limit else pos (pos_part (limit -ℤ pos used))

pub record Usage : Type 0 where
  pub products : ℕ
  pub customers : ℕ
  pub orders_this_month : ℕ

pub record UsageSummary : Type 0 where
  pub effective_plan : PlanType
  pub limit_products : ℤ
  pub limit_customers : ℤ
  pub limit_orders : ℤ
  pub remaining_products : ℤ
  pub remaining_customers : ℤ
  pub remaining_orders : ℤ
  pub unlimited : Bool

-- `getUsageSummary`, less the window that it describes and the usage that it repeats.
unfoldable pub get_usage_summary :
    Settings → ℕ → ResolvedExceptions → PlanType → Usage → UsageSummary
unfolding effective_limit remaining_of
get_usage_summary s now x plan usage =
    let r = resolve_effective_plan x plan in
    let products = effective_limit (λ l. l.max_products) (λ c. c.max_products) s now x plan in
    let customers = effective_limit (λ l. l.max_customers) (λ c. c.max_customers) s now x plan in
    let orders =
      effective_limit (λ l. l.max_orders_per_month) (λ c. c.max_orders_per_month) s now x plan in
    record {
      effective_plan = r.effective_plan;
      limit_products = products;
      limit_customers = customers;
      limit_orders = orders;
      remaining_products = remaining_of products usage.products;
      remaining_customers = remaining_of customers usage.customers;
      remaining_orders = remaining_of orders usage.orders_this_month;
      unlimited =
          (get_limits r.effective_plan).unlimited
          || (is_free r.effective_plan && is_unlimited_period_active s now)
          || r.unlimited_from_exception;
    }
