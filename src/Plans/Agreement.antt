-- ===== src/Plans/Agreement.antt =====
-- What the usage summary promises against what the checks enforce.

use v_backend.Base.{
  ℕ, ◌≡◌, ◌≢◌, ◌↔◌, ◌∙◌, ap, refl, Bool-cases, true, false, ◌&&◌, Option, none, some, Option-cases,
  inl, inr, arith, if◌then◌else◌, ℤ, pos, negsuc, ◌-ℤ◌, ◌≤ℤ◌, ltb_ℤ,
}
use v_backend.Plans.Exceptions.{
  PlanType, free, pro, enterprise, other, CustomLimits, ResolvedExceptions,
}
use v_backend.Plans.Limits.{
  PlanLimits, Settings, get_limits, free_limits, resolve_effective_plan, check_limit,
  effective_limit, remaining_of, can_create_product, can_create_customer, can_create_order, is_free,
  is_unlimited_period_active, get_usage_summary, Usage, no_limit, custom_or, is_no_limit, or_else,
}

-- An override of a limit is not negative (dto/account-exception.dto.ts: `min(0)`).
abbrev pub IsNatural : Option ℤ → Type 0
IsNatural none = Unit
IsNatural (some n) = pos 0 ≤ℤ n

abbrev pub IsValid : Option CustomLimits → Type 0
IsValid none = Unit
IsValid (some c) =
    IsNatural c.max_products × IsNatural c.max_customers × IsNatural c.max_orders_per_month

abbrev IsCounted : (CustomLimits → Option ℤ) → Option CustomLimits → Type 0
IsCounted f none = Unit
IsCounted f (some c) = IsNatural (f c)

custom_or_valid :
    (f : CustomLimits → Option ℤ) (c : Option CustomLimits) (n : ℕ)
    → IsCounted f c
    → (m : ℕ) × (custom_or f c (pos n) ≡ pos m)
unfolding custom_or
custom_or_valid f none n h = (n, refl)
custom_or_valid f (some c) n h = elim (Option-cases (f c)) [
  | inl unset ↦ (n, rw unset refl)
  | inr (pos m, set) ↦ (m, rw set refl)
  | inr (negsuc m, set) ↦ absurd (ground (arith, set))
]

remaining_iff :
    (m count : ℕ) → (ltb_ℤ (pos count) (pos m) ≡ true) ↔ (remaining_of (pos m) count ≢ pos 0)
unfolding remaining_of ◌-ℤ◌
remaining_iff m count = ground arith

unlimited_iff : (count : ℕ) → (true ≡ true) ↔ (remaining_of no_limit count ≢ pos 0)
unfolding remaining_of is_no_limit
unlimited_iff count = (λ _ e. cc, λ _. refl)

base_eq :
    (limit_of : PlanLimits → ℤ) (p : PlanType)
    → (if is_free p then or_else none (limit_of free_limits) else limit_of (get_limits p))
      ≡ limit_of (get_limits p)
unfolding is_free get_limits
base_eq limit_of free = refl
base_eq limit_of pro = refl
base_eq limit_of enterprise = refl
base_eq limit_of other = refl

-- One resource whose limit under a plan that has one is `n`.
check_limit-remaining :
    (limit_of : PlanLimits → ℤ) (f : CustomLimits → Option ℤ) (s : Settings) (now : ℕ)
    (x : ResolvedExceptions) (plan : PlanType) (count n : ℕ)
    → (get_limits (resolve_effective_plan x plan).effective_plan).unlimited ≡ false
    → limit_of (get_limits (resolve_effective_plan x plan).effective_plan) ≡ pos n
    → IsCounted f (resolve_effective_plan x plan).custom_limits
    → ((check_limit limit_of f none s now x plan count).allowed ≡ true)
      ↔ (remaining_of (effective_limit limit_of f s now x plan) count ≢ pos 0)
unfolding check_limit effective_limit
check_limit-remaining limit_of f s now x plan count n limited limit_eq valid =
    let r = resolve_effective_plan x plan in
    let (m, maximum) = custom_or_valid f r.custom_limits n valid in
    let shown = ap (custom_or f r.custom_limits) limit_eq ∙ maximum in
    let checked =
      ap (custom_or f r.custom_limits) (base_eq limit_of r.effective_plan ∙ limit_eq) ∙ maximum in
    elim (Bool-cases (is_free r.effective_plan && is_unlimited_period_active s now)) [
      | inl period ↦ elim (Bool-cases r.unlimited_from_exception) [
        | inl window ↦ rw (window, period) (unlimited_iff count)
        | inr usual ↦ rw (usual, limited, limit_eq, period) (unlimited_iff count)
      ]
      | inr no_period ↦ elim (Bool-cases r.unlimited_from_exception) [
        | inl window ↦ rw (window, no_period) (unlimited_iff count)
        | inr usual ↦
            rw (usual, no_period, checked, shown, limited, limit_eq)
              (ground (arith, remaining_iff m count))
      ]
    ]

limits_of :
    (p : PlanType)
    → (get_limits p).unlimited ≡ false
    → ((a : ℕ) × ((get_limits p).max_products ≡ pos a))
      × ((b : ℕ) × ((get_limits p).max_customers ≡ pos b))
      × ((c : ℕ) × ((get_limits p).max_orders_per_month ≡ pos c))
unfolding get_limits
limits_of free h = ((50, refl), (100, refl), (30, refl))
limits_of pro h = ((500, refl), (1000, refl), (500, refl))
limits_of enterprise h = cc
limits_of other h = ((50, refl), (100, refl), (30, refl))

custom_IsValid :
    (x : ResolvedExceptions) (plan : PlanType)
    → IsValid x.custom
    → IsValid (resolve_effective_plan x plan).custom_limits
unfolding resolve_effective_plan
custom_IsValid x plan v = elim (Option-cases x.window) [
  | inl shut ↦ rw shut v
  | inr (w, found) ↦ rw found tt
]

counted :
    (f : CustomLimits → Option ℤ) (c : Option CustomLimits)
    → ((l : CustomLimits) → IsValid (some l) → IsNatural (f l))
    → IsValid c
    → IsCounted f c
counted f none h v = tt
counted f (some l) h v = h l v

-- Where the effective plan has limits and no setting overrides those of the free plan, the summary
-- that is shown agrees with what is enforced: a product, a customer or an order may be created
-- exactly where the summary does not say that none remain. Overrides are not negative.
pub summary_agrees :
    (s : Settings) (now : ℕ) (x : ResolvedExceptions) (plan : PlanType) (usage : Usage)
    → (get_limits (resolve_effective_plan x plan).effective_plan).unlimited ≡ false
    → IsValid x.custom
    → s.free_plan_products_limit ≡ none
    → s.free_plan_customers_limit ≡ none
    → s.free_plan_sales_limit ≡ none
    → let shown = get_usage_summary s now x plan usage in
      (((can_create_product s now x plan usage.products).allowed ≡ true)
        ↔ (shown.remaining_products ≢ pos 0))
      × (((can_create_customer s now x plan usage.customers).allowed ≡ true)
          ↔ (shown.remaining_customers ≢ pos 0))
      × (((can_create_order s now x plan usage.orders_this_month).allowed ≡ true)
          ↔ (shown.remaining_orders ≢ pos 0))
unfolding can_create_product can_create_customer can_create_order get_usage_summary
summary_agrees s now x plan usage limited valid no_products no_customers no_orders =
    let v = custom_IsValid x plan valid in
    let c = (resolve_effective_plan x plan).custom_limits in
    let ((a, a_eq), (b, b_eq), (o, o_eq)) =
      limits_of (resolve_effective_plan x plan).effective_plan limited in
    (
      rw no_products (
          check_limit-remaining (λ l. l.max_products) (λ l. l.max_products) s now x plan
            usage.products a limited a_eq (counted _ c (λ l h. h.0) v)),
      rw no_customers (
          check_limit-remaining (λ l. l.max_customers) (λ l. l.max_customers) s now x plan
            usage.customers b limited b_eq (counted _ c (λ l h. h.1) v)),
      rw no_orders (
          check_limit-remaining (λ l. l.max_orders_per_month) (λ l. l.max_orders_per_month) s now x
            plan usage.orders_this_month o limited o_eq (counted _ c (λ l h. h.2) v)),
    )
