-- ===== src/Db/Tenant.antt =====
-- shared/tenant: who the request runs as, and the filter that the repositories put on queries.
use v_backend.Base.{ℕ, Bool, true, false, Option, none, some, Result, ok, err, internal, ◌==◌}

pub data Role : Type 0 where
  seller admin : Role

pub record TenantData : Type 0 where
  pub seller_id : ℕ
  pub role : Role

-- `AsyncLocalStorage.getStore()`: none outside a request with an authenticated user.
abbrev pub TenantContext : Type 0
TenantContext = Option TenantData

unfoldable pub get_seller_id : TenantContext → Option ℕ
get_seller_id none = none
get_seller_id (some t) = some t.seller_id

is_admin_role : Role → Bool
is_admin_role admin = true
is_admin_role seller = false

unfoldable pub is_admin : TenantContext → Bool
unfolding is_admin_role
is_admin none = false
is_admin (some t) = is_admin_role t.role

unfoldable pub require_seller_id : TenantContext → Result ℕ
require_seller_id none = err internal
require_seller_id (some t) = ok t.seller_id

-- `getTenantFilter()` of the repositories: none is the empty filter of an admin.
unfoldable pub tenant_filter : TenantContext → Result (Option ℕ)
unfolding is_admin_role
tenant_filter none = err internal
tenant_filter (some t) = elim (is_admin_role t.role) [
  | true ↦ ok none
  | false ↦ ok (some t.seller_id)
]

unfoldable pub in_filter : Option ℕ → ℕ → Bool
in_filter none seller_id = true
in_filter (some s) seller_id = seller_id == s

-- `!isAdmin() && row.seller_id !== getSellerId()`, negated.
unfoldable pub may_access : TenantContext → ℕ → Bool
unfolding is_admin_role
may_access none seller_id = false
may_access (some t) seller_id = elim (is_admin_role t.role) [
  | true ↦ true
  | false ↦ seller_id == t.seller_id
]
