-- ===== src/Billings/Consistency.antt =====
-- The stored state of a charge against its amounts, under every operation of `BillingsService`.
use mathlib.Core.Option
use v_backend.Base.{
  ℕ, ◌<◌, ◌≡◌, ◌∙◌, refl, sym, ap, Bool, true, false, ◌&&◌, ◌⊎◌, inl, inr, List, [], ◌∷◌, Option,
  none, some, ok, >>=-eq-ok, or_throw-eq-ok, ok-injective, throw_if-passed, or_throw, throw_if,
  not_found, bad_request, arith, All, ◌==◌, ==_iff, if◌then◌else◌, Bool-cases, Option-cases,
  find_row, update_rows, update_rows-none, ℤ, pos, ltb_ℤ,
}
use v_backend.Base.Keys.{HasUniqueKeys}
use v_backend.Calendar.{LocalDate}
use v_backend.Db.{Db}
use v_backend.Db.Rows.{Billing, BillingStatus, PaymentStatus}
use v_backend.Db.Tenant.{TenantContext, tenant_filter}
use v_backend.Billings.Status.{derive_billing_status}
use v_backend.Billings.Records
use v_backend.Billings.Records.{
  UpdateBillingData, CreateBillingData, or_else, apply_overdue, stored_by_id, find_by_id, in_tenant,
  write, write_columns, write_state, new_billing, verify_order_access,
  find_unbilled_per_sale_orders,
}
use v_backend.Billings.Service
use v_backend.Billings.Service.{
  CreateBillingDto, UpdateBillingDto, resulting_state, canceled_state, keep_going, sync_data,
  sync_orders, sync_billings,
}

-- A charge is canceled, or its state is the one that its amounts give.
abbrev pub IsConsistent : Billing → Type 0
IsConsistent b =
    ((b.status ≡ BillingStatus.canceled) × (b.payment_status ≡ PaymentStatus.canceled))
    ⊎ ((b.status ≡ (derive_billing_status b.paid_amount b.total_amount).status)
        × (b.payment_status ≡ (derive_billing_status b.paid_amount b.total_amount).payment_status))

abbrev pub HasUniqueIds : List Billing → Type 0
HasUniqueIds = HasUniqueKeys λ (b : Billing). b.id

-- The table of charges: consistent rows, with ids that are distinct and below the sequence.
pub record IsSound (db : Db) : Type 0 where
  pub consistent : All IsConsistent db.billings
  pub unique : HasUniqueIds db.billings
  pub bounded : All (λ (b : Billing). b.id < db.next_billing) db.billings

pub write-id : (u : UpdateBillingData) (b : Billing) → (write u b).id ≡ b.id
unfolding write write_columns write_state
write-id u b = ground arith

pub find_row-absent :
    (id : ℕ) (c : Billing → Bool) (xs : List Billing)
    → All (λ (x : Billing). (x.id == id) ≡ false) xs
    → find_row (λ (x : Billing). x.id == id && c x) xs ≡ none
unfolding find_row
find_row-absent id c [] h = refl
find_row-absent id c (x ∷ xs) h = ground (arith, find_row-absent id c xs h.1)

only_hit :
    {x b : Billing} {rest : Option Billing} (t : Bool)
    → (if t then some x else rest) ≡ some b
    → rest ≡ none
    → x ≡ b
only_hit true e h = cc
only_hit false e h = cc

-- An update by id touches the one row that the lookup has found.
pub All-update_found :
    (P : Billing → Type 0) (f : Billing → Billing) (id : ℕ) (c : Billing → Bool) (xs : List Billing)
    {b : Billing}
    → HasUniqueIds xs
    → find_row (λ (x : Billing). x.id == id && c x) xs ≡ some b
    → P (f b)
    → All P xs
    → All P (update_rows (λ (x : Billing). x.id == id) f xs)
unfolding find_row update_rows
All-update_found P f id c [] u found new all = tt
All-update_found P f id c (x ∷ xs) {b} u found new all = elim (Bool-cases (x.id == id)) [
  | inl here ↦
      let others : All (λ (z : Billing). (z.id == id) ≡ false) xs =
        rw ((==_iff x.id id).0 here) at u.0 in
      let alone = update_rows-none (λ (z : Billing). z.id == id) f xs others in
      let hit : x ≡ b =
        only_hit (c x)
          (ap (λ t. if t && c x then some x else find_row (λ (z : Billing). z.id == id && c z) xs)
              (sym here)
            ∙ found)
          (find_row-absent id c xs others) in
      rw (here, alone, hit) (new, all.1)
  | inr other ↦
      let later : find_row (λ (z : Billing). z.id == id && c z) xs ≡ some b = rw other at found in
      rw other (all.0, All-update_found P f id c xs u.1 later new all.1)
]

pub derive_never_canceled :
    (paid total : ℤ) → (derive_billing_status paid total).status ≡ BillingStatus.canceled → ⊥
unfolding derive_billing_status
derive_never_canceled paid total e = ground arith

-- The row that `update` writes is consistent.
pub write-IsConsistent :
    (now : LocalDate) (u : UpdateBillingData) (b : Billing)
    → u.state
      ≡ resulting_state
          (apply_overdue now b).status
          (or_else u.paid_amount (apply_overdue now b).paid_amount)
          (or_else u.total_amount (apply_overdue now b).total_amount)
    → IsConsistent b
    → IsConsistent (write u b)
unfolding write write_columns write_state resulting_state apply_overdue derive_billing_status
write-IsConsistent now u b state old = ground arith

-- The steps that an accepted `update` of the repository has passed.
pub record IsUpdated (ctx : TenantContext) (now : LocalDate) (id : ℕ) (u : UpdateBillingData)
    (db : Db) (r : Db × Billing) : Type 0 where
  pub filter : Option ℕ
  pub filter_eq : tenant_filter ctx ≡ ok filter
  pub stored : Billing
  pub found : stored_by_id filter id db ≡ some stored
  pub db_eq :
      r.0 ≡ record db { billings = update_rows (λ (b : Billing). b.id == id) (write u) db.billings }
  pub written : Billing
  pub written_eq : find_row (λ (b : Billing). b.id == id) (r.0).billings ≡ some written
  pub shown_eq : r.1 ≡ apply_overdue now written

pub find_by_id-ok :
    (ctx : TenantContext) (now : LocalDate) (id : ℕ) (db : Db) {found : Option Billing}
    {b : Billing}
    → find_by_id ctx now id db ≡ ok found
    → found ≡ some b
    → (filter : Option ℕ) × (stored : Billing) × (tenant_filter ctx ≡ ok filter)
      × (stored_by_id filter id db ≡ some stored)
      × (b ≡ apply_overdue now stored)
unfolding find_by_id
find_by_id-ok ctx now id db {found} {b} e hit =
    let filter = >>=-eq-ok (tenant_filter ctx) _ e in
    let same : Option.map (apply_overdue now) (stored_by_id filter.0 id db) ≡ some b =
      ok-injective filter.2 ∙ hit in
    elim (Option-cases (stored_by_id filter.0 id db)) [
      | inl missing ↦ cc (ap (Option.map (apply_overdue now)) missing, same)
      | inr (stored, there) ↦
          (filter.0, stored, filter.1, there, cc (ap (Option.map (apply_overdue now)) there, same))
    ]

pub update-IsUpdated :
    (ctx : TenantContext) (now : LocalDate) (id : ℕ) (u : UpdateBillingData) (db : Db)
    {r : Db × Billing}
    → Records.update ctx now id u db ≡ ok r
    → IsUpdated ctx now id u db r
unfolding Records.update
update-IsUpdated ctx now id u db {r} e =
    let found = >>=-eq-ok (find_by_id ctx now id db) _ e in
    let existing = >>=-eq-ok (or_throw found.0 not_found) _ found.2 in
    let row =
      >>=-eq-ok
        (or_throw
          (find_row (λ (b : Billing). b.id == id)
            (update_rows (λ (b : Billing). b.id == id) (write u) db.billings))
          not_found)
        _ existing.2 in
    let same = sym (ok-injective row.2) in
    let (filter, stored, filter_eq, there, _) =
      find_by_id-ok ctx now id db found.1 (or_throw-eq-ok _ _ existing.1) in
    record {
      filter = filter;
      filter_eq = filter_eq;
      stored = stored;
      found = there;
      db_eq = ap (λ x. x.0) same;
      written = row.0;
      written_eq =
          ap (λ x. find_row (λ (b : Billing). b.id == id) (x.0).billings) same
          ∙ or_throw-eq-ok _ _ row.1;
      shown_eq = ap (λ x. x.1) same;
    }

-- `update` of the service: what it has read and checked before it writes.
pub record IsEdited (ctx : TenantContext) (now : LocalDate) (id : ℕ) (dto : UpdateBillingDto)
    (db : Db) (r : Db × Billing) : Type 0 where
  pub body : UpdateBillingData
  pub stored : Billing
  pub filter : Option ℕ
  pub filter_eq : tenant_filter ctx ≡ ok filter
  pub found : stored_by_id filter id db ≡ some stored
  pub total_eq : body.total_amount ≡ Option.map pos dto.total_amount
  pub paid_eq : body.paid_amount ≡ Option.map pos dto.paid_amount
  pub state_eq :
      body.state
      ≡ resulting_state
          (apply_overdue now stored).status
          (or_else body.paid_amount (apply_overdue now stored).paid_amount)
          (or_else body.total_amount (apply_overdue now stored).total_amount)
  pub checked :
      ltb_ℤ
        (or_else (Option.map pos dto.total_amount) (apply_overdue now stored).total_amount)
        (or_else (Option.map pos dto.paid_amount) (apply_overdue now stored).paid_amount)
      ≡ false
  pub done : Records.update ctx now id body db ≡ ok r

pub update-IsEdited :
    (ctx : TenantContext) (now : LocalDate) (id : ℕ) (dto : UpdateBillingDto) (db : Db)
    {r : Db × Billing}
    → Service.update ctx now id dto db ≡ ok r
    → IsEdited ctx now id dto db r
unfolding Service.update
update-IsEdited ctx now id dto db {r} e =
    let found = >>=-eq-ok (find_by_id ctx now id db) _ e in
    let existing = >>=-eq-ok (or_throw found.0 not_found) _ found.2 in
    let billing = existing.0 in
    let checked =
      >>=-eq-ok
        (throw_if
          (ltb_ℤ (or_else (Option.map pos dto.total_amount) billing.total_amount)
            (or_else (Option.map pos dto.paid_amount) billing.paid_amount))
          bad_request)
        _ existing.2 in
    let (filter, stored, filter_eq, there, shown) =
      find_by_id-ok ctx now id db found.1 (or_throw-eq-ok _ _ existing.1) in
    record {
      body = _;
      stored = stored;
      filter = filter;
      filter_eq = filter_eq;
      found = there;
      total_eq = refl;
      paid_eq = refl;
      state_eq =
          ap
            (λ x.
              resulting_state x.status (or_else (Option.map pos dto.paid_amount) x.paid_amount)
                (or_else (Option.map pos dto.total_amount) x.total_amount))
            shown;
      checked =
          ap
            (λ x.
              ltb_ℤ (or_else (Option.map pos dto.total_amount) x.total_amount)
                (or_else (Option.map pos dto.paid_amount) x.paid_amount))
            (sym shown)
          ∙ throw_if-passed _ _ checked.1;
      done = checked.2;
    }
