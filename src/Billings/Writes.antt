-- ===== src/Billings/Writes.antt =====
-- The writes of the billing repository on the table of charges.

use v_backend.Base.{
  ℕ, suc, ◌<◌, ◌≡◌, refl, ap, Bool, false, ◌&&◌, inl, inr, List, [], ◌∷◌, ◌++◌, Option, some, ok,
  arith, All, ◌==◌, Bool-cases, find_row, update_rows,
}
use v_backend.Base.Keys.{HasUniqueKeys-update_rows}
use v_backend.Calendar.{LocalDate}
use v_backend.Db.{Db}
use v_backend.Db.Rows.{Billing}
use v_backend.Db.Tenant.{TenantContext, tenant_filter}
use v_backend.Billings.Status.{derive_billing_status}
use v_backend.Billings.Records
use v_backend.Billings.Records.{
  UpdateBillingData, CreateBillingData, or_else, apply_overdue, stored_by_id, find_by_id, in_tenant,
  write, write_columns, write_state, new_billing, verify_order_access,
  find_unbilled_per_sale_orders,
}
use v_backend.Billings.Consistency.{
  IsConsistent, HasUniqueIds, IsSound, write-id, All-update_found, update-IsUpdated,
}

All-bounded_update :
    (u : UpdateBillingData) (id n : ℕ) (xs : List Billing)
    → All (λ (b : Billing). b.id < n) xs
    → All (λ (b : Billing). b.id < n) (update_rows (λ (b : Billing). b.id == id) (write u) xs)
unfolding update_rows
All-bounded_update u id n [] h = tt
All-bounded_update u id n (x ∷ xs) h =
    (ground (arith, write-id u x), All-bounded_update u id n xs h.1)

found_meets :
    (P : Billing → Type 0) (c : Billing → Bool) (xs : List Billing) {b : Billing}
    → find_row c xs ≡ some b
    → All P xs
    → P b
unfolding find_row
found_meets P c [] e h = cc
found_meets P c (x ∷ xs) {b} e h = elim (Bool-cases (c x)) [
  | inl hit ↦ let same : x ≡ b = cc (rw hit at e) in rw same at h.0
  | inr miss ↦ found_meets P c xs (rw miss at e) h.1
]

All-append_one :
    (P : Billing → Type 0) (xs : List Billing) (b : Billing) → All P xs → P b → All P (xs ++ b ∷ [])
All-append_one P [] b h p = (p, tt)
All-append_one P (x ∷ xs) b h p = (h.0, All-append_one P xs b h.1 p)

new_id : (id : ℕ) (d : CreateBillingData) → (new_billing id d).id ≡ id
unfolding new_billing
new_id id d = refl

new_billing-IsConsistent :
    (id : ℕ) (d : CreateBillingData)
    → d.state ≡ derive_billing_status d.paid_amount d.total_amount
    → IsConsistent (new_billing id d)
unfolding new_billing
new_billing-IsConsistent id d e = inr (ap (λ x. x.status) e, ap (λ x. x.payment_status) e)

created_db :
    (now : LocalDate) (d : CreateBillingData) (db : Db) {r : Db × Billing}
    → Records.create now d db ≡ ok r
    → r.0 ≡ record db {
      next_billing = suc db.next_billing;
      billings = db.billings ++ new_billing db.next_billing d ∷ [];
    }
unfolding Records.create
created_db now d db e = ground arith

-- The repository's update keeps the table sound where the row that it writes is consistent.
pub records_update-IsSound :
    (ctx : TenantContext) (now : LocalDate) (id : ℕ) (u : UpdateBillingData) (db : Db)
    {r : Db × Billing} (done : Records.update ctx now id u db ≡ ok r)
    → ((b : Billing) (filter : Option ℕ)
        → tenant_filter ctx ≡ ok filter
        → stored_by_id filter id db ≡ some b
        → IsConsistent b
        → IsConsistent (write u b))
    → IsSound db
    → IsSound r.0
unfolding stored_by_id
records_update-IsSound ctx now id u db {r} done new s =
    let d = update-IsUpdated ctx now id u db done in
    rw d.db_eq (record {
      consistent =
          All-update_found IsConsistent (write u) id (in_tenant d.filter db.orders) db.billings
            s.unique d.found
            (new d.stored d.filter d.filter_eq d.found (
              found_meets IsConsistent
                (λ (b : Billing). b.id == id && in_tenant d.filter db.orders b) db.billings d.found
                s.consistent))
            s.consistent;
      unique =
          HasUniqueKeys-update_rows (λ (b : Billing). b.id) (write u) id db.billings (write-id u)
            s.unique;
      bounded = All-bounded_update u id db.next_billing db.billings s.bounded;
    })

fresh_id :
    (n : ℕ) (xs : List Billing)
    → All (λ (b : Billing). b.id < n) xs
    → HasUniqueIds xs
    → (b : Billing) → b.id ≡ n
    → HasUniqueIds (xs ++ b ∷ [])
fresh_id n [] h u b e = (tt, tt)
fresh_id n (x ∷ xs) h u b e = (
  All-append_one (λ (y : Billing). (y.id == x.id) ≡ false) xs b u.0 (ground arith),
  fresh_id n xs h.1 u.1 b e,
)

suc_bound :
    (n : ℕ) (xs : List Billing)
    → All (λ (b : Billing). b.id < n) xs
    → All (λ (b : Billing). b.id < suc n) xs
suc_bound n [] h = tt
suc_bound n (x ∷ xs) h = (omega (arith, h.0), suc_bound n xs h.1)

-- A consistent row with the next id.
pub append-IsSound :
    (b : Billing) (db : Db)
    → b.id ≡ db.next_billing
    → IsConsistent b
    → IsSound db
    → IsSound (record db { next_billing = suc db.next_billing; billings = db.billings ++ b ∷ [] })
append-IsSound b db id consistent s = record {
  consistent = All-append_one IsConsistent db.billings b s.consistent consistent;
  unique = fresh_id db.next_billing db.billings s.bounded s.unique b id;
  bounded =
      All-append_one (λ (x : Billing). x.id < suc db.next_billing) db.billings b
        (suc_bound db.next_billing db.billings s.bounded) (omega (arith, id));
}

-- A row that is created with the state that its amounts give.
pub records_create-IsSound :
    (now : LocalDate) (d : CreateBillingData) (db : Db) {r : Db × Billing}
    → d.state ≡ derive_billing_status d.paid_amount d.total_amount
    → Records.create now d db ≡ ok r
    → IsSound db
    → IsSound r.0
records_create-IsSound now d db {r} state e s = rw (created_db now d db e) (
    append-IsSound (new_billing db.next_billing d) db (new_id db.next_billing d)
      (new_billing-IsConsistent db.next_billing d state) s)
