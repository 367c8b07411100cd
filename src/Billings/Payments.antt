-- ===== src/Billings/Payments.antt =====
-- What an update may do to a charge, and what a reader is shown.
use mathlib.Core.Option
use v_backend.Base.{
  ℕ, ◌<◌, ◌≡◌, ◌≢◌, ◌∙◌, ◌⊎◌, ◌↔◌, refl, sym, ap, Bool, false, ◌&&◌, inl, inr, List, [], ◌∷◌,
  Option, some, ok, arith, All, ◌==◌, ==_iff, ==-refl, Bool-cases, find_row, update_rows,
  find-update_rows, pos, ltb_ℤ, ◌≤ℤ◌,
}
use v_backend.Calendar.{LocalDate, midnight, to_ms, day_number}
use v_backend.Db.{Db}
use v_backend.Db.Rows.{Billing, BillingStatus}
use v_backend.Db.Tenant.{TenantContext}
use v_backend.Billings.Records.{
  UpdateBillingData, or_else, apply_overdue, stored_by_id, in_tenant, write, write_columns,
  write_state, may_be_overdue, is_before,
}
use v_backend.Billings.Service
use v_backend.Billings.Service.{
  UpdateBillingDto, resulting_state, keep_going, sync_data, sync_number, sync_orders,
}
use v_backend.Billings.Consistency.{
  HasUniqueIds, IsSound, IsEdited, find_row-absent, write-id, update-IsUpdated, update-IsEdited,
}

find_row_unique :
    (id : ℕ) (c : Billing → Bool) (xs : List Billing) {b : Billing}
    → HasUniqueIds xs
    → find_row (λ (x : Billing). x.id == id && c x) xs ≡ some b
    → find_row (λ (x : Billing). x.id == id) xs ≡ some b
unfolding find_row
find_row_unique id c [] u e = cc
find_row_unique id c (x ∷ xs) {b} u e = elim (Bool-cases (x.id == id)) [
  | inl here ↦ elim (Bool-cases (c x)) [
    | inl hit ↦ rw here (rw (here, hit) at e)
    | inr miss ↦
        let others : All (λ (z : Billing). (z.id == id) ≡ false) xs =
          rw ((==_iff x.id id).0 here) at u.0 in
        cc (rw (here, miss) at e, find_row-absent id c xs others)
  ]
  | inr other ↦ rw other (find_row_unique id c xs u.1 (rw other at e))
]

-- The row that an accepted update returns, before the overlay.
written_row :
    (ctx : TenantContext) (now : LocalDate) (id : ℕ) (u : UpdateBillingData) (db : Db)
    (stored : Billing) (filter : Option ℕ)
    → HasUniqueIds db.billings
    → stored_by_id filter id db ≡ some stored
    → find_row
        (λ (b : Billing). b.id == id)
        (update_rows (λ (b : Billing). b.id == id) (write u) db.billings)
      ≡ some (write u stored)
unfolding stored_by_id
written_row ctx now id u db stored filter unique found =
    find-update_rows (λ (b : Billing). b.id) id id (write u) db.billings (write-id u)
    ∙ rw (==-refl id, find_row_unique id (in_tenant filter db.orders) db.billings unique found) refl

write-amounts :
    (now : LocalDate) (u : UpdateBillingData) (b : Billing)
    → ltb_ℤ
        (or_else u.total_amount (apply_overdue now b).total_amount)
        (or_else u.paid_amount (apply_overdue now b).paid_amount)
      ≡ false
    → (apply_overdue now (write u b)).paid_amount ≤ℤ (apply_overdue now (write u b)).total_amount
unfolding write write_columns write_state apply_overdue
write-amounts now u b h = ground arith

write-canceled :
    (now : LocalDate) (u : UpdateBillingData) (b : Billing)
    → b.status ≡ BillingStatus.canceled
    → u.state
      ≡ resulting_state
          (apply_overdue now b).status
          (or_else u.paid_amount (apply_overdue now b).paid_amount)
          (or_else u.total_amount (apply_overdue now b).total_amount)
    → (apply_overdue now (write u b)).status ≡ BillingStatus.canceled
unfolding write write_columns write_state apply_overdue may_be_overdue resulting_state
write-canceled now u b c h = ground arith

-- What an accepted update shows is the row that it has found, rewritten.
update-shown :
    (ctx : TenantContext) (now : LocalDate) (id : ℕ) (dto : UpdateBillingDto) (db : Db)
    {r : Db × Billing}
    → IsSound db
    → (d : IsEdited ctx now id dto db r)
    → (r.1 ≡ apply_overdue now (write d.body d.stored))
      × (find_row (λ (b : Billing). b.id == id) db.billings ≡ some d.stored)
unfolding stored_by_id
update-shown ctx now id dto db {r} s d =
    let u = update-IsUpdated ctx now id d.body db d.done in
    let row = written_row ctx now id d.body db d.stored d.filter s.unique d.found in
    let same : some u.written ≡ some (write d.body d.stored) =
      sym u.written_eq
      ∙ ap (λ (x : Db). find_row (λ (b : Billing). b.id == id) x.billings) u.db_eq
      ∙ row in
    (
      u.shown_eq ∙ ap (apply_overdue now) (cc same),
      find_row_unique id (in_tenant d.filter db.orders) db.billings s.unique d.found,
    )

-- In a sound table, an update that is accepted leaves no more paid than the charge is for,
-- whichever of the two amounts it gave.
pub update-within_total :
    (ctx : TenantContext) (now : LocalDate) (id : ℕ) (dto : UpdateBillingDto) (db : Db)
    {r : Db × Billing}
    → IsSound db
    → Service.update ctx now id dto db ≡ ok r
    → (r.1).paid_amount ≤ℤ (r.1).total_amount
update-within_total ctx now id dto db {r} s e =
    let d = update-IsEdited ctx now id dto db e in
    let shown = (update-shown ctx now id dto db s d).0 in
    rw shown (
      write-amounts now d.body d.stored (
        ap
          (λ t.
            ltb_ℤ (or_else t (apply_overdue now d.stored).total_amount)
              (or_else d.body.paid_amount (apply_overdue now d.stored).paid_amount))
          d.total_eq
        ∙ ap
            (λ t.
              ltb_ℤ
                (or_else (Option.map pos dto.total_amount)
                  (apply_overdue now d.stored).total_amount)
                (or_else t (apply_overdue now d.stored).paid_amount))
            d.paid_eq
        ∙ d.checked))

-- In a sound table, a canceled charge stays canceled, whatever amounts an update gives it.
pub update-keeps_canceled :
    (ctx : TenantContext) (now : LocalDate) (id : ℕ) (dto : UpdateBillingDto) (db : Db)
    (old : Billing) {r : Db × Billing}
    → IsSound db
    → find_row (λ (b : Billing). b.id == id) db.billings ≡ some old
    → old.status ≡ BillingStatus.canceled
    → Service.update ctx now id dto db ≡ ok r
    → (r.1).status ≡ BillingStatus.canceled
update-keeps_canceled ctx now id dto db old {r} s at_id canceled e =
    let d = update-IsEdited ctx now id dto db e in
    let (shown, found) = update-shown ctx now id dto db s d in
    let own : d.stored ≡ old = cc (found, at_id) in
    rw shown (write-canceled now d.body d.stored (ap (λ x. x.status) own ∙ canceled) d.state_eq)

-- A reader is shown a charge as overdue from the day after its due date on: one that is due on day
-- `due` is shown as overdue on the day `now` exactly if it is stored as pending or partial and `due`
-- is an earlier day. Rows that are stored as overdue are left out, since no operation stores that.
pub overdue_next_day :
    (now due : LocalDate) (b : Billing)
    → b.due_date ≡ some (to_ms (midnight due))
    → b.status ≢ BillingStatus.overdue
    → ((apply_overdue now b).status ≡ BillingStatus.overdue) ↔ (
        ((b.status ≡ BillingStatus.pending) ⊎ (b.status ≡ BillingStatus.partial))
        × (day_number due < day_number now))
unfolding apply_overdue may_be_overdue is_before to_ms
overdue_next_day now due b at_midnight stored = ground (arith, at_midnight)
