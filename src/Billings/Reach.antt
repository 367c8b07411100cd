-- ===== src/Billings/Reach.antt =====
-- The sequences of calls of `BillingsService` and `OrdersService`, and the table of charges that they
-- reach.

use v_backend.Base.{
  ℕ, ◌<◌, ◌≡◌, ◌∙◌, refl, sym, ap, List, [], ◌∷◌, Option, some, Result, ok, err, >>=-eq-ok,
  ok-injective, or_throw, throw_if, not_found, bad_request, arith, ltb,
}
use v_backend.Base.Keys.{HasUniqueKeys-where_rows, All-where_rows}
use v_backend.Calendar.{LocalDate}
use v_backend.Db.{Db}
use v_backend.Db.Rows.{Order, OrderItem, OrderStatus, Billing}
use v_backend.Orders.Data.{OrderItemInput, CreateOrderDto, OversoldNotice}
use v_backend.Db.Tenant.{TenantContext, tenant_filter, get_seller_id, is_admin}
use v_backend.Billings.Records
use v_backend.Billings.Records.{
  UpdateBillingData, CreateBillingData, or_else, apply_overdue, stored_by_id, find_by_id, in_tenant,
  write, write_columns, write_state, new_billing, verify_order_access,
  find_unbilled_per_sale_orders,
}
use v_backend.Billings.Service
use v_backend.Billings.Service.{
  CreateBillingDto, UpdateBillingDto, canceled_state, resulting_state, keep_going, sync_data,
  sync_orders, sync_billings,
}
use v_backend.Billings.Consistency.{
  IsConsistent, IsSound, write-IsConsistent, update-IsUpdated, update-IsEdited,
}
use v_backend.Billings.FromOrders.{
  ordered-IsSound, item_added-IsSound, status_changed-IsSound, order_deleted-IsSound,
}
use v_backend.Billings.Writes.{records_update-IsSound, records_create-IsSound}

-- The calls that change the table.
pub data Step (decimal : ℕ → List ℕ) (local_date : ℕ → LocalDate) : Db → Db → Type 0 where
  created :
      (ctx : TenantContext) (now : LocalDate) (order_id : ℕ) (dto : CreateBillingDto) {db : Db}
      {r : Db × Billing}
      → Service.create ctx now order_id dto db ≡ ok r
      → Step decimal local_date db r.0
  updated :
      (ctx : TenantContext) (now : LocalDate) (id : ℕ) (dto : UpdateBillingDto) {db : Db}
      {r : Db × Billing}
      → Service.update ctx now id dto db ≡ ok r
      → Step decimal local_date db r.0
  canceled :
      (ctx : TenantContext) (now : LocalDate) (id : ℕ) {db : Db} {r : Db × Billing}
      → Service.cancel ctx now id db ≡ ok r
      → Step decimal local_date db r.0
  deleted :
      (ctx : TenantContext) (now : LocalDate) (id : ℕ) {db db' : Db}
      → Service.delete ctx now id db ≡ ok db'
      → Step decimal local_date db db'
  synced :
      (ctx : TenantContext) (now : LocalDate) {db : Db} {r : Db × List (List ℕ)}
      → sync_billings decimal local_date ctx now db ≡ ok r
      → Step decimal local_date db r.0
  order_created :
      (ctx : TenantContext) (now : LocalDate) (dto : CreateOrderDto) {db : Db}
      {r : Db × Order × List OversoldNotice}
      → v_backend.Orders.Service.create ctx now dto db ≡ ok r
      → Step decimal local_date db r.0
  item_added :
      (ctx : TenantContext) (now : LocalDate) (order_id : ℕ) (it : OrderItemInput) {db : Db}
      {r : Db × OrderItem}
      → v_backend.Orders.Service.add_item ctx now order_id it db ≡ ok r
      → Step decimal local_date db r.0
  status_changed :
      (ctx : TenantContext) (id : ℕ) (status : OrderStatus) {db db' : Db}
      → v_backend.Orders.Service.update_status ctx id status db ≡ ok db'
      → Step decimal local_date db db'
  order_deleted :
      (ctx : TenantContext) (id : ℕ) {db db' : Db}
      → v_backend.Orders.Service.delete ctx id db ≡ ok db'
      → Step decimal local_date db db'

pub data Reachable (decimal : ℕ → List ℕ) (local_date : ℕ → LocalDate) (start : Db)
    : Db → Type 0 where
  here : Reachable decimal local_date start start
  next :
      {db db' : Db}
      → Reachable decimal local_date start db
      → Step decimal local_date db db'
      → Reachable decimal local_date start db'

canceled-IsConsistent :
    (u : UpdateBillingData) (b : Billing) → u.state ≡ some canceled_state → IsConsistent (write u b)
unfolding write write_columns write_state
canceled-IsConsistent u b e = ground arith

create-IsSound :
    (ctx : TenantContext) (now : LocalDate) (order_id : ℕ) (dto : CreateBillingDto) (db : Db)
    {r : Db × Billing}
    → Service.create ctx now order_id dto db ≡ ok r
    → IsSound db
    → IsSound r.0
unfolding Service.create
create-IsSound ctx now order_id dto db e s =
    let order =
      >>=-eq-ok
        (or_throw (verify_order_access order_id (get_seller_id ctx) (is_admin ctx) db.orders)
          not_found)
        _ e in
    let checked =
      >>=-eq-ok (throw_if (ltb dto.total_amount dto.paid_amount) bad_request) _ order.2 in
    records_create-IsSound now _ db refl checked.2 s

same_row :
    (ctx : TenantContext) (id : ℕ) (db : Db) {f g : Option ℕ} {a b : Billing}
    → tenant_filter ctx ≡ ok f
    → tenant_filter ctx ≡ ok g
    → stored_by_id f id db ≡ some a
    → stored_by_id g id db ≡ some b
    → a ≡ b
same_row ctx id db ef eg found there =
    cc (ap (λ x. stored_by_id x id db) (ok-injective (sym ef ∙ eg)), found, there)

update-IsSound :
    (ctx : TenantContext) (now : LocalDate) (id : ℕ) (dto : UpdateBillingDto) (db : Db)
    {r : Db × Billing}
    → Service.update ctx now id dto db ≡ ok r
    → IsSound db
    → IsSound r.0
update-IsSound ctx now id dto db e s =
    let d = update-IsEdited ctx now id dto db e in
    let u = update-IsUpdated ctx now id d.body db d.done in
    records_update-IsSound ctx now id d.body db d.done
      (λ b filter allowed found old.
        write-IsConsistent now d.body b
          (d.state_eq
            ∙ ap
                (λ x.
                  resulting_state (apply_overdue now x).status
                    (or_else d.body.paid_amount (apply_overdue now x).paid_amount)
                    (or_else d.body.total_amount (apply_overdue now x).total_amount))
                (same_row ctx id db d.filter_eq allowed d.found found))
          old)
      s

cancel-IsSound :
    (ctx : TenantContext) (now : LocalDate) (id : ℕ) (db : Db) {r : Db × Billing}
    → Service.cancel ctx now id db ≡ ok r
    → IsSound db
    → IsSound r.0
unfolding Service.cancel
cancel-IsSound ctx now id db e s =
    let found = >>=-eq-ok (find_by_id ctx now id db) _ e in
    let existing = >>=-eq-ok (or_throw found.0 not_found) _ found.2 in
    records_update-IsSound ctx now id _ db existing.2
      (λ b filter allowed there old. canceled-IsConsistent _ b refl) s

records_delete-IsSound :
    (ctx : TenantContext) (now : LocalDate) (id : ℕ) (db : Db) {db' : Db}
    → Records.delete ctx now id db ≡ ok db'
    → IsSound db
    → IsSound db'
unfolding Records.delete
records_delete-IsSound ctx now id db e s =
    let found = >>=-eq-ok (find_by_id ctx now id db) _ e in
    let existing = >>=-eq-ok (or_throw found.0 not_found) _ found.2 in
    rw (sym (ok-injective existing.2)) (record {
      consistent = All-where_rows IsConsistent _ db.billings s.consistent;
      unique = HasUniqueKeys-where_rows (λ (b : Billing). b.id) _ db.billings s.unique;
      bounded = All-where_rows (λ (b : Billing). b.id < db.next_billing) _ db.billings s.bounded;
    })

delete-IsSound :
    (ctx : TenantContext) (now : LocalDate) (id : ℕ) (db : Db) {db' : Db}
    → Service.delete ctx now id db ≡ ok db'
    → IsSound db
    → IsSound db'
unfolding Service.delete
delete-IsSound ctx now id db e s =
    let found = >>=-eq-ok (find_by_id ctx now id db) _ e in
    let existing = >>=-eq-ok (or_throw found.0 not_found) _ found.2 in
    records_delete-IsSound ctx now id db existing.2 s

module _ (decimal : ℕ → List ℕ) (local_date : ℕ → LocalDate) where
  one-IsSound :
      (now : LocalDate) (o : Order) (db : Db) (r : Result (Db × Billing))
      → Records.create now (sync_data decimal local_date o) db ≡ r
      → IsSound db
      → IsSound (keep_going db r).0
  unfolding keep_going sync_data
  one-IsSound now o db (ok r) e s = records_create-IsSound now _ db refl e s
  one-IsSound now o db (err x) e s = s

  sync_orders-IsSound :
      (now : LocalDate) (os : List Order) (db : Db)
      → IsSound db
      → IsSound (sync_orders decimal local_date now os db).0
  unfolding sync_orders
  sync_orders-IsSound now [] db s = s
  sync_orders-IsSound now (o ∷ os) db s =
      sync_orders-IsSound now os _ (one-IsSound now o db _ refl s)

  sync-IsSound :
      (ctx : TenantContext) (now : LocalDate) (db : Db) {r : Db × List (List ℕ)}
      → sync_billings decimal local_date ctx now db ≡ ok r
      → IsSound db
      → IsSound r.0
  unfolding sync_billings
  sync-IsSound ctx now db e s =
      let orders = >>=-eq-ok (find_unbilled_per_sale_orders ctx db) _ e in
      rw (sym (ok-injective orders.2)) (sync_orders-IsSound now orders.0 db s)

  step-IsSound : {db db' : Db} → Step decimal local_date db db' → IsSound db → IsSound db'
  step-IsSound (created ctx now order_id dto e) s = create-IsSound ctx now order_id dto _ e s
  step-IsSound (updated ctx now id dto e) s = update-IsSound ctx now id dto _ e s
  step-IsSound (canceled ctx now id e) s = cancel-IsSound ctx now id _ e s
  step-IsSound (deleted ctx now id e) s = delete-IsSound ctx now id _ e s
  step-IsSound (synced ctx now e) s = sync-IsSound ctx now _ e s
  step-IsSound (order_created ctx now dto e) s = ordered-IsSound ctx now dto _ e s
  step-IsSound (item_added ctx now order_id it e) s = item_added-IsSound ctx now order_id it _ e s
  step-IsSound (status_changed ctx id status e) s = status_changed-IsSound ctx id status _ e s
  step-IsSound (order_deleted ctx id e) s = order_deleted-IsSound ctx id _ e s

-- From a sound table, no sequence of accepted calls of `BillingsService` (create, update, cancel,
-- delete, sync) and `OrdersService` (create, add an item, change the status, delete) reaches one in
-- which a stored state contradicts the amounts: every charge is canceled, or has the state that its
-- amounts give, and the ids of the charges stay distinct.
pub Reachable-IsSound :
    (decimal : ℕ → List ℕ) (local_date : ℕ → LocalDate) (start db : Db)
    → IsSound start
    → Reachable decimal local_date start db
    → IsSound db
Reachable-IsSound decimal local_date start db s here = s
Reachable-IsSound decimal local_date start db s (next r step) =
    step-IsSound decimal local_date step (Reachable-IsSound decimal local_date start _ s r)
