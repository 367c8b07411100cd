-- ===== src/Orders/Tenancy.antt =====
-- The orders and the products of other sellers, seen through the orders module.
pub mod Counting
use v_backend.Base.{
  ℕ, ◌≡◌, ◌≢◌, refl, ◌∙◌, List, [], ◌∷◌, Option, none, some, Result, ok, err, >>=-eq-ok, arith, All,
  ◌==◌, not, throw_if, bad_request, not_found, true, false, length, any_row, includes, distinct,
  map, ◌&&◌, inl, inr, Option-cases,
}
use v_backend.Db.{Db}
use v_backend.Db.Rows.{Order, OrderStatus, Product}
use v_backend.Db.Tenant.{TenantContext, Role, may_access}
use v_backend.Orders.Data.{CreateOrderData, OrderLine, OversoldItem}
use v_backend.Orders.Create.{create, check_ownership, product_ids, owned_count}
use v_backend.Orders.Change.{
  find_order, require_order_in_tenant, BillingUpdate, update_status, delete,
}
use v_backend.Orders.Lines.{add_item}
use Counting.{owns, HasUniqueIds, check_ownership-owns}

abbrev pub seller : ℕ → TenantContext
seller id = some (record { seller_id = id; role = Role.seller })

-- To a seller an order that is missing and an order of another seller look alike: its status
-- cannot be changed, it cannot be deleted, and no line can be added to it.
pub foreign_order :
    (s id now : ℕ) (status : OrderStatus) (u : Option BillingUpdate) (it : OrderLine) (db : Db)
    → ((o : Order) → find_order id db.orders ≡ some o → o.seller_id ≢ s)
    → (update_status (seller s) id status u db ≡ err not_found)
      × (delete (seller s) id db ≡ err not_found)
      × (add_item (seller s) now id it db ≡ err bad_request)
unfolding update_status delete add_item require_order_in_tenant may_access
foreign_order s id now status u it db foreign = elim (Option-cases (find_order id db.orders)) [
  | inl missing ↦ (rw missing refl, rw missing refl, rw missing refl)
  | inr (o, found) ↦
      let other : (o.seller_id == s) ≡ false = ground (arith, foreign o found) in
      (rw (found, other) refl, rw (found, other) refl, rw (found, other) refl)
]

-- Where products have distinct ids, an order that is created names only products of its own
-- seller.
pub create-owned :
    (now : ℕ) (d : CreateOrderData) (db : Db) {r : Db × Order × List OversoldItem}
    → HasUniqueIds db.products
    → create now d db ≡ ok r
    → All (λ (it : OrderLine). owns d.seller_id db.products it.product_id ≡ true) d.items
unfolding create
create-owned now d db unique e =
    let owned = >>=-eq-ok (check_ownership d.seller_id d.items db.products) _ e in
    check_ownership-owns d.seller_id d.items db.products unique owned.1
