-- ===== src/Stock/Movements.antt =====
-- `PrismaStockMovementRepository.create` and `StockMovementsService.create`. The movement, the stock
-- row and the allocation are written in one transaction.
pub mod Accepted
pub mod Outcomes
use v_backend.Base.{
  ℕ, zero, suc, ◌+◌, ◌-◌, min, Bool, true, false, ◌&&◌, List, [], ◌∷◌, ◌++◌, Option, none, some,
  map, Result, ok, err, ◌>>=◌, ◌>>◌, throw_if, or_throw, bad_request, ◌==◌, ltb, leb, if◌then◌else◌,
  find_row, where_rows, update_rows, ℤ, pos, pos_part, ◌+ℤ◌, ◌-ℤ◌, ltb_ℤ, String,
}
use v_backend.Base.Keys.{sort_by}
use v_backend.Db.{Db}
use v_backend.Db.Rows.{
  Product, StoreStock, Order, Backorder, BackorderStatus, StockMovement, MovementType, incoming,
  outgoing,
}
use v_backend.Db.Stock.{find_stock, update_stock, is_pending}
use v_backend.Db.Tenant.{TenantContext, tenant_filter, in_filter}
use v_backend.Orders.Change.{find_order}

-- Text for an order's number, or its id where the order is gone (`String(bo.order_id)`).
pub data OrderLabel : Type 0 where
  numbered : List ℕ → OrderLabel
  by_id : ℕ → OrderLabel

pub record FulfilledBackorderInfo : Type 0 where
  pub seller_id : ℕ
  pub order_id : ℕ
  pub order_number : OrderLabel
  pub product_id : ℕ
  pub product_name : String
  pub quantity : ℕ

unfoldable pub label_of : Option Order → ℕ → OrderLabel
label_of none id = by_id id
label_of (some o) id = numbered o.order_number

-- `orderBy: [{ createdAt: 'asc' }, { id: 'asc' }]`
abbrev pub is_older : Backorder → Backorder → Bool
is_older a b =
    if ltb a.created_at b.created_at then true else (a.created_at == b.created_at && leb a.id b.id)

unfoldable pub is_waiting : ℕ → Backorder → Bool
unfolding is_pending
is_waiting p b = b.product_id == p && is_pending b.status

-- `pending`
unfoldable pub pending_of : ℕ → List Backorder → List Backorder
pending_of p table = sort_by is_older (where_rows (is_waiting p) table)

-- The data of `backorder.update`.
unfoldable pub cover : ℕ → ℕ → Backorder → Backorder
cover now new_fulfilled bo =
    if leb bo.quantity new_fulfilled
    then record bo {
      fulfilled_quantity = new_fulfilled;
      status = BackorderStatus.fulfilled;
      fulfilled_at = some now;
    }
    else record bo { fulfilled_quantity = new_fulfilled }

unfoldable pub cover_row : ℕ → ℕ → ℕ → List Backorder → List Backorder
unfolding cover
cover_row now id new_fulfilled = update_rows (λ b. b.id == id) (cover now new_fulfilled)

-- What a row takes. A row that is filled beyond its quantity takes nothing, as in the source, where
-- its remainder is negative and the round is skipped.
unfoldable pub take_of : Backorder → ℕ → ℕ
take_of bo to_allocate = min (bo.quantity - bo.fulfilled_quantity) to_allocate

-- The entry for the notification, if the row is now fully covered.
unfoldable pub covered_info : Product → List Order → Backorder → ℕ → List FulfilledBackorderInfo
unfolding take_of label_of
covered_info product orders bo to_allocate =
    if take_of bo to_allocate == 0
    then []
    else (if leb bo.quantity (bo.fulfilled_quantity + take_of bo to_allocate)
        then record {
          seller_id = product.seller_id;
          order_id = bo.order_id;
          order_number = label_of (find_order bo.order_id orders) bo.order_id;
          product_id = product.id;
          product_name = product.name;
          quantity = bo.quantity;
        }
          ∷ []
        else [])

-- The loop over the pending rows: the table that it leaves, and the orders that it covered.
unfoldable pub allocate_rows :
    ℕ
    → Product
    → List Order
    → ℕ
    → List Backorder
    → List Backorder
    → List Backorder × List FulfilledBackorderInfo
allocate_rows now product orders to_allocate [] table = (table, [])
allocate_rows now product orders to_allocate (bo ∷ pending) table =
    let take = take_of bo to_allocate in
    let table' =
      if take == 0 then table else cover_row now bo.id (bo.fulfilled_quantity + take) table in
    let rest = allocate_rows now product orders (to_allocate - take) pending table' in
    if to_allocate == 0
    then (table, [])
    else (rest.0, covered_info product orders bo to_allocate ++ rest.1)

-- `allocateBackorders`; the drop in the deficit is positive or nothing is done.
unfoldable pub allocate_backorders :
    ℕ
    → Product
    → List Order
    → ℤ
    → ℤ
    → ℤ
    → List Backorder
    → List Backorder × List FulfilledBackorderInfo
allocate_backorders now product orders prev_qty next_qty reserved table =
    let owed_before = pos_part (reserved -ℤ prev_qty) in
    let owed_after = pos_part (reserved -ℤ next_qty) in
    let to_allocate = owed_before - owed_after in
    let allocated =
      allocate_rows now product orders to_allocate (pending_of product.id table) table in
    if to_allocate == 0 then (table, []) else allocated

-- `current?.quantity ?? 0` and the like.
unfoldable pub quantity_of : Option StoreStock → ℤ
quantity_of none = pos 0
quantity_of (some s) = s.quantity

unfoldable pub reserved_of : Option StoreStock → ℤ
reserved_of none = pos 0
reserved_of (some s) = s.reserved_quantity

-- `store_stock.upsert`; the bounds of a new row are 0, since there was none to take them from.
unfoldable pub upsert_stock : Product → ℤ → List StoreStock → List StoreStock
upsert_stock product next_qty stocks = elim (find_stock product.id stocks) [
  | none ↦
      stocks
      ++ record {
        seller_id = product.seller_id;
        product_id = product.id;
        quantity = next_qty;
        reserved_quantity = pos 0;
        min_stock = pos 0;
        max_stock = pos 0;
      }
        ∷ []
  | some s ↦ update_stock product.id (λ x. record x { quantity = next_qty }) stocks
]

unfoldable pub next_quantity : MovementType → ℤ → ℕ → ℤ
next_quantity incoming current quantity = current +ℤ pos quantity
next_quantity outgoing current quantity = current -ℤ pos quantity

-- Only an outgoing movement can be blocked.
unfoldable pub is_blocked : MovementType → ℤ → Bool
is_blocked incoming next_qty = false
is_blocked outgoing next_qty = ltb_ℤ next_qty (pos 0)

unfoldable pub allocate_if_incoming :
    MovementType
    → ℕ
    → Product
    → List Order
    → ℤ
    → ℤ
    → ℤ
    → List Backorder
    → List Backorder × List FulfilledBackorderInfo
unfolding allocate_backorders
allocate_if_incoming incoming now product orders prev next reserved table =
    allocate_backorders now product orders prev next reserved table
allocate_if_incoming outgoing now product orders prev next reserved table = (table, [])

unfoldable pub find_product_in : Option ℕ → ℕ → List Product → Option Product
find_product_in filter id = find_row λ p. p.id == id && in_filter filter p.seller_id

unfoldable pub create :
    TenantContext → ℕ → StockMovement → Db → Result (Db × List FulfilledBackorderInfo)
create ctx now d db = do
  filter ← tenant_filter ctx
  product ← or_throw (find_product_in filter d.product_id db.products) bad_request
  let current = find_stock d.product_id db.stocks
  let next_qty = next_quantity d.movement_type (quantity_of current) d.quantity
  throw_if (is_blocked d.movement_type next_qty) bad_request
  let allocated =
      allocate_if_incoming d.movement_type now product db.orders (quantity_of current) next_qty
        (reserved_of current) db.backorders
  ok (
    record db {
      stocks = upsert_stock product next_qty db.stocks;
      movements = db.movements ++ d ∷ [];
      backorders = allocated.0;
    },
    allocated.1,
  )

-- `StockMovementsService.create` queues one notification for each entry that the repository returns.
unfoldable pub notified_sellers : List FulfilledBackorderInfo → List ℕ
notified_sellers = map λ f. f.seller_id
