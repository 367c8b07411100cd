-- ===== src/Tests/Depot.antt =====
-- A product of which five units are sold and not on hand, owed to two orders.
use v_backend.Db.Stock.{deficit_of, outstanding}
use v_backend.Base.{find_row, sum_by, where_rows}
use v_backend.Db.Tenant.{in_filter, tenant_filter}
use v_backend.Stock.Movements.{cover, find_product_in, is_blocked, is_waiting, take_of}
use v_backend.Base.Keys.{insert_by, sort_by}
use v_backend.Base.{
  ℕ, ◌≡◌, ◌⊎◌, ◌-◌, refl, List, [], ◌∷◌, ◌++◌, Option, none, some, Result, ok, err, HttpError, All,
  true, ℤ, pos, negsuc, ◌≤ℤ◌,
}
use v_backend.Db.{Db}
use v_backend.Db.Rows.{StoreStock, Backorder, BackorderStatus, StockMovement, incoming, purchase}
use v_backend.Db.Stock.{find_stock, remaining_of}
use v_backend.Orders.Ledger.{IsBalanced}
use v_backend.Stock.Movements.{
  FulfilledBackorderInfo, create, pending_of, allocate_rows, is_older, next_quantity, quantity_of,
  reserved_of,
}
use v_backend.Stock.Movements.Outcomes.{incoming-IsBalanced, create-level, IsLevelAfter}
use v_backend.Stock.Allocation.{row}
use v_backend.Stock.Allocation.Fifo.{granted, allocate_oldest_first}
use v_backend.Tests.Sales.{result_of, bag, shop, ctx}

abbrev owed : ℕ → ℕ → ℕ → Backorder
owed id quantity created_at = record {
  id = id;
  seller_id = 9;
  order_id = id;
  order_item_id = id;
  product_id = 1;
  quantity = quantity;
  fulfilled_quantity = 0;
  status = BackorderStatus.pending;
  created_at = created_at;
  fulfilled_at = none;
}

-- The younger row stands first.
abbrev table : List Backorder
table = owed 1 2 30 ∷ owed 2 3 10 ∷ []

abbrev depot : Db
depot = record shop {
  stocks =
      record {
        seller_id = 9;
        product_id = 1;
        quantity = negsuc 4;
        reserved_quantity = pos 0;
        min_stock = pos 0;
        max_stock = pos 0;
      }
      ∷ [];
  backorders = table;
}

abbrev arrival : StockMovement
arrival = record {
  movement_type = incoming;
  reference_type = purchase;
  reference_id = 0;
  product_id = 1;
  quantity = 4;
}

abbrev arrived : Db × List FulfilledBackorderInfo
unfolding create
arrived = result_of (shop, []) (create ctx 40 arrival depot)

incoming-IsBalanced_example : IsBalanced 1 arrived.0
unfolding deficit_of outstanding find_stock find_row v_backend.Base.◌-ℤ◌ create tenant_filter
    find_product_in in_filter is_blocked
incoming-IsBalanced_example =
    incoming-IsBalanced ctx 40 arrival depot refl ((refl, tt), (tt, tt)) refl refl

create-level_example :
    (s : StoreStock) × (find_stock 1 (arrived.0).stocks ≡ some s)
    × IsLevelAfter incoming (quantity_of (find_stock 1 depot.stocks)) 4 s.quantity
    × (s.reserved_quantity ≡ pos 0)
    × ((arrived.0).movements ≡ arrival ∷ [])
unfolding create tenant_filter find_product_in find_row in_filter is_blocked next_quantity
    reserved_of v_backend.Base.◌+ℤ◌ find_stock quantity_of
create-level_example = create-level ctx 40 arrival depot refl

-- Four units: the older row is covered with three of them, the younger one gets the fourth.
allocate_oldest_first_example :
    All (λ (x : Backorder). is_older x (owed 1 2 30) ≡ true) (owed 2 3 10 ∷ [])
    × (row 1 (allocate_rows 40 bag [] 4 (pending_of 1 table) table).0
        ≡ some (record (owed 1 2 30) { fulfilled_quantity = 1 }))
unfolding pending_of sort_by where_rows is_waiting insert_by granted take_of sum_by remaining_of
    cover
allocate_oldest_first_example =
    allocate_oldest_first 40 bag [] 4 (owed 2 3 10 ∷ []) (owed 1 2 30) [] table
      ((refl, tt), (tt, tt)) refl
