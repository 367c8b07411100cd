-- ===== src/Stock/Allocation.antt =====
-- What an arrival of stock does to the backorders of its product.
pub mod Fifo
use mathlib.Core.Option
use v_backend.Base.{
  ℕ, zero, suc, ◌+◌, ◌-◌, ◌≤◌, min, ◌≡◌, refl, ◌∙◌, sym, ap, Bool, true, false, ◌&&◌, List, [], ◌∷◌,
  ◌++◌, Option, none, some, arith, All, ◌==◌, ==_iff, leb, if◌then◌else◌, Bool-cases, inl, inr,
  find_row, where_rows, update_rows, find-update_rows, sum_by,
}
use v_backend.Base.Keys.{
  sort_by, HasUniqueKeys, sum_by-update_rows, HasUniqueKeys-update_rows, HasUniqueKeys-sort_by,
  HasUniqueKeys-where_rows, find_row-own, All-map, All-where_rows, All-sort_by, where_rows-meets,
  sum_by-sort_by,
}
use v_backend.Db.Rows.{Backorder, BackorderStatus, Product, Order}
use v_backend.Db.Stock.{outstanding, remaining_of, is_pending}
use v_backend.Stock.Movements.{
  is_waiting, pending_of, is_older, cover, cover_row, take_of, allocate_rows,
}

-- The primary key of the table.
abbrev pub HasUniqueIds : List Backorder → Type 0
HasUniqueIds = HasUniqueKeys λ (b : Backorder). b.id

-- The row with an id.
abbrev pub row : ℕ → List Backorder → Option Backorder
row k = find_row λ (b : Backorder). b.id == k

-- Every row of the list stands in the table as it is.
abbrev pub IsPresent : List Backorder → List Backorder → Type 0
IsPresent table = All λ (b : Backorder). row b.id table ≡ some b

cover-id : (now n : ℕ) (b : Backorder) → (cover now n b).id ≡ b.id
unfolding cover
cover-id now n b = ground arith

row-cover_row :
    (now k j n : ℕ) (table : List Backorder)
    → row j (cover_row now k n table)
      ≡ (if k == j then Option.map (cover now n) (row j table) else row j table)
unfolding cover_row
row-cover_row now k j n table =
    find-update_rows (λ (b : Backorder). b.id) k j (cover now n) table (cover-id now n)

-- What a row that waits for p still owes after it has taken its share.
remaining_of-cover :
    (now p n : ℕ) (bo : Backorder)
    → is_waiting p bo ≡ true
    → remaining_of p (cover now (bo.fulfilled_quantity + take_of bo n) bo) + take_of bo n
      ≡ remaining_of p bo
unfolding remaining_of cover take_of is_waiting
remaining_of-cover now p n bo w = ground arith

take_of-remaining :
    (p n : ℕ) (bo : Backorder) → is_waiting p bo ≡ true → take_of bo n ≡ min (remaining_of p bo) n
unfolding remaining_of take_of is_waiting
take_of-remaining p n bo w = ground arith

-- The table after one round of the loop.
abbrev pub round : ℕ → ℕ → Backorder → List Backorder → List Backorder
round now n bo table =
    if take_of bo n == 0
    then table
    else cover_row now bo.id (bo.fulfilled_quantity + take_of bo n) table

module _ (now : ℕ) (n : ℕ) (bo : Backorder) (table : List Backorder) where
  pub round-HasUniqueIds : HasUniqueIds table → HasUniqueIds (round now n bo table)
  unfolding cover_row
  round-HasUniqueIds u = elim (Bool-cases (take_of bo n == 0)) [
    | inl nothing ↦ rw nothing u
    | inr some_units ↦ rw some_units (
        HasUniqueKeys-update_rows (λ (b : Backorder). b.id) (cover now _) bo.id table
          (cover-id now _) u)
  ]

  pub round-row_other : (k : ℕ) → (k == bo.id) ≡ false → row k (round now n bo table) ≡ row k table
  round-row_other k other =
      ground (arith, row-cover_row now bo.id k (bo.fulfilled_quantity + take_of bo n) table)

  pub round-IsPresent :
      (rest : List Backorder)
      → All (λ (b : Backorder). (b.id == bo.id) ≡ false) rest
      → IsPresent table rest
      → IsPresent (round now n bo table) rest
  round-IsPresent rest others present =
      All-map (λ (b : Backorder). (b.id == bo.id) ≡ false)
        (λ (b : Backorder). row b.id table ≡ some b) _
        (λ b other found. round-row_other b.id other ∙ found) rest others present

  outstanding-round :
      (p : ℕ)
      → HasUniqueIds table
      → row bo.id table ≡ some bo
      → is_waiting p bo ≡ true
      → outstanding p (round now n bo table) + take_of bo n ≡ outstanding p table
  unfolding outstanding cover_row
  outstanding-round p u found w = elim (Bool-cases (take_of bo n == 0)) [
    | inl nothing ↦ ground arith
    | inr some_units ↦ rw some_units (
        omega (
          arith,
          sum_by-update_rows (λ (b : Backorder). b.id) (remaining_of p)
              (cover now (bo.fulfilled_quantity + take_of bo n)) bo.id table u found,
          remaining_of-cover now p n bo w,
        ))
  ]

-- The loop takes off what the pending rows owe, as far as the units go.
pub outstanding-allocate_rows :
    (now : ℕ) (product : Product) (orders : List Order) (p n : ℕ) (pending table : List Backorder)
    → HasUniqueIds table
    → HasUniqueIds pending
    → IsPresent table pending
    → All (λ (b : Backorder). is_waiting p b ≡ true) pending
    → outstanding p (allocate_rows now product orders n pending table).0
        + min n (sum_by (remaining_of p) pending)
      ≡ outstanding p table
unfolding allocate_rows sum_by
outstanding-allocate_rows now product orders p n [] table u v present w = omega arith
outstanding-allocate_rows now product orders p n (bo ∷ pending) table u v present w =
    let rest =
      outstanding-allocate_rows now product orders p (n - take_of bo n) pending
        (round now n bo table) (round-HasUniqueIds now n bo table u) v.1
        (round-IsPresent now n bo table pending v.0 present.1) w.1 in
    let here = outstanding-round now n bo table p u present.0 w.0 in
    let share = take_of-remaining p n bo w.0 in
    elim (Bool-cases (n == 0)) [
      | inl done ↦ rw done (ground arith)
      | inr more ↦ rw more (omega (arith, rest, here, share))
    ]

-- The rows that the loop goes over hold all that the product owes.
sum_by-waiting :
    (p : ℕ) (table : List Backorder)
    → sum_by (remaining_of p) (where_rows (is_waiting p) table) ≡ outstanding p table
unfolding sum_by where_rows outstanding remaining_of is_waiting
sum_by-waiting p [] = refl
sum_by-waiting p (b ∷ bs) = ground (arith, sum_by-waiting p bs)

pub pending_of-facts :
    (p : ℕ) (table : List Backorder)
    → HasUniqueIds table
    → HasUniqueIds (pending_of p table)
      × IsPresent table (pending_of p table)
      × All (λ (b : Backorder). is_waiting p b ≡ true) (pending_of p table)
      × (sum_by (remaining_of p) (pending_of p table) ≡ outstanding p table)
unfolding pending_of
pending_of-facts p table u = (
  HasUniqueKeys-sort_by (λ (b : Backorder). b.id) is_older _
      (HasUniqueKeys-where_rows (λ (b : Backorder). b.id) (is_waiting p) table u),
  All-sort_by is_older _ _
      (All-where_rows _ (is_waiting p) table (find_row-own (λ (b : Backorder). b.id) table u)),
  All-sort_by is_older _ _ (where_rows-meets (is_waiting p) table),
  sum_by-sort_by is_older (remaining_of p) _ ∙ sum_by-waiting p table,
)

-- Allocating n units to a product leaves it owing n units less, or nothing.
pub outstanding-allocated :
    (now : ℕ) (product : Product) (orders : List Order) (n : ℕ) (table : List Backorder)
    → HasUniqueIds table
    → outstanding product.id
        (allocate_rows now product orders n (pending_of product.id table) table).0
      ≡ outstanding product.id table - n
outstanding-allocated now product orders n table u =
    let (unique, present, waiting, total) = pending_of-facts product.id table u in
    let loop =
      outstanding-allocate_rows now product orders product.id n (pending_of product.id table) table
        u unique present waiting in
    omega (arith, loop, total)
