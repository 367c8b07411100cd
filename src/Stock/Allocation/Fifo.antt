-- ===== src/Stock/Allocation/Fifo.antt =====
-- Oldest first: what each backorder gets from an arrival, and what becomes of the books.
use v_backend.Base.{
  ℕ, ◌+◌, ◌-◌, ◌≡◌, refl, ◌∙◌, sym, ap, true, false, List, [], ◌∷◌, ◌++◌, some, arith, All, ◌==◌,
  ==-refl, if◌then◌else◌, Bool-cases, inl, inr, sum_by, where_rows,
}
use v_backend.Base.Keys.{insert_by, sort_by, All-insert_by}
use v_backend.Db.Rows.{Backorder, Product, Order}
use v_backend.Db.Stock.{remaining_of}
use v_backend.Stock.Movements.{is_waiting, is_older, pending_of, cover, take_of, allocate_rows}
use v_backend.Stock.Allocation.{
  HasUniqueIds, IsPresent, row, round, round-HasUniqueIds, round-row_other, round-IsPresent,
  row-cover_row, take_of-remaining, pending_of-facts,
}

-- A row that is offered m units: it takes as many as it still owes, and is fulfilled if that is all.
unfoldable pub granted : ℕ → Backorder → ℕ → Backorder
granted now bo m =
    if take_of bo m == 0 then bo else cover now (bo.fulfilled_quantity + take_of bo m) bo

take_of-zero : (bo : Backorder) → take_of bo 0 ≡ 0
unfolding take_of
take_of-zero bo = omega arith

granted-zero : (now : ℕ) (bo : Backorder) → granted now bo 0 ≡ bo
unfolding granted
granted-zero now bo = rw (take_of-zero bo) refl

row-round_own :
    (now n : ℕ) (bo : Backorder) (table : List Backorder)
    → row bo.id table ≡ some bo
    → row bo.id (round now n bo table) ≡ some (granted now bo n)
unfolding granted
row-round_own now n bo table found = elim (Bool-cases (take_of bo n == 0)) [
  | inl nothing ↦ rw nothing found
  | inr units ↦ rw units (row-cover_row now bo.id bo.id _ table ∙ rw (==-refl bo.id, found) refl)
]

-- Rows that the loop does not go over stay as they are.
row-allocate_rows :
    (now : ℕ) (product : Product) (orders : List Order) (k n : ℕ) (pending table : List Backorder)
    → All (λ (b : Backorder). (k == b.id) ≡ false) pending
    → row k (allocate_rows now product orders n pending table).0 ≡ row k table
unfolding allocate_rows
row-allocate_rows now product orders k n [] table h = refl
row-allocate_rows now product orders k n (bo ∷ pending) table h = elim (Bool-cases (n == 0)) [
  | inl done ↦ rw done refl
  | inr more ↦ rw more (
      row-allocate_rows now product orders k (n - take_of bo n) pending (round now n bo table) h.1
      ∙ round-row_other now n bo table k h.0)
]

flip_ne :
    (k : ℕ) (bs : List Backorder)
    → All (λ (b : Backorder). (b.id == k) ≡ false) bs
    → All (λ (b : Backorder). (k == b.id) ≡ false) bs
flip_ne k [] h = tt
flip_ne k (b ∷ bs) h = (ground arith, flip_ne k bs h.1)

All-split :
    (P : Backorder → Type 0) (xs : List Backorder) (bo : Backorder) (ys : List Backorder)
    → All P (xs ++ bo ∷ ys)
    → P bo
All-split P [] bo ys h = h.0
All-split P (x ∷ xs) bo ys h = All-split P xs bo ys h.1

row-allocate_split :
    (now : ℕ) (product : Product) (orders : List Order) (p n : ℕ) (xs : List Backorder)
    (bo : Backorder) (ys table : List Backorder)
    → HasUniqueIds table
    → HasUniqueIds (xs ++ bo ∷ ys)
    → IsPresent table (xs ++ bo ∷ ys)
    → All (λ (b : Backorder). is_waiting p b ≡ true) (xs ++ bo ∷ ys)
    → row bo.id (allocate_rows now product orders n (xs ++ bo ∷ ys) table).0
      ≡ some (granted now bo (n - sum_by (remaining_of p) xs))
unfolding allocate_rows sum_by
row-allocate_split now product orders p n [] bo ys table u v present w =
    elim (Bool-cases (n == 0)) [
      | inl done ↦
          let none_left : n - 0 ≡ 0 = ground arith in
          rw (done, none_left) (present.0 ∙ ap some (sym (granted-zero now bo)))
      | inr more ↦
          let all_left : n - 0 ≡ n = omega arith in
          rw (more, all_left)
            (row-allocate_rows now product orders bo.id (n - take_of bo n) ys (round now n bo table)
                (flip_ne bo.id ys v.0)
              ∙ row-round_own now n bo table present.0)
    ]
row-allocate_split now product orders p n (x ∷ xs) bo ys table u v present w =
    elim (Bool-cases (n == 0)) [
      | inl done ↦
          let none_left : n - (remaining_of p x + sum_by (remaining_of p) xs) ≡ 0 = ground arith in
          rw (done, none_left)
            (All-split (λ (b : Backorder). row b.id table ≡ some b) xs bo ys present.1
              ∙ ap some (sym (granted-zero now bo)))
      | inr more ↦
          let left : n - take_of x n - sum_by (remaining_of p) xs
              ≡ n - (remaining_of p x + sum_by (remaining_of p) xs) =
            omega (arith, take_of-remaining p n x w.0) in
          rw more (
            row-allocate_split now product orders p (n - take_of x n) xs bo ys (round now n x table)
              (round-HasUniqueIds now n x table u) v.1
              (round-IsPresent now n x table (xs ++ bo ∷ ys) v.0 present.1) w.1
            ∙ ap (λ m. some (granted now bo m)) left)
    ]

-- The pending rows stand in the order of their creation.
abbrev IsSorted : List Backorder → Type 0
IsSorted [] = Unit
IsSorted (x ∷ xs) = All (λ (y : Backorder). is_older x y ≡ true) xs × IsSorted xs

is_older-total : (a b : Backorder) → is_older a b ≡ false → is_older b a ≡ true
is_older-total a b h = ground arith

is_older_trans :
    (a b c : Backorder) → is_older a b ≡ true → is_older b c ≡ true → is_older a c ≡ true
is_older_trans a b c h k = ground arith

All-older :
    (a b : Backorder) (xs : List Backorder)
    → is_older a b ≡ true
    → All (λ (y : Backorder). is_older b y ≡ true) xs
    → All (λ (y : Backorder). is_older a y ≡ true) xs
All-older a b [] h k = tt
All-older a b (x ∷ xs) h k = (is_older_trans a b x h k.0, All-older a b xs h k.1)

insert_by-IsSorted :
    (x : Backorder) (xs : List Backorder) → IsSorted xs → IsSorted (insert_by is_older x xs)
unfolding insert_by
insert_by-IsSorted x [] s = (tt, tt)
insert_by-IsSorted x (y ∷ ys) s = elim (Bool-cases (is_older x y)) [
  | inl first ↦ rw first ((first, All-older x y ys first s.0), s)
  | inr later ↦ rw later (
    All-insert_by is_older (λ (z : Backorder). is_older y z ≡ true) x ys (is_older-total x y later)
        s.0,
    insert_by-IsSorted x ys s.1,
  )
]

sort_by-IsSorted : (xs : List Backorder) → IsSorted (sort_by is_older xs)
unfolding sort_by
sort_by-IsSorted [] = tt
sort_by-IsSorted (x ∷ xs) = insert_by-IsSorted x (sort_by is_older xs) (sort_by-IsSorted xs)

IsSorted-split :
    (xs : List Backorder) (bo : Backorder) (ys : List Backorder)
    → IsSorted (xs ++ bo ∷ ys)
    → All (λ (x : Backorder). is_older x bo ≡ true) xs
IsSorted-split [] bo ys s = tt
IsSorted-split (x ∷ xs) bo ys s =
    (All-split (λ (y : Backorder). is_older x y ≡ true) xs bo ys s.0, IsSorted-split xs bo ys s.1)

-- Where backorders have distinct ids, each pending one gets what the ones before it leave of the
-- units that arrive, as far as it still owes, and all the ones before it are older.
pub allocate_oldest_first :
    (now : ℕ) (product : Product) (orders : List Order) (n : ℕ) (xs : List Backorder)
    (bo : Backorder) (ys table : List Backorder)
    → HasUniqueIds table
    → pending_of product.id table ≡ xs ++ bo ∷ ys
    → All (λ (x : Backorder). is_older x bo ≡ true) xs
      × (row bo.id (allocate_rows now product orders n (pending_of product.id table) table).0
          ≡ some (granted now bo (n - sum_by (remaining_of product.id) xs)))
unfolding pending_of
allocate_oldest_first now product orders n xs bo ys table u split =
    let (unique, present, waiting, _) = pending_of-facts product.id table u in
    (
      IsSorted-split xs bo ys
          (rw split at (sort_by-IsSorted (where_rows (is_waiting product.id) table))),
      rw split (
          row-allocate_split now product orders product.id n xs bo ys table u (rw split at unique)
            (rw split at present) (rw split at waiting)),
    )
