-- ===== src/Base/Keys.antt =====
-- Tables with a primary key, and sorted copies of their rows.
use Prim.Native.Nat.{ℕ, ◌+◌}
use mathlib.Core.Path.{◌≡◌, refl, ◌∙◌}
use mathlib.Core.Bool.{Bool, true, false}
use mathlib.Core.Logic.{inl, inr}
use mathlib.Core.List.{List, [], ◌∷◌}
use mathlib.Core.Option.{some}
use native.Mathlib.Omega.{arith}
use v_backend.Base.Tests.{◌==◌, ==_iff, ==-refl, if◌then◌else◌, Bool-cases}
use v_backend.Base.Lists.{find_row, where_rows, update_rows, sum_by, All, update_rows-none}

pub All-map {ℓ κ μ ν} :
    {A : Type ℓ} (P : A → Type κ) (Q : A → Type μ) (R : A → Type ν)
    → ((a : A) → P a → Q a → R a)
    → (xs : List A) → All P xs
    → All Q xs
    → All R xs
All-map P Q R f [] hp hq = tt
All-map P Q R f (x ∷ xs) hp hq = (f x hp.0 hq.0, All-map P Q R f xs hp.1 hq.1)

pub All-where_rows {ℓ κ} :
    {A : Type ℓ} (P : A → Type κ) (c : A → Bool) (xs : List A) → All P xs → All P (where_rows c xs)
unfolding where_rows
All-where_rows P c [] h = tt
All-where_rows P c (x ∷ xs) h = elim (Bool-cases (c x)) [
  | inl hit ↦ rw hit (h.0, All-where_rows P c xs h.1)
  | inr miss ↦ rw miss (All-where_rows P c xs h.1)
]

pub where_rows-meets {ℓ} :
    {A : Type ℓ} (c : A → Bool) (xs : List A) → All (λ x. c x ≡ true) (where_rows c xs)
unfolding where_rows
where_rows-meets c [] = tt
where_rows-meets c (x ∷ xs) = elim (Bool-cases (c x)) [
  | inl hit ↦ rw hit (hit, where_rows-meets c xs)
  | inr miss ↦ rw miss (where_rows-meets c xs)
]

-- `orderBy`: insertion by a test of which row comes first.
module _ {ℓ} {A : Type ℓ} (before : A → A → Bool) where
  unfoldable pub insert_by : A → List A → List A
  insert_by x [] = x ∷ []
  insert_by x (y ∷ ys) = let rest = insert_by x ys in if before x y then x ∷ y ∷ ys else y ∷ rest

  unfoldable pub sort_by : List A → List A
  sort_by [] = []
  sort_by (x ∷ xs) = insert_by x (sort_by xs)

  pub All-insert_by {κ} :
      (P : A → Type κ) (x : A) (xs : List A) → P x → All P xs → All P (insert_by x xs)
  unfolding insert_by
  All-insert_by P x [] hx h = (hx, tt)
  All-insert_by P x (y ∷ ys) hx h = elim (Bool-cases (before x y)) [
    | inl first ↦ rw first (hx, h)
    | inr later ↦ rw later (h.0, All-insert_by P x ys hx h.1)
  ]

  pub All-sort_by {κ} : (P : A → Type κ) (xs : List A) → All P xs → All P (sort_by xs)
  unfolding sort_by
  All-sort_by P [] h = tt
  All-sort_by P (x ∷ xs) h = All-insert_by P x (sort_by xs) h.0 (All-sort_by P xs h.1)

  sum_by-insert_by :
      (g : A → ℕ) (x : A) (xs : List A) → sum_by g (insert_by x xs) ≡ g x + sum_by g xs
  unfolding insert_by sum_by
  sum_by-insert_by g x [] = refl
  sum_by-insert_by g x (y ∷ ys) = ground (arith, sum_by-insert_by g x ys)

  pub sum_by-sort_by : (g : A → ℕ) (xs : List A) → sum_by g (sort_by xs) ≡ sum_by g xs
  unfolding sort_by sum_by
  sum_by-sort_by g [] = refl
  sum_by-sort_by g (x ∷ xs) = sum_by-insert_by g x (sort_by xs) ∙ rw (sum_by-sort_by g xs) refl

module _ {ℓ} {A : Type ℓ} (key : A → ℕ) where
  -- No two rows have one key.
  abbrev pub HasUniqueKeys : List A → Type 0
  HasUniqueKeys [] = Unit
  HasUniqueKeys (x ∷ xs) = All (λ y. (key y == key x) ≡ false) xs × HasUniqueKeys xs

  pub HasUniqueKeys-where_rows :
      (c : A → Bool) (xs : List A) → HasUniqueKeys xs → HasUniqueKeys (where_rows c xs)
  unfolding where_rows
  HasUniqueKeys-where_rows c [] u = tt
  HasUniqueKeys-where_rows c (x ∷ xs) u = elim (Bool-cases (c x)) [
    | inl hit ↦
        rw hit (
          All-where_rows (λ y. (key y == key x) ≡ false) c xs u.0,
          HasUniqueKeys-where_rows c xs u.1,
        )
    | inr miss ↦ rw miss (HasUniqueKeys-where_rows c xs u.1)
  ]

  ne_sym : (a b : ℕ) → (a == b) ≡ false → (b == a) ≡ false
  ne_sym a b h = ground arith

  pub HasUniqueKeys-insert_by :
      (before : A → A → Bool) (x : A) (xs : List A)
      → All (λ y. (key y == key x) ≡ false) xs
      → HasUniqueKeys xs
      → HasUniqueKeys (insert_by before x xs)
  unfolding insert_by
  HasUniqueKeys-insert_by before x [] new u = (tt, tt)
  HasUniqueKeys-insert_by before x (y ∷ ys) new u = elim (Bool-cases (before x y)) [
    | inl first ↦ rw first (new, u)
    | inr later ↦ rw later (
      All-insert_by before (λ z. (key z == key y) ≡ false) x ys (ne_sym (key y) (key x) new.0) u.0,
      HasUniqueKeys-insert_by before x ys new.1 u.1,
    )
  ]

  pub HasUniqueKeys-sort_by :
      (before : A → A → Bool) (xs : List A) → HasUniqueKeys xs → HasUniqueKeys (sort_by before xs)
  unfolding sort_by
  HasUniqueKeys-sort_by before [] u = tt
  HasUniqueKeys-sort_by before (x ∷ xs) u =
      HasUniqueKeys-insert_by before x (sort_by before xs)
        (All-sort_by before (λ z. (key z == key x) ≡ false) xs u.0)
        (HasUniqueKeys-sort_by before xs u.1)

  -- Every row is found by its key.
  pub find_row-own :
      (xs : List A) → HasUniqueKeys xs → All (λ x. find_row (λ y. key y == key x) xs ≡ some x) xs
  unfolding find_row
  find_row-own [] u = tt
  find_row-own (x ∷ xs) u = (
    rw (==-refl (key x)) refl,
    All-map (λ y. (key y == key x) ≡ false) (λ y. find_row (λ z. key z == key y) xs ≡ some y) _
        (λ y ne found. rw (ne_sym (key y) (key x) ne) found) xs u.0 (find_row-own xs u.1),
  )

  -- A sum changes by what the updated row changes.
  pub sum_by-update_rows :
      (g : A → ℕ) (f : A → A) (k : ℕ) (xs : List A) {x : A}
      → HasUniqueKeys xs
      → find_row (λ y. key y == k) xs ≡ some x
      → sum_by g (update_rows (λ y. key y == k) f xs) + g x ≡ sum_by g xs + g (f x)
  unfolding sum_by update_rows find_row
  sum_by-update_rows g f k [] u found = cc
  sum_by-update_rows g f k (y ∷ ys) {x} u found = elim (Bool-cases (key y == k)) [
    | inl same ↦
        let others : All (λ z. (key z == k) ≡ false) ys = rw ((==_iff (key y) k).0 same) at u.0 in
        ground (arith, update_rows-none (λ z. key z == k) f ys others)
    | inr other ↦ ground (arith, sum_by-update_rows g f k ys {x = x} u.1)
  ]

  All-keys-update_rows :
      (f : A → A) (k c : ℕ) (xs : List A)
      → ((x : A) → key (f x) ≡ key x)
      → All (λ y. (key y == c) ≡ false) xs
      → All (λ y. (key y == c) ≡ false) (update_rows (λ y. key y == k) f xs)
  unfolding update_rows
  All-keys-update_rows f k c [] h new = tt
  All-keys-update_rows f k c (x ∷ xs) h new =
      (ground (arith, h x), All-keys-update_rows f k c xs h new.1)

  pub HasUniqueKeys-update_rows :
      (f : A → A) (k : ℕ) (xs : List A)
      → ((x : A) → key (f x) ≡ key x)
      → HasUniqueKeys xs
      → HasUniqueKeys (update_rows (λ y. key y == k) f xs)
  unfolding update_rows
  HasUniqueKeys-update_rows f k [] h u = tt
  HasUniqueKeys-update_rows f k (x ∷ xs) h u = elim (Bool-cases (key x == k)) [
    | inl same ↦
        rw (same, h x)
          (All-keys-update_rows f k (key x) xs h u.0, HasUniqueKeys-update_rows f k xs h u.1)
    | inr other ↦
        rw other (All-keys-update_rows f k (key x) xs h u.0, HasUniqueKeys-update_rows f k xs h u.1)
  ]
