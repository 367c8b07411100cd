-- ===== src/Base/Lists.antt =====
-- Lists as tables: the queries that the repositories make, by a Boolean condition on a row.
use Prim.Native.Nat.{ℕ, suc, ◌+◌}
use mathlib.Core.Path.{◌≡◌, refl}
use mathlib.Core.Bool.{Bool, true, false, ◌||◌, ◌&&◌}
use mathlib.Core.List.{List, [], ◌∷◌, ◌++◌}
use mathlib.Core.Option
use mathlib.Core.Option.{Option, none, some}
use native.Mathlib.Omega.{arith}
use v_backend.Base.Tests.{◌==◌, if◌then◌else◌}

abbrev pub All {ℓ κ} : {A : Type ℓ} → (A → Type κ) → List A → Type κ
All P [] = Unit
All P (x ∷ xs) = P x × All P xs

module _ {ℓ} {A : Type ℓ} where
  abbrev pub length : List A → ℕ
  length [] = 0
  length (x ∷ xs) = suc (length xs)

  -- `findFirst`, and `findUnique` on a unique column: the first row that meets the condition.
  unfoldable pub find_row : (A → Bool) → List A → Option A
  find_row p [] = none
  find_row p (x ∷ xs) = if p x then some x else find_row p xs

  -- `findMany`
  unfoldable pub where_rows : (A → Bool) → List A → List A
  where_rows p [] = []
  where_rows p (x ∷ xs) = let rest = where_rows p xs in if p x then x ∷ rest else rest

  -- `update` and `updateMany`
  unfoldable pub update_rows : (A → Bool) → (A → A) → List A → List A
  update_rows p f [] = []
  update_rows p f (x ∷ xs) = (if p x then f x else x) ∷ update_rows p f xs

  unfoldable pub any_row : (A → Bool) → List A → Bool
  any_row p [] = false
  any_row p (x ∷ xs) = p x || any_row p xs

  -- A sum over the rows.
  unfoldable pub sum_by : (A → ℕ) → List A → ℕ
  sum_by f [] = 0
  sum_by f (x ∷ xs) = f x + sum_by f xs

  pub length-append : (xs ys : List A) → length (xs ++ ys) ≡ length xs + length ys
  length-append [] ys = omega arith
  length-append (x ∷ xs) ys = omega (arith, length-append xs ys)

  pub sum_by-append : (f : A → ℕ) (xs ys : List A) → sum_by f (xs ++ ys) ≡ sum_by f xs + sum_by f ys
  unfolding sum_by
  sum_by-append f [] ys = omega arith
  sum_by-append f (x ∷ xs) ys = omega (arith, sum_by-append f xs ys)

module _ {ℓ} {A : Type ℓ} (p : A → Bool) where
  pub update_rows-append :
      (f : A → A) (xs ys : List A)
      → update_rows p f (xs ++ ys) ≡ update_rows p f xs ++ update_rows p f ys
  unfolding update_rows
  update_rows-append f [] ys = refl
  update_rows-append f (x ∷ xs) ys = rw (update_rows-append f xs ys)

  pub where_rows-append :
      (xs ys : List A) → where_rows p (xs ++ ys) ≡ where_rows p xs ++ where_rows p ys
  unfolding where_rows
  where_rows-append [] ys = refl
  where_rows-append (x ∷ xs) ys = ground (arith, where_rows-append xs ys)

  -- A condition that no row meets.
  pub update_rows-none :
      (f : A → A) (xs : List A) → All (λ x. p x ≡ false) xs → update_rows p f xs ≡ xs
  unfolding update_rows
  update_rows-none f [] h = refl
  update_rows-none f (x ∷ xs) h = ground (arith, update_rows-none f xs h.1)

  pub where_rows-none : (xs : List A) → All (λ x. p x ≡ false) xs → where_rows p xs ≡ []
  unfolding where_rows
  where_rows-none [] h = refl
  where_rows-none (x ∷ xs) h = ground (arith, where_rows-none xs h.1)

  pub where_rows-All : (xs : List A) → All (λ x. p x ≡ true) xs → where_rows p xs ≡ xs
  unfolding where_rows
  where_rows-All [] h = refl
  where_rows-All (x ∷ xs) h = ground (arith, where_rows-All xs h.1)

  -- An update that keeps the condition of a query: the same row is found, with the update.
  pub find_row-update_rows :
      (q : A → Bool) (f : A → A) (xs : List A)
      → ((x : A) → p (f x) ≡ p x)
      → find_row p (update_rows q f xs) ≡ Option.map (λ x. if q x then f x else x) (find_row p xs)
  unfolding find_row update_rows
  find_row-update_rows q f [] h = refl
  find_row-update_rows q f (x ∷ xs) h = ground (arith, h x, find_row-update_rows q f xs h)

  pub any_row-update_rows :
      (q : A → Bool) (f : A → A) (xs : List A)
      → ((x : A) → p (f x) ≡ p x)
      → any_row p (update_rows q f xs) ≡ any_row p xs
  unfolding any_row update_rows
  any_row-update_rows q f [] h = refl
  any_row-update_rows q f (x ∷ xs) h = ground (arith, h x, any_row-update_rows q f xs h)

  pub find_row-meets : (xs : List A) {x : A} → find_row p xs ≡ some x → p x ≡ true
  unfolding find_row
  find_row-meets [] found = cc
  find_row-meets (y ∷ ys) {x} found = ground (arith, find_row-meets ys {x = x})

  pub any_row-found :
      (q : A → Bool) (xs : List A) {x : A}
      → find_row p xs ≡ some x
      → q x ≡ true
      → any_row q xs ≡ true
  unfolding find_row any_row
  any_row-found q [] found hit = cc
  any_row-found q (y ∷ ys) {x} found hit = ground (arith, any_row-found q ys {x = x})

  pub any_row-append : (xs ys : List A) → any_row p (xs ++ ys) ≡ (any_row p xs || any_row p ys)
  unfolding any_row
  any_row-append [] ys = refl
  any_row-append (x ∷ xs) ys = ground (arith, any_row-append xs ys)

  -- A query on top of another.
  pub where_rows-where_rows :
      (q : A → Bool) (xs : List A)
      → where_rows q (where_rows p xs) ≡ where_rows (λ x. q x && p x) xs
  unfolding where_rows
  where_rows-where_rows q [] = refl
  where_rows-where_rows q (x ∷ xs) = ground (arith, where_rows-where_rows q xs)

  pub find_row-append :
      (xs : List A) (x : A) → find_row p xs ≡ none → p x ≡ true → find_row p (xs ++ x ∷ []) ≡ some x
  unfolding find_row
  find_row-append [] x missing hit = ground arith
  find_row-append (y ∷ ys) x missing hit = ground (arith, find_row-append ys x)

-- `numbers.includes(n)`, and membership in a Set.
unfoldable pub includes : List ℕ → ℕ → Bool
includes [] n = false
includes (x ∷ xs) n = x == n || includes xs n

-- `[...new Set(numbers)]`: the distinct numbers (of equal ones the last is kept here).
unfoldable pub distinct : List ℕ → List ℕ
unfolding includes
distinct [] = []
distinct (x ∷ xs) = let rest = distinct xs in if includes xs x then rest else x ∷ rest

-- `===` on texts.
unfoldable pub text_eq : List ℕ → List ℕ → Bool
text_eq [] [] = true
text_eq [] (y ∷ ys) = false
text_eq (x ∷ xs) [] = false
text_eq (x ∷ xs) (y ∷ ys) = x == y && text_eq xs ys

pub text_eq_refl : (xs : List ℕ) → text_eq xs xs ≡ true
unfolding text_eq
text_eq_refl [] = refl
text_eq_refl (x ∷ xs) = ground (arith, text_eq_refl xs)

-- A row that is updated by its key is found with the update; the others as they were.
module _ {ℓ} {A : Type ℓ} (key : A → ℕ) where
  pub find-update_rows :
      (k j : ℕ) (f : A → A) (xs : List A)
      → ((x : A) → key (f x) ≡ key x)
      → find_row (λ x. key x == j) (update_rows (λ x. key x == k) f xs) ≡ (
          if k == j
          then Option.map f (find_row (λ x. key x == j) xs)
          else find_row (λ x. key x == j) xs)
  unfolding find_row update_rows
  find-update_rows k j f [] h = ground arith
  find-update_rows k j f (x ∷ xs) h = ground (arith, h x, find-update_rows k j f xs h)
