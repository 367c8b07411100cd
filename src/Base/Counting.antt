-- ===== src/Base/Counting.antt =====
-- Why comparing two counts shows that every key of a list has its row: the rows found are at most one
-- for each distinct key.
use Prim.Native.Nat.{ℕ, ◌+◌, ◌≤◌}
use mathlib.Core.Path.{◌≡◌, refl, ◌∙◌, subst}
use mathlib.Core.Logic.{inl, inr}
use mathlib.Core.Bool.{Bool, true, false, ◌&&◌}
use mathlib.Core.List.{List, [], ◌∷◌}
use native.Mathlib.Omega.{arith}
use v_backend.Base.Tests.{◌==◌, ==_iff, if◌then◌else◌, Bool-cases}
use v_backend.Base.Lists.{All, length, any_row, where_rows, includes, distinct}
use v_backend.Base.Keys.{HasUniqueKeys}

abbrev IsDistinct : List ℕ → Type 0
IsDistinct [] = Unit
IsDistinct (x ∷ xs) = (includes xs x ≡ false) × IsDistinct xs

module _ {ℓ} {A : Type ℓ} (key : A → ℕ) (c : A → Bool) where
  -- The rows with one of the keys that meet the condition.
  unfoldable pub listed : List ℕ → List A → List A
  unfolding where_rows includes
  listed xs rows = where_rows (λ r. includes xs (key r) && c r) rows

  -- Some row has the key and meets the condition.
  unfoldable pub has_row : List A → ℕ → Bool
  unfolding any_row
  has_row rows x = any_row (λ r. key r == x && c r) rows

  count_one : ℕ → List A → ℕ
  count_one x products = length (where_rows (λ r. key r == x && c r) products)

  listed-nil : (products : List A) → length (listed [] products) ≡ 0
  unfolding listed where_rows includes
  listed-nil [] = refl
  listed-nil (p ∷ ps) = listed-nil ps

  listed-cons :
      (x : ℕ) (xs : List ℕ) (products : List A)
      → includes xs x ≡ false
      → length (listed (x ∷ xs) products) ≡ count_one x products + length (listed xs products)
  unfolding listed count_one where_rows includes
  listed-cons x xs [] h = omega arith
  listed-cons x xs (p ∷ ps) h = elim (Bool-cases (x == key p)) [
    | inl same ↦ ground (arith, (==_iff x (key p)).0 same, listed-cons x xs ps h)
    | inr other ↦ ground (arith, listed-cons x xs ps h)
  ]

  count_one-absent :
      (x : ℕ) (products : List A)
      → All (λ (q : A). (key q == x) ≡ false) products
      → count_one x products ≡ 0
  unfolding count_one where_rows
  count_one-absent x [] h = refl
  count_one-absent x (p ∷ ps) h = ground (arith, count_one-absent x ps h.1)

  -- At most one row has the id, and there is one only if the seller owns it.
  count_one_lem :
      (x : ℕ) (products : List A)
      → HasUniqueKeys key products
      → count_one x products ≤ (if has_row products x then 1 else 0)
  unfolding count_one where_rows has_row
  count_one_lem x [] u = omega arith
  count_one_lem x (p ∷ ps) u = elim (Bool-cases (key p == x)) [
    | inl same ↦
        let none_left =
          count_one-absent x ps (
            subst (λ k. All (λ (q : A). (key q == k) ≡ false) ps) ((==_iff (key p) x).0 same)
              u.0) in
        ground (arith, none_left)
    | inr other ↦ ground (arith, count_one_lem x ps u.1)
  ]

  listed-le :
      (xs : List ℕ) (products : List A)
      → HasUniqueKeys key products
      → IsDistinct xs
      → length (listed xs products) ≤ length xs
  listed-le [] products u d = omega (arith, listed-nil products)
  listed-le (x ∷ xs) products u d = ground (
    arith,
    listed-cons x xs products d.0,
    count_one_lem x products u,
    listed-le xs products u d.1,
  )

  -- If as many rows are found as there are ids, every id is that of a product of the seller.
  listed-All :
      (xs : List ℕ) (products : List A)
      → HasUniqueKeys key products
      → IsDistinct xs
      → length (listed xs products) ≡ length xs
      → All (λ (x : ℕ). has_row products x ≡ true) xs
  listed-All [] products u d e = tt
  listed-All (x ∷ xs) products u d e =
      let step = listed-cons x xs products d.0 in
      let one = count_one_lem x products u in
      let rest = listed-le xs products u d.1 in
      let here : has_row products x ≡ true = ground (arith, step, one, rest, e) in
      (here, listed-All xs products u d.1 (ground (arith, step, one, rest, e, here)))

includes-distinct : (xs : List ℕ) (n : ℕ) → includes (distinct xs) n ≡ includes xs n
unfolding distinct includes
includes-distinct [] n = refl
includes-distinct (x ∷ xs) n = elim (Bool-cases (x == n)) [
  | inl same ↦ ground (arith, includes-distinct xs n, (==_iff x n).0 same)
  | inr other ↦ ground (arith, includes-distinct xs n)
]

distinct-IsDistinct : (xs : List ℕ) → IsDistinct (distinct xs)
unfolding distinct
distinct-IsDistinct [] = tt
distinct-IsDistinct (x ∷ xs) = elim (Bool-cases (includes xs x)) [
  | inl seen ↦ rw seen (distinct-IsDistinct xs)
  | inr new ↦ rw new (includes-distinct xs x ∙ new, distinct-IsDistinct xs)
]

pub All-includes :
    (P : ℕ → Bool) (xs : List ℕ) (n : ℕ)
    → All (λ (x : ℕ). P x ≡ true) xs
    → includes xs n ≡ true
    → P n ≡ true
unfolding includes
All-includes P [] n h e = cc
All-includes P (x ∷ xs) n h e = elim (Bool-cases (x == n)) [
  | inl same ↦ ground (arith, (==_iff x n).0 same)
  | inr other ↦ All-includes P xs n h.1 (rw other at e)
]

pub All-self :
    (P : ℕ → Bool) (xs : List ℕ) (ys : List ℕ)
    → All (λ (x : ℕ). P x ≡ true) xs
    → ((n : ℕ) → includes ys n ≡ true → includes xs n ≡ true)
    → All (λ (x : ℕ). P x ≡ true) ys
unfolding includes
All-self P xs [] h sub = tt
All-self P xs (y ∷ ys) h sub = (
  All-includes P xs y h (sub y (ground arith)),
  All-self P xs ys h (λ n e. sub n (ground (arith, e))),
)

module _ {ℓ} {A : Type ℓ} (key : A → ℕ) (c : A → Bool) where
  -- As many rows as distinct keys: every key has a row that meets the condition.
  pub distinct-has_row :
      (xs : List ℕ) (rows : List A)
      → HasUniqueKeys key rows
      → length (listed key c (distinct xs) rows) ≡ length (distinct xs)
      → All (λ (x : ℕ). has_row key c rows x ≡ true) xs
  distinct-has_row xs rows u e =
      All-self (has_row key c rows) (distinct xs) xs
        (listed-All key c (distinct xs) rows u (distinct-IsDistinct xs) e)
        λ n h. includes-distinct xs n ∙ h

  -- The same when the condition is tested first.
  pub listed-includes :
      (xs : List ℕ) (rows : List A) → listed key c (distinct xs) rows ≡ listed key c xs rows
  unfolding listed where_rows
  listed-includes xs [] = refl
  listed-includes xs (r ∷ rows) = rw (includes-distinct xs (key r), listed-includes xs rows) refl
