-- ===== src/Base/Members.antt =====
-- Membership in the copies of a table that a query makes.
use Prim.Native.Nat.{ℕ, ◌≤◌}
use mathlib.Core.Path.{◌≡◌, refl, sym, ◌∙◌, ap, subst}
use mathlib.Core.Bool.{Bool, true, false}
use mathlib.Core.Logic.{◌⊎◌, inl, inr}
use mathlib.Core.List.{List, [], ◌∷◌, Memᴰ}
use mathlib.Core.List.Memᴰ
use mathlib.Core.Option.{none, some}
use native.Mathlib.Omega.{arith}
use v_backend.Base.Tests.{leb, Bool-cases}
use v_backend.Base.Lists.{find_row, where_rows, All}
use v_backend.Base.Keys.{All-where_rows, insert_by, sort_by, All-insert_by, All-sort_by}

module _ {ℓ} {A : Type ℓ} where
  pub All-members {κ} : (P : A → Type κ) (xs : List A) → ((a : A) → Memᴰ a xs → P a) → All P xs
  All-members P [] new = tt
  All-members P (x ∷ xs) new =
      (new x (Memᴰ.head refl), All-members P xs (λ a m. new a (Memᴰ.tail m)))

  pub All-at {κ} : (P : A → Type κ) (a : A) (xs : List A) → All P xs → Memᴰ a xs → P a
  All-at P a [] h m = absurd (Memᴰ.not-nil m)
  All-at P a (x ∷ xs) h m = elim (Memᴰ.cases_cons m) [
    | inl same ↦ subst P (sym same) h.0
    | inr later ↦ All-at P a xs h.1 later
  ]

  pub Memᴰ-where_rows :
      (c : A → Bool) (a : A) (xs : List A) → c a ≡ true → Memᴰ a xs → Memᴰ a (where_rows c xs)
  unfolding where_rows
  Memᴰ-where_rows c a [] hit m = absurd (Memᴰ.not-nil m)
  Memᴰ-where_rows c a (x ∷ xs) hit m = elim (Memᴰ.cases_cons m) [
    | inl same ↦ rw (ap c (sym same) ∙ hit) (Memᴰ.head same)
    | inr later ↦ elim (Bool-cases (c x)) [
      | inl first ↦ rw first (Memᴰ.tail (Memᴰ-where_rows c a xs hit later))
      | inr miss ↦ rw miss (Memᴰ-where_rows c a xs hit later)
    ]
  ]

  pub where_rows-Memᴰ : (c : A → Bool) (a : A) (xs : List A) → Memᴰ a (where_rows c xs) → Memᴰ a xs
  where_rows-Memᴰ c a xs m =
      All-at (λ x. Memᴰ x xs) a (where_rows c xs)
        (All-where_rows (λ x. Memᴰ x xs) c xs (All-members (λ x. Memᴰ x xs) xs (λ x there. there)))
        m

  -- A row that the query leaves out does not meet its condition.
  pub All-left_out {κ} :
      (P : A → Type κ) (c : A → Bool) (xs : List A)
      → All P (where_rows c xs)
      → All (λ x. (c x ≡ false) ⊎ P x) xs
  unfolding where_rows
  All-left_out P c [] h = tt
  All-left_out P c (x ∷ xs) h = elim (Bool-cases (c x)) [
    | inl hit ↦ let both = rw hit at h in (inr both.0, All-left_out P c xs both.1)
    | inr miss ↦ (inl miss, All-left_out P c xs (rw miss at h))
  ]

  pub find_row-Memᴰ : (c : A → Bool) (xs : List A) {a : A} → find_row c xs ≡ some a → Memᴰ a xs
  unfolding find_row
  find_row-Memᴰ c [] e = cc
  find_row-Memᴰ c (x ∷ xs) {a} e = elim (Bool-cases (c x)) [
    | inl hit ↦ let same : x ≡ a = cc (rw hit at e) in Memᴰ.head (sym same)
    | inr miss ↦ Memᴰ.tail (find_row-Memᴰ c xs (rw miss at e))
  ]

  pub find_row-none :
      (c : A → Bool) (xs : List A) → find_row c xs ≡ none → All (λ x. c x ≡ false) xs
  unfolding find_row
  find_row-none c [] e = tt
  find_row-none c (x ∷ xs) e = elim (Bool-cases (c x)) [
    | inl hit ↦ let impossible = rw hit at e in cc
    | inr miss ↦ (miss, find_row-none c xs (rw miss at e))
  ]

  module _ (before : A → A → Bool) where
    All-insert_back {κ} :
        (P : A → Type κ) (x : A) (xs : List A) → All P (insert_by before x xs) → P x × All P xs
    unfolding insert_by
    All-insert_back P x [] h = h
    All-insert_back P x (y ∷ ys) h = elim (Bool-cases (before x y)) [
      | inl first ↦ rw first at h
      | inr later ↦
          let both = rw later at h in
          let (new, rest) = All-insert_back P x ys both.1 in (new, (both.0, rest))
    ]

    pub All-sort_back {κ} : (P : A → Type κ) (xs : List A) → All P (sort_by before xs) → All P xs
    unfolding sort_by
    All-sort_back P [] h = tt
    All-sort_back P (x ∷ xs) h =
        let (new, rest) = All-insert_back P x (sort_by before xs) h in
        (new, All-sort_back P xs rest)

    pub sort_by-Memᴰ : (a : A) (xs : List A) → Memᴰ a (sort_by before xs) → Memᴰ a xs
    sort_by-Memᴰ a xs m =
        All-at (λ x. Memᴰ x xs) a (sort_by before xs)
          (All-sort_by before (λ x. Memᴰ x xs) xs
            (All-members (λ x. Memᴰ x xs) xs (λ x there. there)))
          m

  module _ (created : A → ℕ) where
    -- `orderBy: { createdAt: 'desc' }`
    abbrev pub IsDescending : List A → Type 0
    IsDescending [] = Unit
    IsDescending (x ∷ xs) = All (λ y. created y ≤ created x) xs × IsDescending xs

    abbrev pub is_later : A → A → Bool
    is_later a b = leb (created b) (created a)

    All-below :
        (x y : A) (xs : List A)
        → created y ≤ created x
        → All (λ z. created z ≤ created y) xs
        → All (λ z. created z ≤ created x) xs
    All-below x y [] h all = tt
    All-below x y (z ∷ zs) h all = (omega (arith, all.0), All-below x y zs h all.1)

    insert_by-IsDescending :
        (x : A) (xs : List A) → IsDescending xs → IsDescending (insert_by is_later x xs)
    unfolding insert_by
    insert_by-IsDescending x [] d = (tt, tt)
    insert_by-IsDescending x (y ∷ ys) d = elim (Bool-cases (is_later x y)) [
      | inl first ↦
          let above : created y ≤ created x = ground (arith, first) in
          rw first ((above, All-below x y ys above d.0), d)
      | inr later ↦ rw later (
        All-insert_by is_later (λ z. created z ≤ created y) x ys (ground (arith, later)) d.0,
        insert_by-IsDescending x ys d.1,
      )
    ]

    pub sort_by-IsDescending : (xs : List A) → IsDescending (sort_by is_later xs)
    unfolding sort_by
    sort_by-IsDescending [] = tt
    sort_by-IsDescending (x ∷ xs) =
        insert_by-IsDescending x (sort_by is_later xs) (sort_by-IsDescending xs)

    -- The first row that is found was made last.
    pub find_row-newest :
        (c : A → Bool) (xs : List A) {a : A}
        → IsDescending xs
        → find_row c xs ≡ some a
        → All (λ x. (c x ≡ false) ⊎ (created x ≤ created a)) xs
    unfolding find_row
    find_row-newest c [] d e = tt
    find_row-newest c (x ∷ xs) {a} d e = elim (Bool-cases (c x)) [
      | inl hit ↦
          let same : x ≡ a = cc (rw hit at e) in
          subst (λ z. All (λ y. (c y ≡ false) ⊎ (created y ≤ created z)) (x ∷ xs)) same
            (
              inr (omega arith),
              All-members _ xs λ y m. inr (All-at (λ z. created z ≤ created x) y xs d.0 m),
            )
      | inr miss ↦ (inl miss, find_row-newest c xs d.1 (rw miss at e))
    ]
