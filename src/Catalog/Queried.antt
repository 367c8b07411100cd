-- ===== src/Catalog/Queried.antt =====
-- The rows of one product in the answer to a query for several, and in the table.
use v_backend.Base.{
  ℕ, Bool, true, false, ◌&&◌, List, ◌==◌, ==_iff, where_rows, includes, ◌≡◌, refl, ◌∙◌, ap, ◌⊎◌,
  inl, inr, Bool-cases, All, arith,
}
use mathlib.Core.List.{Memᴰ}
use v_backend.Base.Keys.{where_rows-meets, sort_by}
use v_backend.Base.Members.{
  All-members, All-at, All-left_out, All-sort_back, where_rows-Memᴰ, sort_by-Memᴰ,
}

-- From the rows that a query for several products answers back to the table.
module _ {A : Type 0} (product : A → ℕ) (c : A → Bool) (before : A → A → Bool) (ids : List ℕ)
    (id : ℕ) (xs : List A) where
  abbrev pub queried : A → Bool
  queried x = includes ids (product x) && c x

  abbrev pub answered : List A
  answered = sort_by before (where_rows queried xs)

  pub answered-Memᴰ :
      (a : A)
      → Memᴰ a answered
      → (product a == id) ≡ true
      → Memᴰ a xs × ((product a == id && c a) ≡ true)
  answered-Memᴰ a m own =
      let hit : queried a ≡ true =
        All-at (λ x. queried x ≡ true) a (where_rows queried xs) (where_rows-meets queried xs)
          (sort_by-Memᴰ before a (where_rows queried xs) m) in
      (
        where_rows-Memᴰ queried a xs (sort_by-Memᴰ before a (where_rows queried xs) m),
        ground (arith, hit, own),
      )

  left_out : (x : A) → includes ids id ≡ true → queried x ≡ false → (product x == id && c x) ≡ false
  left_out x asked miss = elim (Bool-cases (product x == id)) [
    | inr other ↦ rw other refl
    | inl own ↦
        let there : includes ids (product x) ≡ true =
          ap (includes ids) ((==_iff (product x) id).0 own) ∙ asked in
        rw own (rw there at miss)
  ]

  pub answered-All :
      (P : A → Type 0)
      → includes ids id ≡ true
      → All (λ x. ((product x == id) ≡ false) ⊎ P x) answered
      → All (λ x. ((product x == id && c x) ≡ false) ⊎ P x) xs
  answered-All P asked h =
      let table =
        All-left_out (λ x. ((product x == id) ≡ false) ⊎ P x) queried xs
          (All-sort_back before _ (where_rows queried xs) h) in
      All-members _ xs λ x m. elim (All-at _ x xs table m) [
        | inl miss ↦ inl (left_out x asked miss)
        | inr (inl other) ↦ inl (rw other refl)
        | inr (inr p) ↦ inr p
      ]

  pub answered-none :
      includes ids id ≡ true
      → All (λ x. (product x == id) ≡ false) answered
      → All (λ x. (product x == id && c x) ≡ false) xs
  answered-none asked h =
      let table =
        answered-All (λ x. ⊥) asked
          (All-members _ answered
            (λ x m. inl (All-at (λ y. (product y == id) ≡ false) x answered h m))) in
      All-members _ xs λ x m. elim (All-at _ x xs table m) [
        | inl other ↦ other
        | inr impossible ↦ absurd impossible
      ]
