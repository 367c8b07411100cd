-- ===== src/Catalog/FreeSlug.antt =====
-- The loop of `generateUniqueSlug` against the list of its candidates.
use v_backend.Base.{
  ℕ, zero, suc, ◌+◌, ◌<◌, Bool, false, not, List, [], ◌∷◌, Option, none, some, ltb, find_row, ◌≡◌,
  refl, arith, inl, inr, Bool-cases,
}
use v_backend.Catalog.Slug.{
  Platform, slugify_base, with_suffix, is_flagged, find_free, generate_unique_slug,
}

-- `count` suffixed names, from a suffix on.
unfoldable pub suffixed : List ℕ → ℕ → ℕ → List (List ℕ)
suffixed base suffix zero = []
suffixed base suffix (suc count) = with_suffix base suffix ∷ suffixed base (suffix + 1) count

-- The candidates that are tested: the base, and the base with the suffixes 2 to 99.
unfoldable pub candidates : List ℕ → List (List ℕ)
unfolding suffixed
candidates base = base ∷ suffixed base 2 98

abbrev pub first_of : Option (List ℕ) → List ℕ → List ℕ
first_of none last = last
first_of (some slug) last = slug

module _ (is_taken : List ℕ → Bool) where
  -- The first candidate that is not flagged, and else the suffix 100, which is not tested.
  unfoldable pub first_free : List ℕ → List ℕ
  unfolding candidates
  first_free base =
      first_of (find_row (λ slug. not (is_flagged is_taken slug)) (candidates base))
        (with_suffix base 100)

  find_free_lem :
      (fuel count suffix : ℕ) (base candidate : List ℕ)
      → count < fuel
      → suffix + count ≡ 100
      → find_free is_taken fuel base suffix candidate
        ≡ some (
            first_of
              (find_row
                (λ slug. not (is_flagged is_taken slug))
                (candidate ∷ suffixed base suffix count))
              (with_suffix base 100))
  unfolding find_free find_row suffixed
  find_free_lem zero count suffix base candidate enough end = absurd (omega arith)
  find_free_lem (suc fuel) zero suffix base candidate enough end =
      elim (Bool-cases (is_flagged is_taken candidate)) [
        | inr free ↦ rw free refl
        | inl flagged ↦ rw flagged (ground arith)
      ]
  find_free_lem (suc fuel) (suc count) suffix base candidate enough end =
      elim (Bool-cases (is_flagged is_taken candidate)) [
        | inr free ↦ rw free refl
        | inl flagged ↦
            let rest =
              find_free_lem fuel count (suffix + 1) base (with_suffix base suffix) (omega arith)
                (omega arith) in
            let below : ltb 100 (suffix + 1) ≡ false = ground arith in rw (flagged, below) rest
      ]

  -- The search for a slug ends: 99 rounds of the loop are enough (more fuel changes nothing), whatever
  -- slugs are taken. What it returns is the first of the base and its suffixes 2 to 99 that is neither
  -- reserved nor taken; when there is none, it is the base with suffix 100, which was not tested.
  pub generate_unique_slug_ends :
      (more : ℕ) (platform : Platform) (store_name : Option (List ℕ)) (personal_name : List ℕ)
      → generate_unique_slug is_taken (99 + more) platform store_name personal_name
        ≡ some (first_free (slugify_base platform store_name personal_name))
  unfolding generate_unique_slug first_free candidates
  generate_unique_slug_ends more platform store_name personal_name =
      find_free_lem (99 + more) 98 2 (slugify_base platform store_name personal_name)
        (slugify_base platform store_name personal_name) (omega arith) refl
