-- ===== src/Catalog/Slug.antt =====
-- src/shared/catalog/slug-generator.ts. A text is the list of its character codes; trimming, lower case
-- and the decomposition of accents are the platform's and parameters.
use v_backend.Base.{
  ℕ, zero, suc, ◌+◌, ◌/◌, ◌%◌, Bool, true, false, ◌&&◌, ◌||◌, not, List, [], ◌∷◌, ◌++◌, Option,
  none, some, ◌==◌, leb, ltb, if◌then◌else◌, any_row, text_eq,
}
use v_backend.Catalog.Slug.Reserved.{reserved_slugs}
pub mod Reserved

-- `trim`, and `toLowerCase().normalize('NFD')`.
pub record Platform : Type 0 where
  pub trim : List ℕ → List ℕ
  pub lower_decomposed : List ℕ → List ℕ

-- `a || b` on texts.
abbrev pub or_text : List ℕ → List ℕ → List ℕ
or_text [] b = b
or_text (c ∷ cs) b = c ∷ cs

unfoldable pub is_slug_char : ℕ → Bool
is_slug_char c = leb b'a' c && leb c b'z' || leb b'0' c && leb c b'9'

-- `.replace(/[\u0300-\u036f]/g, '')`
unfoldable pub without_marks : List ℕ → List ℕ
without_marks [] = []
without_marks (c ∷ cs) =
    let rest = without_marks cs in if leb 768 c && leb c 879 then rest else c ∷ rest

-- `.replace(/[^a-z0-9]+/g, '-')`; the flag says that the run has its hyphen.
unfoldable pub hyphenate : Bool → List ℕ → List ℕ
unfolding is_slug_char
hyphenate in_run [] = []
hyphenate in_run (c ∷ cs) =
    let after = hyphenate false cs in
    let within = hyphenate true cs in
    if is_slug_char c then c ∷ after else (if in_run then within else b'-' ∷ within)

-- `.replace(/^-+|-+$/g, '')`
unfoldable pub trim_start : List ℕ → List ℕ
trim_start [] = []
trim_start (c ∷ cs) = let rest = trim_start cs in if c == b'-' then rest else c ∷ cs

unfoldable pub trim_end : List ℕ → List ℕ
trim_end [] = []
trim_end (c ∷ cs) = elim (trim_end cs) [
  | [] ↦ if c == b'-' then [] else c ∷ []
  | d ∷ ds ↦ c ∷ d ∷ ds
]

-- `.substring(0, n)`
unfoldable pub substring : ℕ → List ℕ → List ℕ
substring zero cs = []
substring (suc n) [] = []
substring (suc n) (c ∷ cs) = c ∷ substring n cs

-- `storeName?.trim() || personalName`
unfoldable pub source_of : Platform → Option (List ℕ) → List ℕ → List ℕ
source_of platform none personal_name = personal_name
source_of platform (some name) personal_name = or_text (platform.trim name) personal_name

unfoldable pub slugify_base : Platform → Option (List ℕ) → List ℕ → List ℕ
unfolding source_of without_marks hyphenate trim_start trim_end substring
slugify_base platform store_name personal_name =
    let words =
      hyphenate false
        (without_marks (platform.lower_decomposed (source_of platform store_name personal_name))) in
    or_text (substring 45 (trim_end (trim_start words))) (b'l' ∷ b'o' ∷ b'j' ∷ b'a' ∷ [])

-- The number in decimal; the suffixes have three digits at most.
unfoldable pub decimal : ℕ → List ℕ
decimal n =
    if ltb n 10
    then (b'0' + n) ∷ []
    else (if ltb n 100
        then (b'0' + n / 10) ∷ (b'0' + n % 10) ∷ []
        else (b'0' + n / 100) ∷ (b'0' + n / 10 % 10) ∷ (b'0' + n % 10) ∷ [])

-- `${base}-${suffix}`
unfoldable pub with_suffix : List ℕ → ℕ → List ℕ
unfolding decimal
with_suffix base suffix = base ++ b'-' ∷ decimal suffix

module _ (is_taken : List ℕ → Bool) where
  -- `RESERVED_SLUGS.has(candidate) || isTaken(candidate)`
  unfoldable pub is_flagged : List ℕ → Bool
  unfolding reserved_slugs text_eq any_row
  is_flagged candidate = any_row (text_eq candidate) reserved_slugs || is_taken candidate

  -- The loop with fuel: none when the fuel is spent before the loop ends.
  unfoldable pub find_free : ℕ → List ℕ → ℕ → List ℕ → Option (List ℕ)
  unfolding is_flagged with_suffix
  find_free zero base suffix candidate = none
  find_free (suc fuel) base suffix candidate =
      let next = with_suffix base suffix in
      let rest = find_free fuel base (suffix + 1) next in
      if is_flagged candidate
      then (if ltb 100 (suffix + 1) then some next else rest)
      else some candidate

  unfoldable pub generate_unique_slug : ℕ → Platform → Option (List ℕ) → List ℕ → Option (List ℕ)
  unfolding find_free slugify_base
  generate_unique_slug fuel platform store_name personal_name =
      let base = slugify_base platform store_name personal_name in find_free fuel base 2 base
