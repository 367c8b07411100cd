-- ===== src/Catalog/Slug/Reserved.antt =====
-- `RESERVED_SLUGS` of src/shared/catalog/slug-generator.ts.
use v_backend.Base.{ℕ, List, [], ◌∷◌}

unfoldable pub reserved_slugs : List (List ℕ)
reserved_slugs =
    (b'a' ∷ b'b' ∷ b'o' ∷ b'u' ∷ b't' ∷ [])
    ∷ (b'a' ∷ b'd' ∷ b'm' ∷ b'i' ∷ b'n' ∷ [])
    ∷ (b'a' ∷ b'p' ∷ b'i' ∷ [])
    ∷ (b'a' ∷ b'p' ∷ b'p' ∷ [])
    ∷ (b'a' ∷ b'u' ∷ b't' ∷ b'h' ∷ [])
    ∷ (b'b' ∷ b'i' ∷ b'l' ∷ b'l' ∷ b'i' ∷ b'n' ∷ b'g' ∷ b's' ∷ [])
    ∷ (b'b' ∷ b'l' ∷ b'o' ∷ b'g' ∷ [])
    ∷ (b'b' ∷ b'u' ∷ b'n' ∷ b'd' ∷ b'l' ∷ b'e' ∷ b's' ∷ [])
    ∷ (b'c' ∷ b'a' ∷ b'r' ∷ b'e' ∷ b'e' ∷ b'r' ∷ b's' ∷ [])
    ∷ (b'c' ∷ b'a' ∷ b'r' ∷ b't' ∷ [])
    ∷ (b'c' ∷ b'a' ∷ b't' ∷ b'a' ∷ b'l' ∷ b'o' ∷ b'g' ∷ [])
    ∷ (b'c' ∷ b'a' ∷ b't' ∷ b'a' ∷ b'l' ∷ b'o' ∷ b'g' ∷ b'-' ∷ b's' ∷ b'h' ∷ b'a' ∷ b'r' ∷ b'e'
        ∷ [])
    ∷ (b'c' ∷ b'h' ∷ b'e' ∷ b'c' ∷ b'k' ∷ b'o' ∷ b'u' ∷ b't' ∷ [])
    ∷ (b'c' ∷ b'o' ∷ b'n' ∷ b't' ∷ b'a' ∷ b'c' ∷ b't' ∷ [])
    ∷ (b'c' ∷ b'o' ∷ b'n' ∷ b't' ∷ b'a' ∷ b't' ∷ b'o' ∷ [])
    ∷ (b'c' ∷ b'o' ∷ b'o' ∷ b'k' ∷ b'i' ∷ b'e' ∷ b's' ∷ [])
    ∷ (b'c' ∷ b'u' ∷ b's' ∷ b't' ∷ b'o' ∷ b'm' ∷ b'e' ∷ b'r' ∷ b's' ∷ [])
    ∷ (b'd' ∷ b'a' ∷ b's' ∷ b'h' ∷ b'b' ∷ b'o' ∷ b'a' ∷ b'r' ∷ b'd' ∷ [])
    ∷ (b'd' ∷ b'o' ∷ b'c' ∷ b's' ∷ [])
    ∷ (b'f' ∷ b'o' ∷ b'r' ∷ b'g' ∷ b'o' ∷ b't' ∷ b'-' ∷ b'p' ∷ b'a' ∷ b's' ∷ b's' ∷ b'w' ∷ b'o'
        ∷ b'r' ∷ b'd' ∷ [])
    ∷ (b'h' ∷ b'e' ∷ b'l' ∷ b'p' ∷ [])
    ∷ (b'h' ∷ b'o' ∷ b'm' ∷ b'e' ∷ [])
    ∷ (b'l' ∷ b'g' ∷ b'p' ∷ b'd' ∷ [])
    ∷ (b'l' ∷ b'o' ∷ b'j' ∷ b'a' ∷ [])
    ∷ (b'l' ∷ b'o' ∷ b'g' ∷ b'i' ∷ b'n' ∷ [])
    ∷ (b'l' ∷ b'o' ∷ b'g' ∷ b'o' ∷ b'u' ∷ b't' ∷ [])
    ∷ (b'm' ∷ b'a' ∷ b'i' ∷ b'l' ∷ [])
    ∷ (b'n' ∷ b'u' ∷ b'l' ∷ b'l' ∷ [])
    ∷ (b'o' ∷ b'r' ∷ b'd' ∷ b'e' ∷ b'r' ∷ b's' ∷ [])
    ∷ (b'p' ∷ b'e' ∷ b'd' ∷ b'i' ∷ b'd' ∷ b'o' ∷ [])
    ∷ (b'p' ∷ b'e' ∷ b'd' ∷ b'i' ∷ b'd' ∷ b'o' ∷ b's' ∷ [])
    ∷ (b'p' ∷ b'l' ∷ b'a' ∷ b'n' ∷ b's' ∷ [])
    ∷ (b'p' ∷ b'r' ∷ b'i' ∷ b'v' ∷ b'a' ∷ b'c' ∷ b'y' ∷ [])
    ∷ (b'p' ∷ b'r' ∷ b'o' ∷ b'd' ∷ b'u' ∷ b'c' ∷ b't' ∷ b's' ∷ [])
    ∷ (b'p' ∷ b'r' ∷ b'o' ∷ b'm' ∷ b'o' ∷ b't' ∷ b'i' ∷ b'o' ∷ b'n' ∷ b's' ∷ [])
    ∷ (b'r' ∷ b'e' ∷ b'g' ∷ b'i' ∷ b's' ∷ b't' ∷ b'e' ∷ b'r' ∷ [])
    ∷ (b'r' ∷ b'e' ∷ b'p' ∷ b'o' ∷ b'r' ∷ b't' ∷ b's' ∷ [])
    ∷ (b'r' ∷ b'e' ∷ b's' ∷ b'e' ∷ b't' ∷ b'-' ∷ b'p' ∷ b'a' ∷ b's' ∷ b's' ∷ b'w' ∷ b'o' ∷ b'r'
        ∷ b'd' ∷ [])
    ∷ (b'r' ∷ b'o' ∷ b'o' ∷ b't' ∷ [])
    ∷ (b's' ∷ b'e' ∷ b't' ∷ b't' ∷ b'i' ∷ b'n' ∷ b'g' ∷ b's' ∷ [])
    ∷ (b's' ∷ b'i' ∷ b'g' ∷ b'n' ∷ b'u' ∷ b'p' ∷ [])
    ∷ (b's' ∷ b't' ∷ b'a' ∷ b't' ∷ b'u' ∷ b's' ∷ [])
    ∷ (b's' ∷ b't' ∷ b'o' ∷ b'c' ∷ b'k' ∷ [])
    ∷ (b's' ∷ b'u' ∷ b'p' ∷ b'p' ∷ b'l' ∷ b'i' ∷ b'e' ∷ b'r' ∷ b's' ∷ [])
    ∷ (b's' ∷ b'u' ∷ b'p' ∷ b'p' ∷ b'o' ∷ b'r' ∷ b't' ∷ [])
    ∷ (b's' ∷ b'y' ∷ b's' ∷ b't' ∷ b'e' ∷ b'm' ∷ [])
    ∷ (b't' ∷ b'e' ∷ b'r' ∷ b'm' ∷ b's' ∷ [])
    ∷ (b't' ∷ b'e' ∷ b's' ∷ b't' ∷ [])
    ∷ (b'u' ∷ b'n' ∷ b'd' ∷ b'e' ∷ b'f' ∷ b'i' ∷ b'n' ∷ b'e' ∷ b'd' ∷ [])
    ∷ (b'v' ∷ b'e' ∷ b'n' ∷ b'd' ∷ b'i' ∷ b'n' ∷ b'h' ∷ b'a' ∷ [])
    ∷ (b'v' ∷ b'e' ∷ b'n' ∷ b'd' ∷ b'i' ∷ b'n' ∷ b'h' ∷ b'a' ∷ b's' ∷ [])
    ∷ (b'w' ∷ b'w' ∷ b'w' ∷ [])
    ∷ []
