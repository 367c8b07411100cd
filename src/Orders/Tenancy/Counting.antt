-- ===== src/Orders/Tenancy/Counting.antt =====
-- Why comparing two counts shows that every product of an order belongs to its seller.
use v_backend.Base.{ℕ, ◌≡◌, List, [], ◌∷◌, arith, All, ◌==◌, Bool, true, length, distinct, ok}
use v_backend.Base.Keys.{HasUniqueKeys}
use v_backend.Base.Counting.{distinct-has_row, has_row, listed}
use v_backend.Db.Rows.{Product}
use v_backend.Orders.Data.{OrderLine}
use v_backend.Orders.Create.{owned_count, check_ownership, product_ids}

-- Some row with the id belongs to the seller.
unfoldable pub owns : ℕ → List Product → ℕ → Bool
unfolding has_row
owns s = has_row (λ (p : Product). p.id) λ (p : Product). p.seller_id == s

-- The primary key of the table.
abbrev pub HasUniqueIds : List Product → Type 0
HasUniqueIds = HasUniqueKeys λ (p : Product). p.id

lines-All :
    (P : ℕ → Bool) (its : List OrderLine)
    → All (λ (x : ℕ). P x ≡ true) (product_ids its)
    → All (λ (it : OrderLine). P it.product_id ≡ true) its
lines-All P [] h = tt
lines-All P (it ∷ its) h = (h.0, lines-All P its h.1)

-- The check of an order passes only if every line's product belongs to the seller.
pub check_ownership-owns :
    (s : ℕ) (its : List OrderLine) (products : List Product)
    → HasUniqueIds products
    → check_ownership s its products ≡ ok tt
    → All (λ (it : OrderLine). owns s products it.product_id ≡ true) its
unfolding check_ownership owns owned_count listed
check_ownership-owns s [] products u e = tt
check_ownership-owns s (it ∷ its) products u e =
    let ids = product_ids (it ∷ its) in
    let counted : owned_count s (distinct ids) products ≡ length (distinct ids) = ground arith in
    lines-All (owns s products) (it ∷ its) (
      distinct-has_row (λ (p : Product). p.id) (λ (p : Product). p.seller_id == s) ids products u
        counted)
