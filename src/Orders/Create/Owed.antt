-- ===== src/Orders/Create/Owed.antt =====
-- What the validation loop of an order finds owed, line by line, in closed form.
use v_backend.Base.{
  >>=-eq-ok, ℕ, ◌+◌, ◌-◌, ◌≡◌, refl, List, [], ◌∷◌, ◌++◌, none, some, ok, arith, ◌==◌,
  if◌then◌else◌, sum_by, ℤ, pos, pos_part, ◌-ℤ◌, Bool-cases, inl, inr,
}
use v_backend.Db.Rows.{Product, StoreStock}
use v_backend.Db.Stock.{find_stock}
use v_backend.Orders.Data.{OrderLine, OversoldItem}
use v_backend.Orders.Create.{Running, available_of, check_line, check_lines}

-- The units of product p that the lines ask for.
unfoldable pub ordered_of : ℕ → OrderLine → ℕ
ordered_of p it = if it.product_id == p then it.quantity else 0

unfoldable pub ordered : ℕ → List OrderLine → ℕ
unfolding ordered_of sum_by
ordered p = sum_by (ordered_of p)

-- The units of product p among those that the loop found owed.
unfoldable pub owed_for : ℕ → List ℕ → List OrderLine → ℕ
owed_for p [] its = 0
owed_for p (o ∷ os) [] = 0
owed_for p (o ∷ os) (it ∷ its) = (if it.product_id == p then o else 0) + owed_for p os its

-- What one round does, where the line is accepted.
pub check_line_lem :
    (products : List Product) (stocks : List StoreStock) (running : Running) (it : OrderLine)
    (p : ℕ) (s : StoreStock) {running' : Running} {owed : ℕ} {over : List OversoldItem}
    → find_stock p stocks ≡ some s
    → check_line products stocks running it ≡ ok (running', owed, over)
    → let asked = if it.product_id == p then it.quantity else 0 in
      (available_of running' s p ≡ (
        if it.product_id == p
        then available_of running s p -ℤ pos it.quantity
        else available_of running s p))
      × ((if it.product_id == p then owed else 0) ≡ asked - pos_part (available_of running s p))
unfolding check_line
check_line_lem products stocks running it p s found e = elim (Bool-cases (it.product_id == p)) [
  | inl same ↦ ground arith
  | inr other ↦ (ground arith, ground arith)
]

pub check_line-untracked :
    (products : List Product) (stocks : List StoreStock) (running : Running) (it : OrderLine)
    (p : ℕ) {line : Running × ℕ × List OversoldItem}
    → find_stock p stocks ≡ none
    → check_line products stocks running it ≡ ok line
    → (if it.product_id == p then line.1 else 0) ≡ 0
unfolding check_line
check_line-untracked products stocks running it p missing e = ground arith

-- Inversion of the loop on a line and the rest.
pub check_lines-cons :
    (products : List Product) (stocks : List StoreStock) (running : Running) (it : OrderLine)
    (its : List OrderLine) {r : List ℕ × List OversoldItem}
    → check_lines products stocks running (it ∷ its) ≡ ok r
    → (line : Running × ℕ × List OversoldItem) × (rest : List ℕ × List OversoldItem) × (check_line
          products stocks running it
        ≡ ok line)
      × (check_lines products stocks line.0 its ≡ ok rest)
      × (r ≡ (line.1 ∷ rest.0, line.2 ++ rest.1))
unfolding check_lines
check_lines-cons products stocks running it its {r} e =
    let first = >>=-eq-ok (check_line products stocks running it) _ e in
    let second = >>=-eq-ok (check_lines products stocks first.0.0 its) _ first.2 in
    (first.0, second.0, first.1, second.1, cc)

pub owed_for-nil : (p : ℕ) (os : List ℕ) → owed_for p os [] ≡ 0
unfolding owed_for
owed_for-nil p [] = refl
owed_for-nil p (o ∷ os) = refl

pos_part-sub : (a : ℤ) (q : ℕ) → pos_part (a -ℤ pos q) ≡ pos_part a - q
unfolding ◌-ℤ◌
pos_part-sub a q = ground arith

-- Whatever earlier lines have used up, the lines together owe what they ask for beyond the units
-- that were on hand.
pub owed_for-check_lines :
    (products : List Product) (stocks : List StoreStock) (running : Running) (its : List OrderLine)
    (p : ℕ) (s : StoreStock) {r : List ℕ × List OversoldItem}
    → find_stock p stocks ≡ some s
    → check_lines products stocks running its ≡ ok r
    → owed_for p r.0 its ≡ ordered p its - pos_part (available_of running s p)
unfolding owed_for ordered
owed_for-check_lines products stocks running [] p s {r} found e =
    rw (owed_for-nil p r.0) (omega arith)
owed_for-check_lines products stocks running (it ∷ its) p s {r} found e =
    let (line, rest, e1, e2, same) = check_lines-cons products stocks running it its e in
    let here = check_line_lem products stocks running it p s found e1 in
    let there = owed_for-check_lines products stocks line.0 its p s found e2 in
    rw same (ground (arith, here, there, pos_part-sub (available_of running s p) it.quantity))
