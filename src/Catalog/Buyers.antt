-- ===== src/Catalog/Buyers.antt =====
-- The customer of an order in the catalog: `createOrder` finds one of the store or creates one.
use v_backend.Base.{
  ℕ, Bool, true, ◌&&◌, [], ◌∷◌, Option, none, some, ◌==◌, ==_iff, ==-refl, find_row-meets, any_row,
  any_row-found, any_row-append, Result, ok, ok-injective, ◌≡◌, refl, sym, ◌∙◌, ap, inl, inr, arith,
  Bool-cases, Option-cases,
}
use v_backend.Catalog.Data.{Customer, Shop}
use v_backend.Catalog.Customers.{
  CatalogCustomer, find_customer_by_id, find_customer_by_contact, create_customer, is_same_contact,
  has_address, new_customer,
}
use v_backend.Catalog.Ordering.{known_customer, customer_by_contact, resolve_customer}

-- A customer of the store has the id.
unfoldable pub has_customer : ℕ → ℕ → Shop → Bool
unfolding any_row
has_customer seller_id id s =
    any_row (λ (c : Customer). c.id == id && c.seller_id == seller_id) s.customers

-- What resolving the customer leaves.
abbrev pub IsResolved : ℕ → ℕ → Shop → Shop → Type 0
IsResolved seller_id id s t = (has_customer seller_id id t ≡ true) × (t.stocks ≡ s.stocks)

known-IsResolved :
    (seller_id id : ℕ) (s t : Shop) (found : ℕ)
    → known_customer seller_id id s ≡ (t, ok found)
    → IsResolved seller_id found s t
unfolding known_customer has_customer find_customer_by_id
known-IsResolved seller_id id s t found e = elim (Option-cases (find_customer_by_id id s)) [
  | inl missing ↦ let impossible = rw (missing, known_customer) at e in cc
  | inr (c, present) ↦
      let inner = rw (present, known_customer) at e in
      elim (Bool-cases (c.seller_id == seller_id)) [
        | inl own ↦
            let over = rw own at inner in
            let this : c.id ≡ found = ok-injective (ap (λ (x : Shop × Result ℕ). x.1) over) in
            let same : s ≡ t = ap (λ (x : Shop × Result ℕ). x.0) over in
            (
              ap (has_customer seller_id found) (sym same)
                  ∙ any_row-found (λ (x : Customer). x.id == id)
                      (λ x. x.id == found && x.seller_id == seller_id) s.customers present
                      (rw ((==_iff c.id found).1 this, own) refl),
              ap (λ (x : Shop). x.stocks) (sym same),
            )
        | inr other ↦ let impossible = rw other at inner in cc
      ]
]

-- A new customer is one of the store.
created-IsResolved :
    (seller_id : ℕ) (c : CatalogCustomer) (s t : Shop) (id : ℕ)
    → create_customer seller_id c s ≡ (t, ok id)
    → IsResolved seller_id id s t
unfolding create_customer has_customer new_customer any_row
created-IsResolved seller_id c s t id e = elim (Bool-cases (has_address c)) [
  | inl full ↦
      let over = rw (full, create_customer) at e in
      let this : s.next_customer ≡ id = ok-injective (ap (λ (x : Shop × Result ℕ). x.1) over) in
      let row = new_customer s.next_customer seller_id c in
      (
        ap
              (λ (x : Shop × Result ℕ).
                any_row (λ (y : Customer). y.id == id && y.seller_id == seller_id) x.0.customers)
              (sym over)
            ∙ any_row-append (λ (y : Customer). y.id == id && y.seller_id == seller_id) s.customers
                (row ∷ [])
            ∙ rw (this, ==-refl id, ==-refl seller_id) (ground arith),
        ap (λ (x : Shop × Result ℕ). x.0.stocks) (sym over),
      )
  | inr partial ↦ let impossible = rw (partial, create_customer) at e in cc
]

contact-IsResolved :
    (seller_id : ℕ) (c : CatalogCustomer) (s t : Shop) (id : ℕ)
    → customer_by_contact seller_id c s ≡ (t, ok id)
    → IsResolved seller_id id s t
unfolding customer_by_contact has_customer find_customer_by_contact
contact-IsResolved seller_id c s t id e =
    elim (Option-cases (find_customer_by_contact c.email c.phone c.document seller_id s)) [
      | inl new ↦ created-IsResolved seller_id c s t id (rw (new, customer_by_contact) at e)
      | inr (existing, found) ↦
          let over = rw (found, customer_by_contact) at e in
          let this : existing.id ≡ id = ok-injective (ap (λ (x : Shop × Result ℕ). x.1) over) in
          let same : s ≡ t = ap (λ (x : Shop × Result ℕ). x.0) over in
          let own =
            find_row-meets
              (λ (x : Customer).
                x.seller_id == seller_id && is_same_contact c.email c.phone c.document x)
              s.customers found in
          (
            ap (has_customer seller_id id) (sym same)
                ∙ any_row-found
                    (λ (x : Customer).
                      x.seller_id == seller_id && is_same_contact c.email c.phone c.document x)
                    (λ x. x.id == id && x.seller_id == seller_id) s.customers found
                    (rw ((==_iff existing.id id).1 this) (ground (arith, own))),
            ap (λ (x : Shop). x.stocks) (sym same),
          )
    ]

pub resolve-IsResolved :
    (seller_id : ℕ) (id : Option ℕ) (c : Option CatalogCustomer) (s t : Shop) (found : ℕ)
    → resolve_customer seller_id id c s ≡ (t, ok found)
    → IsResolved seller_id found s t
unfolding resolve_customer
resolve-IsResolved seller_id (some id) c s t found e = known-IsResolved seller_id id s t found e
resolve-IsResolved seller_id none (some c) s t found e = contact-IsResolved seller_id c s t found e
resolve-IsResolved seller_id none none s t found e = cc
