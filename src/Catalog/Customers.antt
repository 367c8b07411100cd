-- ===== src/Catalog/Customers.antt =====
-- `PrismaCatalogRepository`: stores and customers.
use v_backend.Base.{
  ℕ, suc, Bool, true, false, ◌&&◌, ◌||◌, [], ◌∷◌, ◌++◌, Option, none, some, ◌==◌, find_row,
  update_rows, ok, err, internal,
}
use v_backend.Base.Effects.{Effect}
use v_backend.Catalog.Data.{Account, Customer, Shop}

-- `=` of SQL on a column that may be null.
unfoldable pub holds : Option ℕ → ℕ → Bool
holds none b = false
holds (some a) b = a == b

unfoldable pub find_store_id_by_slug : ℕ → Shop → Option Account
unfolding holds
find_store_id_by_slug slug s = find_row (λ a. holds a.store_slug slug) s.accounts

unfoldable pub find_customer_by_id : ℕ → Shop → Option Customer
find_customer_by_id id s = find_row (λ c. c.id == id) s.customers

unfoldable pub find_customer_by_email_or_phone : ℕ → ℕ → Shop → Option Customer
unfolding holds
find_customer_by_email_or_phone contact seller_id s =
    find_row (λ c. c.seller_id == seller_id && (holds c.email contact || c.phone == contact))
      s.customers

unfoldable pub set_hash : ℕ → Customer → Customer
set_hash hash c = record c { password_hash = some hash }

-- The customer was found just before, so the write is not refused for a missing row.
unfoldable pub update_customer_password_hash : ℕ → ℕ → Shop → Shop
unfolding set_hash
update_customer_password_hash id hash s = record s {
  customers = update_rows (λ c. c.id == id) (set_hash hash) s.customers;
}

-- The condition that the contact gives, if it gives one.
unfoldable pub is_same_contact : Option ℕ → ℕ → Option ℕ → Customer → Bool
unfolding holds
is_same_contact email phone document c =
    matches email c.email || c.phone == phone || matches document c.document
  where
    matches : Option ℕ → Option ℕ → Bool
    matches none column = false
    matches (some a) column = holds column a

unfoldable pub find_customer_by_contact : Option ℕ → ℕ → Option ℕ → ℕ → Shop → Option Customer
unfolding is_same_contact
find_customer_by_contact email phone document seller_id s =
    find_row (λ c. c.seller_id == seller_id && is_same_contact email phone document c) s.customers

-- The body's `customer`, with the columns that the database demands.
pub record CatalogCustomer : Type 0 where
  pub email : Option ℕ
  pub phone : ℕ
  pub document : Option ℕ
  pub city : Option ℕ
  pub state : Option ℕ

-- Whether `city` and `state` are there, which the table does not take as null.
unfoldable pub has_address : CatalogCustomer → Bool
has_address c = present c.city && present c.state
  where
    present : Option ℕ → Bool
    present none = false
    present (some text) = true

unfoldable pub new_customer : ℕ → ℕ → CatalogCustomer → Customer
new_customer id seller_id c = record {
  id = id;
  seller_id = seller_id;
  email = c.email;
  phone = c.phone;
  document = c.document;
  password_hash = none;
}

unfoldable pub create_customer : ℕ → CatalogCustomer → Effect Shop ℕ
unfolding has_address new_customer
create_customer seller_id c s = elim (has_address c) [
  | false ↦ (s, err internal)
  | true ↦ (
    record s {
      next_customer = suc s.next_customer;
      customers = s.customers ++ new_customer s.next_customer seller_id c ∷ [];
    },
    ok s.next_customer,
  )
]
