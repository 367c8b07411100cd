-- ===== src/Catalog/Passwords.antt =====
-- Passwords that customers set by a code.
use v_backend.Base.{
  ℕ, ◌≤◌, true, false, ◌&&◌, ◌||◌, none, some, ◌==◌, ==_iff, ==-refl, if◌then◌else◌, Result, ok,
  err, ok-injective, bad_request, unauthorized, ◌≡◌, refl, sym, ◌∙◌, ap, ◌⊎◌, inl, inr, Bool-cases,
  Option-cases, find_row-update_rows,
}
use mathlib.Core.Option
use v_backend.Base.Effects.{Effect}
use v_backend.Catalog.Data.{Account, Customer, Shop}
use v_backend.Cache.{Redis, otp, attempts, cooldown, same_key}
use v_backend.Catalog.Customers.{
  find_store_id_by_slug, find_customer_by_email_or_phone, update_customer_password_hash, set_hash,
  holds,
}
use v_backend.Catalog.Access.{
  Crypto, Site, AuthResponse, has_password, verify_otp_or_throw, save_password, consume_code,
  build_customer_auth_response, set_first_password, miss, finish_password, with_customer,
  set_customer_password, check_password, authenticate_customer,
}

no_password : (c : Customer) → has_password c ≡ false → c.password_hash ≡ none
unfolding has_password
no_password c e = elim (Option-cases c.password_hash) [
  | inl nothing ↦ nothing
  | inr (hash, there) ↦ let impossible = rw there at e in cc
]

module _ (redis : Redis) (crypto : Crypto) where
  -- A call on a customer of the store returned: both were found.
  with_customer-returned :
      {A : Type 0} (slug contact : ℕ) (rest : Account → Customer → Effect (Site redis crypto) A)
      (s t : Site redis crypto) {a : A}
      → with_customer redis crypto slug contact rest s ≡ (t, ok a)
      → (store : Account) × (c : Customer) × (find_store_id_by_slug slug s.shop ≡ some store)
        × (find_customer_by_email_or_phone contact store.id s.shop ≡ some c)
        × (rest store c s ≡ (t, ok a))
  unfolding with_customer
  with_customer-returned slug contact rest s t e =
      elim (Option-cases (find_store_id_by_slug slug s.shop)) [
        | inl missing ↦ let impossible = rw (missing, with_customer) at e in cc
        | inr (store, found) ↦
            let inner = rw (found, with_customer) at e in
            elim (Option-cases (find_customer_by_email_or_phone contact store.id s.shop)) [
              | inl nobody ↦ let impossible = rw nobody at inner in cc
              | inr (c, present) ↦ (store, c, found, present, rw present at inner)
            ]
      ]

  with_customer-found :
      {A : Type 0} (slug contact : ℕ) (rest : Account → Customer → Effect (Site redis crypto) A)
      (s : Site redis crypto) {store : Account} {c : Customer}
      → find_store_id_by_slug slug s.shop ≡ some store
      → find_customer_by_email_or_phone contact store.id s.shop ≡ some c
      → with_customer redis crypto slug contact rest s ≡ rest store c s
  unfolding with_customer
  with_customer-found slug contact rest s found present = rw (found, present, with_customer) refl

  verify-cases :
      (now id code : ℕ) (s : redis.State)
      → ((verify_otp_or_throw redis crypto now id code s ≡ (s, ok tt))
          × (redis.get now (otp id) s ≡ some (crypto.hash_token code)))
        ⊎ ((u : redis.State) × (verify_otp_or_throw redis crypto now id code s
              ≡ (u, err unauthorized)))
  unfolding verify_otp_or_throw
  verify-cases now id code s = elim (Option-cases (redis.get now (otp id) s)) [
    | inl missing ↦ inr (s, rw (missing, verify_otp_or_throw) refl)
    | inr (stored, there) ↦ elim (Bool-cases (stored == crypto.hash_token code)) [
      | inl right ↦ inl (
        rw (there, right, verify_otp_or_throw) refl,
        there ∙ ap some ((==_iff stored (crypto.hash_token code)).0 right),
      )
      | inr wrong ↦ inr (miss redis crypto now id s, rw (there, wrong, verify_otp_or_throw) refl)
    ]
  ]

  -- What a first password that was set has checked, and what it leaves.
  abbrev SetsPassword : ℕ → ℕ → ℕ → Customer → Site redis crypto → Site redis crypto → Type 0
  SetsPassword now code password c s t =
      (has_password c ≡ false)
      × (redis.get now (otp c.id) s.cache ≡ some (crypto.hash_token code))
      × (t.shop ≡ update_customer_password_hash c.id (crypto.hash password) s.shop)
      × (t.cache ≡ consume_code redis crypto now c.id s.cache)

  first-returned :
      (now code password : ℕ) (c : Customer) (store_id : ℕ) (s t : Site redis crypto)
      (r : AuthResponse)
      → set_first_password redis crypto now code password c store_id s ≡ (t, ok r)
      → SetsPassword now code password c s t
        × (r ≡ build_customer_auth_response redis crypto c store_id)
  unfolding set_first_password finish_password save_password
  first-returned now code password c store_id s t r e = elim (Bool-cases (has_password c)) [
    | inl before ↦ let impossible = rw before at e in cc
    | inr without ↦ elim (verify-cases now c.id code s.cache) [
      | inl (passed, there) ↦
          let over = rw passed at (rw without at e) in
          (
            (
              without,
              there,
              ap (λ (x : Site redis crypto × Result AuthResponse). x.0.shop) (sym over),
              ap (λ (x : Site redis crypto × Result AuthResponse). x.0.cache) (sym over),
            ),
            ok-injective (ap (λ (x : Site redis crypto × Result AuthResponse). x.1) (sym over)),
          )
      | inr (u, failed) ↦ let impossible = rw failed at (rw without at e) in cc
    ]
  ]

  -- The stores are as before, and the contact still finds the customer.
  updated-found :
      (id hash contact seller_id : ℕ) (shop : Shop) {c : Customer}
      → find_customer_by_email_or_phone contact seller_id shop ≡ some c
      → c.id ≡ id
      → find_customer_by_email_or_phone contact seller_id
          (update_customer_password_hash id hash shop)
        ≡ some (set_hash hash c)
  unfolding find_customer_by_email_or_phone update_customer_password_hash set_hash
  updated-found id hash contact seller_id shop {c} found own =
      find_row-update_rows
        (λ (x : Customer).
          x.seller_id == seller_id && (holds x.email contact || x.phone == contact))
        (λ x. x.id == id) (set_hash hash) shop.customers (λ x. refl)
      ∙ ap (Option.map (λ (x : Customer). if x.id == id then set_hash hash x else x)) found
      ∙ rw ((==_iff c.id id).1 own) refl

  code-consumed :
      (now later id : ℕ) (s : redis.State)
      → now ≤ later
      → redis.get later (otp id) (consume_code redis crypto now id s) ≡ none
  unfolding consume_code same_key
  code-consumed now later id s after =
      redis.get-delete now later (cooldown id) (otp id)
        (redis.delete now (attempts id) (redis.delete now (otp id) s)) after
      ∙ redis.get-delete now later (attempts id) (otp id) (redis.delete now (otp id) s) after
      ∙ redis.get-delete now later (otp id) (otp id) s after
      ∙ rw (==-refl id) refl

  -- A customer who sets a first password with an emailed code (the call returns) is a customer of
  -- the store with that contact and had no password, and the code was the one that waits in the cache
  -- for them. From then on they log in at the store with
  -- the same contact and that password and get the same answer, no code waits for them, and another
  -- call that sets a first password is refused. (The password test accepts what the hash came from.)
  pub set_customer_password_roundtrip :
      (now slug contact code password : ℕ) (s t : Site redis crypto) (r : AuthResponse)
      → (later other next : ℕ) → now ≤ later
      → crypto.verify password (crypto.hash password) ≡ true
      → set_customer_password redis crypto now slug contact code password s ≡ (t, ok r)
      → (store : Account) × (c : Customer) × (find_store_id_by_slug slug s.shop ≡ some store)
        × (find_customer_by_email_or_phone contact store.id s.shop ≡ some c)
        × (c.id ≡ r.customer_id)
        × (c.password_hash ≡ none)
        × (redis.get now (otp r.customer_id) s.cache ≡ some (crypto.hash_token code))
        × (authenticate_customer redis crypto slug contact password t ≡ (t, ok r))
        × (redis.get later (otp r.customer_id) t.cache ≡ none)
        × (set_customer_password redis crypto later slug contact other next t
            ≡ (t, err bad_request))
  unfolding set_customer_password authenticate_customer check_password set_first_password
      find_store_id_by_slug update_customer_password_hash set_hash has_password
      build_customer_auth_response
  set_customer_password_roundtrip now slug contact code password s t r later other next after
        accepts e =
      let (store, c, found, present, inner) =
        with_customer-returned slug contact
          (λ store c. set_first_password redis crypto now code password c store.id) s t e in
      let ((without, there, shop, cache), answer) =
        first-returned now code password c store.id s t r inner in
      let store_found : find_store_id_by_slug slug t.shop ≡ some store =
        ap (find_store_id_by_slug slug) shop ∙ found in
      let customer_found : find_customer_by_email_or_phone contact store.id t.shop
          ≡ some (set_hash (crypto.hash password) c) =
        ap (find_customer_by_email_or_phone contact store.id) shop
        ∙ updated-found c.id (crypto.hash password) contact store.id s.shop present refl in
      let same : r.customer_id ≡ c.id = ap (λ (x : AuthResponse). x.customer_id) answer in
      (
        store,
        c,
        found,
        present,
        sym same,
        no_password c without,
        ap (λ id. redis.get now (otp id) s.cache) same ∙ there,
        with_customer-found slug contact (check_password redis crypto password) t store_found
              customer_found
            ∙ rw accepts (ap (λ x. (t, ok x)) (sym answer)),
        ap (λ id. redis.get later (otp id) t.cache) same
            ∙ ap (redis.get later (otp c.id)) cache
            ∙ code-consumed now later c.id s.cache after,
        with_customer-found slug contact
            (λ store c. set_first_password redis crypto later other next c store.id) t store_found
            customer_found,
      )
