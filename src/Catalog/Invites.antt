-- ===== src/Catalog/Invites.antt =====
-- Invites of `CatalogService` by which customers set a password.
use v_backend.Base.{
  ℕ, ◌≤◌, none, some, ◌==◌, ==_iff, ==-refl, Result, ok, err, HttpError, ok-injective, not_found,
  unauthorized, ◌≡◌, refl, sym, ◌∙◌, ap, inl, inr, Bool-cases, Option-cases, find_row-meets,
}
use v_backend.Catalog.Data.{Account, Customer}
use v_backend.Cache.{Redis, invite, same_key}
use v_backend.Catalog.Customers.{
  find_store_id_by_slug, find_customer_by_id, update_customer_password_hash,
}
use v_backend.Catalog.Access.{
  Crypto, Site, AuthResponse, save_password, build_customer_auth_response, accept_invite,
  redeem_password_invite,
}

module _ (redis : Redis) (crypto : Crypto) where
  redeem-returned :
      (now slug token password : ℕ) (s t : Site redis crypto) (r : AuthResponse)
      → redeem_password_invite redis crypto now slug token password s ≡ (t, ok r)
      → (store : Account) × (c : Customer) × (id : ℕ) × (find_store_id_by_slug slug s.shop
          ≡ some store)
        × (redis.get now (invite (crypto.hash_token token)) s.cache ≡ some id)
        × (find_customer_by_id id s.shop ≡ some c)
        × (accept_invite redis crypto now token password c store.id s ≡ (t, ok r))
  unfolding redeem_password_invite
  redeem-returned now slug token password s t r e =
      elim (Option-cases (find_store_id_by_slug slug s.shop)) [
        | inl missing ↦ let impossible = rw (missing, redeem_password_invite) at e in cc
        | inr (store, found) ↦
            let first = rw (found, redeem_password_invite) at e in
            elim (Option-cases (redis.get now (invite (crypto.hash_token token)) s.cache)) [
              | inl gone ↦ let impossible = rw gone at first in cc
              | inr (id, there) ↦
                  let second = rw there at first in
                  elim (Option-cases (find_customer_by_id id s.shop)) [
                    | inl nobody ↦ let impossible = rw nobody at second in cc
                    | inr (c, present) ↦ (store, c, id, found, there, present, rw present at second)
                  ]
            ]
      ]

  accept-returned :
      (now token password : ℕ) (c : Customer) (store_id : ℕ) (s t : Site redis crypto)
      (r : AuthResponse)
      → accept_invite redis crypto now token password c store_id s ≡ (t, ok r)
      → (c.seller_id ≡ store_id)
        × (r ≡ build_customer_auth_response redis crypto c store_id)
        × (t.shop ≡ update_customer_password_hash c.id (crypto.hash password) s.shop)
        × (t.cache ≡ redis.delete now (invite (crypto.hash_token token)) s.cache)
  unfolding accept_invite save_password
  accept-returned now token password c store_id s t r e =
      elim (Bool-cases (c.seller_id == store_id)) [
        | inl own ↦
            let over = rw own at e in
            (
              (==_iff c.seller_id store_id).0 own,
              ok-injective (ap (λ (x : Site redis crypto × Result AuthResponse). x.1) (sym over)),
              ap (λ (x : Site redis crypto × Result AuthResponse). x.0.shop) (sym over),
              ap (λ (x : Site redis crypto × Result AuthResponse). x.0.cache) (sym over),
            )
        | inr other ↦ let impossible = rw other at e in cc
      ]

  redeem-used :
      (later slug token password : ℕ) (t : Site redis crypto)
      → redis.get later (invite (crypto.hash_token token)) t.cache ≡ none
      → (thrown : HttpError) × (redeem_password_invite redis crypto later slug token password t
          ≡ (t, err thrown))
  unfolding redeem_password_invite
  redeem-used later slug token password t gone =
      elim (Option-cases (find_store_id_by_slug slug t.shop)) [
        | inl missing ↦ (not_found, rw (missing, redeem_password_invite) refl)
        | inr (store, found) ↦ (unauthorized, rw (found, redeem_password_invite, gone) refl)
      ]

  -- An invite that is redeemed (the call returns) was waiting in the cache for a customer of the store
  -- of that slug, who gets the password; and it is used up: at any later time, in any store, the same
  -- token is refused and changes nothing.
  pub redeem_password_invite_once :
      (now slug token password : ℕ) (s t : Site redis crypto) (r : AuthResponse)
      → (later elsewhere another : ℕ) → now ≤ later
      → redeem_password_invite redis crypto now slug token password s ≡ (t, ok r)
      → (store : Account) × (c : Customer) × (thrown : HttpError) × (find_store_id_by_slug slug
            s.shop
          ≡ some store)
        × (redis.get now (invite (crypto.hash_token token)) s.cache ≡ some r.customer_id)
        × (find_customer_by_id r.customer_id s.shop ≡ some c)
        × (c.seller_id ≡ store.id)
        × (t.shop ≡ update_customer_password_hash r.customer_id (crypto.hash password) s.shop)
        × (redeem_password_invite redis crypto later elsewhere token another t ≡ (t, err thrown))
  unfolding build_customer_auth_response find_customer_by_id same_key
  redeem_password_invite_once now slug token password s t r later elsewhere another after e =
      let (store, c, id, found, there, present, inner) =
        redeem-returned now slug token password s t r e in
      let (own, answer, shop, cache) = accept-returned now token password c store.id s t r inner in
      let key : c.id ≡ id =
        (==_iff c.id id).0
          (find_row-meets (λ (x : Customer). x.id == id) s.shop.customers present) in
      let same : id ≡ r.customer_id =
        sym key ∙ ap (λ (x : AuthResponse). x.customer_id) (sym answer) in
      let used : redis.get later (invite (crypto.hash_token token)) t.cache ≡ none =
        ap (redis.get later (invite (crypto.hash_token token))) cache
        ∙ redis.get-delete now later (invite (crypto.hash_token token))
            (invite (crypto.hash_token token)) s.cache after
        ∙ rw (==-refl (crypto.hash_token token)) refl in
      let (thrown, refused) = redeem-used later elsewhere token another t used in
      (
        store,
        c,
        thrown,
        found,
        there ∙ ap some same,
        ap (λ x. find_customer_by_id x s.shop) (sym same) ∙ present,
        own,
        shop ∙ ap (λ x. update_customer_password_hash x (crypto.hash password) s.shop) (key ∙ same),
        refused,
      )
