-- ===== src/Catalog/Access.antt =====
-- `CatalogService`: passwords of customers. Hashing, the generator of codes and tokens, and the signer
-- of tokens are third-party code and parameters; emails are values.
use mathlib.Core.Option
use v_backend.Base.{
  ℕ, ◌+◌, ◌*◌, Bool, true, false, not, ◌&&◌, List, ◌∷◌, Option, none, some, ◌==◌, leb,
  if◌then◌else◌, Result, ok, err, bad_request, not_found, unauthorized,
}
use v_backend.Base.Effects.{Effect, ◌>>◌, return, throw}
use v_backend.Catalog.Data.{Account, Customer, Shop}
use v_backend.Cache.{Redis, Key, otp, attempts, cooldown, invite}
use v_backend.Catalog.Customers.{
  find_store_id_by_slug, find_customer_by_id, find_customer_by_email_or_phone,
  update_customer_password_hash,
}

abbrev pub otp_ttl_seconds : ℕ
otp_ttl_seconds = 600

abbrev pub otp_max_attempts : ℕ
otp_max_attempts = 5

abbrev pub otp_resend_cooldown_seconds : ℕ
otp_resend_cooldown_seconds = 60

abbrev pub invite_ttl_seconds : ℕ
invite_ttl_seconds = 7 * 24 * 60 * 60

-- What the service calls: sha256 of a code or token, argon2 and its test, and the token's signature.
pub record Crypto : Type 0 where
  pub hash_token : ℕ → ℕ
  pub hash : ℕ → ℕ
  pub verify : ℕ → ℕ → Bool
  pub sign_customer_token : ℕ → ℕ → ℕ

-- An answer to a customer who has logged in.
pub record AuthResponse : Type 0 where
  pub token : ℕ
  pub customer_id : ℕ

-- `Number(text)`: of null it is 0.
unfoldable pub number_of : Option ℕ → ℕ
number_of none = 0
number_of (some n) = n

-- `password_hash !== null`
unfoldable pub has_password : Customer → Bool
has_password c = elim c.password_hash [ none ↦ false | some hash ↦ true ]

module _ (redis : Redis) (crypto : Crypto) where
  -- The tables, the cache, and the codes that have been emailed: the address with the code.
  pub record Site : Type 0 where
    pub shop : Shop
    pub cache : redis.State
    pub emails : List (ℕ × ℕ)

  unfoldable pub miss : ℕ → ℕ → redis.State → redis.State
  unfolding number_of
  miss now customer_id s =
      let count = number_of (redis.get now (attempts customer_id) s) + 1 in
      if leb otp_max_attempts count
      then redis.delete now (attempts customer_id) (redis.delete now (otp customer_id) s)
      else redis.set_with_expiry now (attempts customer_id) count otp_ttl_seconds s

  unfoldable pub verify_otp_or_throw : ℕ → ℕ → ℕ → Effect redis.State (Unit {0})
  unfolding miss
  verify_otp_or_throw now customer_id code s = elim (redis.get now (otp customer_id) s) [
    | none ↦ (s, err unauthorized)
    | some stored ↦
        if stored == crypto.hash_token code
        then (s, ok tt)
        else (miss now customer_id s, err unauthorized)
  ]

  -- What a new code leaves in the cache.
  unfoldable pub issue : ℕ → ℕ → ℕ → redis.State → redis.State
  issue now customer_id code s =
      redis.set_with_expiry now (cooldown customer_id) 1 otp_resend_cooldown_seconds (
        redis.delete now (attempts customer_id)
          (redis.set_with_expiry now (otp customer_id) (crypto.hash_token code) otp_ttl_seconds s))

  unfoldable pub exists : ℕ → Key → redis.State → Bool
  exists now k s = elim (redis.get now k s) [ none ↦ false | some value ↦ true ]

  -- The address that a code goes to: of a customer without a password, outside the cooldown.
  unfoldable pub address_for_code : ℕ → Customer → redis.State → Option ℕ
  unfolding exists
  address_for_code now c s =
      if not (has_password c) && not (exists now (cooldown c.id) s) then c.email else none

  unfoldable pub send_code : ℕ → ℕ → Customer → Site → Site
  unfolding address_for_code issue
  send_code now code c s = elim (address_for_code now c s.cache) [
    | none ↦ s
    | some email ↦ record s {
      cache = issue now c.id code s.cache;
      emails = (email, code) ∷ s.emails;
    }
  ]

  -- The answer is the same on every branch.
  unfoldable pub request_password_otp : ℕ → ℕ → ℕ → ℕ → Effect Site (Unit {0})
  unfolding send_code find_store_id_by_slug find_customer_by_email_or_phone
  request_password_otp now slug contact code s = elim (find_store_id_by_slug slug s.shop) [
    | none ↦ (s, ok tt)
    | some store ↦ elim (find_customer_by_email_or_phone contact store.id s.shop) [
      | none ↦ (s, ok tt)
      | some c ↦ (send_code now code c s, ok tt)
    ]
  ]

  unfoldable pub build_customer_auth_response : Customer → ℕ → AuthResponse
  build_customer_auth_response c store_id = record {
    token = crypto.sign_customer_token c.id store_id;
    customer_id = c.id;
  }

  -- A call on the cache alone.
  abbrev pub on_cache : {A : Type 0} → Effect redis.State A → Effect Site A
  on_cache call s = let done = call s.cache in (record s { cache = done.0 }, done.1)

  unfoldable pub save_password : ℕ → ℕ → Site → Site
  unfolding update_customer_password_hash
  save_password id password s = record s {
    shop = update_customer_password_hash id (crypto.hash password) s.shop;
  }

  unfoldable pub consume_code : ℕ → ℕ → redis.State → redis.State
  consume_code now id s =
      redis.delete now (cooldown id) (redis.delete now (attempts id) (redis.delete now (otp id) s))

  -- `setCustomerPassword` once the code is verified.
  unfoldable pub finish_password : ℕ → ℕ → Customer → ℕ → Effect Site AuthResponse
  unfolding save_password consume_code build_customer_auth_response
  finish_password now password c store_id s = (
    record (save_password c.id password s) { cache = consume_code now c.id s.cache },
    ok (build_customer_auth_response c store_id),
  )

  -- The rest of `setCustomerPassword` for a customer that was found.
  unfoldable pub set_first_password : ℕ → ℕ → ℕ → Customer → ℕ → Effect Site AuthResponse
  unfolding verify_otp_or_throw finish_password
  set_first_password now code password c store_id =
      if has_password c
      then throw bad_request
      else (on_cache (verify_otp_or_throw now c.id code) >> finish_password now password c store_id)

  -- The store of the slug, and its customer with the contact.
  unfoldable pub with_customer :
      {A : Type 0} → ℕ → ℕ → (Account → Customer → Effect Site A) → Effect Site A
  unfolding find_store_id_by_slug find_customer_by_email_or_phone
  with_customer slug contact rest s = elim (find_store_id_by_slug slug s.shop) [
    | none ↦ (s, err not_found)
    | some store ↦ elim (find_customer_by_email_or_phone contact store.id s.shop) [
      | none ↦ (s, err not_found)
      | some c ↦ rest store c s
    ]
  ]

  unfoldable pub set_customer_password : ℕ → ℕ → ℕ → ℕ → ℕ → Effect Site AuthResponse
  unfolding with_customer set_first_password
  set_customer_password now slug contact code password =
      with_customer slug contact λ store c. set_first_password now code password c store.id

  unfoldable pub check_password : ℕ → Account → Customer → Effect Site AuthResponse
  unfolding build_customer_auth_response
  check_password password store c = elim c.password_hash [
    | none ↦ throw bad_request
    | some hash ↦
        if crypto.verify password hash
        then return (build_customer_auth_response c store.id)
        else throw unauthorized
  ]

  unfoldable pub authenticate_customer : ℕ → ℕ → ℕ → Effect Site AuthResponse
  unfolding with_customer check_password
  authenticate_customer slug contact password = with_customer slug contact (check_password password)

  -- `found`, and `hasPassword` of the customer.
  unfoldable pub lookup_customer : ℕ → ℕ → Site → Result (Option Bool)
  unfolding find_store_id_by_slug find_customer_by_email_or_phone
  lookup_customer slug contact s = elim (find_store_id_by_slug slug s.shop) [
    | none ↦ err not_found
    | some store ↦
        ok (Option.map has_password (find_customer_by_email_or_phone contact store.id s.shop))
  ]

  pub record Invite : Type 0 where
    pub token : ℕ
    pub is_reset : Bool

  unfoldable pub create_customer_password_invite : ℕ → ℕ → ℕ → ℕ → Effect Site Invite
  unfolding find_customer_by_id
  create_customer_password_invite now token seller_id customer_id s =
      elim (find_customer_by_id customer_id s.shop) [
        | none ↦ (s, err not_found)
        | some c ↦
            if c.seller_id == seller_id
            then (
              record s {
                cache =
                    redis.set_with_expiry now (invite (crypto.hash_token token)) c.id
                      invite_ttl_seconds s.cache;
              },
              ok (record { token = token; is_reset = has_password c }),
            )
            else (s, err not_found)
      ]

  unfoldable pub accept_invite : ℕ → ℕ → ℕ → Customer → ℕ → Effect Site AuthResponse
  unfolding save_password build_customer_auth_response
  accept_invite now token password c store_id s =
      if c.seller_id == store_id
      then (
        record (save_password c.id password s) {
          cache = redis.delete now (invite (crypto.hash_token token)) s.cache;
        },
        ok (build_customer_auth_response c store_id),
      )
      else (s, err unauthorized)

  unfoldable pub redeem_password_invite : ℕ → ℕ → ℕ → ℕ → Effect Site AuthResponse
  unfolding find_store_id_by_slug find_customer_by_id accept_invite
  redeem_password_invite now slug token password s = elim (find_store_id_by_slug slug s.shop) [
    | none ↦ (s, err not_found)
    | some store ↦ elim (redis.get now (invite (crypto.hash_token token)) s.cache) [
      | none ↦ (s, err unauthorized)
      | some customer_id ↦ elim (find_customer_by_id customer_id s.shop) [
        | none ↦ (s, err unauthorized)
        | some c ↦ accept_invite now token password c store.id s
      ]
    ]
  ]
