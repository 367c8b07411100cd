-- ===== src/Auth/Sessions.antt =====
-- Tokens after a logout.
use v_backend.Base.{
  ℕ, ◌+◌, ◌*◌, ◌-◌, ◌≤◌, ◌<◌, true, false, none, some, ◌==◌, ==-refl, ltb, if◌then◌else◌, ok, err,
  internal, unauthorized, ◌≡◌, refl, ◌∙◌, ap, ◌⊎◌, inl, inr, arith, Bool-cases, Result-cases,
}
use v_backend.Cache.{Redis, blacklist, same_key}
use v_backend.Auth.Tokens.{
  TokenType, access, refresh, TokenPayload, Jwt, AuthResponse, is_type, plan_or_free, remaining,
  generate_tokens, verify_token, add_to_blacklist, is_blacklisted, revoke, refresh_tokens,
  as_unauthorized, handle_refresh, can_activate, log_out_of, handle_logout,
}

module _ (redis : Redis) (jwt : Jwt) (access_ttl refresh_ttl : ℕ) where
  revoke-other :
      (now later : ℕ) (token : jwt.Token) (ttl k : ℕ) (p : TokenPayload) (s : redis.State)
      → now ≤ later
      → (jwt.hash_token token == k) ≡ false
      → redis.get later (blacklist k) (revoke redis jwt access_ttl refresh_ttl now token ttl p s)
        ≡ redis.get later (blacklist k) s
  unfolding revoke add_to_blacklist same_key
  revoke-other now later token ttl k p s after other =
      elim (Bool-cases (ltb 0 (remaining now ttl p.exp))) [
        | inr over ↦ rw over refl
        | inl left ↦ rw left (
            redis.get-set now later (blacklist (jwt.hash_token token)) (blacklist k) 1
              (remaining now ttl p.exp) s after
            ∙ rw other refl)
      ]

  log_out_of-other :
      (wanted : TokenType) (now later ttl : ℕ) (token : jwt.Token) (k : ℕ) (s : redis.State)
      → now ≤ later
      → (jwt.hash_token token == k) ≡ false
      → redis.get later
          (blacklist k)
          (log_out_of redis jwt access_ttl refresh_ttl wanted now ttl (some token) s)
        ≡ redis.get later (blacklist k) s
  unfolding log_out_of
  log_out_of-other wanted now later ttl token k s after other =
      elim (Result-cases (verify_token redis jwt access_ttl refresh_ttl wanted now token)) [
        | inl (p, valid) ↦
            rw (valid, log_out_of) (revoke-other now later token ttl k p s after other)
        | inr (thrown, bad) ↦ rw (bad, log_out_of) refl
      ]

  -- A token of the server, while it lasts.
  verify_signed :
      (wanted : TokenType) (issued now ttl : ℕ) (p : TokenPayload)
      → issued ≤ now
      → now < issued + ttl
      → is_type p.token_type wanted ≡ true
      → verify_token redis jwt access_ttl refresh_ttl wanted now (jwt.sign issued p ttl)
        ≡ ok (record p { exp = some (issued + ttl) })
  unfolding verify_token
  verify_signed wanted issued now ttl p started fresh right =
      rw (jwt.verify-sign issued now ttl p started ∙ valid, right, verify_token) refl
    where
      valid :
          (if ltb now (issued + ttl) then some (record p { exp = some (issued + ttl) }) else none)
          ≡ some (record p { exp = some (issued + ttl) })
      valid = ground arith

  verify_over :
      (wanted : TokenType) (issued now ttl : ℕ) (p : TokenPayload)
      → issued ≤ now
      → ltb now (issued + ttl) ≡ false
      → verify_token redis jwt access_ttl refresh_ttl wanted now (jwt.sign issued p ttl)
        ≡ err internal
  unfolding verify_token
  verify_over wanted issued now ttl p started over =
      rw (jwt.verify-sign issued now ttl p started, over, verify_token) refl

  -- The entry that a logout makes lasts as long as the token.
  logged_out :
      (issued out later : ℕ) (p : TokenPayload) (s : redis.State)
      → issued ≤ out
      → out ≤ later
      → later < issued + access_ttl
      → p.token_type ≡ access
      → redis.get later (blacklist (jwt.hash_token (jwt.sign issued p access_ttl))) (
          log_out_of redis jwt access_ttl refresh_ttl access out 86400
            (some (jwt.sign issued p access_ttl))
            s)
        ≡ some 1
  unfolding log_out_of revoke add_to_blacklist remaining is_type same_key
  logged_out issued out later p s started after fresh right =
      let token = jwt.sign issued p access_ttl in
      let left : ltb 0 (issued + access_ttl - out) ≡ true = ground arith in
      let lasts : ltb later (out + (issued + access_ttl - out)) ≡ true = ground arith in
      rw
        (
          verify_signed access issued out access_ttl p started (ground arith) (rw right refl),
          log_out_of,
        )
        (rw left (
          redis.get-set out later (blacklist (jwt.hash_token token))
            (blacklist (jwt.hash_token token)) 1 (issued + access_ttl - out) s after
          ∙ rw (==-refl (jwt.hash_token token), lasts) refl))

  blacklisted :
      (later : ℕ) (token : jwt.Token) (s : redis.State)
      → redis.get later (blacklist (jwt.hash_token token)) s ≡ some 1
      → is_blacklisted redis jwt access_ttl refresh_ttl later token s ≡ true
  unfolding is_blacklisted
  blacklisted later token s there = rw (there, is_blacklisted) refl

  guard_refuses :
      (later : ℕ) (token : jwt.Token) (s : redis.State)
      → (redis.get later (blacklist (jwt.hash_token token)) s ≡ some 1)
        ⊎ (verify_token redis jwt access_ttl refresh_ttl access later token ≡ err internal)
      → can_activate redis jwt access_ttl refresh_ttl later (some token) s ≡ err unauthorized
  unfolding can_activate
  guard_refuses later token s (inl there) = rw (blacklisted later token s there, can_activate) refl
  guard_refuses later token s (inr bad) =
      elim (Bool-cases (is_blacklisted redis jwt access_ttl refresh_ttl later token s)) [
        | inl revoked ↦ rw (revoked, can_activate) refl
        | inr other ↦ rw (other, bad, can_activate) refl
      ]

  -- The tokens that a refresh hands out.
  abbrev renewed : ℕ → TokenPayload → AuthResponse jwt.Token
  renewed later p =
      generate_tokens redis jwt access_ttl refresh_ttl later
        (record p { plan_type = some (plan_or_free p.plan_type) })

  refresh_renews :
      (later : ℕ) (token : jwt.Token) (p : TokenPayload) (s : redis.State)
      → verify_token redis jwt access_ttl refresh_ttl refresh later token ≡ ok p
      → refresh_tokens redis jwt access_ttl refresh_ttl later token s ≡ (
        revoke redis jwt access_ttl refresh_ttl later token refresh_ttl p s,
        ok (renewed later p),
      )
  unfolding refresh_tokens
  refresh_renews later token p s valid = rw (valid, refresh_tokens) refl

  refresh_accepts :
      (later : ℕ) (token : jwt.Token) (p : TokenPayload) (s : redis.State)
      → verify_token redis jwt access_ttl refresh_ttl refresh later token ≡ ok p
      → handle_refresh redis jwt access_ttl refresh_ttl later (some token) s ≡ (
        revoke redis jwt access_ttl refresh_ttl later token refresh_ttl p s,
        ok (renewed later p),
      )
  unfolding handle_refresh as_unauthorized
  refresh_accepts later token p s valid =
      ap (as_unauthorized redis jwt access_ttl refresh_ttl) (refresh_renews later token p s valid)

  -- What a seller holds after a login.
  abbrev pub session : ℕ → TokenPayload → AuthResponse jwt.Token
  session issued p = generate_tokens redis jwt access_ttl refresh_ttl issued p

  -- After a logout with both tokens of a session the access token is refused at every later time. The
  -- refresh token is not: as long as it lasts (at any time soon after the logout) it is still
  -- exchanged for a new pair of tokens, since nothing looks it up in the blacklist that the logout
  -- writes. (The two tokens have two hashes.)
  pub logout_lem :
      (issued out later soon : ℕ) (p : TokenPayload) (s : redis.State)
      → issued ≤ out
      → out ≤ later
      → out ≤ soon
      → soon < issued + refresh_ttl
      → (jwt.hash_token (session issued p).refresh_token
          == jwt.hash_token (session issued p).access_token)
        ≡ false
      → (can_activate redis jwt access_ttl refresh_ttl later
            (some (session issued p).access_token)
            (handle_logout redis jwt access_ttl refresh_ttl out
              (some (session issued p).access_token)
              (some (session issued p).refresh_token)
              s)
          ≡ err unauthorized)
        × ((t : redis.State) × (tokens : AuthResponse jwt.Token) × (handle_refresh redis jwt
                access_ttl refresh_ttl soon
                (some (session issued p).refresh_token)
                (handle_logout redis jwt access_ttl refresh_ttl out
                  (some (session issued p).access_token)
                  (some (session issued p).refresh_token)
                  s)
              ≡ (t, ok tokens)))
  unfolding generate_tokens handle_logout is_type
  logout_lem issued out later soon p s started after within_time fresh two = (
    guard_refuses later first left (elim (Bool-cases (ltb later (issued + access_ttl))) [
      | inl lasts ↦ inl (
          log_out_of-other refresh out later (7 * 86400) second (jwt.hash_token first) within after
            two
          ∙ logged_out issued out later mine s started after (ground arith) refl)
      | inr over ↦ inr (verify_over access issued later access_ttl mine (ground arith) over)
    ]),
    (
      revoke redis jwt access_ttl refresh_ttl soon second refresh_ttl long left,
      renewed soon long,
      refresh_accepts soon second long left (
          verify_signed refresh issued soon refresh_ttl (record mine { token_type = refresh })
            (ground arith) fresh refl),
    ),
  )
    where
      mine : TokenPayload
      mine = record p { seller_id = none; token_type = access; exp = none }

      long : TokenPayload
      long = record mine { token_type = refresh; exp = some (issued + refresh_ttl) }

      first : jwt.Token
      first = jwt.sign issued mine access_ttl

      second : jwt.Token
      second = jwt.sign issued (record mine { token_type = refresh }) refresh_ttl

      within : redis.State
      within = log_out_of redis jwt access_ttl refresh_ttl access out 86400 (some first) s

      left : redis.State
      left = handle_logout redis jwt access_ttl refresh_ttl out (some first) (some second) s
