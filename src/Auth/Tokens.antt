-- ===== src/Auth/Tokens.antt =====
-- `TokenService`, `TokenBlacklistService`, `JwtAuthGuard` and the logout. Signing and verifying a token
-- is third-party code and an interface with its laws; times are in seconds.
use v_backend.Base.{
  ℕ, ◌+◌, ◌*◌, ◌-◌, ◌≤◌, Bool, true, false, ◌&&◌, List, [], ◌∷◌, Option, none, some, ◌==◌, leb, ltb,
  if◌then◌else◌, Result, ok, err, internal, unauthorized, ◌≡◌,
}
use v_backend.Base.Effects.{Effect}
use v_backend.Cache.{Redis, blacklist}
use v_backend.Plans.Exceptions.{PlanType, free}

pub data TokenType : Type 0 where
  access refresh customer_access : TokenType

pub record TokenPayload : Type 0 where
  pub sub : ℕ
  pub role : ℕ
  pub plan_type : Option PlanType
  pub seller_id : Option ℕ
  pub token_type : TokenType
  pub exp : Option ℕ

-- RS256 with the keys of the server: what is signed for a time verifies within it.
pub record Jwt : Type 1 where
  pub Token : Type 0
  pub sign : ℕ → TokenPayload → ℕ → Token
  pub verify : ℕ → Token → Option TokenPayload
  pub hash_token : Token → ℕ
  pub verify-sign :
      (now later ttl : ℕ) (p : TokenPayload)
      → now ≤ later
      → verify later (sign now p ttl)
        ≡ (if ltb later (now + ttl) then some (record p { exp = some (now + ttl) }) else none)

unfoldable pub seconds_in : ℕ → ℕ → ℕ
seconds_in unit n =
    if unit == b's'
    then n
    else (if unit == b'm'
        then n * 60
        else (if unit == b'h' then n * 3600 else (if unit == b'd' then n * 86400 else 86400)))

-- The digits read so far, and the rest of the text.
unfoldable pub parse_from : Option ℕ → List ℕ → ℕ
unfolding seconds_in
parse_from digits [] = 86400
parse_from none (c ∷ cs) =
    let rest = parse_from (some (c - b'0')) cs in if leb b'0' c && leb c b'9' then rest else 86400
parse_from (some n) (c ∷ cs) =
    let rest = parse_from (some (10 * n + (c - b'0'))) cs in
    if leb b'0' c && leb c b'9' then rest else elim cs [ [] ↦ seconds_in c n | d ∷ ds ↦ 86400 ]

unfoldable pub parse_expires_in : List ℕ → ℕ
unfolding parse_from
parse_expires_in value = parse_from none value

pub record AuthResponse (Token : Type 0) : Type 0 where
  pub access_token : Token
  pub refresh_token : Token
  pub expires_in : ℕ

unfoldable pub is_type : TokenType → TokenType → Bool
is_type access access = true
is_type refresh refresh = true
is_type customer_access customer_access = true
is_type a b = false

-- The plan of a token issued before the field was added.
unfoldable pub plan_or_free : Option PlanType → PlanType
plan_or_free none = free
plan_or_free (some plan) = plan

-- `payload.exp ? payload.exp - now : ttl`
unfoldable pub remaining : ℕ → ℕ → Option ℕ → ℕ
remaining now ttl none = ttl
remaining now ttl (some exp) = exp - now

module _ (redis : Redis) (jwt : Jwt) (access_ttl refresh_ttl : ℕ) where
  unfoldable pub generate_tokens : ℕ → TokenPayload → AuthResponse jwt.Token
  generate_tokens now p = record {
    access_token =
        jwt.sign now (record p { seller_id = none; token_type = access; exp = none }) access_ttl;
    refresh_token =
        jwt.sign now (record p { seller_id = none; token_type = refresh; exp = none }) refresh_ttl;
    expires_in = access_ttl;
  }

  -- `verifyAccessToken`, `verifyRefreshToken` and `verifyCustomerToken`, by the type that they ask for.
  unfoldable pub verify_token : TokenType → ℕ → jwt.Token → Result TokenPayload
  unfolding is_type
  verify_token wanted now token = elim (jwt.verify now token) [
    | none ↦ err internal
    | some p ↦ if is_type p.token_type wanted then ok p else err internal
  ]

  unfoldable pub sign_customer_token : ℕ → ℕ → ℕ → jwt.Token
  sign_customer_token now customer_id seller_id =
      jwt.sign now
        (record {
          sub = customer_id;
          role = 0;
          plan_type = none;
          seller_id = some seller_id;
          token_type = customer_access;
          exp = none;
        })
        (7 * 24 * 3600)

  unfoldable pub add_to_blacklist : ℕ → jwt.Token → ℕ → redis.State → redis.State
  add_to_blacklist now token ttl s =
      redis.set_with_expiry now (blacklist (jwt.hash_token token)) 1 ttl s

  unfoldable pub is_blacklisted : ℕ → jwt.Token → redis.State → Bool
  is_blacklisted now token s = elim (redis.get now (blacklist (jwt.hash_token token)) s) [
    | none ↦ false
    | some value ↦ true
  ]

  -- `if (expiresIn > 0) await addToBlacklist(token, expiresIn)`
  unfoldable pub revoke : ℕ → jwt.Token → ℕ → TokenPayload → redis.State → redis.State
  unfolding add_to_blacklist remaining
  revoke now token ttl p s =
      let left = remaining now ttl p.exp in
      if ltb 0 left then add_to_blacklist now token left s else s

  unfoldable pub refresh_tokens : ℕ → jwt.Token → Effect redis.State (AuthResponse jwt.Token)
  unfolding verify_token revoke generate_tokens plan_or_free
  refresh_tokens now token s = elim (verify_token refresh now token) [
    | err thrown ↦ (s, err thrown)
    | ok p ↦ (
      revoke now token refresh_ttl p s,
      ok (generate_tokens now (record p { plan_type = some (plan_or_free p.plan_type) })),
    )
  ]

  -- `catch { throw new UnauthorizedException(...) }`
  unfoldable pub as_unauthorized :
      redis.State × Result (AuthResponse jwt.Token) → redis.State × Result (AuthResponse jwt.Token)
  as_unauthorized (s, err thrown) = (s, err unauthorized)
  as_unauthorized (s, ok tokens) = (s, ok tokens)

  -- `RefreshTokenController`, a public route.
  unfoldable pub handle_refresh : ℕ → Option jwt.Token → Effect redis.State (AuthResponse jwt.Token)
  unfolding refresh_tokens as_unauthorized
  handle_refresh now none s = (s, err unauthorized)
  handle_refresh now (some token) s = as_unauthorized (refresh_tokens now token s)

  -- `JwtAuthGuard` on a route that is not public.
  unfoldable pub can_activate : ℕ → Option jwt.Token → redis.State → Result TokenPayload
  unfolding is_blacklisted verify_token
  can_activate now none s = err unauthorized
  can_activate now (some token) s =
      if is_blacklisted now token s
      then err unauthorized
      else elim (verify_token access now token) [ err thrown ↦ err unauthorized | ok p ↦ ok p ]

  -- One of the two steps of the logout.
  unfoldable pub log_out_of : TokenType → ℕ → ℕ → Option jwt.Token → redis.State → redis.State
  unfolding verify_token revoke
  log_out_of wanted now ttl none s = s
  log_out_of wanted now ttl (some token) s = elim (verify_token wanted now token) [
    | err thrown ↦ s
    | ok p ↦ revoke now token ttl p s
  ]

  unfoldable pub handle_logout : ℕ → Option jwt.Token → Option jwt.Token → redis.State → redis.State
  unfolding log_out_of
  handle_logout now access_token refresh_token s =
      log_out_of refresh now (7 * 86400) refresh_token (log_out_of access now 86400 access_token s)
