-- ===== src/Tests/Logins.antt =====
-- A session of a seller, with tokens that spell out what they say.
use v_backend.Auth.TwoFactor.{find_account, hash_code, without_hyphens}
use v_backend.Base.{find_row}
use v_backend.Auth.Tokens.{generate_tokens}
use v_backend.Base.{
  ℕ, ◌+◌, ◌≡◌, refl, Option, none, some, ok, err, unauthorized, arith, ◌==◌, ltb, if◌then◌else◌,
}
use v_backend.Base.{suc, ◌*◌, List, [], ◌∷◌, true, false}
use v_backend.Plans.Exceptions.{pro}
use v_backend.Auth.TwoFactor.{
  Account, Verifier, verify_backup_code, get_remaining_backup_codes_count,
}
use v_backend.Auth.BackupCodes.{verify_backup_code_once}
use v_backend.Auth.Tokens.{
  TokenType, access, refresh, customer_access, TokenPayload, Jwt, AuthResponse, can_activate,
  handle_refresh, handle_logout,
}
use v_backend.Auth.Sessions.{session, logout_lem}
use v_backend.Tests.Storefront.{Memory, memory, empty}

abbrev Text : Type 0
Text = ℕ × TokenPayload × ℕ

-- A token is its contents; the hash tells the types apart.
abbrev code_of : TokenType → ℕ
code_of access = 1
code_of refresh = 2
code_of customer_access = 3

abbrev open_token : ℕ → Text → Option TokenPayload
open_token now (issued, p, ttl) =
    if ltb now (issued + ttl) then some (record p { exp = some (issued + ttl) }) else none

abbrev spelled : Jwt
spelled = record {
  Token = Text;
  sign = λ now p ttl. (now, p, ttl);
  verify = open_token;
  hash_token = λ t. code_of t.1.token_type;
  verify-sign = λ now later ttl p started. refl;
}

abbrev seller : TokenPayload
seller = record {
  sub = 9;
  role = 1;
  plan_type = some pro;
  seller_id = none;
  token_type = access;
  exp = none;
}

abbrev ended : Memory
ended =
    handle_logout memory spelled 86400 604800 500
      (some (session memory spelled 86400 604800 100 seller).access_token)
      (some (session memory spelled 86400 604800 100 seller).refresh_token) empty

logout_lem_example :
    (can_activate memory spelled 86400 604800 900000
        (some (session memory spelled 86400 604800 100 seller).access_token)
        ended
      ≡ err unauthorized)
    × ((t : Memory) × (tokens : AuthResponse Text) × (handle_refresh memory spelled 86400 604800
            1000
            (some (session memory spelled 86400 604800 100 seller).refresh_token)
            ended
          ≡ (t, ok tokens)))
unfolding generate_tokens
logout_lem_example =
    logout_lem memory spelled 86400 604800 100 500 900000 1000 seller empty (omega arith)
      (omega arith) (omega arith) (omega arith) refl

abbrev text_hash : List ℕ → ℕ
text_hash [] = 0
text_hash (c ∷ cs) = c + 256 * text_hash cs

abbrev lenient : Verifier
lenient = record { verify = λ token secret. token == secret; hash = text_hash }

abbrev guarded : Account
guarded = record {
  id = 9;
  two_factor_enabled = true;
  two_factor_secret = some 42;
  two_factor_backup = text_hash (b'A' ∷ b'B' ∷ []) ∷ text_hash (b'C' ∷ b'D' ∷ []) ∷ [];
}

verify_backup_code_once_example :
    (verify_backup_code lenient 9
        (b'A' ∷ b'-' ∷ b'B' ∷ [])
        (verify_backup_code lenient 9 (b'A' ∷ b'B' ∷ []) (guarded ∷ [])).0
      ≡ ((verify_backup_code lenient 9 (b'A' ∷ b'B' ∷ []) (guarded ∷ [])).0, false))
    × (suc (
          get_remaining_backup_codes_count lenient 9
            (verify_backup_code lenient 9 (b'A' ∷ b'B' ∷ []) (guarded ∷ [])).0)
        ≡ get_remaining_backup_codes_count lenient 9 (guarded ∷ []))
    × ((verify_backup_code lenient 9
          (b'C' ∷ b'D' ∷ [])
          (verify_backup_code lenient 9 (b'A' ∷ b'B' ∷ []) (guarded ∷ [])).0).1
        ≡ (verify_backup_code lenient 9 (b'C' ∷ b'D' ∷ []) (guarded ∷ [])).1)
unfolding find_account find_row without_hyphens hash_code verify_backup_code
verify_backup_code_once_example =
    verify_backup_code_once lenient 9 (b'A' ∷ b'B' ∷ []) (b'A' ∷ b'-' ∷ b'B' ∷ [])
      (b'C' ∷ b'D' ∷ []) (guarded ∷ [])
      (verify_backup_code lenient 9 (b'A' ∷ b'B' ∷ []) (guarded ∷ [])).0 guarded refl
      ((refl, tt), (tt, tt)) refl refl refl
