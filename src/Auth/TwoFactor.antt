-- ===== src/Auth/TwoFactor.antt =====
-- `TwoFactorService` over the columns of its accounts. The check of a one-time code and sha256 are
-- third-party code and parameters; a new secret and new backup codes are given.
use v_backend.Base.{
  ℕ, Bool, true, false, ◌&&◌, not, List, [], ◌∷◌, map, Option, none, some, ◌==◌, if◌then◌else◌,
  find_row, update_rows, includes, length, ok, err, bad_request,
}
use v_backend.Base.Effects.{Effect}

pub record Account : Type 0 where
  pub id : ℕ
  pub two_factor_enabled : Bool
  pub two_factor_secret : Option ℕ
  pub two_factor_backup : List ℕ

abbrev pub Accounts : Type 0
Accounts = List Account

pub record Verifier : Type 0 where
  pub verify : ℕ → ℕ → Bool
  pub hash : List ℕ → ℕ

unfoldable pub find_account : ℕ → Accounts → Option Account
find_account id = find_row λ a. a.id == id

unfoldable pub update_account : ℕ → (Account → Account) → Accounts → Accounts
update_account id = update_rows λ a. a.id == id

unfoldable pub update_two_factor_secret : ℕ → ℕ → Accounts → Accounts
unfolding update_account
update_two_factor_secret id secret =
    update_account id λ a. record a { two_factor_secret = some secret }

unfoldable pub set_enabled : ℕ → Accounts → Accounts
unfolding update_account
set_enabled id = update_account id λ a. record a { two_factor_enabled = true }

unfoldable pub set_disabled : ℕ → Accounts → Accounts
unfolding update_account
set_disabled id =
    update_account id λ a. record a { two_factor_enabled = false; two_factor_secret = none }

unfoldable pub update_backup_codes : ℕ → List ℕ → Accounts → Accounts
unfolding update_account
update_backup_codes id codes = update_account id λ a. record a { two_factor_backup = codes }

-- The account of a request, or a 400.
unfoldable pub with_account : {A : Type 0} → ℕ → (Account → Effect Accounts A) → Effect Accounts A
unfolding find_account
with_account id rest s = elim (find_account id s) [
  | none ↦ (s, err bad_request)
  | some a ↦ rest a s
]

unfoldable pub generate_secret : ℕ → ℕ → Effect Accounts ℕ
unfolding with_account update_two_factor_secret
generate_secret id secret = with_account id λ a s.
    if a.two_factor_enabled
    then (s, err bad_request)
    else (update_two_factor_secret id secret s, ok secret)

-- `code.replace(/-/g, '')`
unfoldable pub without_hyphens : List ℕ → List ℕ
without_hyphens [] = []
without_hyphens (c ∷ cs) = let rest = without_hyphens cs in if c == b'-' then rest else c ∷ rest

-- `splice(indexOf(code), 1)`: the first occurrence goes.
unfoldable pub without_first : List ℕ → ℕ → List ℕ
without_first [] code = []
without_first (c ∷ cs) code = let rest = without_first cs code in if c == code then cs else c ∷ rest

module _ (verifier : Verifier) where
  -- The secret's test of a code; an account without a secret fails it.
  unfoldable pub passes : Account → ℕ → Bool
  passes a token = elim a.two_factor_secret [
    | none ↦ false
    | some secret ↦ verifier.verify token secret
  ]

  unfoldable pub enable_two_factor : ℕ → ℕ → Effect Accounts (Unit {0})
  unfolding with_account passes set_enabled
  enable_two_factor id token = with_account id λ a s.
      if not a.two_factor_enabled && passes a token
      then (set_enabled id s, ok tt)
      else (s, err bad_request)

  unfoldable pub disable_two_factor : ℕ → ℕ → Effect Accounts (Unit {0})
  unfolding with_account passes set_disabled
  disable_two_factor id token = with_account id λ a s.
      if a.two_factor_enabled && passes a token
      then (set_disabled id s, ok tt)
      else (s, err bad_request)

  unfoldable pub disable_two_factor_without_code : ℕ → Effect Accounts (Unit {0})
  unfolding with_account set_disabled
  disable_two_factor_without_code id =
      with_account id
        λ a s. if a.two_factor_enabled then (set_disabled id s, ok tt) else (s, err bad_request)

  unfoldable pub verify_token : ℕ → ℕ → Accounts → Bool
  unfolding find_account passes
  verify_token id token s = elim (find_account id s) [
    | none ↦ false
    | some a ↦ a.two_factor_enabled && passes a token
  ]

  unfoldable pub hash_code : List ℕ → ℕ
  unfolding without_hyphens
  hash_code code = verifier.hash (without_hyphens code)

  unfoldable pub generate_backup_codes : ℕ → List (List ℕ) → Accounts → Accounts
  unfolding update_backup_codes hash_code
  generate_backup_codes id codes = update_backup_codes id (map hash_code codes)

  -- The answer, with what an accepted code leaves.
  unfoldable pub use_backup_code : ℕ → List ℕ → Account → Accounts → Accounts × Bool
  unfolding hash_code without_first update_backup_codes without_hyphens includes
  use_backup_code id code a s =
      let hashed = hash_code (without_hyphens code) in
      if a.two_factor_enabled && includes a.two_factor_backup hashed
      then (update_backup_codes id (without_first a.two_factor_backup hashed) s, true)
      else (s, false)

  unfoldable pub verify_backup_code : ℕ → List ℕ → Accounts → Accounts × Bool
  unfolding find_account use_backup_code
  verify_backup_code id code s = elim (find_account id s) [
    | none ↦ (s, false)
    | some a ↦ use_backup_code id code a s
  ]

  unfoldable pub get_remaining_backup_codes_count : ℕ → Accounts → ℕ
  unfolding find_account
  get_remaining_backup_codes_count id s = elim (find_account id s) [
    | none ↦ 0
    | some a ↦ length a.two_factor_backup
  ]
