-- ===== src/Auth/BackupCodes.antt =====
-- Backup codes of `TwoFactorService`.
use v_backend.Base.{
  ℕ, suc, Bool, true, false, ◌&&◌, List, [], ◌∷◌, some, ◌==◌, ==_iff, if◌then◌else◌,
  find_row-update_rows, find_row-meets, includes, length, All, ◌≡◌, refl, ap, sym, ◌∙◌, inl, inr,
  arith, Bool-cases,
}
use mathlib.Core.Option
use v_backend.Base.Keys.{HasUniqueKeys}
use v_backend.Auth.TwoFactor.{
  Account, Accounts, Verifier, find_account, update_account, update_backup_codes, without_hyphens,
  without_first, hash_code, use_backup_code, verify_backup_code, get_remaining_backup_codes_count,
}

includes-other : (x : ℕ) (xs : List ℕ) → All (λ y. (y == x) ≡ false) xs → includes xs x ≡ false
unfolding includes
includes-other x [] h = refl
includes-other x (y ∷ ys) h = ground (arith, includes-other x ys h.1)

includes-without_first :
    (xs : List ℕ) (x : ℕ)
    → HasUniqueKeys (λ (n : ℕ). n) xs
    → includes (without_first xs x) x ≡ false
unfolding includes without_first
includes-without_first [] x u = refl
includes-without_first (y ∷ ys) x u = elim (Bool-cases (y == x)) [
  | inl same ↦ rw same (includes-other x ys (rw ((==_iff y x).0 same) at u.0))
  | inr other ↦ rw other (rw other (includes-without_first ys x u.1))
]

length-without_first :
    (xs : List ℕ) (x : ℕ) → includes xs x ≡ true → suc (length (without_first xs x)) ≡ length xs
unfolding includes without_first
length-without_first [] x h = cc
length-without_first (y ∷ ys) x h = elim (Bool-cases (y == x)) [
  | inl same ↦ rw same refl
  | inr other ↦ rw other (ap suc (length-without_first ys x (rw other at h)))
]

without_first-keeps :
    (xs : List ℕ) (x z : ℕ) → (x == z) ≡ false → includes (without_first xs x) z ≡ includes xs z
unfolding includes without_first
without_first-keeps [] x z h = refl
without_first-keeps (y ∷ ys) x z h = elim (Bool-cases (y == x)) [
  | inl same ↦ rw (same, (==_iff y x).0 same, h) refl
  | inr other ↦ rw (other, without_first-keeps ys x z h) refl
]

module _ (verifier : Verifier) where
  -- The account after its codes are written.
  rewritten-found :
      (id : ℕ) (codes : List ℕ) (s : Accounts) {a : Account}
      → find_account id s ≡ some a
      → find_account id (update_backup_codes id codes s)
        ≡ some (record a { two_factor_backup = codes })
  unfolding find_account update_backup_codes update_account
  rewritten-found id codes s {a} found =
      find_row-update_rows (λ (x : Account). x.id == id) (λ x. x.id == id)
        (λ x. record x { two_factor_backup = codes }) s (λ x. refl)
      ∙ ap
          (Option.map {A = Account}
            (λ x. if x.id == id then record x { two_factor_backup = codes } else x))
          found
      ∙ rw (find_row-meets (λ (x : Account). x.id == id) s found) refl

  -- What an accepted code means.
  verify-accepted :
      (id : ℕ) (code : List ℕ) (s t : Accounts) {a : Account}
      → find_account id s ≡ some a
      → verify_backup_code verifier id code s ≡ (t, true)
      → (a.two_factor_enabled ≡ true)
        × (includes a.two_factor_backup (hash_code verifier (without_hyphens code)) ≡ true)
        × (t
            ≡ update_backup_codes id
                (without_first a.two_factor_backup (hash_code verifier (without_hyphens code)))
                s)
  unfolding verify_backup_code use_backup_code
  verify-accepted id code s t {a} found e =
      let inner = rw (found, verify_backup_code) at e in
      elim (Bool-cases (
        a.two_factor_enabled
        && includes a.two_factor_backup (hash_code verifier (without_hyphens code)))) [
          | inr refused ↦ let impossible = rw refused at inner in cc
          | inl accepted ↦
              let over = rw accepted at inner in
              (
                ground (arith, accepted),
                ground (arith, accepted),
                ap (λ (x : Accounts × Bool). x.0) (sym over),
              )
        ]

  verify-found :
      (id : ℕ) (code : List ℕ) (s : Accounts) {a : Account}
      → find_account id s ≡ some a
      → verify_backup_code verifier id code s ≡ use_backup_code verifier id code a s
  unfolding verify_backup_code
  verify-found id code s found = rw (found, verify_backup_code) refl

  -- A backup code that is accepted is used up: the same code, with or without its hyphens, is refused
  -- from then on, one code fewer is left, and a code with another hash is answered as before. (The
  -- account exists, and its stored codes are distinct.)
  pub verify_backup_code_once :
      (id : ℕ) (code same other : List ℕ) (s t : Accounts) (a : Account)
      → find_account id s ≡ some a
      → HasUniqueKeys (λ (n : ℕ). n) a.two_factor_backup
      → without_hyphens same ≡ without_hyphens code
      → (hash_code verifier (without_hyphens code) == hash_code verifier (without_hyphens other))
        ≡ false
      → verify_backup_code verifier id code s ≡ (t, true)
      → (verify_backup_code verifier id same t ≡ (t, false))
        × (suc (get_remaining_backup_codes_count verifier id t)
            ≡ get_remaining_backup_codes_count verifier id s)
        × ((verify_backup_code verifier id other t).1 ≡ (verify_backup_code verifier id other s).1)
  unfolding use_backup_code get_remaining_backup_codes_count
  verify_backup_code_once id code same other s t a found unique alike different e =
      let (enabled, there, left) = verify-accepted id code s t found e in
      let hashed = hash_code verifier (without_hyphens code) in
      let codes = without_first a.two_factor_backup hashed in
      let now : find_account id t ≡ some (record a { two_factor_backup = codes }) =
        ap (find_account id) left ∙ rewritten-found id codes s found in
      let gone : includes codes (hash_code verifier (without_hyphens same)) ≡ false =
        ap (λ x. includes codes (hash_code verifier x)) alike
        ∙ includes-without_first a.two_factor_backup hashed unique in
      (
        verify-found id same t now ∙ rw (enabled, gone) refl,
        rw (now, found, get_remaining_backup_codes_count)
            (length-without_first a.two_factor_backup hashed there),
        ap (λ (x : Accounts × Bool). x.1) (verify-found id other t now)
            ∙ answers other a codes t s (
                without_first-keeps a.two_factor_backup hashed
                  (hash_code verifier (without_hyphens other)) different)
            ∙ sym (ap (λ (x : Accounts × Bool). x.1) (verify-found id other s found)),
      )
    where
      answers :
          (other : List ℕ) (a : Account) (codes : List ℕ) (t s : Accounts)
          → includes codes (hash_code verifier (without_hyphens other))
            ≡ includes a.two_factor_backup (hash_code verifier (without_hyphens other))
          → (use_backup_code verifier id other (record a { two_factor_backup = codes }) t).1
            ≡ (use_backup_code verifier id other a s).1
      answers other a codes t s kept = ground (arith, kept)
