-- ===== src/Catalog/Guesses.antt =====
-- Guesses of a code: `verifyOtpOrThrow` called again and again.
use v_backend.Base.{
  ℕ, suc, ◌+◌, ◌≤◌, ◌<◌, false, List, [], ◌∷◌, none, some, ◌==◌, ==-refl, leb, ltb, if◌then◌else◌,
  err, unauthorized, ◌≡◌, refl, ◌∙◌, ap, ◌⊎◌, inl, inr, arith, Bool-cases, All, length,
}
use v_backend.Cache.{Redis, otp, attempts, cooldown, same_key}
use v_backend.Catalog.Access.{Crypto, number_of, miss, verify_otp_or_throw, issue}

-- The times of the guesses do not run backwards.
abbrev pub InOrder : ℕ → List (ℕ × ℕ) → Type 0
InOrder now [] = Unit
InOrder now ((t, code) ∷ guesses) = (now ≤ t) × InOrder t guesses

-- The time of the last guess.
abbrev pub last_of : ℕ → List (ℕ × ℕ) → ℕ
last_of now [] = now
last_of now ((t, code) ∷ guesses) = last_of t guesses

module _ (redis : Redis) (crypto : Crypto) where
  -- What guesses leave in the cache: each a time and a code.
  unfoldable pub try_codes : ℕ → List (ℕ × ℕ) → redis.State → redis.State
  unfolding verify_otp_or_throw
  try_codes id [] s = s
  try_codes id ((t, code) ∷ guesses) s =
      try_codes id guesses (verify_otp_or_throw redis crypto t id code s).0

  -- From now on the code is gone, or it waits with a count of wrong guesses below the cap.
  abbrev IsGuarded : ℕ → ℕ → ℕ → ℕ → ℕ → redis.State → Type 0
  IsGuarded id issued hash now count s =
      (u : ℕ)
      → now ≤ u
      → (redis.get u (otp id) s ≡ none)
        ⊎ ((redis.get u (otp id) s ≡ some hash)
            × (u < issued + 600)
            × (number_of (redis.get u (attempts id) s) ≡ count)
            × (count < 5))

  -- What `issue` leaves under its keys.
  abbrev armed : ℕ → ℕ → ℕ → redis.State → redis.State
  armed id issued code s =
      redis.delete issued (attempts id)
        (redis.set_with_expiry issued (otp id) (crypto.hash_token code) 600 s)

  issue_code :
      (id issued code u : ℕ) (s : redis.State)
      → issued ≤ u
      → redis.get u (otp id) (issue redis crypto issued id code s)
        ≡ (if ltb u (issued + 600) then some (crypto.hash_token code) else none)
  unfolding issue same_key
  issue_code id issued code u s later =
      redis.get-set issued u (cooldown id) (otp id) 1 60 (armed id issued code s) later
      ∙ redis.get-delete issued u (attempts id) (otp id)
          (redis.set_with_expiry issued (otp id) (crypto.hash_token code) 600 s) later
      ∙ redis.get-set issued u (otp id) (otp id) (crypto.hash_token code) 600 s later
      ∙ rw (==-refl id) refl

  issue_count :
      (id issued code u : ℕ) (s : redis.State)
      → issued ≤ u
      → redis.get u (attempts id) (issue redis crypto issued id code s) ≡ none
  unfolding issue same_key
  issue_count id issued code u s later =
      redis.get-set issued u (cooldown id) (attempts id) 1 60 (armed id issued code s) later
      ∙ redis.get-delete issued u (attempts id) (attempts id)
          (redis.set_with_expiry issued (otp id) (crypto.hash_token code) 600 s) later
      ∙ rw (==-refl id) refl

  issue-IsGuarded :
      (id issued code : ℕ) (s : redis.State)
      → IsGuarded id issued (crypto.hash_token code) issued 0 (issue redis crypto issued id code s)
  unfolding number_of
  issue-IsGuarded id issued code s u later = elim (Bool-cases (ltb u (issued + 600))) [
    | inl fresh ↦ inr (
      issue_code id issued code u s later ∙ rw fresh refl,
      ground arith,
      ap number_of (issue_count id issued code u s later),
      ground arith,
    )
    | inr over ↦ inl (issue_code id issued code u s later ∙ rw over refl)
  ]

  -- A wrong guess in the two cases of the cap.
  miss_last :
      (id t count u : ℕ) (s : redis.State)
      → t ≤ u
      → redis.get u (otp id) (redis.delete t (attempts id) (redis.delete t (otp id) s)) ≡ none
  unfolding same_key
  miss_last id t count u s later =
      redis.get-delete t u (attempts id) (otp id) (redis.delete t (otp id) s) later
      ∙ redis.get-delete t u (otp id) (otp id) s later
      ∙ rw (==-refl id) refl

  count_otp :
      (id t count u : ℕ) (s : redis.State)
      → t ≤ u
      → redis.get u (otp id) (redis.set_with_expiry t (attempts id) count 600 s)
        ≡ redis.get u (otp id) s
  unfolding same_key
  count_otp id t count u s later = redis.get-set t u (attempts id) (otp id) count 600 s later

  count_attempts :
      (id t count u : ℕ) (s : redis.State)
      → t ≤ u
      → u < t + 600
      → redis.get u (attempts id) (redis.set_with_expiry t (attempts id) count 600 s) ≡ some count
  unfolding same_key
  count_attempts id t count u s later fresh =
      redis.get-set t u (attempts id) (attempts id) count 600 s later
      ∙ rw (==-refl id) (ground arith)

  miss-IsGuarded :
      (id issued hash t count : ℕ) (s : redis.State)
      → issued ≤ t
      → IsGuarded id issued hash t count s
      → number_of (redis.get t (attempts id) s) ≡ count
      → IsGuarded id issued hash t (suc count) (miss redis crypto t id s)
  unfolding miss number_of
  miss-IsGuarded id issued hash t count s started guarded counted u later =
      elim (Bool-cases (leb 5 (count + 1))) [
        | inl capped ↦ inl (rw (counted, capped) (miss_last id t count u s later))
        | inr below ↦
            rw (counted, below)
              (elim (guarded u later) [
                | inl gone ↦ inl (count_otp id t (count + 1) u s later ∙ gone)
                | inr (there, fresh, old, small) ↦ inr (
                  count_otp id t (count + 1) u s later ∙ there,
                  fresh,
                  ap number_of (count_attempts id t (count + 1) u s later (ground arith))
                      ∙ ground arith,
                  ground arith,
                )
              ])
      ]

  verify_gone :
      (t id code : ℕ) (s : redis.State)
      → redis.get t (otp id) s ≡ none
      → verify_otp_or_throw redis crypto t id code s ≡ (s, err unauthorized)
  unfolding verify_otp_or_throw
  verify_gone t id code s gone = rw (gone, verify_otp_or_throw) refl

  verify_wrong :
      (t id code hash : ℕ) (s : redis.State)
      → redis.get t (otp id) s ≡ some hash
      → (hash == crypto.hash_token code) ≡ false
      → verify_otp_or_throw redis crypto t id code s ≡ (miss redis crypto t id s, err unauthorized)
  unfolding verify_otp_or_throw
  verify_wrong t id code hash s there wrong = rw (there, wrong, verify_otp_or_throw) refl

  try-IsGuarded :
      (id issued hash now t code count : ℕ) (s : redis.State)
      → issued ≤ now
      → now ≤ t
      → (hash == crypto.hash_token code) ≡ false
      → IsGuarded id issued hash now count s
      → IsGuarded id issued hash t (suc count) (verify_otp_or_throw redis crypto t id code s).0
  try-IsGuarded id issued hash now t code count s started later wrong guarded =
      elim (guarded t later) [
        | inl gone ↦
            rw (ap (λ x. x.0) (verify_gone t id code s gone))
              λ u after. inl (redis.get-expired t u (otp id) s after gone)
        | inr (there, fresh, counted, small) ↦
            rw (ap (λ x. x.0) (verify_wrong t id code hash s there wrong)) (
              miss-IsGuarded id issued hash t count s (ground arith)
                (λ u after. guarded u (ground arith)) counted)
      ]

  zero_moves : (n : ℕ) → 0 + n ≡ n
  zero_moves n = omega arith

  suc_moves : (m n : ℕ) → m + suc n ≡ suc m + n
  suc_moves m n = omega arith

  try_codes-IsGuarded :
      (id issued hash now count : ℕ) (guesses : List (ℕ × ℕ)) (s : redis.State)
      → issued ≤ now
      → InOrder now guesses
      → All (λ g. (hash == crypto.hash_token g.1) ≡ false) guesses
      → IsGuarded id issued hash now count s
      → IsGuarded id issued hash
          (last_of now guesses)
          (length guesses + count)
          (try_codes id guesses s)
  unfolding try_codes
  try_codes-IsGuarded id issued hash now count [] s started order wrong guarded =
      rw (zero_moves count) guarded
  try_codes-IsGuarded id issued hash now count ((t, code) ∷ guesses) s started order wrong guarded =
      let rest =
        try_codes-IsGuarded id issued hash t (suc count) guesses
          (verify_otp_or_throw redis crypto t id code s).0 (ground arith) order.1 wrong.1
          (try-IsGuarded id issued hash now t code count s started order.0 wrong.0 guarded) in
      rw (suc_moves (length guesses) count) at rest

  -- A code that was sent is worth five wrong guesses: after five of them or more, at whatever times,
  -- every later guess is refused and changes nothing, also the guess of the right code.
  pub guesses_capped :
      (id issued code : ℕ) (guesses : List (ℕ × ℕ)) (s : redis.State)
      → InOrder issued guesses
      → All (λ g. (crypto.hash_token code == crypto.hash_token g.1) ≡ false) guesses
      → 5 ≤ length guesses
      → (later guess : ℕ) → last_of issued guesses ≤ later
      → verify_otp_or_throw redis crypto later id guess
          (try_codes id guesses (issue redis crypto issued id code s))
        ≡ (try_codes id guesses (issue redis crypto issued id code s), err unauthorized)
  guesses_capped id issued code guesses s order wrong many later guess after =
      let guarded =
        try_codes-IsGuarded id issued (crypto.hash_token code) issued 0 guesses
          (issue redis crypto issued id code s) (ground arith) order wrong
          (issue-IsGuarded id issued code s) in
      elim (guarded later after) [
        | inl gone ↦
            verify_gone later id guess (try_codes id guesses (issue redis crypto issued id code s))
              gone
        | inr (there, fresh, counted, small) ↦ absurd (ground arith)
      ]
