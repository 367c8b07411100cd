-- ===== src/Cache.antt =====
-- The key-value service behind `RedisService`, which is no part of the repository: its calls, with the
-- time at which each is made (in seconds), and what the code relies on of them.
use v_backend.Base.{ℕ, ◌+◌, ◌≤◌, Bool, false, Option, none, some, ◌≡◌, ◌==◌, ltb, if◌then◌else◌}

-- The keys of `CatalogService`, and those of `TokenBlacklistService`.
pub data Key : Type 0 where
  otp attempts cooldown invite blacklist : ℕ → Key

unfoldable pub same_key : Key → Key → Bool
same_key (otp a) (otp b) = a == b
same_key (attempts a) (attempts b) = a == b
same_key (cooldown a) (cooldown b) = a == b
same_key (invite a) (invite b) = a == b
same_key (blacklist a) (blacklist b) = a == b
same_key j k = false

pub record Redis : Type 1 where
  pub State : Type 0
  pub get : ℕ → Key → State → Option ℕ
  pub set_with_expiry : ℕ → Key → ℕ → ℕ → State → State
  pub delete : ℕ → Key → State → State
  -- A value is there until its time is over; the other keys keep theirs.
  pub get-set :
      (now later : ℕ) (k j : Key) (value ttl : ℕ) (s : State)
      → now ≤ later
      → get later j (set_with_expiry now k value ttl s) ≡ (
          if same_key k j
          then (if ltb later (now + ttl) then some value else none)
          else get later j s)
  pub get-delete :
      (now later : ℕ) (k j : Key) (s : State)
      → now ≤ later
      → get later j (delete now k s) ≡ (if same_key k j then none else get later j s)
  -- What has expired does not come back by itself.
  pub get-expired :
      (now later : ℕ) (k : Key) (s : State)
      → now ≤ later
      → get now k s ≡ none
      → get later k s ≡ none
