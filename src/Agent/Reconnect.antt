-- ===== src/Agent/Reconnect.antt =====
-- Enrollment and reconnection of the agent: `Run` in gpu-platform/agent/client/client.go.
use node_hive_b2b.Prelude.{
  ℕ, zero, suc, ◌*◌, ◌≤◌, ◌≡◌, refl, Bool, not, ◌&&◌, ◌||◌, ltb, ◌==◌, if◌then◌else◌, arith, true,
  Bool-cases, inl, inr,
}
use node_hive_b2b.Text.{Text, is_empty}
use node_hive_b2b.Store.{second}

-- What the agent keeps on disk; a number stands for a hash.
pub record State : Type 0 where
  pub node_id : ℕ
  pub credential : Text
  pub enroll_token_hash : ℕ

-- On the first run, and with another token than the one that gave the credential.
unfoldable pub must_enroll : (Text → ℕ) → Text → State → Bool
must_enroll hash token s =
    is_empty s.credential || (not (is_empty token) && not (hash token == s.enroll_token_hash))

unfoldable pub next_backoff : ℕ → ℕ
next_backoff b = if ltb b (60 * second) then b * 2 else b

-- The delay before the reconnection after `n` failed streams.
unfoldable pub backoff_after : ℕ → ℕ
unfolding next_backoff
backoff_after zero = second
backoff_after (suc n) = next_backoff (backoff_after n)

-- One of the delays from one second to 64 seconds.
abbrev is_delay : ℕ → Bool
is_delay b =
    b == second
    || (b == 2 * second
        || (b == 4 * second
            || (b == 8 * second || (b == 16 * second || (b == 32 * second || b == 64 * second)))))

next_backoff-delay : (b : ℕ) → is_delay b ≡ true → is_delay (next_backoff b) ≡ true
unfolding next_backoff
next_backoff-delay b h = ground arith

next_backoff-grows : (b : ℕ) → b ≤ next_backoff b
unfolding next_backoff
next_backoff-grows b = ground arith

backoff_after-delay : (n : ℕ) → is_delay (backoff_after n) ≡ true
unfolding backoff_after
backoff_after-delay zero = refl
backoff_after-delay (suc n) = next_backoff-delay (backoff_after n) (backoff_after-delay n)

backoff_after-grows : (m n : ℕ) → m ≤ n → backoff_after m ≤ backoff_after n
unfolding backoff_after
backoff_after-grows m zero h = let same : m ≡ 0 = omega (arith, h) in rw same (omega arith)
backoff_after-grows m (suc n) h = elim (Bool-cases (m == suc n)) [
  | inl e ↦ let same : m ≡ suc n = ground (arith, e) in rw same (omega arith)
  | inr e ↦
      omega (
        arith,
        backoff_after-grows m n (ground (arith, e, h)),
        next_backoff-grows (backoff_after n),
      )
]

-- The delay before a reconnection is between one second and 64 seconds, and does not shrink as the
-- failures go on.
pub backoff_after_bounds :
    (m n : ℕ)
    → m ≤ n
    → (second ≤ backoff_after m)
      × (backoff_after n ≤ 64 * second)
      × (backoff_after m ≤ backoff_after n)
backoff_after_bounds m n h = (
  ground (arith, backoff_after-delay m),
  ground (arith, backoff_after-delay n),
  backoff_after-grows m n h,
)
