-- ===== src/Rendezvous/Throttle.antt =====
-- apps/rendezvous/src/throttle.rs: the per-username login throttle. The clock is an argument of each
-- call, in nanoseconds; the mutex makes each call one step.
pub mod Backoff
pub mod Isolation
use reachmydevice.Prelude.{
  ℕ, ◌+◌, ◌-◌, ◌*◌, ◌/◌, ◌%◌, ◌^◌, min, Bool, true, false, Option, none, some, String, ltb,
  if◌then◌else◌,
}
use reachmydevice.Prelude.Store.{Store, lookup, insert, remove, retain}

abbrev pub free_attempts : ℕ
free_attempts = 5

-- Nanoseconds in a second.
abbrev pub nanos : ℕ
nanos = 1_000_000_000

abbrev pub max_backoff : ℕ
max_backoff = 3600

abbrev pub idle_ttl : ℕ
idle_ttl = 21600 * nanos

pub record Attempt : Type 0 where
  pub fails : ℕ
  pub locked_until : Option ℕ
  pub last : Option ℕ

abbrev pub LoginThrottle : Type 0
LoginThrottle = Store Attempt

-- `Result<(), u64>`: allowed, or the seconds to wait.
pub data Verdict : Type 0 where
  allowed : Verdict
  retry_after : ℕ → Verdict

check_until : Option ℕ → ℕ → Verdict
check_until none now = allowed
check_until (some until) now =
    if ltb now until then retry_after ((until - now) / nanos + 1) else allowed

check_attempt : Option Attempt → ℕ → Verdict
unfolding check_until
check_attempt none now = allowed
check_attempt (some a) now = check_until a.locked_until now

unfoldable pub check : LoginThrottle → String → ℕ → Verdict
unfolding check_attempt
check m user now = check_attempt (lookup user m) now

-- `entry(user).or_default()`.
unfoldable pub entry : LoginThrottle → String → Attempt
entry m user = elim (lookup user m) [
  | none ↦ record { fails = 0; locked_until = none; last = none }
  | some a ↦ a
]

-- `2u64.saturating_pow(n).min(MAX_BACKOFF)`, in seconds.
unfoldable pub backoff : ℕ → ℕ
backoff n = min (min (2 ^ n) (2 ^ 64 - 1)) max_backoff

-- `fails` is a `u32`.
unfoldable pub fail_once : ℕ → Attempt → Attempt
unfolding backoff
fail_once now a =
    let fails : ℕ = (a.fails + 1) % 2 ^ 32 in
    record {
      fails = fails;
      locked_until =
          if ltb free_attempts fails
          then some (now + backoff (fails - free_attempts) * nanos)
          else a.locked_until;
      last = some now;
    }

unfoldable pub is_recent : ℕ → Attempt → Bool
is_recent now a = elim a.last [ none ↦ false | some t ↦ ltb (now - t) idle_ttl ]

unfoldable pub record_failure : LoginThrottle → String → ℕ → LoginThrottle
unfolding fail_once is_recent entry
record_failure m user now = retain (is_recent now) (insert user (fail_once now (entry m user)) m)

unfoldable pub record_success : LoginThrottle → String → LoginThrottle
record_success m user = remove user m
