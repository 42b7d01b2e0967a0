-- ===== src/Session/Host/Guess.antt =====
-- crates/session/src/host.rs, `PasswordThrottle`: wrong guesses of the connection password. Times are
-- nanoseconds, read once per call.
use reachmydevice.Prelude.{
  ℕ, ◌+◌, ◌-◌, ◌*◌, ◌^◌, min, Bool, false, Option, none, some, leb, ltb, if◌then◌else◌,
}

abbrev pub throttle_after : ℕ
throttle_after = 3

abbrev pub throttle_max_secs : ℕ
throttle_max_secs = 30

abbrev second : ℕ
second = 1000000000

pub record PasswordThrottle : Type 0 where
  pub failures : ℕ  -- u32
  pub locked_until : Option ℕ

unfoldable pub new : PasswordThrottle
new = record { failures = 0; locked_until = none }

unfoldable pub locked : PasswordThrottle → ℕ → Bool
locked p now = elim p.locked_until [ none ↦ false | some t ↦ ltb now t ]

-- `saturating_add` on `u32`.
unfoldable pub record_failure : PasswordThrottle → ℕ → PasswordThrottle
record_failure p now =
    let failures : ℕ = min (p.failures + 1) (2 ^ 32 - 1) in
    let secs : ℕ = min ((failures - throttle_after + 1) * 2) throttle_max_secs in
    record {
      failures = failures;
      locked_until =
          if leb throttle_after failures then some (now + secs * second) else p.locked_until;
    }

unfoldable pub reset : PasswordThrottle → PasswordThrottle
reset p = record { failures = 0; locked_until = none }
