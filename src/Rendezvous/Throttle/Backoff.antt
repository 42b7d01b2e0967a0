-- ===== src/Rendezvous/Throttle/Backoff.antt =====
-- What the login throttle promises: when a user is locked out, for how long, and who is not.
use reachmydevice.Prelude.{
  ℕ, ◌+◌, ◌-◌, ◌*◌, ◌/◌, ◌^◌, ◌≤◌, ◌<◌, min, ◌≡◌, ◌≢◌, refl, ap, ◌∙◌, none, some, List, [], ◌∷◌,
  String, arith, ltb, if◌then◌else◌, length, eq_iff, eq_refl,
}
use reachmydevice.Prelude.Store.{
  lookup, insert, keep_if, Unique, lookup-insert, lookup-retain, insert-Unique, retain-Unique,
}
use reachmydevice.Rendezvous.Throttle.{
  Attempt, LoginThrottle, allowed, retry_after, nanos, check_until, check, entry, backoff,
  fail_once, is_recent, record_failure,
}

-- The user's own entry after a failure: it was touched now, so housekeeping keeps it.
pub lookup-record_failure_self :
    (m : LoginThrottle) (u : String) (t : ℕ)
    → Unique m
    → lookup u (record_failure m u t) ≡ some (fail_once t (entry m u))
unfolding record_failure is_recent fail_once
lookup-record_failure_self m u t h = ground (
  arith,
  lookup-retain (is_recent t) u (insert u (fail_once t (entry m u)) m)
      (insert-Unique u (fail_once t (entry m u)) m h),
  lookup-insert u u (fail_once t (entry m u)) m,
  eq_refl u,
)

pub record_failure-Unique :
    (m : LoginThrottle) (u : String) (t : ℕ) → Unique m → Unique (record_failure m u t)
unfolding record_failure
record_failure-Unique m u t h =
    retain-Unique (is_recent t) _ (insert-Unique u (fail_once t (entry m u)) m h)

-- Another user's entry is kept as it is, unless it has been idle for six hours.
pub lookup-record_failure_other :
    (m : LoginThrottle) (u v : String) (t : ℕ)
    → Unique m
    → u ≢ v
    → lookup v (record_failure m u t) ≡ keep_if (is_recent t) (lookup v m)
unfolding record_failure
lookup-record_failure_other m u v t h ne = ground (
  arith,
  lookup-retain (is_recent t) v (insert u (fail_once t (entry m u)) m)
      (insert-Unique u (fail_once t (entry m u)) m h),
  lookup-insert u v (fail_once t (entry m u)) m,
  eq_iff u v,
)

-- Failures of one user at the given times, oldest first.
unfoldable pub fail_run : LoginThrottle → String → List ℕ → LoginThrottle
fail_run m u [] = m
fail_run m u (t ∷ ts) = fail_run (record_failure m u t) u ts

fail_times : Attempt → List ℕ → Attempt
fail_times a [] = a
fail_times a (t ∷ ts) = fail_times (fail_once t a) ts

entry-record_failure :
    (m : LoginThrottle) (u : String) (t : ℕ)
    → Unique m
    → entry (record_failure m u t) u ≡ fail_once t (entry m u)
unfolding entry fail_once
entry-record_failure m u t h = rw (lookup-record_failure_self m u t h, entry)

entry-fail_run :
    (m : LoginThrottle) (u : String) (ts : List ℕ)
    → Unique m
    → entry (fail_run m u ts) u ≡ fail_times (entry m u) ts
unfolding fail_run fail_times
entry-fail_run m u [] h = refl
entry-fail_run m u (t ∷ ts) h =
    entry-fail_run (record_failure m u t) u ts (record_failure-Unique m u t h)
    ∙ ap (λ a. fail_times a ts) (entry-record_failure m u t h)

fail_run-Unique :
    (m : LoginThrottle) (u : String) (ts : List ℕ) → Unique m → Unique (fail_run m u ts)
unfolding fail_run
fail_run-Unique m u [] h = h
fail_run-Unique m u (t ∷ ts) h =
    fail_run-Unique (record_failure m u t) u ts (record_failure-Unique m u t h)

fails-fail_times :
    (a : Attempt) (ts : List ℕ)
    → a.fails + length ts < 2 ^ 32
    → (fail_times a ts).fails ≡ a.fails + length ts
unfolding fail_times fail_once
fails-fail_times a [] h = omega arith
fails-fail_times a (t ∷ ts) h = omega (arith, fails-fail_times (fail_once t a) ts (omega arith))

locked-fail_times :
    (a : Attempt) (ts : List ℕ)
    → a.locked_until ≡ none
    → a.fails + length ts ≤ 5
    → (fail_times a ts).locked_until ≡ none
unfolding fail_times fail_once
locked-fail_times a [] e h = e
locked-fail_times a (t ∷ ts) e h = locked-fail_times (fail_once t a) ts (ground arith) (omega arith)

-- How long the lock lasts, in nanoseconds, after this many failures.
abbrev pub window : ℕ → ℕ
window n = min (2 ^ (n - 5)) 3600 * nanos

check-record_failure :
    (m : LoginThrottle) (u : String) (t now : ℕ)
    → Unique m
    → check (record_failure m u t) u now ≡ check_until (fail_once t (entry m u)).locked_until now
unfolding check
check-record_failure m u t now h = rw (lookup-record_failure_self m u t h)

abbrev never : Attempt
never = record { fails = 0; locked_until = none; last = none }

backoff-min : (n : ℕ) → backoff n ≡ min (2 ^ n) 3600
unfolding backoff
backoff-min n = omega arith

check_until-fail_once :
    (a : Attempt) (n t now : ℕ)
    → a.fails ≡ n
    → n + 1 < 2 ^ 32
    → (n ≤ 5 → a.locked_until ≡ none)
    → check_until (fail_once t a).locked_until now ≡ (
        if ltb (n + 1) 6
        then allowed
        else if ltb now (t + window (n + 1))
        then retry_after ((t + window (n + 1) - now) / nanos + 1)
        else allowed)
unfolding fail_once check_until
check_until-fail_once a n t now e l k = ground (arith, backoff-min (n + 1 - 5))

-- A user who was never seen fails at the times `ts` and then at `t`. With fewer than six failures
-- in all a login is let through; from the sixth on it is refused for 2, 4, 8, … seconds, one hour at
-- most, with the rest of the wait in the answer, and let through once that time is over.
pub check-fail_run :
    (m : LoginThrottle) (u : String) (ts : List ℕ) (t now : ℕ)
    → Unique m
    → lookup u m ≡ none
    → length ts + 1 < 2 ^ 32
    → check (record_failure (fail_run m u ts) u t) u now ≡ (
        if ltb (length ts + 1) 6
        then allowed
        else if ltb now (t + window (length ts + 1))
        then retry_after ((t + window (length ts + 1) - now) / nanos + 1)
        else allowed)
unfolding entry
check-fail_run m u ts t now h e l =
    rw
      (
        check-record_failure (fail_run m u ts) u t now (fail_run-Unique m u ts h),
        entry-fail_run m u ts h,
        e,
        entry,
      )
      (check_until-fail_once (fail_times never ts) (length ts) t now
        (omega (arith, fails-fail_times never ts (omega arith))) l
        (λ le. locked-fail_times never ts refl (omega arith)))
