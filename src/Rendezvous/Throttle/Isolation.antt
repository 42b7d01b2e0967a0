-- ===== src/Rendezvous/Throttle/Isolation.antt =====
-- What a failure or a success of one user means for the others.
use reachmydevice.Prelude.{
  ℕ, ◌+◌, ◌*◌, ◌≤◌, ◌≡◌, ◌≢◌, refl, inl, inr, Option, none, some, [], String, arith, if◌then◌else◌,
  str_eq, eq_iff, Option-cases, subst, Bool-cases,
}
use reachmydevice.Prelude.Store.{lookup, keep_if, Unique, lookup-remove}
use reachmydevice.Rendezvous.Throttle.{
  Attempt, LoginThrottle, allowed, retry_after, nanos, check_until, check_attempt, check, entry,
  backoff, fail_once, is_recent, record_failure, record_success,
}
use reachmydevice.Rendezvous.Throttle.Backoff.{
  lookup-record_failure_self, lookup-record_failure_other, record_failure-Unique,
}

abbrev pub lock_end : Option ℕ → ℕ
lock_end none = 0
lock_end (some t) = t

-- The entry was touched by time `t`, and its lock ends within an hour of that.
abbrev pub Timed : ℕ → Attempt → Type 0
Timed t a = (l : ℕ) × (a.last ≡ some l) × (l ≤ t) × (lock_end a.locked_until ≤ l + 3600 * nanos)

-- What holds of a throttle at time `t` when the clock never went back.
pub record WellTimed (t : ℕ) (m : LoginThrottle) : Type 0 where
  pub unique : Unique m
  pub timed : (v : String) (a : Attempt) → lookup v m ≡ some a → Timed t a

pub empty-WellTimed : (t : ℕ) → WellTimed t []
unfolding lookup
empty-WellTimed t = record { unique = tt; timed = λ v a e. cc }

fail_once-Timed :
    (t t' : ℕ) (m : LoginThrottle) (u : String)
    → t ≤ t'
    → WellTimed t m
    → Timed t' (fail_once t' (entry m u))
unfolding fail_once entry backoff
fail_once-Timed t t' m u h w = elim (Option-cases (lookup u m)) [
  | inl e ↦ rw (e, entry) (t', refl, omega arith, ground arith)
  | inr (a, e) ↦
      let (l, p, q, r) = w.timed u a e in rw (e, entry) (t', refl, omega arith, ground arith)
]

other-Timed :
    (t t' : ℕ) (m : LoginThrottle) (u v : String) (a : Attempt)
    → t ≤ t'
    → WellTimed t m
    → keep_if (is_recent t') (lookup v m) ≡ some a
    → Timed t' a
other-Timed t t' m u v a h w e = elim (Option-cases (lookup v m)) [
  | inl n ↦ cc
  | inr (b, k) ↦
      let (l, p, q, r) = w.timed v b k in
      let same : b ≡ a = ground arith in subst (Timed t') same (l, p, omega arith, r)
]

failed-Timed :
    (t t' : ℕ) (m : LoginThrottle) (u v : String) (a : Attempt)
    → t ≤ t'
    → WellTimed t m
    → lookup v (record_failure m u t') ≡ some a
    → Timed t' a
failed-Timed t t' m u v a h w e = elim (Bool-cases (str_eq u v)) [
  | inl same ↦
      let eq : u ≡ v = (eq_iff u v).0 same in
      let found : lookup v (record_failure m u t') ≡ some (fail_once t' (entry m u)) =
        subst (λ x. lookup x (record_failure m u t') ≡ some (fail_once t' (entry m u))) eq
          (lookup-record_failure_self m u t' w.unique) in
      subst (Timed t') {x = fail_once t' (entry m u)} {y = a} (ground (arith, found))
        (fail_once-Timed t t' m u h w)
  | inr other ↦ other-Timed t t' m u v a h w (
      ground
        (arith, lookup-record_failure_other m u v t' w.unique (λ q. ground (arith, eq_iff u v))))
]

-- A failure recorded at a later time keeps the invariant.
pub record_failure-WellTimed :
    (t t' : ℕ) (m : LoginThrottle) (u : String)
    → t ≤ t'
    → WellTimed t m
    → WellTimed t' (record_failure m u t')
record_failure-WellTimed t t' m u h w = record {
  unique = record_failure-Unique m u t' w.unique;
  timed = λ v a e. failed-Timed t t' m u v a h w e;
}

-- No lock lasts longer than an hour: the wait that a refused login is told is at most 3601 seconds
-- (the rest of the hour, rounded up by one).
pub check-le :
    (t : ℕ) (m : LoginThrottle) (u : String) (now s : ℕ)
    → WellTimed t m
    → t ≤ now
    → check m u now ≡ retry_after s
    → s ≤ 3601
unfolding check check_attempt check_until
check-le t m u now s w h e = elim (Option-cases (lookup u m)) [
  | inl n ↦ ground arith
  | inr (a, k) ↦ let (l, p, q, r) = w.timed u a k in ground arith
]

-- The announced wait is enough: the same login is let through after that many seconds.
pub check_wait :
    (m : LoginThrottle) (u : String) (now s : ℕ)
    → check m u now ≡ retry_after s
    → check m u (now + s * nanos) ≡ allowed
unfolding check check_attempt check_until
check_wait m u now s e = ground arith

-- A failure of one user does not change what another is told, although it drops idle entries: a
-- dropped entry's lock has long run out.
pub check-record_failure_other :
    (t : ℕ) (m : LoginThrottle) (u v : String) (t' now : ℕ)
    → WellTimed t m
    → t ≤ t'
    → t' ≤ now
    → u ≢ v
    → check (record_failure m u t') v now ≡ check m v now
unfolding check check_attempt check_until is_recent
check-record_failure_other t m u v t' now w h k ne = elim (Option-cases (lookup v m)) [
  | inl n ↦ ground (arith, lookup-record_failure_other m u v t' w.unique ne)
  | inr (a, e) ↦
      let (l, p, q, r) = w.timed v a e in
      ground (arith, lookup-record_failure_other m u v t' w.unique ne)
]

-- A success lets its user in at once and changes nothing for the others.
pub check-record_success :
    (m : LoginThrottle) (u v : String) (now : ℕ)
    → check (record_success m u) v now ≡ (if str_eq u v then allowed else check m v now)
unfolding check check_attempt record_success
check-record_success m u v now = ground (arith, lookup-remove u v m)
