-- ===== src/Rendezvous/Limiter.antt =====
-- apps/rendezvous/src/signaling.rs, `FrameLimiter`: the token bucket of a signaling socket. Tokens
-- are counted in units of 10⁻⁹ token and times in nanoseconds, so a rate of `r` frames a second is
-- `r` units a nanosecond and the source's `f64` sums are exact here; its rounding is not modelled.
use reachmydevice.Prelude.{
  ℕ, suc, ◌+◌, ◌-◌, ◌*◌, ◌≤◌, min, ◌≡◌, refl, ap, ◌∙◌, length, Bool, true, false, List, [], ◌∷◌,
  arith, leb, if◌then◌else◌,
}
use reachmydevice.Rendezvous.Throttle.{nanos}

pub record FrameLimiter : Type 0 where
  pub tokens : ℕ
  pub last : ℕ
  pub rate_per_sec : ℕ
  pub burst : ℕ

abbrev pub relay_frames_per_sec : ℕ
relay_frames_per_sec = 16

abbrev pub relay_burst : ℕ
relay_burst = 64

unfoldable pub with_limits : ℕ → ℕ → ℕ → FrameLimiter
with_limits rate burst now = record {
  tokens = burst * nanos;
  last = now;
  rate_per_sec = rate;
  burst = burst;
}

unfoldable pub new : ℕ → FrameLimiter
unfolding with_limits
new now = with_limits relay_frames_per_sec relay_burst now

-- `saturating_duration_since` is the truncated difference.
unfoldable pub allow_at : FrameLimiter → ℕ → FrameLimiter × Bool
allow_at l now =
    let elapsed = now - l.last in
    let tokens = min (l.tokens + elapsed * l.rate_per_sec) (l.burst * nanos) in
    if leb nanos tokens
    then (record l { last = now; tokens = tokens - nanos }, true)
    else (record l { last = now; tokens = tokens }, false)

-- How many of the frames that arrive at the given times are let through.
unfoldable pub allowed_count : FrameLimiter → List ℕ → ℕ
allowed_count l [] = 0
allowed_count l (t ∷ ts) =
    let (l', ok) = allow_at l t in let rest = allowed_count l' ts in if ok then suc rest else rest

-- The times do not go back.
abbrev pub Ordered : ℕ → List ℕ → Type 0
Ordered t [] = Unit
Ordered t (u ∷ us) = (t ≤ u) × Ordered u us

abbrev pub last_time : ℕ → List ℕ → ℕ
last_time t [] = t
last_time t (u ∷ us) = last_time u us

last_time-le : (t : ℕ) (us : List ℕ) → Ordered t us → t ≤ last_time t us
last_time-le t [] h = omega arith
last_time-le t (u ∷ us) h = omega (arith, last_time-le u us h.1)

allow_at-spends :
    (l : FrameLimiter) (t r : ℕ)
    → l.rate_per_sec ≡ r
    → (allow_at l t).0.tokens + (if (allow_at l t).1 then nanos else 0)
      ≤ l.tokens + (t - l.last) * r
unfolding allow_at
allow_at-spends l t r e = ground arith

allow_at-last : (l : FrameLimiter) (t : ℕ) → (allow_at l t).0.last ≡ t
unfolding allow_at
allow_at-last l t = ground arith

allow_at-rate : (l : FrameLimiter) (t : ℕ) → (allow_at l t).0.rate_per_sec ≡ l.rate_per_sec
unfolding allow_at
allow_at-rate l t = ground arith

allow_at-burst : (l : FrameLimiter) (t : ℕ) → (allow_at l t).0.burst ≡ l.burst
unfolding allow_at
allow_at-burst l t = ground arith

-- Time before and after `t`, weighted by the rate.
split_time : (a t b r : ℕ) → a ≤ t → t ≤ b → (b - a) * r ≡ (t - a) * r + (b - t) * r
split_time a t b r h k =
    let e : b - a ≡ (t - a) + (b - t) = omega arith in omega (arith, ap (λ (x : ℕ). x * r) e)

-- The frames let through never outrun what the bucket held and was refilled with.
allowed_count-le :
    (l : FrameLimiter) (a : ℕ) (ts : List ℕ) (r : ℕ)
    → l.rate_per_sec ≡ r
    → l.last ≡ a
    → Ordered a ts
    → allowed_count l ts * nanos ≤ l.tokens + (last_time a ts - a) * r
unfolding allowed_count
allowed_count-le l a [] r e f h = omega arith
allowed_count-le l a (t ∷ ts) r e f h =
    step (allow_at l t).1 (rw (← f) (allow_at-spends l t r e))
      (allowed_count-le (allow_at l t).0 t ts r (allow_at-rate l t ∙ e) (allow_at-last l t) h.1)
      (split_time a t (last_time t ts) r h.0 (last_time-le t ts h.1))
  where
    step :
        (ok : Bool)
        → (allow_at l t).0.tokens + (if ok then nanos else 0) ≤ l.tokens + (t - a) * r
        → allowed_count (allow_at l t).0 ts * nanos
          ≤ (allow_at l t).0.tokens + (last_time t ts - t) * r
        → (last_time t ts - a) * r ≡ (t - a) * r + (last_time t ts - t) * r
        → (if ok
              then suc (allowed_count (allow_at l t).0 ts)
              else allowed_count (allow_at l t).0 ts)
            * nanos
          ≤ l.tokens + (last_time t ts - a) * r
    step true p q s = omega arith
    step false p q s = omega arith

-- Rate limit: of any frames that arrive on a new socket, at most 64 plus 16 for each second that
-- has passed are let through (the count is in billionths, to compare it with nanoseconds).
pub allowed_count-new :
    (start : ℕ) (ts : List ℕ)
    → Ordered start ts
    → allowed_count (new start) ts * nanos
      ≤ relay_burst * nanos + (last_time start ts - start) * relay_frames_per_sec
unfolding new with_limits
allowed_count-new start ts h = allowed_count-le _ start ts relay_frames_per_sec refl refl h

-- The times are at least `gap` apart.
abbrev pub Spaced : ℕ → ℕ → List ℕ → Type 0
Spaced gap t [] = Unit
Spaced gap t (u ∷ us) = (t + gap ≤ u) × Spaced gap u us

allow_at-Spaced :
    (l : FrameLimiter) (t r : ℕ)
    → l.rate_per_sec ≡ r
    → 1 ≤ l.burst
    → nanos ≤ (t - l.last) * r
    → (allow_at l t).1 ≡ true
unfolding allow_at
allow_at-Spaced l t r e b h = ground arith

allowed_count-Spaced_from :
    (l : FrameLimiter) (a : ℕ) (ts : List ℕ) (r gap : ℕ)
    → l.rate_per_sec ≡ r
    → l.last ≡ a
    → 1 ≤ l.burst
    → nanos ≤ gap * r
    → Spaced gap a ts
    → allowed_count l ts ≡ length ts
unfolding allowed_count
allowed_count-Spaced_from l a [] r gap e f b g h = refl
allowed_count-Spaced_from l a (t ∷ ts) r gap e f b g h =
    rw (allow_at-Spaced l t r e b (rw f (grind arith))) (
      ap suc (
        allowed_count-Spaced_from (allow_at l t).0 t ts r gap (allow_at-rate l t ∙ e)
          (allow_at-last l t) (rw (allow_at-burst l t) b) g h.1))

-- No frame is dropped on a socket whose frames arrive at least `gap` nanoseconds apart, where `gap`
-- times the rate is a second or more.
pub allowed_count-Spaced :
    (start rate burst gap : ℕ) (ts : List ℕ)
    → 1 ≤ burst
    → nanos ≤ gap * rate
    → Spaced gap start ts
    → allowed_count (with_limits rate burst start) ts ≡ length ts
unfolding with_limits
allowed_count-Spaced start rate burst gap ts b g h =
    allowed_count-Spaced_from _ start ts rate gap refl refl b g h
