-- ===== src/Session/Host/Reports.antt =====
-- The `Active` reports of `run_host_core` in crates/session/src/host.rs.
use reachmydevice.Prelude.{
  ℕ, ◌+◌, ◌≤◌, ◌≡◌, refl, ◌⊎◌, inl, inr, Bool, true, false, not, ◌&&◌, Option, List, [], ◌∷◌, ◌++◌,
  map, arith, if◌then◌else◌, All,
}
use reachmydevice.Codec.{Doubles}
use reachmydevice.Session.Host.Control.{HostSide, Effect, handle_control}
use reachmydevice.Session.Host.Core.{
  Core, CoreEffect, act, on_status, Incoming, peer_signal, local_signal, connected, disconnected,
  arrived, active, host_now, on_data, core_step,
}
use reachmydevice.Session.Host.Isolation.{is_reset, core_run, signal-session}

abbrev pub active_count : {A : Type 0} → List (CoreEffect A) → ℕ
active_count [] = 0
active_count (on_status active ∷ es) = 1 + active_count es
active_count (e ∷ es) = active_count es

abbrev pub one_if : Bool → ℕ
one_if true = 1
one_if false = 0

active_count-append :
    {A : Type 0} (xs ys : List (CoreEffect A))
    → active_count (xs ++ ys) ≡ active_count xs + active_count ys
active_count-append [] ys = omega arith
active_count-append (on_status active ∷ xs) ys = omega (arith, active_count-append xs ys)
active_count-append (x ∷ xs) ys = active_count-append xs ys

active_count-act : {A : Type 0} (xs : List (Effect A)) → active_count (map act xs) ≡ 0
active_count-act [] = refl
active_count-act (x ∷ xs) = active_count-act xs

-- One report when the state is due and was not reported.
report_once :
    {A : Type 0} (xs : List (Effect A)) (authorized was : Bool)
    → (active_count (map act xs ++ (if authorized && not was then on_status active ∷ [] else []))
          + one_if was
        ≡ one_if (if authorized && not was then true else was))
      × ((authorized ≡ false) ⊎ ((if authorized && not was then true else was) ≡ true))
report_once xs true true =
    (omega (arith, active_count-append (map act xs) [], active_count-act xs), inr refl)
report_once xs true false = (
  omega (arith, active_count-append (map act xs) (on_status active ∷ []), active_count-act xs),
  inr refl,
)
report_once xs false true =
    (omega (arith, active_count-append (map act xs) [], active_count-act xs), inr refl)
report_once xs false false =
    (omega (arith, active_count-append (map act xs) [], active_count-act xs), inl refl)

module _ {A : Type 0} (d : Doubles A) (host : HostSide) (sha : List ℕ → List ℕ)
    (sdp_of : List ℕ → Option (List ℕ)) where
  -- What a run adds to the reports, and that an authorized session was reported.
  abbrev Counted : Core A → Core A × List (CoreEffect A) → Type 0
  Counted c r =
      (active_count r.1 + one_if c.was_authorized ≡ one_if r.0.was_authorized)
      × ((r.0.session.authorized ≡ false) ⊎ (r.0.was_authorized ≡ true))

  step-Counted :
      (c : Core A) (e : Incoming A)
      → is_reset e ≡ false
      → (c.session.authorized ≡ false) ⊎ (c.was_authorized ≡ true)
      → Counted c (core_step d host sha sdp_of c e)
  unfolding core_step on_data
  step-Counted c (arrived now os m) n k =
      let r = handle_control d (host_now host c) sha now os c.session m in
      report_once r.1 r.0.authorized c.was_authorized
  step-Counted c (peer_signal msg) n k =
      let (same, _, was, _) = signal-session d host sha sdp_of c msg in
      rw (same, was) (omega arith, k)
  step-Counted c (local_signal msg) n k =
      let (_, same, _, was) = signal-session d host sha sdp_of c msg in
      rw (same, was) (omega arith, k)
  step-Counted c connected n k = absurd (ground (arith, n))
  step-Counted c disconnected n k = absurd (ground (arith, n))
  step-Counted c e n k = (omega arith, k)

  run-Counted :
      (c : Core A) (es : List (Incoming A))
      → All (λ e. is_reset e ≡ false) es
      → (c.session.authorized ≡ false) ⊎ (c.was_authorized ≡ true)
      → Counted c (core_run d host sha sdp_of c es)
  unfolding core_run
  run-Counted c [] n k = (omega arith, k)
  run-Counted c (e ∷ es) (n, ns) k =
      let c' : Core A = (core_step d host sha sdp_of c e).0 in
      let out : List (CoreEffect A) = (core_step d host sha sdp_of c e).1 in
      let (first, k') = step-Counted c e n k in
      let (rest, end) = run-Counted c' es ns k' in
      (
        omega (arith, first, rest, active_count-append out (core_run d host sha sdp_of c' es).1),
        end,
      )

  at_most_once :
      (c : Core A) (es : List (Incoming A))
      → All (λ e. is_reset e ≡ false) es
      → c.session.authorized ≡ false
      → c.was_authorized ≡ false
      → (active_count (core_run d host sha sdp_of c es).1 ≤ 1)
        × (((core_run d host sha sdp_of c es).0.session.authorized ≡ false)
            ⊎ (active_count (core_run d host sha sdp_of c es).1 ≡ 1))
  at_most_once c es n u w =
      let (sum, end) = run-Counted c es n (inl u) in
      (ground (arith, sum, w), ground (arith, sum, end, w))

  -- In one connection a session is reported as active at most once, and exactly once if it is authorized at the
  -- end, also if authorization was lost and won again on the way.
  core_run-active :
      (c : Core A) (r : Incoming A) (es : List (Incoming A))
      → is_reset r ≡ true
      → All (λ e. is_reset e ≡ false) es
      → let after = core_run d host sha sdp_of (core_step d host sha sdp_of c r).0 es in
        (active_count after.1 ≤ 1)
        × ((after.0.session.authorized ≡ false) ⊎ (active_count after.1 ≡ 1))
  unfolding core_step
  core_run-active c connected es h n =
      at_most_once (core_step d host sha sdp_of c connected).0 es n refl refl
  core_run-active c disconnected es h n =
      at_most_once (core_step d host sha sdp_of c disconnected).0 es n refl refl
  core_run-active c e es h n = absurd (ground (arith, h))
