-- ===== src/Session/Host/Isolation.antt =====
-- One connection after another: what the loop `run_host_core` of crates/session/src/host.rs keeps apart.
use reachmydevice.Prelude.{
  ℕ, ◌≡◌, refl, ap, ◌∙◌, inl, inr, Bool, true, false, not, Option, some, List, [], ◌∷◌, ◌++◌, arith,
  All, All-append, Bool-cases,
}
use reachmydevice.Protocol.{Payload, Envelope, clipboard_text}
use reachmydevice.Codec.{Doubles}
use reachmydevice.Session.FileTransfer.{Os}
use reachmydevice.Session.Identity.Sdp.{SignalMsg, offer, answer, candidate}
use reachmydevice.Session.Host.Control.{HostSide, send_data, release_all, request_keyframe}
use reachmydevice.Session.Host.Gate.{Accepted, envelope_payload, no_hello, ignored, authorizing}
use reachmydevice.Session.Host.Core.{
  Core, CoreEffect, act, on_status, Incoming, peer_signal, local_signal, connected, disconnected,
  arrived, clipboard_polled, active, host_now, on_data, on_peer_signal, on_local_signal, core_step,
}

-- A connection begins or ends.
abbrev pub is_reset : {A : Type 0} → Incoming A → Bool
is_reset connected = true
is_reset disconnected = true
is_reset e = false

abbrev pub brings_hello : {A : Type 0} → Incoming A → Bool
brings_hello (arrived now os m) = not (no_hello (envelope_payload m))
brings_hello e = false

abbrev is_clipboard : {A : Type 0} → Option (Payload A) → Bool
is_clipboard (some (Payload.clipboard update)) = true
is_clipboard p = false

-- Effects that need no authorized viewer: signaling, keyframe requests, the clipboard's texts, and at the end of a
-- connection the release of what is pressed, the pause and the report.
abbrev pub is_harmless : {A : Type 0} → CoreEffect A → Bool
is_harmless (act release_all) = true
is_harmless (act request_keyframe) = true
is_harmless (act (send_data m)) = is_clipboard m.payload
is_harmless (act e) = false
is_harmless (on_status active) = false
is_harmless e = true

module _ {A : Type 0} (d : Doubles A) (host : HostSide) (sha : List ℕ → List ℕ)
    (sdp_of : List ℕ → Option (List ℕ)) where
  unfoldable pub core_run : Core A → List (Incoming A) → Core A × List (CoreEffect A)
  core_run c [] = (c, [])
  core_run c (e ∷ es) =
      let (c', out) = core_step d host sha sdp_of c e in
      let (end, outs) = core_run c' es in (end, out ++ outs)

  reset_shuts :
      (c : Core A) (r : Incoming A)
      → is_reset r ≡ true
      → (core_step d host sha sdp_of c r).0.session.authorized ≡ false
  unfolding core_step
  reset_shuts c connected h = refl
  reset_shuts c disconnected h = refl
  reset_shuts c e h = absurd (ground (arith, h))

  pub signal-session :
      (c : Core A) (msg : SignalMsg)
      → ((on_peer_signal d host sha sdp_of c msg).session ≡ c.session)
        × ((on_local_signal d host sha sdp_of c msg).session ≡ c.session)
        × ((on_peer_signal d host sha sdp_of c msg).was_authorized ≡ c.was_authorized)
        × ((on_local_signal d host sha sdp_of c msg).was_authorized ≡ c.was_authorized)
  unfolding on_peer_signal on_local_signal
  signal-session c (offer json) = (refl, refl, refl, refl)
  signal-session c (answer json) = (refl, refl, refl, refl)
  signal-session c (candidate json) = (refl, refl, refl, refl)

  opening :
      (c : Core A) (e : Incoming A)
      → c.session.authorized ≡ false
      → (core_step d host sha sdp_of c e).0.session.authorized ≡ true
      → (now : ℕ) × (os : Os) × (m : Option (Envelope A)) × (e ≡ arrived now os m)
        × Accepted (host_now host c) m
  unfolding core_step on_peer_signal on_local_signal on_data host_now
  opening c (arrived now os m) u h =
      (now, os, m, refl, authorizing d (host_now host c) sha now os c.session m u h)
  opening c (peer_signal msg) u h = absurd (ground (arith, u, h, (signal-session c msg).0))
  opening c (local_signal msg) u h = absurd (ground (arith, u, h, (signal-session c msg).1))
  opening c e u h = absurd (ground (arith, u, h))

  opened_in :
      (c : Core A) (es : List (Incoming A))
      → c.session.authorized ≡ false
      → (core_run c es).0.session.authorized ≡ true
      → (before : List (Incoming A)) × (now : ℕ) × (os : Os) × (m : Option (Envelope A))
        × (after : List (Incoming A)) × (es ≡ before ++ arrived now os m ∷ after)
        × Accepted (host_now host (core_run c before).0) m
  unfolding core_run
  opened_in c [] u h = absurd (ground (arith, u, h))
  opened_in c (e ∷ es) u h =
      let c' : Core A = (core_step d host sha sdp_of c e).0 in
      elim (Bool-cases c'.session.authorized) [
        | inl open' ↦
            let (now, os, m, is, ok) = opening c e u open' in
            ([], now, os, m, es, ap (λ x. x ∷ es) is, ok)
        | inr shut ↦
            let (before, now, os, m, after, split, ok) = opened_in c' es shut h in
            (e ∷ before, now, os, m, after, ap (λ l. e ∷ l) split, ok)
      ]

  -- Authorization does not outlive a connection: if the host is authorized some time after a connection began
  -- or ended, a message since then was a `Hello` that passed every check, with the proof bound to the
  -- fingerprint that the host had of its peer at that time.
  pub core_run-authorized :
      (c : Core A) (r : Incoming A) (es : List (Incoming A))
      → is_reset r ≡ true
      → (core_run c (r ∷ es)).0.session.authorized ≡ true
      → (before : List (Incoming A)) × (now : ℕ) × (os : Os) × (m : Option (Envelope A))
        × (after : List (Incoming A)) × (es ≡ before ++ arrived now os m ∷ after)
        × Accepted (host_now host (core_run (core_step d host sha sdp_of c r).0 before).0) m
  unfolding core_run
  core_run-authorized c r es reset h =
      opened_in (core_step d host sha sdp_of c r).0 es (reset_shuts c r reset) h

  quiet_step :
      (c : Core A) (e : Incoming A)
      → c.session.authorized ≡ false
      → brings_hello e ≡ false
      → ((core_step d host sha sdp_of c e).0.session.authorized ≡ false)
        × ((core_step d host sha sdp_of c e).0.session.files ≡ c.session.files)
        × All (λ x. is_harmless x ≡ true) (core_step d host sha sdp_of c e).1
  unfolding core_step on_data host_now on_peer_signal on_local_signal clipboard_text
  quiet_step c (arrived now os m) u n =
      let nothing = ignored d (host_now host c) sha now os c.session m u (ground (arith, n)) in
      rw nothing (u, refl, ground (arith, u))
  quiet_step c (peer_signal msg) u n = (
    ap (λ s. s.authorized) (signal-session c msg).0 ∙ u,
    ap (λ s. s.files) (signal-session c msg).0,
    ground arith,
  )
  quiet_step c (local_signal msg) u n = (
    ap (λ s. s.authorized) (signal-session c msg).1 ∙ u,
    ap (λ s. s.files) (signal-session c msg).1,
    ground arith,
  )
  quiet_step c disconnected u n = (refl, refl, ground arith)
  quiet_step c connected u n = (refl, refl, tt)
  quiet_step c (clipboard_polled content seq) u n = (u, refl, (refl, tt))
  quiet_step c e u n = (u, refl, ground arith)

  -- Before a `Hello`, a viewer that is connected but not authorized gets nothing done: whatever it sends, no input
  -- is injected, no file transfer begins or goes on, capturing does not start, no display is chosen, and it is
  -- not reported as active. What the loop does is signaling, keyframe requests, and at the end of a connection
  -- the release of keys, the pause and the report; all that it sends on the control channel is what the thread
  -- of the clipboard sends, which does not ask for the authorization.
  pub core_run_quiet :
      (c : Core A) (es : List (Incoming A))
      → c.session.authorized ≡ false
      → All (λ e. brings_hello e ≡ false) es
      → ((core_run c es).0.session.authorized ≡ false)
        × ((core_run c es).0.session.files ≡ c.session.files)
        × All (λ x. is_harmless x ≡ true) (core_run c es).1
  unfolding core_run
  core_run_quiet c [] u n = (u, refl, tt)
  core_run_quiet c (e ∷ es) u (n, ns) =
      let c' : Core A = (core_step d host sha sdp_of c e).0 in
      let (shut, kept, calm) = quiet_step c e u n in
      let (end, files, rest) = core_run_quiet c' es shut ns in
      (
        end,
        files ∙ kept,
        All-append (λ x. is_harmless x ≡ true) (core_step d host sha sdp_of c e).1
            (core_run c' es).1 calm rest,
      )
