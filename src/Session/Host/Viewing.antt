-- ===== src/Session/Host/Viewing.antt =====
-- What `handle_control` of crates/session/src/host.rs keeps: the view-only mode and a safe zoom.
use reachmydevice.Prelude.{
  ℕ, ◌≡◌, refl, sym, ap, ◌∙◌, inl, inr, true, false, Option, none, some, List, [], ◌∷◌, map, arith,
  All, All-append, Bool-cases, Option-cases, subst,
}
use reachmydevice.Protocol.{Payload, Envelope, Hello}
use reachmydevice.Codec.{Doubles, sanitized}
use reachmydevice.Codec.Crop.{sanitized-sanitized}
use reachmydevice.Session.FileTransfer.{FileTransfers, Os, Output, handle}
use reachmydevice.Session.Host.{authorization_permits, view_only_suppresses, is_input}
use reachmydevice.Session.Host.Control.{
  HostSide, Session, transfer, Step, accept, on_hello, dispatch, permitted, on_payload,
  handle_control,
}
use reachmydevice.Session.Host.Gate.{Arrival, run, envelope_payload, keeps_view_only, is_inject}

module _ {A : Type 0} (d : Doubles A) (host : HostSide) (sha : List ℕ → List ℕ) where
  on_hello-kept :
      (now : ℕ) (s : Session A) (major : ℕ) (h : Hello)
      → ((on_hello d host now s major h).0.zoom ≡ s.zoom)
        × ((on_hello d host now s major h).0.view_only ≡ s.view_only)
        × All (λ e. is_inject e ≡ false) (on_hello d host now s major h).1
  unfolding on_hello accept
  on_hello-kept now s major h = (ground arith, ground arith, ground arith)

  dispatch-view_only :
      (now : ℕ) (s : Session A) (major : ℕ) (p : Payload A)
      → keeps_view_only (some p) ≡ true
      → is_input p ≡ false
      → s.view_only ≡ true
      → ((dispatch d host now s major p).0.view_only ≡ true)
        × All (λ e. is_inject e ≡ false) (dispatch d host now s major p).1
  unfolding dispatch is_input
  dispatch-view_only now s major (Payload.hello h) k i v =
      let (_, same, quiet) = on_hello-kept now s major h in (same ∙ v, quiet)
  dispatch-view_only now s major (Payload.input ev) k i v = absurd (ground arith)
  dispatch-view_only now s major (Payload.view_only enabled) k i v = (k, ground arith)
  dispatch-view_only now s major p k i v = (v, ground arith)

  dispatch-zoom :
      (now : ℕ) (s : Session A) (major : ℕ) (p : Payload A)
      → sanitized d s.zoom ≡ s.zoom
      → sanitized d (dispatch d host now s major p).0.zoom ≡ (dispatch d host now s major p).0.zoom
  unfolding dispatch
  dispatch-zoom now s major (Payload.hello h) z =
      let (same, _, _) = on_hello-kept now s major h in ap (sanitized d) same ∙ z ∙ sym same
  dispatch-zoom now s major (Payload.set_zoom x y w h) z =
      sanitized-sanitized d (record { x = x; y = y; w = w; h = h })
  dispatch-zoom now s major p z = z

  -- What every step keeps if a dispatched payload and a file transfer keep it.
  step_by :
      (P : Step A → Type 0) (now : ℕ) (os : Os) (s : Session A) (m : Option (Envelope A))
      → P (s, [])
      → ((f : FileTransfers) (outs : List (Output A))
          → P (record s { files = f }, map transfer outs))
      → ((major : ℕ) (p : Payload A)
          → envelope_payload m ≡ some p
          → view_only_suppresses p s.view_only ≡ false
          → P (dispatch d host now s major p))
      → P (handle_control d host sha now os s m)
  unfolding handle_control on_payload permitted
  step_by P now os s none same files other = same
  step_by P now os s (some env) same files other =
      let after : Step A = handle_control d host sha now os s (some env) in
      let none_done : after ≡ (s, []) → P after = λ e. subst P (sym e) same in
      elim (Option-cases env.payload) [
        | inl empty ↦ none_done (ground (arith, empty))
        | inr (p, found) ↦ elim (Bool-cases (authorization_permits p s.authorized)) [
          | inr shut ↦ none_done (ground (arith, found, shut))
          | inl may ↦ elim (Bool-cases (view_only_suppresses p s.view_only)) [
            | inl dropped ↦ none_done (ground (arith, found, may, dropped))
            | inr through ↦ elim (Option-cases (handle sha s.files os p)) [
              | inl no_file ↦
                  let e : after ≡ dispatch d host now s env.major p =
                    ground (arith, found, may, through, no_file) in
                  subst P (sym e) (other env.major p found through)
              | inr ((f, outs), file) ↦
                  let e : after ≡ (record s { files = f }, map transfer outs) =
                    ground (arith, found, may, through, file) in
                  subst P (sym e) (files f outs)
            ]
          ]
        ]
      ]

  no_inject : (outs : List (Output A)) → All (λ e. is_inject e ≡ false) (map transfer outs)
  no_inject [] = tt
  no_inject (o ∷ outs) = (refl, no_inject outs)

  step-view_only :
      (now : ℕ) (os : Os) (s : Session A) (m : Option (Envelope A))
      → s.view_only ≡ true
      → keeps_view_only (envelope_payload m) ≡ true
      → ((handle_control d host sha now os s m).0.view_only ≡ true)
        × All (λ e. is_inject e ≡ false) (handle_control d host sha now os s m).1
  unfolding view_only_suppresses
  step-view_only now os s m v k =
      step_by (λ r. (r.0.view_only ≡ true) × All (λ e. is_inject e ≡ false) r.1) now os s m (v, tt)
        (λ f outs. (v, no_inject outs))
        (λ major p found through.
          dispatch-view_only now s major p (ap keeps_view_only (sym found) ∙ k) (ground arith) v)

  -- On a view-only session no message moves the pointer or presses a key, and it stays view-only, until the
  -- viewer ends it; other messages in any number do not.
  run-view_only :
      (s : Session A) (rest : List (Arrival A))
      → s.view_only ≡ true
      → All (λ a. keeps_view_only (envelope_payload a.message) ≡ true) rest
      → ((run d host sha s rest).0.view_only ≡ true)
        × All (λ e. is_inject e ≡ false) (run d host sha s rest).1
  unfolding run
  run-view_only s [] v k = (v, tt)
  run-view_only s (a ∷ rest) v (k, ks) =
      let (on, quiet) = step-view_only a.now a.os s a.message v k in
      let (end, rest_quiet) =
        run-view_only (handle_control d host sha a.now a.os s a.message).0 rest on ks in
      (
        end,
        All-append (λ e. is_inject e ≡ false) (handle_control d host sha a.now a.os s a.message).1
            (run d host sha (handle_control d host sha a.now a.os s a.message).0 rest).1 quiet
            rest_quiet,
      )

  -- The rectangle that input is mapped through is always a safe one: if it is at the start, it is after any
  -- messages. The comparisons are those of IEEE 754.
  pub run-zoom :
      (s : Session A) (rest : List (Arrival A))
      → sanitized d s.zoom ≡ s.zoom
      → sanitized d (run d host sha s rest).0.zoom ≡ (run d host sha s rest).0.zoom
  unfolding run
  run-zoom s [] z = z
  run-zoom s (a ∷ rest) z = run-zoom (handle_control d host sha a.now a.os s a.message).0 rest (
      step_by (λ r. sanitized d r.0.zoom ≡ r.0.zoom) a.now a.os s a.message z (λ f outs. z)
        (λ major p found through. dispatch-zoom a.now s major p z))
