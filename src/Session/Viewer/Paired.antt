-- ===== src/Session/Viewer/Paired.antt =====
-- When the pump of crates/session/src/viewer.rs tells the user that the session is paired.
use reachmydevice.Prelude.{
  ℕ, ◌≡◌, refl, ap, subst, ◌∙◌, ◌⊎◌, inl, inr, Bool, true, false, ◌||◌, Option, none, some, List,
  [], ◌∷◌, ◌++◌, map, arith, Bool-cases, Option-cases,
}
use reachmydevice.Protocol.{Payload, Envelope, HelloAck}
use reachmydevice.Session.FileTransfer.{Os, Output, handle}
use reachmydevice.Session.FileTransfer.Send.{send_file}
use reachmydevice.Session.Identity.{device, verify_access_proof}
use reachmydevice.Session.Identity.Sdp.{offer, answer, candidate, fingerprint_from_session_json}
use reachmydevice.Session.Host.{is_empty}
use reachmydevice.Session.Host.Gate.{Verified-cases}
use reachmydevice.Session.Host.Core.{or_empty, learn}
use reachmydevice.Session.Viewer.{
  paired, PumpEffect, update, transfer, ViewerSide, Pump, Event, peer_signal, local_signal,
  file_cmd, other_reply, arrived, verify_host, on_hello_ack, on_payload, other_payload,
  on_peer_signal, on_local_signal, on_data, pump_step, pump_run,
}

abbrev pub is_paired : {A : Type 0} → PumpEffect A → Bool
is_paired (update (paired b)) = b
is_paired e = false

abbrev pub has_paired : {A : Type 0} → List (PumpEffect A) → Bool
has_paired [] = false
has_paired (e ∷ es) = is_paired e || has_paired es

-- The fingerprint of the last offer that had one.
abbrev pub last_offer :
    {A : Type 0} → ViewerSide → Option (List ℕ) → List (Event A) → Option (List ℕ)
last_offer viewer fp [] = fp
last_offer viewer fp (peer_signal (offer json) ∷ es) =
    last_offer viewer (learn fp (fingerprint_from_session_json viewer.sdp_of json)) es
last_offer viewer fp (e ∷ es) = last_offer viewer fp es

-- An accepting `HelloAck`, with a proof that verifies for the host's fingerprint, or with none.
abbrev pub Vouched : {A : Type 0} → ViewerSide → List ℕ → Option (Envelope A) → Type 0
Vouched viewer binding none = ⊥
Vouched viewer binding (some env) =
    (ack : HelloAck) × (env.payload ≡ some (Payload.hello_ack ack))
    × (ack.password_required ≡ false)
    × (ack.accepted ≡ true)
    × ((is_empty ack.host_public_key || is_empty ack.host_proof ≡ true)
        ⊎ ((id : List ℕ) × (verify_access_proof viewer.crypto ack.host_public_key ack.host_proof
                binding
              ≡ device id)))

module _ {A : Type 0} (viewer : ViewerSide) where
  has_paired-append :
      (xs ys : List (PumpEffect A)) → has_paired (xs ++ ys) ≡ has_paired xs || has_paired ys
  has_paired-append [] ys = refl
  has_paired-append (x ∷ xs) ys = ground (arith, has_paired-append xs ys)

  has_paired-transfer : (outs : List (Output A)) → has_paired (map transfer outs) ≡ false
  has_paired-transfer [] = refl
  has_paired-transfer (o ∷ outs) = has_paired-transfer outs

  ack-Vouched :
      (p : Pump) (env : Envelope A) (ack : HelloAck)
      → env.payload ≡ some (Payload.hello_ack ack)
      → has_paired (on_hello_ack {A = A} viewer p ack) ≡ true
      → Vouched viewer (or_empty p.host_fingerprint) (some env)
  unfolding on_hello_ack verify_host
  ack-Vouched p env ack e h =
      elim (Bool-cases (is_empty ack.host_public_key || is_empty ack.host_proof)) [
        | inl unproved ↦ (ack, e, ground arith, ground arith, inl unproved)
        | inr proved ↦
            elim (Verified-cases (
              verify_access_proof viewer.crypto ack.host_public_key ack.host_proof
                (or_empty p.host_fingerprint))) [
                  | inl (id, v) ↦ (ack, e, ground arith, ground arith, inr (id, v))
                  | inr (w, v) ↦ absurd (ground arith)
                ]
      ]

  other_silent :
      (p : Pump) (os : Os) (m : Payload A)
      → (has_paired (other_payload viewer p os m).1 ≡ false)
        × ((other_payload viewer p os m).0.host_fingerprint ≡ p.host_fingerprint)
  unfolding other_payload
  other_silent p os m =
      elim (handle viewer.sha p.files os m)
        as (λ r.
          (has_paired (other_reply p r).1 ≡ false)
          × ((other_reply p r).0.host_fingerprint ≡ p.host_fingerprint)) [
            | none ↦ (refl, refl)
            | some (files, outs) ↦ (has_paired-transfer outs, refl)
          ]

  payload-Vouched :
      (p : Pump) (now : ℕ) (os : Os) (env : Envelope A) (m : Payload A)
      → env.payload ≡ some m
      → has_paired (on_payload viewer p now os m).1 ≡ true
      → Vouched viewer (or_empty p.host_fingerprint) (some env)
  unfolding on_payload
  payload-Vouched p now os env (Payload.hello_ack ack) e h = ack-Vouched p env ack e h
  payload-Vouched p now os env m e h =
      absurd (let (silent, _) = other_silent p os m in ground (arith, silent))

  data-Vouched :
      (p : Pump) (now : ℕ) (os : Os) (m : Option (Envelope A))
      → has_paired (on_data viewer p now os m).1 ≡ true
      → Vouched viewer (or_empty p.host_fingerprint) m
  unfolding on_data
  data-Vouched p now os none h = absurd (ground arith)
  data-Vouched p now os (some env) h = elim (Option-cases env.payload) [
    | inl e ↦ absurd (ground arith)
    | inr (m, e) ↦ payload-Vouched p now os env m e (ground arith)
  ]

  fingerprint-on_data :
      (p : Pump) (now : ℕ) (os : Os) (m : Option (Envelope A))
      → (on_data viewer p now os m).0.host_fingerprint ≡ p.host_fingerprint
  unfolding on_data on_payload
  fingerprint-on_data p now os none = refl
  fingerprint-on_data p now os (some env) = elim (Option-cases env.payload) [
    | inl e ↦ ground arith
    | inr (m, e) ↦ let (_, same) = other_silent p os m in ground arith
  ]

  fingerprint-pump_step :
      (p : Pump) (e : Event A)
      → (pump_step viewer p e).0.host_fingerprint ≡ last_offer viewer p.host_fingerprint (e ∷ [])
  unfolding pump_step on_peer_signal on_local_signal
  fingerprint-pump_step p (peer_signal (offer json)) = refl
  fingerprint-pump_step p (peer_signal (answer json)) = refl
  fingerprint-pump_step p (peer_signal (candidate json)) = refl
  fingerprint-pump_step p (local_signal (answer json)) = refl
  fingerprint-pump_step p (arrived now os m) = fingerprint-on_data p now os m
  fingerprint-pump_step p e = refl

  step-Vouched :
      (p : Pump) (e : Event A)
      → has_paired (pump_step viewer p e).1 ≡ true
      → (now : ℕ) × (os : Os) × (m : Option (Envelope A)) × (e ≡ arrived now os m)
        × Vouched viewer (or_empty p.host_fingerprint) m
  unfolding pump_step
  step-Vouched p (arrived now os m) h = (now, os, m, refl, data-Vouched p now os m h)
  step-Vouched p (file_cmd f) h = absurd (
      let s = has_paired-transfer (send_file {A = A} viewer.format_id p.files f).0.1 in
      ground arith)
  step-Vouched p e h = absurd (ground arith)

  last_offer-append :
      (fp : Option (List ℕ)) (e : Event A) (es : List (Event A))
      → last_offer viewer (last_offer viewer fp (e ∷ [])) es ≡ last_offer viewer fp (e ∷ es)
  last_offer-append fp (peer_signal (offer json)) es = refl
  last_offer-append fp (peer_signal (answer json)) es = refl
  last_offer-append fp (peer_signal (candidate json)) es = refl
  last_offer-append fp e es = refl

  -- The user is told that the session is paired only after a `HelloAck` that accepts the viewer and asks for no
  -- password, and whose proof, if it has a key and a proof, verifies for the fingerprint of the last offer
  -- that had one, whatever else the pump receives and in whatever order.
  pub pump_run-paired :
      (p : Pump) (es : List (Event A))
      → has_paired (pump_run viewer p es).1 ≡ true
      → (before : List (Event A)) × (now : ℕ) × (os : Os) × (m : Option (Envelope A))
        × (after : List (Event A)) × (es ≡ before ++ arrived now os m ∷ after)
        × Vouched viewer (or_empty (last_offer viewer p.host_fingerprint before)) m
  unfolding pump_run
  pump_run-paired p [] h = absurd (ground arith)
  pump_run-paired p (e ∷ es) h =
      let out = (pump_step viewer p e).1 in
      let p' : Pump = (pump_step viewer p e).0 in
      elim (Bool-cases (has_paired out)) [
        | inl told ↦
            let (now, os, m, is, ok) = step-Vouched p e told in
            ([], now, os, m, es, ap (λ x. x ∷ es) is, ok)
        | inr silent ↦
            let (before, now, os, m, after, split, ok) =
              pump_run-paired p' es
                (ground (arith, has_paired-append out (pump_run viewer p' es).1)) in
            (
              e ∷ before,
              now,
              os,
              m,
              after,
              ap (λ l. e ∷ l) split,
              subst (λ fp. Vouched viewer (or_empty fp) m)
                  (ap (λ fp. last_offer viewer fp before) (fingerprint-pump_step p e)
                    ∙ last_offer-append p.host_fingerprint e before)
                  ok,
            )
      ]
