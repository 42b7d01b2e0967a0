-- ===== src/Session/Viewer/Replay.antt =====
-- What happens to a proof of identity that a relay passes on into another session: the host of
-- crates/session/src/host.rs and the viewer of crates/session/src/viewer.rs.
use reachmydevice.Prelude.{
  ℕ, ◌≡◌, ◌≢◌, refl, sym, ap, ◌∙◌, inl, inr, true, false, Option, some, List, [], ◌∷◌, arith,
  length, Bool-cases, ◌≤◌,
}
use reachmydevice.Protocol.{Payload, Envelope, Hello, HelloAck}
use reachmydevice.Codec.{Doubles}
use reachmydevice.Session.FileTransfer.{Os}
use reachmydevice.Session.Identity.{
  Crypto, device, verify_access_proof, access_proof_message, DeviceIdentity, access_proof,
}
use reachmydevice.Session.Identity.Proof.{access_proof_message-injective}
use reachmydevice.Session.Host.Control.{HostSide, Session, handle_control}
use reachmydevice.Session.Host.Core.{
  on_data as core_data, arrived, or_empty, Core, host_now, core_step,
}
use reachmydevice.Session.Host.Gate.{authorizing, Verified-cases}
use reachmydevice.Session.Viewer.{
  paired, host_identity, update, ViewerSide, Pump, on_hello_ack, verify_host,
}

-- A signature of the device for one message is not one for another.
abbrev pub Unforgeable : Crypto → DeviceIdentity → Type 0
Unforgeable k id = (m m' : List ℕ) → k.verify id.public_key_bytes m (id.sign m') ≡ true → m ≡ m'

moved_proof :
    (k : Crypto) (id : DeviceIdentity) (binding other : List ℕ)
    → Unforgeable k id
    → other ≢ binding
    → (device_id : List ℕ)
    → verify_access_proof k id.public_key_bytes (access_proof id other) binding ≢ device device_id
unfolding verify_access_proof access_proof
moved_proof k id binding other u n device_id e =
    let verified : k.verify id.public_key_bytes (access_proof_message id.public_key_bytes binding)
          (access_proof id other)
        ≡ true =
      ground arith in
    let (_, same) =
      access_proof_message-injective id.public_key_bytes id.public_key_bytes binding other refl (
        u (access_proof_message id.public_key_bytes binding)
          (access_proof_message id.public_key_bytes other) verified) in
    n (sym same)

replayed :
    (k : Crypto) (id : DeviceIdentity) (h h' : Hello) (binding other device_id : List ℕ)
    → h' ≡ h
    → h.public_key ≡ id.public_key_bytes
    → h.signature ≡ access_proof id other
    → verify_access_proof k h'.public_key h'.signature binding ≡ device device_id
    → verify_access_proof k id.public_key_bytes (access_proof id other) binding ≡ device device_id
replayed k id h h' binding other device_id same key proof v =
    sym (
      ap (λ x. verify_access_proof k x.public_key x.signature binding) same
      ∙ ap (λ x. verify_access_proof k x h.signature binding) key
      ∙ ap (λ x. verify_access_proof k id.public_key_bytes x binding) proof)
    ∙ v

-- A viewer does not pair with who replays a host's proof: if the answer asks for no password and holds a key
-- and a proof, and the proof is one that the host made for another fingerprint than that of the offer, where a
-- signature for one message is not one for another, then the viewer is told that the identity is not verified
-- and that it is not paired, and nothing else.
pub replayed_unpaired :
    (A : Type 0) (viewer : ViewerSide) (p : Pump) (id : DeviceIdentity) (ack : HelloAck)
    (binding : List ℕ)
    → Unforgeable viewer.crypto id
    → binding ≢ or_empty p.host_fingerprint
    → 1 ≤ length ack.host_public_key
    → 1 ≤ length ack.host_proof
    → ack.password_required ≡ false
    → ack.host_public_key ≡ id.public_key_bytes
    → ack.host_proof ≡ access_proof id binding
    → on_hello_ack {A = A} viewer p ack
      ≡ update (host_identity ack.host_public_key [] false) ∷ update (paired false) ∷ []
unfolding on_hello_ack verify_host
replayed_unpaired A viewer p id ack binding u n a b asks key proof =
    elim (Verified-cases (
      verify_access_proof viewer.crypto ack.host_public_key ack.host_proof
        (or_empty p.host_fingerprint))) [
          | inl (device_id, v) ↦ absurd (
              moved_proof viewer.crypto id (or_empty p.host_fingerprint) binding u n device_id (
                sym (
                  ap
                    (λ x.
                      verify_access_proof viewer.crypto x ack.host_proof
                        (or_empty p.host_fingerprint))
                    key
                  ∙ ap
                      (λ x.
                        verify_access_proof viewer.crypto id.public_key_bytes x
                          (or_empty p.host_fingerprint))
                      proof)
                ∙ v))
          | inr (e, v) ↦ ground (arith, v, asks, a, b)
        ]

module _ {A : Type 0} (d : Doubles A) (host : HostSide) (sha : List ℕ → List ℕ)
    (sdp_of : List ℕ → Option (List ℕ)) where
  -- A host that asks for an identity does not let in who replays a viewer's proof: a `Hello` with the proof
  -- that the viewer made for another fingerprint than the one the host has of its peer leaves it
  -- unauthorized, whatever else the message says.
  pub replayed_refused :
      (c : Core A) (id : DeviceIdentity) (now : ℕ) (os : Os) (env : Envelope A) (h : Hello)
      (binding : List ℕ)
      → Unforgeable host.crypto id
      → host.access.require ≡ true
      → c.session.authorized ≡ false
      → binding ≢ or_empty c.remote_fingerprint
      → env.payload ≡ some (Payload.hello h)
      → h.public_key ≡ id.public_key_bytes
      → h.signature ≡ access_proof id binding
      → (core_step d host sha sdp_of c (arrived now os (some env))).0.session.authorized ≡ false
  unfolding core_step core_data host_now
  replayed_refused c id now os env h binding u asks shut n is key proof =
      let s' : Session A = (handle_control d (host_now host c) sha now os c.session (some env)).0 in
      elim (Bool-cases s'.authorized) [
        | inr still ↦ still
        | inl open' ↦
            let (h', is', _, _, known, _) =
              authorizing d (host_now host c) sha now os c.session (some env) shut open' in
            let same : h' ≡ h = cc in
            elim known [
              | inl lax ↦ absurd (ground (arith, lax, asks))
              | inr (device_id, v, _) ↦ absurd (
                  moved_proof host.crypto id (or_empty c.remote_fingerprint) binding u n device_id (
                    replayed host.crypto id h h' (or_empty c.remote_fingerprint) binding device_id
                      same key proof v))
            ]
      ]
