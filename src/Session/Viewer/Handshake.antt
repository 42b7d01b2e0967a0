-- ===== src/Session/Viewer/Handshake.antt =====
-- The viewer of crates/session/src/viewer.rs and the host of crates/session/src/host.rs together: a viewer on
-- the host's list is let in, and both prove who they are.
use reachmydevice.Prelude.{
  ℕ, ◌≡◌, refl, sym, ap, subst, ◌∙◌, true, false, none, some, List, [], ◌∷◌, ◌++◌, arith, length,
  ◌≤◌,
}
use reachmydevice.Protocol.{
  Payload, Envelope, Hello, h264, protocol_major, role_viewer, hello_ack_ok_signed, display_list,
  check_compatibility, hello_authenticated, native_supported_codecs, envelope,
}
use reachmydevice.Codec.{Doubles}
use reachmydevice.Session.FileTransfer.{Os}
use reachmydevice.Session.Identity.{
  Crypto, device, verify_access_proof, access_proof_message, device_id_from_public_key,
  DeviceIdentity, access_proof,
}
use reachmydevice.Session.Identity.Sdp.{offer, answer, fingerprint_from_session_json}
use reachmydevice.Session.Host.{
  is_empty, has_text, decide, authorize, check_codec_compatible, supported_codecs,
  verify_connect_password,
}
use reachmydevice.Session.Host.Guess.{locked, reset}
use reachmydevice.Session.Host.Control.{
  set_show_cursor, resume, send_data, HostSide, Session, accepted_ack, accept, on_hello,
  handle_control,
}
use reachmydevice.Session.Host.Core.{
  send_signal, feed_signal, on_local_signal as core_on_local, on_peer_signal as core_on_peer,
  on_status, active, on_data as core_data, peer_signal, local_signal, connected, arrived, or_empty,
  learn, Core, act, host_now, core_step,
}
use reachmydevice.Session.Host.Isolation.{core_run}
use reachmydevice.Session.Host.Gate.{on_payload-hello}
use reachmydevice.Session.Viewer.{
  on_data as pump_data, on_payload, on_peer_signal, on_local_signal, ViewerUpdate, paired,
  host_identity, PumpEffect, update, ViewerSide, Pump, Event, build_viewer_hello, base_hello,
  on_hello_ack, verify_host, pump_step, pump_run,
}

-- What Ed25519 promises of a device: its key and its signatures have their sizes, and it verifies what it signs.
pub record Signs (k : Crypto) (id : DeviceIdentity) : Type 0 where
  pub key_size : length id.public_key_bytes ≡ 32
  pub is_key : k.is_key id.public_key_bytes ≡ true
  pub signature_size : (m : List ℕ) → length (id.sign m) ≡ 64
  pub verifies : (m : List ℕ) → k.verify id.public_key_bytes m (id.sign m) ≡ true

pub own_proof :
    (k : Crypto) (id : DeviceIdentity) (binding : List ℕ)
    → Signs k id
    → verify_access_proof k id.public_key_bytes (access_proof id binding) binding
      ≡ device (device_id_from_public_key k id.public_key_bytes)
unfolding verify_access_proof access_proof
own_proof k id binding w =
    rw
      (
        w.key_size,
        w.is_key,
        w.signature_size (access_proof_message id.public_key_bytes binding),
        w.verifies (access_proof_message id.public_key_bytes binding),
      )
      refl

-- A host that can let this viewer in.
pub record Ready (host : HostSide) (id : DeviceIdentity) : Type 0 where
  pub codec : host.host_codec ≡ h264
  pub listed :
      has_text host.access.authorized (device_id_from_public_key host.crypto id.public_key_bytes)
      ≡ true
  pub no_password : host.connect_password ≡ none

is_empty-length : (xs : List ℕ) → 1 ≤ length xs → is_empty xs ≡ false
is_empty-length [] h = absurd (omega arith)
is_empty-length (x ∷ xs) h = refl

module _ (host : HostSide) (id : DeviceIdentity) (fp : List ℕ) (w : Signs host.crypto id)
    (r : Ready host id) (h : Hello) (key : h.public_key ≡ id.public_key_bytes)
    (proof : h.signature ≡ access_proof id fp) where
  proof_size : length (access_proof id fp) ≡ 64
  unfolding access_proof
  proof_size = w.signature_size (access_proof_message id.public_key_bytes fp)

  verified :
      verify_access_proof host.crypto h.public_key h.signature fp
      ≡ device (device_id_from_public_key host.crypto id.public_key_bytes)
  verified =
      ap (λ x. verify_access_proof host.crypto x h.signature fp) key
      ∙ ap (λ x. verify_access_proof host.crypto id.public_key_bytes x fp) proof
      ∙ own_proof host.crypto id fp w

  authorizes : authorize host.crypto host.access h fp ≡ none
  unfolding authorize
  authorizes =
      let full_key : is_empty h.public_key ≡ false =
        ap is_empty key ∙ is_empty-length id.public_key_bytes (omega (arith, w.key_size)) in
      let full_proof : is_empty h.signature ≡ false =
        ap is_empty proof ∙ is_empty-length (access_proof id fp) (omega (arith, proof_size)) in
      ground (arith, full_key, full_proof, verified, r.listed)

  decides :
      h.supported_video_codecs ≡ native_supported_codecs
      → decide host.crypto host.access host.host_codec fp protocol_major h ≡ none
  unfolding decide check_compatibility check_codec_compatible supported_codecs
      native_supported_codecs
  decides e = rw (r.codec, e, authorizes) refl

abbrev viewer_hello : ViewerSide → DeviceIdentity → List ℕ → Hello
viewer_hello viewer id fp = record {
  device_name = viewer.device_name;
  role = role_viewer;
  features = 0;
  public_key = id.public_key_bytes;
  signature = access_proof id fp;
  supported_video_codecs = native_supported_codecs;
  password = [];
}

lets_in :
    {A : Type 0} (d : Doubles A) (host : HostSide) (s : Session A) (now : ℕ) (h : Hello)
    → host.connect_password ≡ none
    → locked s.pw_throttle now ≡ false
    → decide host.crypto host.access host.host_codec host.channel_binding protocol_major h ≡ none
    → on_hello d host now s protocol_major h ≡ accept d host s h
unfolding on_hello verify_connect_password
lets_in d host s now h none' l e = ground (arith, e, l, none')

module _ {A : Type 0} (d : Doubles A) (host : HostSide) (viewer : ViewerSide)
    (id host_id : DeviceIdentity) (offered answered : List ℕ) where
  -- The first message of the viewer to the host, and the host's answer to it.
  abbrev first_hello : Envelope A
  first_hello = build_viewer_hello viewer (some answered) none

  abbrev ack : Envelope A
  ack =
      hello_ack_ok_signed host.device_name 0 host_id.public_key_bytes (access_proof host_id offered)
        host.host_codec

  module _ (known : viewer.identity ≡ some id) where
    hello_built : first_hello ≡ envelope (Payload.hello (viewer_hello viewer id answered))
    unfolding build_viewer_hello base_hello hello_authenticated envelope
    hello_built = rw known refl

  unfoldable accepting : Core A → Core A
  accepting c = record c {
    session = record c.session { authorized = true; pw_throttle = reset c.session.pw_throttle };
    was_authorized = true;
  }

  handled :
      (c : Core A) (now : ℕ) (os : Os) (sha : List ℕ → List ℕ)
      → viewer.identity ≡ some id
      → Signs host.crypto id
      → Ready host id
      → locked c.session.pw_throttle now ≡ false
      → c.remote_fingerprint ≡ some answered
      → handle_control d (host_now host c) sha now os c.session (some first_hello)
        ≡ accept d (host_now host c) c.session (viewer_hello viewer id answered)
  unfolding host_now handle_control envelope
  handled c now os sha known w r l remote =
      let h = viewer_hello viewer id answered in
      let passes = decides host id answered w r h refl refl refl in
      rw
        (
          hello_built known,
          on_payload-hello d (host_now host c) sha now os c.session protocol_major h,
        )
        (lets_in d (host_now host c) c.session now h r.no_password l (
          subst
            (λ x.
              decide host.crypto host.access host.host_codec (or_empty x) protocol_major h ≡ none)
            (sym remote) passes))

  host_hears :
      (c : Core A) (now : ℕ) (os : Os) (sha : List ℕ → List ℕ)
      → viewer.identity ≡ some id
      → host.signer ≡ some (host_id.public_key_bytes, access_proof host_id)
      → Signs host.crypto id
      → Ready host id
      → locked c.session.pw_throttle now ≡ false
      → c.was_authorized ≡ false
      → c.remote_fingerprint ≡ some answered
      → c.local_fingerprint ≡ some offered
      → core_data d host sha viewer.sdp_of c now os (some first_hello) ≡ (
        accepting c,
        act (set_show_cursor true)
            ∷ act resume
            ∷ act (send_data ack)
            ∷ act (send_data (display_list host.descriptors))
            ∷ on_status active
            ∷ [],
      )
  unfolding core_data accept accepted_ack host_now accepting
  host_hears c now os sha known signer w r l fresh remote own =
      rw (handled c now os sha known w r l remote) (ground (arith, fresh, signer, own))

  viewer_hears :
      (p : Pump) (now : ℕ) (os : Os)
      → Signs viewer.crypto host_id
      → p.host_fingerprint ≡ some offered
      → pump_data viewer p now os (some ack) ≡ (
        p,
        update (
              host_identity host_id.public_key_bytes
                (device_id_from_public_key viewer.crypto host_id.public_key_bytes)
                true)
            ∷ update (paired true)
            ∷ [],
      )
  unfolding pump_data on_payload on_hello_ack verify_host hello_ack_ok_signed envelope access_proof
  viewer_hears p now os w e =
      let full_key = is_empty-length host_id.public_key_bytes (omega (arith, w.key_size)) in
      let full_proof : is_empty (access_proof host_id offered) ≡ false =
        is_empty-length (access_proof host_id offered) (
          omega
            (arith, w.signature_size (access_proof_message host_id.public_key_bytes offered))) in
      rw (full_key, full_proof, e, own_proof viewer.crypto host_id offered w) refl

  -- A host and a viewer that it lists, with no password between them, over a relay that passes on what they
  -- send: whatever both did before, once they connect, the host lets the viewer in at its first message,
  -- starts to capture and answers, and the viewer verifies the host and is paired.
  pub handshake :
      (c : Core A) (p : Pump) (sha : List ℕ → List ℕ) (offer_json answer_json : List ℕ)
      (now now' : ℕ) (os os' : Os)
      → viewer.identity ≡ some id
      → host.signer ≡ some (host_id.public_key_bytes, access_proof host_id)
      → Signs host.crypto id
      → Signs viewer.crypto host_id
      → Ready host id
      → locked c.session.pw_throttle now ≡ false
      → fingerprint_from_session_json viewer.sdp_of offer_json ≡ some offered
      → fingerprint_from_session_json viewer.sdp_of answer_json ≡ some answered
      → ((core_run d host sha viewer.sdp_of c (
            local_signal (offer offer_json)
            ∷ peer_signal (answer answer_json)
            ∷ connected
            ∷ arrived now os (some first_hello)
            ∷ [])).1
          ≡ send_signal (offer offer_json)
            ∷ feed_signal (answer answer_json)
            ∷ act (set_show_cursor true)
            ∷ act resume
            ∷ act (send_data ack)
            ∷ act (send_data (display_list host.descriptors))
            ∷ on_status active
            ∷ [])
        × ((pump_run viewer p (
              Event.peer_signal (offer offer_json)
              ∷ Event.local_signal (answer answer_json)
              ∷ Event.connected
              ∷ Event.arrived now' os' (some ack)
              ∷ [])).1
            ≡ PumpEffect.feed_signal (offer offer_json)
              ∷ PumpEffect.send_signal (answer answer_json)
              ∷ PumpEffect.send_data first_hello
              ∷ update ViewerUpdate.connected
              ∷ update (
                  host_identity host_id.public_key_bytes
                    (device_id_from_public_key viewer.crypto host_id.public_key_bytes)
                    true)
              ∷ update (paired true)
              ∷ [])
  unfolding core_run core_step core_on_local core_on_peer pump_run pump_step on_peer_signal
      on_local_signal
  handshake c p sha offer_json answer_json now now' os os' known signer w w' r l f g =
      let remote = ap (learn c.remote_fingerprint) g in
      let own = ap (learn c.local_fingerprint) f in
      let host_end : Core A =
        (core_run d host sha viewer.sdp_of c (
          local_signal (offer offer_json) ∷ peer_signal (answer answer_json) ∷ connected ∷ [])).0 in
      let viewer_end : Pump =
        (pump_run {A = A} viewer p (
          Event.peer_signal (offer offer_json)
          ∷ Event.local_signal (answer answer_json)
          ∷ Event.connected
          ∷ [])).0 in
      (
        ap (λ x. send_signal (offer offer_json) ∷ feed_signal (answer answer_json) ∷ x.1 ++ [])
            (host_hears host_end now os sha known signer w r l refl remote own),
        ap
              (λ fp.
                PumpEffect.feed_signal (offer offer_json)
                  ∷ PumpEffect.send_signal (answer answer_json)
                  ∷ PumpEffect.send_data (build_viewer_hello viewer fp none)
                  ∷ update ViewerUpdate.connected
                  ∷ (pump_data viewer viewer_end now' os' (some ack)).1
                ++ [])
              (ap (learn p.local_fingerprint) g)
            ∙ ap
                (λ x.
                  PumpEffect.feed_signal (offer offer_json)
                    ∷ PumpEffect.send_signal (answer answer_json)
                    ∷ PumpEffect.send_data first_hello
                    ∷ update ViewerUpdate.connected
                    ∷ x.1
                  ++ [])
                (viewer_hears viewer_end now' os' w' (ap (learn p.host_fingerprint) f)),
      )
