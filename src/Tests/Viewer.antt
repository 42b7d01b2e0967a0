-- ===== src/Tests/Viewer.antt =====
-- The viewer of crates/session/src/viewer.rs and the host of crates/session/src/host.rs: an offer and an answer
-- whose JSON texts are "1" and "2", and a signature that is the signed message itself or, where sizes are
-- checked, 64 times the byte 7.
use reachmydevice.Prelude.{
  ℕ, ◌+◌, ◌≡◌, ◌≢◌, refl, true, false, none, some, Option, List, [], ◌∷◌, arith, replicate, length,
  ◌++◌, ◌≤◌,
}
use reachmydevice.Protocol.{Payload, Envelope, Hello, HelloAck, hello_ack_ok_signed, display_list}
use reachmydevice.Session.FileTransfer.{Os}
use reachmydevice.Session.Pairing.{bytes_eq, trim_start, trim_end}
use reachmydevice.Session.Identity.{
  Crypto, DeviceIdentity, access_proof, access_proof_message, verify_access_proof,
  device_id_from_public_key,
}
use reachmydevice.Session.Identity.Sdp.{
  offer, answer, fingerprint_from_session_json, dtls_fingerprint_from_sdp, lines_from,
  first_fingerprint, strip_prefix,
}
use reachmydevice.Session.Identity.KnownPeers.Lines.{bytes_eq_sound}
use reachmydevice.Session.Host.Control.{HostSide, set_show_cursor, resume, send_data}
use reachmydevice.Session.Host.Guess.{locked}
use reachmydevice.Session.Host.Core.{
  Incoming, arrived, act, on_status, active, send_signal, feed_signal, or_empty, core_step,
}
use reachmydevice.Session.Host.Isolation.{core_run}
use reachmydevice.Session.Viewer.{
  ViewerSide, ViewerUpdate, Pump, PumpEffect, Event, update, paired, host_identity,
  build_viewer_hello, on_hello_ack, pump_run, pump_step, on_data, on_payload, verify_host,
  on_peer_signal,
}
use reachmydevice.Session.Viewer.Paired.{has_paired, last_offer, Vouched, pump_run-paired}
use reachmydevice.Session.Viewer.Replay.{Unforgeable, replayed_refused, replayed_unpaired}
use reachmydevice.Session.Viewer.Handshake.{Signs, Ready, handshake}
use reachmydevice.Tests.Host.{
  eighths, host, no_files, willing, hash, idle, crypto, public_key, good_hello, the_id,
}

abbrev laptop : DeviceIdentity
laptop = record { public_key_bytes = public_key; sign = λ m. replicate 64 7 }

-- "a=fingerprint:A" and "a=fingerprint:B".
abbrev sdp_text : ℕ → List ℕ
sdp_text c = 97 ∷ 61 ∷ 102 ∷ 105 ∷ 110 ∷ 103 ∷ 101 ∷ 114 ∷ 112 ∷ 114 ∷ 105 ∷ 110 ∷ 116 ∷ 58 ∷ c ∷ []

abbrev sdp_of : List ℕ → Option (List ℕ)
sdp_of [] = none
sdp_of (c ∷ cs) = some (sdp_text (16 + c))

abbrev offer_json : List ℕ
offer_json = 49 ∷ []

abbrev answer_json : List ℕ
answer_json = 50 ∷ []

abbrev offered : List ℕ
offered = 65 ∷ []

abbrev answered : List ℕ
answered = 66 ∷ []

abbrev viewer : ViewerSide
viewer = record {
  device_name = "lap";
  identity = some laptop;
  plays = false;
  crypto = crypto;
  sha = hash;
  format_id = λ seq name. "tx";
  sdp_of = sdp_of;
}

abbrev pump : Pump
pump = record { local_fingerprint = none; host_fingerprint = none; files = no_files; audio_rx = 0 }

offer_read : fingerprint_from_session_json sdp_of offer_json ≡ some offered
unfolding fingerprint_from_session_json dtls_fingerprint_from_sdp lines_from first_fingerprint
    strip_prefix trim_start trim_end
offer_read = refl

answer_read : fingerprint_from_session_json sdp_of answer_json ≡ some answered
unfolding fingerprint_from_session_json dtls_fingerprint_from_sdp lines_from first_fingerprint
    strip_prefix trim_start trim_end
answer_read = refl

abbrev desk : DeviceIdentity
desk = record { public_key_bytes = replicate 32 6; sign = λ m. replicate 64 7 }

laptop-Signs : Signs crypto laptop
laptop-Signs = record {
  key_size = refl;
  is_key = refl;
  signature_size = λ m. refl;
  verifies = λ m. refl;
}

desk-Signs : Signs crypto desk
desk-Signs = record {
  key_size = refl;
  is_key = refl;
  signature_size = λ m. refl;
  verifies = λ m. refl;
}

abbrev open_host : HostSide
open_host = record host {
  connect_password = none;
  signer = some (desk.public_key_bytes, access_proof desk);
}

ready : Ready open_host laptop
unfolding the_id device_id_from_public_key
ready = record { codec = refl; listed = refl; no_password = refl }

unlocked : locked idle.session.pw_throttle 5 ≡ false
unfolding locked
unlocked = refl

abbrev hello : Envelope ℕ
hello = build_viewer_hello viewer (some answered) none

abbrev ack : Envelope ℕ
ack =
    hello_ack_ok_signed "desk" 0 desk.public_key_bytes (access_proof desk offered)
      open_host.host_codec

handshake_example :
    ((core_run eighths open_host hash sdp_of idle (
        Incoming.local_signal (offer offer_json)
        ∷ Incoming.peer_signal (answer answer_json)
        ∷ Incoming.connected
        ∷ arrived 5 willing (some hello)
        ∷ [])).1
      ≡ send_signal (offer offer_json)
        ∷ feed_signal (answer answer_json)
        ∷ act (set_show_cursor true)
        ∷ act resume
        ∷ act (send_data ack)
        ∷ act (send_data (display_list []))
        ∷ on_status active
        ∷ [])
    × ((pump_run viewer pump (
          Event.peer_signal (offer offer_json)
          ∷ Event.local_signal (answer answer_json)
          ∷ Event.connected
          ∷ Event.arrived 6 willing (some ack)
          ∷ [])).1
        ≡ PumpEffect.feed_signal (offer offer_json)
          ∷ PumpEffect.send_signal (answer answer_json)
          ∷ PumpEffect.send_data hello
          ∷ update ViewerUpdate.connected
          ∷ update (
              host_identity desk.public_key_bytes
                (device_id_from_public_key crypto desk.public_key_bytes)
                true)
          ∷ update (paired true)
          ∷ [])
handshake_example =
    handshake eighths open_host viewer laptop desk offered answered idle pump hash offer_json
      answer_json 5 6 willing willing refl refl laptop-Signs desk-Signs ready unlocked offer_read
      answer_read

abbrev meeting : List (Event ℕ)
meeting = Event.peer_signal (offer offer_json) ∷ Event.arrived 6 willing (some ack) ∷ []

told_paired : has_paired (pump_run viewer pump meeting).1 ≡ true
unfolding pump_run pump_step on_data on_payload on_hello_ack verify_host hello_ack_ok_signed
    on_peer_signal verify_access_proof access_proof
told_paired = refl

pump_run-paired_example :
    (before : List (Event ℕ)) × (now : ℕ) × (os : Os) × (m : Option (Envelope ℕ)) × (after : List
      (Event ℕ))
    × (meeting ≡ before ++ Event.arrived now os m ∷ after)
    × Vouched viewer (or_empty (last_offer viewer none before)) m
pump_run-paired_example = pump_run-paired viewer pump meeting told_paired

-- Signatures that verify for one message only.
abbrev strict : Crypto
strict = record crypto { verify = λ key message signature. bytes_eq message signature }

abbrev notary : DeviceIdentity
notary = record { public_key_bytes = public_key; sign = λ m. m }

cannot_forge : Unforgeable strict notary
cannot_forge m m' h = bytes_eq_sound m m' h

differ : answered ≢ []
differ h = absurd (ground arith)

abbrev replayed : Hello
replayed = record good_hello { signature = access_proof notary answered }

replayed_refused_example :
    (core_step eighths
      (record host { crypto = strict })
      hash
      sdp_of
      idle
      (arrived 5 willing (
        some (record {
          major = 1;
          minor = 7;
          payload = some (Payload.hello replayed);
        })))).0.session.authorized
    ≡ false
replayed_refused_example =
    replayed_refused eighths (record host { crypto = strict }) hash sdp_of idle notary 5 willing
      (record { major = 1; minor = 7; payload = some (Payload.hello replayed) }) replayed answered
      cannot_forge refl refl differ refl refl refl

abbrev replayed_ack : HelloAck
replayed_ack = record {
  accepted = true;
  reason = "";
  device_name = "desk";
  features = 0;
  host_public_key = public_key;
  host_proof = access_proof_message public_key answered;
  video_codec = 1;
  password_required = false;
}

proof_given : replayed_ack.host_proof ≡ access_proof notary answered
unfolding access_proof
proof_given = refl

proof_long : 1 ≤ length replayed_ack.host_proof
unfolding access_proof_message
proof_long = omega arith

replayed_unpaired_example :
    on_hello_ack {A = ℕ} (record viewer { crypto = strict }) pump replayed_ack
    ≡ update (host_identity public_key [] false) ∷ update (paired false) ∷ []
replayed_unpaired_example =
    replayed_unpaired ℕ (record viewer { crypto = strict }) pump notary replayed_ack answered
      cannot_forge differ (omega arith) proof_long refl refl proof_given
