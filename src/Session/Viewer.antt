-- ===== src/Session/Viewer.antt =====
-- crates/session/src/viewer.rs: the pump of the viewer and the messages that it sends. A step is what the loop
-- does with one thing that it receives. Decoding and playing are effects; a file event of a transfer comes
-- back to the loop as a message of its own.
pub mod Paired
pub mod Replay
pub mod Handshake
use reachmydevice.Prelude.{
  ℕ, ◌+◌, ◌-◌, ◌%◌, ◌^◌, Bool, true, false, not, ◌&&◌, Option, none, some, List, [], ◌∷◌, ◌++◌, map,
  String, if◌then◌else◌,
}
use reachmydevice.Protocol.{
  Payload, Envelope, HelloAck, ClipboardUpdate, DisplayDescriptor, hello_authenticated, plain_hello,
  with_password, role_viewer,
}
use reachmydevice.Session.FileTransfer.{FileTransfers, FileEvent, Os, Output, handle}
use reachmydevice.Session.FileTransfer.Send.{LocalFile, send_file}
use reachmydevice.Session.Identity.{
  Crypto, Verified, device, rejected, verify_access_proof, DeviceIdentity, access_proof,
}
use reachmydevice.Session.Identity.Sdp.{SignalMsg, offer, answer, fingerprint_from_session_json}
use reachmydevice.Session.Host.{is_empty}
use reachmydevice.Session.Host.Core.{or_empty, learn}

pub data ViewerUpdate : Type 0 where
  connected disconnected : ViewerUpdate
  paired : Bool → ViewerUpdate
  password_required : String → ViewerUpdate  -- reason
  latency : ℕ → ViewerUpdate  -- microseconds
  file : FileEvent → ViewerUpdate
  displays : List DisplayDescriptor → ViewerUpdate
  host_identity : List ℕ → List ℕ → Bool → ViewerUpdate  -- public_key, device_id, verified

-- What the loop does with the transport, the signaling, the user interface, the decoder, the clipboard, the
-- audio output and the file transfers.
pub data PumpEffect (A : Type 0) : Type 0 where
  feed_signal : SignalMsg → PumpEffect A
  send_signal : SignalMsg → PumpEffect A
  send_data : Envelope A → PumpEffect A
  update : ViewerUpdate → PumpEffect A
  decode : PumpEffect A
  apply_remote : ClipboardUpdate → PumpEffect A
  push_packet : List ℕ → ℕ → PumpEffect A  -- opus, seq
  transfer : Output A → PumpEffect A

-- `plays` is whether an audio output was started, `sdp_of` the field `sdp` of a JSON text.
pub record ViewerSide : Type 0 where
  pub device_name : String
  pub identity : Option DeviceIdentity
  pub plays : Bool
  pub crypto : Crypto
  pub sha : List ℕ → List ℕ
  pub format_id : ℕ → List ℕ → String
  pub sdp_of : List ℕ → Option (List ℕ)

pub record Pump : Type 0 where
  pub local_fingerprint : Option (List ℕ)
  pub host_fingerprint : Option (List ℕ)
  pub files : FileTransfers
  pub audio_rx : ℕ

pub data Event (A : Type 0) : Type 0 where
  peer_signal : SignalMsg → Event A  -- `signal.try_recv`
  file_cmd : LocalFile → Event A
  pass_cmd : List ℕ → Event A
  file_event : FileEvent → Event A
  local_signal : SignalMsg → Event A
  connected : Event A
  disconnected : Event A
  video : Event A
  arrived : ℕ → Os → Option (Envelope A) → Event A  -- `Data`
  keyframe_requested : Event A

unfoldable pub on_peer_signal : ViewerSide → Pump → SignalMsg → Pump
on_peer_signal viewer p (offer json) = record p {
  host_fingerprint = learn p.host_fingerprint (fingerprint_from_session_json viewer.sdp_of json);
}
on_peer_signal viewer p msg = p

unfoldable pub on_local_signal : ViewerSide → Pump → SignalMsg → Pump
on_local_signal viewer p (answer json) = record p {
  local_fingerprint = learn p.local_fingerprint (fingerprint_from_session_json viewer.sdp_of json);
}
on_local_signal viewer p msg = p

abbrev pub other_reply :
    {A : Type 0} → Pump → Option (FileTransfers × List (Output A)) → Pump × List (PumpEffect A)
other_reply p none = (p, [])
other_reply p (some (files, outs)) = (record p { files = files }, map transfer outs)

module _ {A : Type 0} (viewer : ViewerSide) where
  unfoldable pub base_hello : Option DeviceIdentity → List ℕ → Envelope A
  unfolding access_proof hello_authenticated plain_hello
  base_hello none binding = plain_hello viewer.device_name role_viewer 0
  base_hello (some id) binding =
      hello_authenticated viewer.device_name role_viewer 0 id.public_key_bytes
        (access_proof id binding)

  unfoldable pub build_viewer_hello : Option (List ℕ) → Option (List ℕ) → Envelope A
  unfolding base_hello with_password
  build_viewer_hello local_fingerprint password =
      let base : Envelope A = base_hello viewer.identity (or_empty local_fingerprint) in
      elim password [ none ↦ base | some pw ↦ if is_empty pw then base else with_password base pw ]

  -- Whether the host may be who it says, and what the user is told of it.
  unfoldable pub verify_host : Pump → HelloAck → Bool × List (PumpEffect A)
  verify_host p ack =
      if not (is_empty ack.host_public_key) && not (is_empty ack.host_proof)
      then elim (verify_access_proof viewer.crypto ack.host_public_key ack.host_proof
          (or_empty p.host_fingerprint)) [
            | device id ↦ (true, update (host_identity ack.host_public_key id true) ∷ [])
            | rejected e ↦ (false, update (host_identity ack.host_public_key [] false) ∷ [])
          ]
      else (true, [])

  unfoldable pub on_hello_ack : Pump → HelloAck → List (PumpEffect A)
  unfolding verify_host
  on_hello_ack p ack =
      let (host_ok, told) = verify_host p ack in
      if ack.password_required
      then update (password_required ack.reason) ∷ []
      else told ++ update (paired (host_ok && ack.accepted)) ∷ []

  unfoldable pub other_payload : Pump → Os → Payload A → Pump × List (PumpEffect A)
  other_payload p os m = other_reply p (handle viewer.sha p.files os m)

  unfoldable pub on_payload : Pump → ℕ → Os → Payload A → Pump × List (PumpEffect A)
  unfolding on_hello_ack other_payload
  on_payload p now os (Payload.hello_ack ack) = (p, on_hello_ack p ack)
  on_payload p now os (Payload.pong t_micros) = (p, update (latency (now - t_micros)) ∷ [])
  on_payload p now os (Payload.clipboard u) = (p, apply_remote u ∷ [])
  on_payload p now os (Payload.display_list list) = (p, update (displays list) ∷ [])
  on_payload p now os (Payload.audio opus seq) = (
    record p { audio_rx = (p.audio_rx + 1) % 2 ^ 64 },
    (if viewer.plays then push_packet opus seq ∷ [] else []),
  )
  on_payload p now os m = other_payload p os m

  unfoldable pub on_data : Pump → ℕ → Os → Option (Envelope A) → Pump × List (PumpEffect A)
  unfolding on_payload
  on_data p now os none = (p, [])
  on_data p now os (some env) = elim env.payload [ none ↦ (p, []) | some m ↦ on_payload p now os m ]

  unfoldable pub pump_step : Pump → Event A → Pump × List (PumpEffect A)
  unfolding on_peer_signal on_local_signal on_data build_viewer_hello send_file
  pump_step p (peer_signal msg) = (on_peer_signal viewer p msg, feed_signal msg ∷ [])
  pump_step p (file_cmd f) =
      let ((files, outs), id) = send_file viewer.format_id p.files f in
      (record p { files = files }, map transfer outs)
  pump_step p (pass_cmd pw) = (p, send_data (build_viewer_hello p.local_fingerprint (some pw)) ∷ [])
  pump_step p (file_event ev) = (p, update (file ev) ∷ [])
  pump_step p (local_signal msg) = (on_local_signal viewer p msg, send_signal msg ∷ [])
  pump_step p connected =
      (p, send_data (build_viewer_hello p.local_fingerprint none) ∷ update connected ∷ [])
  pump_step p disconnected = (p, update disconnected ∷ [])
  pump_step p video = (p, decode ∷ [])
  pump_step p (arrived now os m) = on_data p now os m
  pump_step p keyframe_requested = (p, [])

  unfoldable pub pump_run : Pump → List (Event A) → Pump × List (PumpEffect A)
  unfolding pump_step
  pump_run p [] = (p, [])
  pump_run p (e ∷ es) =
      let (p', out) = pump_step p e in let (end, outs) = pump_run p' es in (end, out ++ outs)
