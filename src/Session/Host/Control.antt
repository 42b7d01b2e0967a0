-- ===== src/Session/Host/Control.antt =====
-- crates/session/src/host.rs, `handle_control`: one message of the viewer. What the transport, the
-- injector, the video and the clipboard are told to do is a list of effects, in order.
use reachmydevice.Prelude.{
  ℕ, Bool, true, false, not, ◌&&◌, Option, none, some, List, [], ◌∷◌, map, String, ◌==◌, bit_and,
  if◌then◌else◌,
}
use reachmydevice.Protocol.{
  Payload, Envelope, InputEvent, mouse_move, mouse_button, mouse_scroll, key, Hello,
  ClipboardUpdate, DisplayDescriptor, VideoCodec, hello_ack_ok, hello_ack_ok_signed,
  hello_ack_reject, hello_ack_password_required, display_list, feature_client_cursor,
}
use reachmydevice.Protocol
use reachmydevice.Codec.{Doubles, CropRect, sanitized, is_full}
use reachmydevice.Session.FileTransfer.{FileTransfers, Os, Output, handle}
use reachmydevice.Session.Identity.{Crypto}
use reachmydevice.Session.Host.{
  AccessControl, Rejection, decide, verify_connect_password, authorization_permits,
  view_only_suppresses,
}
use reachmydevice.Session.Host.Guess.{PasswordThrottle, locked, record_failure, reset}

-- The arguments of `handle_control` that it does not change. `signer` is the host's identity: its public
-- key and the proof that it signs for a fingerprint. `text` is the text of a rejection.
pub record HostSide : Type 0 where
  pub access : AccessControl
  pub channel_binding : List ℕ
  pub signer : Option (List ℕ × (List ℕ → List ℕ))
  pub local_fingerprint : List ℕ
  pub device_name : String
  pub host_codec : VideoCodec
  pub connect_password : Option (List ℕ)
  pub has_injector : Bool
  pub descriptors : List DisplayDescriptor
  pub crypto : Crypto
  pub text : Rejection → String

pub record Session (A : Type 0) : Type 0 where
  pub authorized : Bool
  pub view_only : Bool
  pub zoom : CropRect A
  pub pw_throttle : PasswordThrottle
  pub files : FileTransfers

pub data Effect (A : Type 0) : Type 0 where
  send_data : Envelope A → Effect A
  inject : InputEvent A → Effect A
  release_all : Effect A
  set_show_cursor : Bool → Effect A
  resume : Effect A
  request_keyframe : Effect A
  select : ℕ → Effect A
  apply_remote : ClipboardUpdate → Effect A
  transfer : Output A → Effect A

abbrev pub Step : Type 0 → Type 0
Step A = Session A × List (Effect A)

module _ {A : Type 0} (d : Doubles A) (host : HostSide) where
  -- The acknowledgement of an accepted viewer.
  unfoldable pub accepted_ack : Envelope A
  accepted_ack = elim host.signer [
    | none ↦ hello_ack_ok host.device_name 0 host.host_codec
    | some (public_key, access_proof) ↦
        hello_ack_ok_signed host.device_name 0 public_key (access_proof host.local_fingerprint)
          host.host_codec
  ]

  unfoldable pub accept : Session A → Hello → Step A
  accept s h = (
    record s { authorized = true; pw_throttle = reset s.pw_throttle },
    set_show_cursor (bit_and h.features feature_client_cursor == 0)
        ∷ resume
        ∷ send_data accepted_ack
        ∷ send_data (display_list host.descriptors)
        ∷ [],
  )

  unfoldable pub on_hello : ℕ → Session A → ℕ → Hello → Step A
  on_hello now s major h =
      elim (decide host.crypto host.access host.host_codec host.channel_binding major h) [
        | some reason ↦
            (record s { authorized = false }, send_data (hello_ack_reject (host.text reason)) ∷ [])
        | none ↦
            if locked s.pw_throttle now
            then (
              record s { authorized = false },
              send_data (hello_ack_password_required "too many password attempts; wait and retry")
                  ∷ [],
            )
            else if not (verify_connect_password host.connect_password h.password)
            then (
              record s { authorized = false; pw_throttle = record_failure s.pw_throttle now },
              send_data (hello_ack_password_required "connection password required") ∷ [],
            )
            else accept s h
      ]

  -- A position in the part of the screen that the viewer sees, on the whole screen.
  unfoldable pub remap : CropRect A → InputEvent A → InputEvent A
  remap rect (mouse_move x y) =
      mouse_move (d.add rect.x (d.mul x rect.w)) (d.add rect.y (d.mul y rect.h))
  remap rect (mouse_button button pressed x y) =
      mouse_button button pressed (d.add rect.x (d.mul x rect.w)) (d.add rect.y (d.mul y rect.h))
  remap rect ev = ev

  unfoldable pub on_input : Session A → Option (InputEvent A) → List (Effect A)
  on_input s none = []
  on_input s (some ev) =
      let rect = sanitized d s.zoom in
      if not host.has_injector
      then []
      else inject (if is_full d rect then ev else remap rect ev) ∷ []

  -- The `match` on a payload that is no file transfer.
  unfoldable pub dispatch : ℕ → Session A → ℕ → Payload A → Step A
  dispatch now s major (Payload.hello h) = on_hello now s major h
  dispatch now s major (Payload.input ev) = (s, on_input s ev)
  dispatch now s major (Payload.ping t_micros) = (s, send_data (Protocol.pong t_micros) ∷ [])
  dispatch now s major (Payload.clipboard update) = (s, apply_remote update ∷ [])
  dispatch now s major Payload.request_keyframe = (s, request_keyframe ∷ [])
  dispatch now s major (Payload.select_display id) = (s, select id ∷ [])
  dispatch now s major (Payload.view_only enabled) = (
    record s { view_only = enabled },
    (if enabled && host.has_injector then release_all ∷ [] else []),
  )
  dispatch now s major (Payload.set_zoom x y w h) =
      (record s { zoom = sanitized d (record { x = x; y = y; w = w; h = h }) }, [])
  dispatch now s major p = (s, [])

  unfoldable pub permitted : (List ℕ → List ℕ) → ℕ → Os → Session A → ℕ → Payload A → Step A
  permitted sha now os s major p = elim (handle sha s.files os p) [
    | some (files, outs) ↦ (record s { files = files }, map transfer outs)
    | none ↦ dispatch now s major p
  ]

  unfoldable pub on_payload : (List ℕ → List ℕ) → ℕ → Os → Session A → ℕ → Payload A → Step A
  on_payload sha now os s major p =
      if not (authorization_permits p s.authorized)
      then (s, [])
      else if view_only_suppresses p s.view_only
      then (s, [])
      else permitted sha now os s major p

  -- `none` is a message that cannot be decoded.
  unfoldable pub handle_control :
      (List ℕ → List ℕ) → ℕ → Os → Session A → Option (Envelope A) → Step A
  handle_control sha now os s none = (s, [])
  handle_control sha now os s (some env) = elim env.payload [
    | none ↦ (s, [])
    | some p ↦ on_payload sha now os s env.major p
  ]
