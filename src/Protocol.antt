-- ===== src/Protocol.antt =====
-- crates/protocol/src/lib.rs and the messages of proto/rmd.proto: the envelopes of the control channel.
-- `A` is the type of the protocol's doubles. Text that is only passed on is a `String`, text whose bytes
-- matter a list of bytes; an enumeration field is its number on the wire.
pub mod Messages
pub use Messages.*
use reachmydevice.Prelude.{
  ℕ, ◌+◌, ◌*◌, ◌%◌, ◌^◌, Bool, true, false, Option, none, some, List, [], ◌∷◌, String, bit_xor,
  ◌==◌, if◌then◌else◌,
}

abbrev pub protocol_major : ℕ
protocol_major = 1

abbrev pub protocol_minor : ℕ
protocol_minor = 7

abbrev pub feature_client_cursor : ℕ
feature_client_cursor = 1

-- `Role::Viewer as i32`.
abbrev pub role_viewer : ℕ
role_viewer = 2

pub data VideoCodec : Type 0 where
  unspecified h264 av1 : VideoCodec

-- `codec as i32`.
abbrev pub codec_number : VideoCodec → ℕ
codec_number unspecified = 0
codec_number h264 = 1
codec_number av1 = 2

-- `None` is compatible; otherwise the local and the remote major version.
unfoldable pub check_compatibility : ℕ → Option (ℕ × ℕ)
check_compatibility remote_major =
    if remote_major == protocol_major then none else some (protocol_major, remote_major)

unfoldable pub fnv1a_from : ℕ → List ℕ → ℕ
fnv1a_from h [] = h
fnv1a_from h (b ∷ bs) = fnv1a_from (bit_xor h b * 0x100000001b3 % 2 ^ 64) bs

unfoldable pub fnv1a : List ℕ → ℕ
unfolding fnv1a_from
fnv1a bytes = fnv1a_from 0xcbf29ce484222325 bytes

unfoldable pub native_supported_codecs : List ℕ
native_supported_codecs = codec_number h264 ∷ []

module _ {A : Type 0} where
  unfoldable pub envelope : Payload A → Envelope A
  envelope p = record { major = protocol_major; minor = protocol_minor; payload = some p }

  unfoldable pub hello_authenticated : String → ℕ → ℕ → List ℕ → List ℕ → Envelope A
  unfolding envelope native_supported_codecs
  hello_authenticated device_name role features public_key signature = envelope (
      Payload.hello (record {
        device_name = device_name;
        role = role;
        features = features;
        public_key = public_key;
        signature = signature;
        supported_video_codecs = native_supported_codecs;
        password = [];
      }))

  -- The source's `hello`, which shares its name with the message.
  unfoldable pub plain_hello : String → ℕ → ℕ → Envelope A
  unfolding envelope native_supported_codecs
  plain_hello device_name role features = envelope (
      Payload.hello (record {
        device_name = device_name;
        role = role;
        features = features;
        public_key = [];
        signature = [];
        supported_video_codecs = native_supported_codecs;
        password = [];
      }))

  password_payload : List ℕ → Payload A → Payload A
  password_payload pw (Payload.hello h) = Payload.hello (record h { password = pw })
  password_payload pw p = p

  unfoldable pub with_password : Envelope A → List ℕ → Envelope A
  unfolding password_payload
  with_password env pw = elim env.payload [
    | none ↦ env
    | some p ↦ record env { payload = some (password_payload pw p) }
  ]

  unfoldable pub hello_ack_ok : String → ℕ → VideoCodec → Envelope A
  unfolding envelope
  hello_ack_ok device_name features codec = envelope (
      Payload.hello_ack (record {
        accepted = true;
        reason = "";
        device_name = device_name;
        features = features;
        host_public_key = [];
        host_proof = [];
        video_codec = codec_number codec;
        password_required = false;
      }))

  unfoldable pub hello_ack_ok_signed : String → ℕ → List ℕ → List ℕ → VideoCodec → Envelope A
  unfolding envelope
  hello_ack_ok_signed device_name features host_public_key host_proof codec = envelope (
      Payload.hello_ack (record {
        accepted = true;
        reason = "";
        device_name = device_name;
        features = features;
        host_public_key = host_public_key;
        host_proof = host_proof;
        video_codec = codec_number codec;
        password_required = false;
      }))

  unfoldable pub hello_ack_reject : String → Envelope A
  unfolding envelope
  hello_ack_reject reason = envelope (
      Payload.hello_ack (record {
        accepted = false;
        reason = reason;
        device_name = "";
        features = 0;
        host_public_key = [];
        host_proof = [];
        video_codec = codec_number unspecified;
        password_required = false;
      }))

  unfoldable pub hello_ack_password_required : String → Envelope A
  unfolding envelope
  hello_ack_password_required reason = envelope (
      Payload.hello_ack (record {
        accepted = false;
        reason = reason;
        device_name = "";
        features = 0;
        host_public_key = [];
        host_proof = [];
        video_codec = codec_number unspecified;
        password_required = true;
      }))

  unfoldable pub input : InputEvent A → Envelope A
  unfolding envelope
  input event = envelope (Payload.input (some event))

  unfoldable pub ping : ℕ → Envelope A
  unfolding envelope
  ping t_micros = envelope (Payload.ping t_micros)

  unfoldable pub pong : ℕ → Envelope A
  unfolding envelope
  pong t_micros = envelope (Payload.pong t_micros)

  -- A text is given by its UTF-8 bytes; 1 is the number of the kind `Text`.
  unfoldable pub clipboard_text : List ℕ → ℕ → Envelope A
  unfolding envelope fnv1a
  clipboard_text text seq =
      envelope (
        Payload.clipboard
          (record { kind = 1; content = text; seq = seq; origin_hash = fnv1a text }))

  unfoldable pub file_offer : String → List ℕ → ℕ → String → Envelope A
  unfolding envelope
  file_offer transfer_id name size mime = envelope (
      Payload.file_offer
        (record { transfer_id = transfer_id; name = name; size = size; mime = mime }))

  unfoldable pub file_chunk : String → ℕ → List ℕ → Envelope A
  unfolding envelope
  file_chunk transfer_id offset content = envelope (
      Payload.file_chunk (record { transfer_id = transfer_id; offset = offset; content = content }))

  unfoldable pub file_ack : String → ℕ → Envelope A
  unfolding envelope
  file_ack transfer_id offset =
      envelope (Payload.file_ack (record { transfer_id = transfer_id; offset = offset }))

  unfoldable pub file_complete : String → List ℕ → Envelope A
  unfolding envelope
  file_complete transfer_id sha256 =
      envelope (Payload.file_complete (record { transfer_id = transfer_id; sha256 = sha256 }))

  unfoldable pub file_cancel : String → String → Envelope A
  unfolding envelope
  file_cancel transfer_id reason =
      envelope (Payload.file_cancel (record { transfer_id = transfer_id; reason = reason }))

  unfoldable pub display_list : List DisplayDescriptor → Envelope A
  unfolding envelope
  display_list displays = envelope (Payload.display_list displays)

  unfoldable pub request_keyframe : Envelope A
  unfolding envelope
  request_keyframe = envelope Payload.request_keyframe

  unfoldable pub view_only : Bool → Envelope A
  unfolding envelope
  view_only enabled = envelope (Payload.view_only enabled)

  unfoldable pub audio_frame : List ℕ → ℕ → Envelope A
  unfolding envelope
  audio_frame opus seq = envelope (Payload.audio opus seq)

  unfoldable pub select_display : ℕ → Envelope A
  unfolding envelope
  select_display id = envelope (Payload.select_display id)

  unfoldable pub set_zoom : A → A → A → A → Envelope A
  unfolding envelope
  set_zoom x y w h = envelope (Payload.set_zoom x y w h)
