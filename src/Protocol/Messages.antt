-- ===== src/Protocol/Messages.antt =====
-- The messages of crates/protocol/proto/rmd.proto.
use reachmydevice.Prelude.{ℕ, Bool, Option, List, String}

pub record Hello : Type 0 where
  pub device_name : String
  pub role : ℕ
  pub features : ℕ
  pub public_key : List ℕ
  pub signature : List ℕ
  pub supported_video_codecs : List ℕ
  pub password : List ℕ

pub record HelloAck : Type 0 where
  pub accepted : Bool
  pub reason : String
  pub device_name : String
  pub features : ℕ
  pub host_public_key : List ℕ
  pub host_proof : List ℕ
  pub video_codec : ℕ
  pub password_required : Bool

pub data InputEvent (A : Type 0) : Type 0 where
  mouse_move : A → A → InputEvent A  -- x, y
  mouse_button : ℕ → Bool → A → A → InputEvent A  -- button, pressed, x, y
  mouse_scroll : A → A → InputEvent A  -- dx, dy
  key : ℕ → Bool → ℕ → InputEvent A  -- hid_usage, pressed, modifiers

pub record ClipboardUpdate : Type 0 where
  pub kind : ℕ
  pub content : List ℕ  -- `data`
  pub seq : ℕ
  pub origin_hash : ℕ

pub record FileOffer : Type 0 where
  pub transfer_id : String
  pub name : List ℕ
  pub size : ℕ
  pub mime : String

pub record FileChunk : Type 0 where
  pub transfer_id : String
  pub offset : ℕ
  pub content : List ℕ  -- `data`

pub record FileAck : Type 0 where
  pub transfer_id : String
  pub offset : ℕ

pub record FileComplete : Type 0 where
  pub transfer_id : String
  pub sha256 : List ℕ

pub record FileCancel : Type 0 where
  pub transfer_id : String
  pub reason : String

pub record DisplayDescriptor : Type 0 where
  pub id : ℕ
  pub width : ℕ
  pub height : ℕ
  pub name : String
  pub primary : Bool

pub data Payload (A : Type 0) : Type 0 where
  hello : Hello → Payload A
  hello_ack : HelloAck → Payload A
  input : Option (InputEvent A) → Payload A
  ping : ℕ → Payload A
  pong : ℕ → Payload A
  bye : String → Payload A
  clipboard : ClipboardUpdate → Payload A
  file_offer : FileOffer → Payload A
  file_chunk : FileChunk → Payload A
  file_ack : FileAck → Payload A
  file_complete : FileComplete → Payload A
  file_cancel : FileCancel → Payload A
  display_list : List DisplayDescriptor → Payload A
  select_display : ℕ → Payload A
  request_keyframe : Payload A
  view_only : Bool → Payload A
  audio : List ℕ → ℕ → Payload A  -- opus, seq
  set_zoom : A → A → A → A → Payload A  -- x, y, w, h

pub record Envelope (A : Type 0) : Type 0 where
  pub major : ℕ
  pub minor : ℕ
  pub payload : Option (Payload A)
