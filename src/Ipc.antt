-- ===== src/Ipc.antt =====
-- crates/ipc/src/lib.rs: length-prefixed messages on the socket between broker and agent. The stream
-- is the list of its bytes; `postcard` and the message type are a parameter.
pub mod Stream
use reachmydevice.Prelude.{
  ℕ, zero, suc, ◌+◌, ◌*◌, ◌^◌, Bool, true, false, not, Option, none, some, List, [], ◌∷◌, ◌++◌, ◌≡◌,
  ltb, leb, if◌then◌else◌, length, take, drop,
}
use reachmydevice.Prelude.Bytes.{to_le_bytes, from_le_bytes}

abbrev pub max_frame_bytes : ℕ
max_frame_bytes = 64 * 1024 * 1024

-- `postcard::to_stdvec` and `from_bytes`: what was serialized is read back.
pub record Postcard (M : Type 0) : Type 0 where
  pub to_stdvec : M → List ℕ
  pub from_bytes : List ℕ → Option M
  pub from_bytes-to_stdvec : (m : M) → from_bytes (to_stdvec m) ≡ some m

pub data IpcError : Type 0 where
  message_too_large frame_too_large eof undecodable : IpcError

pub data Written : Type 0 where
  written : List ℕ → Written
  write_failed : IpcError → Written

pub data Received (M : Type 0) : Type 0 where
  received : M → List ℕ → Received M
  read_failed : IpcError → Received M

-- `read_exact`: `n` bytes and the rest of the stream, or the end of the stream before them.
unfoldable pub read_exact : ℕ → List ℕ → Option (List ℕ × List ℕ)
read_exact n stream = if leb n (length stream) then some (take n stream, drop n stream) else none

module _ {M : Type 0} (p : Postcard M) where
  -- What is written to the socket; a failing socket ends the session and is not modelled.
  unfoldable pub write_msg : M → Written
  write_msg m =
      let buf = p.to_stdvec m in
      if not (ltb (length buf) (2 ^ 32))
      then write_failed message_too_large
      else if ltb max_frame_bytes (length buf)
      then write_failed message_too_large
      else written (to_le_bytes 4 (length buf) ++ buf)

  unfoldable pub finish_msg : Option (List ℕ × List ℕ) → Received M
  finish_msg none = read_failed eof
  finish_msg (some (buf, rest)) = elim (p.from_bytes buf) [
    | none ↦ read_failed undecodable
    | some m ↦ received m rest
  ]

  read_body : Option (List ℕ × List ℕ) → Received M
  unfolding finish_msg
  read_body none = read_failed eof
  read_body (some (len_buf, rest)) =
      let len = from_le_bytes len_buf in
      if ltb max_frame_bytes len
      then read_failed frame_too_large
      else finish_msg (read_exact len rest)

  unfoldable pub read_msg : List ℕ → Received M
  unfolding read_body
  read_msg stream = read_body (read_exact 4 stream)

  -- A reader's loop, for at most `fuel` messages: what it gets until the stream fails.
  unfoldable pub read_all : ℕ → List ℕ → List M
  unfolding read_msg
  read_all zero stream = []
  read_all (suc fuel) stream = elim (read_msg stream) [
    | received m rest ↦ m ∷ read_all fuel rest
    | read_failed e ↦ []
  ]
