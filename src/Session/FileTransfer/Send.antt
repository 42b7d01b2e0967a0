-- ===== src/Session/FileTransfer/Send.antt =====
-- crates/session/src/filexfer.rs, the sending side: `send_file` and the thread that `send_loop` runs. A step
-- of the thread is one turn of a loop of it, at the values of the shared cell and with the result of the
-- read at that time; sleeping is a step that changes nothing.
pub mod Progress
pub mod Exchange
pub mod Whole
use reachmydevice.Prelude.{
  ℕ, zero, suc, ◌+◌, ◌-◌, ◌*◌, ◌%◌, ◌^◌, min, Bool, true, false, not, ◌&&◌, ◌||◌, Option, none,
  some, List, [], ◌∷◌, String, str_eq, ltb, leb, ◌==◌, if◌then◌else◌, length, take, drop,
}
use reachmydevice.Prelude.Store.{insert}
use reachmydevice.Session.FileTransfer.Names.{fallback}
use reachmydevice.Protocol.{file_offer, file_chunk, file_complete}
use reachmydevice.Session.FileTransfer.{
  FileTransfers, SendShared, Output, out, event, progress, completed, Reply, put_shared, chunk,
  window,
}

-- The extension as `Path::extension` gives it.
unfoldable pub mime_for : Option String → String
mime_for none = "application/octet-stream"
mime_for (some e) =
    if str_eq e "txt"
    then "text/plain"
    else if str_eq e "png"
    then "image/png"
    else if str_eq e "jpg" || str_eq e "jpeg"
    then "image/jpeg"
    else if str_eq e "pdf"
    then "application/pdf"
    else if str_eq e "zip"
    then "application/zip"
    else "application/octet-stream"

-- The file to send: its name, if the path ends in one, its extension, and its length by `metadata`, which may fail.
pub record LocalFile : Type 0 where
  pub name : Option (List ℕ)
  pub extension : Option String
  pub metadata : Option ℕ

-- `format_id` makes the text `tx-<seq>-<name>`. The new cell of the shared values has the number `seq`.
-- "file", where the path does not end in a name.
unfoldable pub file_name : Option (List ℕ) → List ℕ
file_name none = fallback
file_name (some name) = name

module _ {A : Type 0} (format_id : ℕ → List ℕ → String) where
  offer_file : FileTransfers → LocalFile → ℕ → Reply A × Option String
  offer_file t f size =
      let name = file_name f.name in
      let seq : ℕ = (t.seq + 1) % 2 ^ 64 in
      let transfer_id = format_id seq name in
      (
        (
          record t {
            seq = seq;
            sends = insert transfer_id seq t.sends;
            shared =
                put_shared seq (record { acked = 0; started = false; cancel = false }) t.shared;
          },
          out (file_offer transfer_id name size (mime_for f.extension)) ∷ [],
        ),
        some transfer_id,
      )

  unfoldable pub send_file : FileTransfers → LocalFile → Reply A × Option String
  unfolding offer_file
  send_file t f = elim f.metadata [ none ↦ ((t, []), none) | some size ↦ offer_file t f size ]

pub data Phase : Type 0 where
  waiting streaming ended : Phase

-- The thread once the file is hashed and open. `content` is what the file holds from its start.
pub record Sender : Type 0 where
  pub transfer_id : String
  pub size : ℕ
  pub content : List ℕ
  pub digest : List ℕ
  pub next : ℕ
  pub phase : Phase

-- What the operating system does in one step: whether the seek succeeds, and how many bytes a read gives at
-- most, if it gives any.
pub record Turn : Type 0 where
  pub seek_ok : Bool
  pub read : Option ℕ

-- The bytes of one read, of no more than a chunk and what is left of the offered size.
unfoldable pub read_bytes : Sender → ℕ → List ℕ
read_bytes s n = take (min n (min (s.size - s.next) chunk)) (drop s.next s.content)

module _ {A : Type 0} where
  unfoldable pub stop : Sender → Sender × List (Output A)
  stop s = (record s { phase = ended }, [])

  send_bytes : Sender → List ℕ → Sender × List (Output A)
  unfolding stop
  send_bytes s bytes = if length bytes == 0 then stop s else (
    record s { next = s.next + length bytes },
    out (file_chunk s.transfer_id s.next bytes)
        ∷ event (progress s.transfer_id (s.next + length bytes) s.size)
        ∷ [],
  )

  send_chunk : Sender → Option ℕ → Sender × List (Output A)
  unfolding stop send_bytes
  send_chunk s none = stop s
  send_chunk s (some n) = send_bytes s (read_bytes s n)

  unfoldable pub stream : Sender → SendShared → Turn → Sender × List (Output A)
  unfolding stop send_chunk
  stream s shared turn =
      let sending = send_chunk s turn.read in
      if shared.cancel
      then stop s
      else if leb s.size s.next
      then (if leb s.size shared.acked
          then (
            record s { phase = ended },
            out (file_complete s.transfer_id s.digest) ∷ event (completed s.transfer_id none) ∷ [],
          )
          else (s, []))
      else if leb window (s.next - shared.acked)
      then (s, [])
      else sending

  unfoldable pub start_sending : Sender → SendShared → Turn → Sender × List (Output A)
  unfolding stop
  start_sending s shared turn =
      if not shared.started
      then (if shared.cancel then stop s else (s, []))
      else if not turn.seek_ok
      then (record s { phase = ended; next = shared.acked }, [])
      else (record s { phase = streaming; next = shared.acked }, [])

  unfoldable pub send_step : Sender → SendShared → Turn → Sender × List (Output A)
  unfolding stream start_sending
  send_step s shared turn = elim s.phase [
    | waiting ↦ start_sending s shared turn
    | streaming ↦ stream s shared turn
    | ended ↦ (s, [])
  ]
