-- ===== src/Session/FileTransfer.antt =====
-- crates/session/src/filexfer.rs: the receiving side of `FileTransfers` and its bookkeeping. The file
-- system is a directory of paths to files and the bytes of each file, so that two handles of one path
-- share a file; what the operating system may refuse in a call is an argument of the call. SHA-256 is a
-- parameter, and a running hash is the list of the bytes that it was given.
pub mod Storage
pub mod Names
pub mod DiskLaws
pub mod Receive
pub mod Completion
pub mod Integrity
pub mod Send
use reachmydevice.Prelude.{
  ℕ, zero, suc, ◌+◌, ◌-◌, ◌*◌, min, Bool, true, false, not, ◌&&◌, ◌||◌, Option, none, some, List,
  [], ◌∷◌, ◌++◌, String, ltb, leb, ◌==◌, if◌then◌else◌, length, take, drop,
}
use reachmydevice.Prelude.Store.{Store, lookup, insert, remove}
use reachmydevice.Protocol.{
  Payload, Envelope, FileOffer, FileChunk, FileAck, FileComplete, FileCancel, file_ack, file_cancel,
}
use Storage.{
  Disk, path_eq, size_at, open_or_create, set_len, write_at, rename, delete, read_at, FileHandle,
}
use Names.{sanitize, path_of, part_of}

abbrev pub window : ℕ
window = 1024 * 1024

abbrev pub ack_every : ℕ
ack_every = 256 * 1024

pub data FileEvent : Type 0 where
  offered : String → List ℕ → ℕ → FileEvent  -- transfer_id, name, size
  progress : String → ℕ → ℕ → FileEvent  -- transfer_id, transferred, total
  completed : String → Option (List ℕ) → FileEvent  -- transfer_id, path
  failed : String → FileEvent  -- transfer_id; the reason is left out

pub record RecvState : Type 0 where
  pub file : FileHandle
  pub part_path : List ℕ
  pub final_path : List ℕ
  pub written : ℕ
  pub size : ℕ
  pub last_ack : ℕ
  pub hasher : List ℕ

-- The atomics shared with the sending thread.
pub record SendShared : Type 0 where
  pub acked : ℕ
  pub started : Bool
  pub cancel : Bool

-- `sends` names a cell of `shared`, which the sending thread keeps after the entry is gone.
pub record FileTransfers : Type 0 where
  pub disk : Disk
  pub download_dir : List ℕ
  pub recvs : Store RecvState
  pub sends : Store ℕ
  pub shared : ℕ → SendShared
  pub seq : ℕ

-- What a call puts out: envelopes for the peer, and events for the user interface, in order.
pub data Output (A : Type 0) : Type 0 where
  out : Envelope A → Output A
  event : FileEvent → Output A

-- What the operating system does in one call: whether the directory, the partial file and the final
-- name can be had, how much of an existing partial file can be read, and how much of a write that
-- fails still reaches the file.
pub record Os : Type 0 where
  pub mkdir_ok : Bool
  pub readable : ℕ
  pub open_ok : Bool
  pub write_fails : Option ℕ
  pub rename_ok : Bool

abbrev pub chunk : ℕ
chunk = 16 * 1024

-- The loop that hashes the first `left` bytes of a partial file again, block by block; a read past
-- `readable` bytes fails or gives nothing, and ends it.
unfoldable pub rehash : ℕ → List ℕ → ℕ → ℕ → List ℕ → List ℕ
rehash zero rest left readable hasher = hasher
rehash (suc fuel) rest left readable hasher =
    let bytes = take (min (min left chunk) readable) rest in
    let n = length bytes in
    let more = rehash fuel (drop n rest) (left - n) (readable - n) (hasher ++ bytes) in
    if left == 0 then hasher else if n == 0 then hasher else more

unfoldable pub put_shared : ℕ → SendShared → (ℕ → SendShared) → ℕ → SendShared
put_shared i s shared j = if j == i then s else shared j

abbrev pub Reply : Type 0 → Type 0
Reply A = FileTransfers × List (Output A)

-- Ends a transfer of either direction; the partial file stays.
unfoldable pub drop_transfer : FileTransfers → String → FileTransfers
unfolding put_shared
drop_transfer t id =
    let recvs = remove id t.recvs in
    elim (lookup id t.sends) [
      | none ↦ record t { recvs = recvs }
      | some i ↦
          let s = t.shared i in
          record t {
            recvs = recvs;
            sends = remove id t.sends;
            shared = put_shared i (record s { cancel = true }) t.shared;
          }
    ]

module _ {A : Type 0} where
  unfoldable pub on_offer : FileTransfers → Os → FileOffer → Reply A
  unfolding size_at read_at open_or_create set_len sanitize path_of part_of rehash
  on_offer t os o =
      let final_path = path_of t.download_dir (sanitize o.name) in
      let part_path = part_of final_path in
      let resume = min (size_at t.disk part_path) o.size in
      let hasher = rehash (suc resume) (read_at t.disk part_path) resume os.readable [] in
      let opened = open_or_create t.disk part_path in
      let st : RecvState = record {
        file = record { inode = opened.1; pos = resume };
        part_path = part_path;
        final_path = final_path;
        written = resume;
        size = o.size;
        last_ack = resume;
        hasher = hasher;
      } in
      if not os.mkdir_ok
      then (t, event (failed o.transfer_id) ∷ [])
      else if not os.open_ok
      then (t, event (failed o.transfer_id) ∷ [])
      else (
        record t {
          disk = set_len opened.0 opened.1 resume;
          recvs = insert o.transfer_id st t.recvs;
        },
        event (offered o.transfer_id o.name o.size) ∷ out (file_ack o.transfer_id resume) ∷ [],
      )

  -- The write of a chunk at the expected offset failed after `k` bytes.
  chunk_failed : FileTransfers → FileChunk → RecvState → ℕ → Reply A
  unfolding write_at
  chunk_failed t c st k =
      let bytes = take k c.content in
      (
        record t {
          disk = write_at t.disk st.file.inode st.file.pos bytes;
          recvs =
              insert c.transfer_id
                (record st {
                  file = record { inode = st.file.inode; pos = st.file.pos + length bytes };
                })
                t.recvs;
        },
        event (failed c.transfer_id) ∷ [],
      )

  chunk_written : FileTransfers → FileChunk → RecvState → Reply A
  unfolding write_at
  chunk_written t c st =
      let written = st.written + length c.content in
      let acks = leb ack_every (written - st.last_ack) || written == st.size in
      let st' : RecvState = record st {
        file = record { inode = st.file.inode; pos = st.file.pos + length c.content };
        written = written;
        last_ack = if acks then written else st.last_ack;
        hasher = st.hasher ++ c.content;
      } in
      (
        record t {
          disk = write_at t.disk st.file.inode st.file.pos c.content;
          recvs = insert c.transfer_id st' t.recvs;
        },
        event (progress c.transfer_id written st.size)
            ∷ (if acks then out (file_ack c.transfer_id written) ∷ [] else []),
      )

  unfoldable pub on_chunk : FileTransfers → Os → FileChunk → Reply A
  unfolding chunk_failed chunk_written
  on_chunk t os c = elim (lookup c.transfer_id t.recvs) [
    | none ↦ (t, [])
    | some st ↦
        let failing : Reply A = elim os.write_fails [
          | none ↦ chunk_written t c st
          | some k ↦ chunk_failed t c st k
        ] in
        if not (c.offset == st.written)
        then (if ltb c.offset st.written then (t, []) else (t, event (failed c.transfer_id) ∷ []))
        else failing
  ]

  unfoldable pub finish :
      (List ℕ → List ℕ) → FileTransfers → Os → FileComplete → RecvState → Reply A
  unfolding rename delete
  finish sha t os c st =
      let dropped = record t { disk = delete t.disk st.part_path } in
      if not (st.written == st.size)
      then (dropped, event (failed c.transfer_id) ∷ [])
      else if not (path_eq (sha st.hasher) c.sha256)
      then (dropped, event (failed c.transfer_id) ∷ [])
      else if not os.rename_ok
      then (t, event (failed c.transfer_id) ∷ [])
      else (
        record t { disk = rename t.disk st.part_path st.final_path },
        event (completed c.transfer_id (some st.final_path)) ∷ [],
      )

  unfoldable pub on_complete : (List ℕ → List ℕ) → FileTransfers → Os → FileComplete → Reply A
  unfolding finish
  on_complete sha t os c = elim (lookup c.transfer_id t.recvs) [
    | none ↦ (t, [])
    | some st ↦ finish sha (record t { recvs = remove c.transfer_id t.recvs }) os c st
  ]

  unfoldable pub on_ack : FileTransfers → FileAck → Reply A
  unfolding put_shared
  on_ack t a = elim (lookup a.transfer_id t.sends) [
    | none ↦ (t, [])
    | some i ↦
        let s = t.shared i in
        (
          record t {
            shared = put_shared i (record s { acked = a.offset; started = true }) t.shared;
          },
          [],
        )
  ]

  unfoldable pub on_cancel : FileTransfers → FileCancel → Reply A
  unfolding drop_transfer
  on_cancel t c = (drop_transfer t c.transfer_id, event (failed c.transfer_id) ∷ [])

  unfoldable pub cancel : FileTransfers → String → String → Reply A
  unfolding drop_transfer
  cancel t id reason = (drop_transfer t id, out (file_cancel id reason) ∷ [])

  unfoldable pub handle : (List ℕ → List ℕ) → FileTransfers → Os → Payload A → Option (Reply A)
  unfolding on_offer on_chunk on_complete on_ack on_cancel
  handle sha t os (Payload.file_offer o) = some (on_offer t os o)
  handle sha t os (Payload.file_chunk c) = some (on_chunk t os c)
  handle sha t os (Payload.file_ack a) = some (on_ack t a)
  handle sha t os (Payload.file_complete c) = some (on_complete sha t os c)
  handle sha t os (Payload.file_cancel c) = some (on_cancel t c)
  handle sha t os p = none
