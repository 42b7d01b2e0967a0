-- ===== src/Session/FileTransfer/Receive.antt =====
-- What the receiver of a file does with its chunks.
use reachmydevice.Prelude.{
  ℕ, ◌+◌, ◌-◌, ◌≡◌, ◌≢◌, refl, sym, ap, ◌∙◌, ◌||◌, none, some, List, [], ◌∷◌, ◌++◌, String, arith,
  ltb, leb, ◌==◌, if◌then◌else◌, length, length-append, append_assoc, append-nil, eq_refl, subst,
}
use reachmydevice.Prelude.Store.{lookup, lookup-insert}
use reachmydevice.Protocol.{FileChunk}
use reachmydevice.Session.FileTransfer.Storage.{Disk, find, write_at}
use reachmydevice.Session.FileTransfer.{
  FileTransfers, RecvState, Os, event, failed, ack_every, on_chunk,
}
use reachmydevice.Session.FileTransfer.DiskLaws.{write_at_end, write_at_names}

-- The receiver's state agrees with the disk: its partial file has its name, holds exactly the bytes that
-- were hashed, and ends at the write cursor.
pub record Synced (d : Disk) (st : RecvState) : Type 0 where
  pub named : find st.part_path d.names ≡ some st.file.inode
  pub hashed : d.content st.file.inode ≡ st.hasher
  pub cursor : st.file.pos ≡ st.written
  pub counted : length st.hasher ≡ st.written

abbrev pub joined : List (List ℕ) → List ℕ
joined [] = []
joined (b ∷ bs) = b ++ joined bs

-- The state after a chunk that was written.
abbrev pub chunk_state : FileChunk → RecvState → RecvState
chunk_state c st = record st {
  file = record { inode = st.file.inode; pos = st.file.pos + length c.content };
  written = st.written + length c.content;
  last_ack =
      if leb ack_every (st.written + length c.content - st.last_ack)
        || st.written + length c.content == st.size
      then st.written + length c.content
      else st.last_ack;
  hasher = st.hasher ++ c.content;
}

pub chunk_state-Synced :
    (d : Disk) (c : FileChunk) (st : RecvState)
    → Synced d st
    → Synced (write_at d st.file.inode st.file.pos c.content) (chunk_state c st)
chunk_state-Synced d c st s = record {
  named = rw (write_at_names d st.file.inode st.file.pos c.content) s.named;
  hashed =
      write_at_end d st.file.inode st.file.pos c.content
        (omega (arith, ap length s.hashed, s.counted, s.cursor))
      ∙ ap (λ b. b ++ c.content) s.hashed;
  cursor = omega (arith, s.cursor);
  counted = omega (arith, s.counted, length-append st.hasher c.content);
}

module _ (A : Type 0) where
  pub on_chunk_next :
      (t : FileTransfers) (os : Os) (c : FileChunk) (st : RecvState)
      → lookup c.transfer_id t.recvs ≡ some st
      → c.offset ≡ st.written
      → os.write_fails ≡ none
      → let t' = (on_chunk {A = A} t os c).0 in
        (lookup c.transfer_id t'.recvs ≡ some (chunk_state c st))
        × (t'.disk ≡ write_at t.disk st.file.inode st.file.pos c.content)
        × (t'.download_dir ≡ t.download_dir)
  unfolding on_chunk
  on_chunk_next t os c st e f w = (
    ground (
      arith,
      lookup-insert c.transfer_id c.transfer_id (chunk_state c st) t.recvs,
      eq_refl c.transfer_id,
    ),
    ground arith,
    ground arith,
  )

  -- A chunk at any other offset is not written: an earlier one, sent again, is passed over in silence,
  -- and a later one is reported; neither changes the transfer or the disk.
  pub on_chunk_misplaced :
      (t : FileTransfers) (os : Os) (c : FileChunk) (st : RecvState)
      → lookup c.transfer_id t.recvs ≡ some st
      → c.offset ≢ st.written
      → on_chunk {A = A} t os c
        ≡ (t, (if ltb c.offset st.written then [] else event (failed c.transfer_id) ∷ []))
  unfolding on_chunk
  on_chunk_misplaced t os c st e f = ground arith

  -- Chunks that arrive one behind the other, the first at `from`.
  unfoldable pub feed : FileTransfers → Os → String → ℕ → List (List ℕ) → FileTransfers
  feed t os id from [] = t
  feed t os id from (b ∷ bs) =
      feed (on_chunk {A = A} t os (record { transfer_id = id; offset = from; content = b })).0 os id
        (from + length b) bs

  -- If the state agrees with the disk and no write fails, chunks that arrive one behind the other from the
  -- write cursor on leave a state that agrees with the disk again: all bytes are written behind those
  -- that were there, and the size and the place of the file stay.
  pub feed_lem :
      (t : FileTransfers) (os : Os) (id : String) (from : ℕ) (bs : List (List ℕ)) (st : RecvState)
      → os.write_fails ≡ none
      → lookup id t.recvs ≡ some st
      → from ≡ st.written
      → Synced t.disk st
      → (st' : RecvState) × (lookup id (feed t os id from bs).recvs ≡ some st')
        × Synced (feed t os id from bs).disk st'
        × (st'.hasher ≡ st.hasher ++ joined bs)
        × (st'.size ≡ st.size)
        × (st'.final_path ≡ st.final_path)
  unfolding feed
  feed_lem t os id from [] st w e f s = (st, e, s, sym (append-nil st.hasher), refl, refl)
  feed_lem t os id from (b ∷ bs) st w e f s =
      let c : FileChunk = record { transfer_id = id; offset = from; content = b } in
      let (found, wrote, _) = on_chunk_next t os c st e f w in
      let (st', found', s', h, z, p) =
        feed_lem (on_chunk {A = A} t os c).0 os id (from + length b) bs (chunk_state c st) w found
          (omega (arith, f))
          (subst (λ d. Synced d (chunk_state c st)) (sym wrote)
            (chunk_state-Synced t.disk c st s)) in
      (st', found', s', h ∙ append_assoc st.hasher b (joined bs), z, p)
