-- ===== src/Session/FileTransfer/Send/Exchange.antt =====
-- Both sides of a file transfer of crates/session/src/filexfer.rs over the ordered control channel: the
-- sending thread, and the receiver's `handle`, whose acknowledgements `on_ack` stores for the thread.
use reachmydevice.Prelude.{
  String, ℕ, zero, suc, ◌+◌, ◌-◌, ◌≤◌, ◌<◌, min, ◌≡◌, ◌≢◌, refl, ◌⊎◌, inl, inr, true, false, Option,
  none, some, List, [], ◌∷◌, ◌++◌, arith, ◌==◌, length, take, drop, length-take, length-drop,
  Bool-cases,
}
use reachmydevice.Prelude.Store.{lookup}
use reachmydevice.Protocol.{Payload, FileChunk, file_chunk, file_complete, file_ack, envelope}
use reachmydevice.Session.FileTransfer.{
  FileTransfers, RecvState, SendShared, Os, Output, out, event, FileEvent, completed, progress,
  chunk, ack_every, on_chunk, on_complete, chunk_written, handle,
}
use reachmydevice.Session.FileTransfer.Receive.{Synced, chunk_state}
use reachmydevice.Session.FileTransfer.Send.{
  Sender, streaming, ended, Turn, stop, read_bytes, send_bytes, send_chunk, stream, send_step,
}

-- What the receiver leaves unacknowledged: less than a fixed number of bytes, and none of a whole file.
pub record Acked (st : RecvState) : Type 0 where
  pub behind : st.last_ack ≤ st.written
  pub near : st.written < st.last_ack + ack_every
  pub all : (st.written ≢ st.size) ⊎ (st.last_ack ≡ st.written)

pub chunk_state-Acked : (c : FileChunk) (st : RecvState) → Acked st → Acked (chunk_state c st)
chunk_state-Acked c st a = record {
  behind = ground (arith, a.behind);
  near = ground (arith, a.behind);
  all = elim (Bool-cases (st.written + length c.content == st.size)) [
    | inl whole ↦ inr (ground (arith, whole))
    | inr part ↦ inl (ground (arith, part))
  ];
}

module _ (A : Type 0) (sha : List ℕ → List ℕ) (os : Os) where
  -- An acknowledgement that the receiver sends back.
  abbrev store_ack : Option (Payload A) → SendShared → SendShared
  store_ack (some (Payload.file_ack a)) shared = record shared { acked = a.offset; started = true }
  store_ack p shared = shared

  abbrev pub acknowledge : List (Output A) → SendShared → SendShared
  acknowledge [] shared = shared
  acknowledge (out env ∷ outs) shared = acknowledge outs (store_ack env.payload shared)
  acknowledge (event e ∷ outs) shared = acknowledge outs shared

  abbrev receive_payload : FileTransfers → Option (Payload A) → FileTransfers × List (Output A)
  receive_payload t none = (t, [])
  receive_payload t (some p) = elim (handle sha t os p) [ none ↦ (t, []) | some r ↦ r ]

  -- The receiver handles what the thread puts out, in order.
  unfoldable pub deliver : FileTransfers → List (Output A) → FileTransfers × List (Output A)
  unfolding handle
  deliver t [] = (t, [])
  deliver t (event e ∷ outs) = deliver t outs
  deliver t (out env ∷ outs) =
      let (t', replies) = receive_payload t env.payload in
      let (end, more) = deliver t' outs in (end, replies ++ more)

  -- Rounds of a step of the thread, of which the read gives at most `reads k + 1` bytes in the round that
  -- has `k` more behind it, its delivery, and that of the acknowledgements.
  unfoldable pub exchange :
      (reads : ℕ → ℕ)
      → ℕ
      → Sender
      → FileTransfers
      → SendShared
      → Sender × FileTransfers × List (Output A)
  exchange reads zero s t shared = (s, t, [])
  exchange reads (suc k) s t shared =
      let (s', outs) =
        send_step s shared (record { seek_ok = true; read = some (suc (reads k)) }) in
      let (t', replies) = deliver t outs in
      let (end, last, rest) = exchange reads k s' t' (acknowledge replies shared) in
      (end, last, replies ++ rest)

  -- Both sides in the middle of a transfer, with nothing under way: the receiver has what was sent, and the
  -- thread knows the last acknowledgement.
  pub record Linked (s : Sender) (t : FileTransfers) (shared : SendShared) (st : RecvState)
      : Type 0 where
    pub active : s.phase ≡ streaming
    pub live : shared.cancel ≡ false
    pub found : lookup s.transfer_id t.recvs ≡ some st
    pub at : st.written ≡ s.next
    pub size : st.size ≡ s.size
    pub whole : length s.content ≡ s.size
    pub inside : s.next ≤ s.size
    pub acked : shared.acked ≡ st.last_ack
    pub acks : Acked st
    pub synced : Synced t.disk st
    pub hashed : st.hasher ≡ take s.next s.content
    pub digest : s.digest ≡ sha s.content

  pub sends :
      (s : Sender) (shared : SendShared) (n : ℕ)
      → s.phase ≡ streaming
      → shared.cancel ≡ false
      → length s.content ≡ s.size
      → s.next < s.size
      → s.next < shared.acked + ack_every
      → let bytes = read_bytes s (suc n) in
        (send_step {A = A} s shared (record { seek_ok = true; read = some (suc n) }) ≡ (
          record s { next = s.next + length bytes },
          out (file_chunk s.transfer_id s.next bytes)
              ∷ event (progress s.transfer_id (s.next + length bytes) s.size)
              ∷ [],
        ))
        × (0 < length bytes)
        × (s.next + length bytes ≤ s.size)
  unfolding send_step stream send_chunk send_bytes read_bytes stop
  sends s shared n p live whole more near =
      let size = length-take (min (suc n) (min (s.size - s.next) chunk)) (drop s.next s.content) in
      let rest = length-drop s.next s.content in
      (ground (arith, p, live, size, rest), omega (arith, size, rest), omega (arith, size, rest))

  pub completes :
      (s : Sender) (shared : SendShared) (turn : Turn)
      → s.phase ≡ streaming
      → shared.cancel ≡ false
      → s.size ≤ s.next
      → s.size ≤ shared.acked
      → send_step {A = A} s shared turn ≡ (
        record s { phase = ended },
        out (file_complete s.transfer_id s.digest) ∷ event (completed s.transfer_id none) ∷ [],
      )
  unfolding send_step stream
  completes s shared turn p live over acked = ground (arith, p, live)

  rests :
      (s : Sender) (shared : SendShared) (turn : Turn)
      → s.phase ≡ ended
      → send_step {A = A} s shared turn ≡ (s, [])
  unfolding send_step
  rests s shared turn p = ground (arith, p)

  pub exchange-rests :
      (reads : ℕ → ℕ) (k : ℕ) (s : Sender) (t : FileTransfers) (shared : SendShared)
      → s.phase ≡ ended
      → exchange reads k s t shared ≡ (s, t, [])
  unfolding exchange deliver
  exchange-rests reads zero s t shared p = refl
  exchange-rests reads (suc k) s t shared p =
      rw (rests s shared (record { seek_ok = true; read = some (suc (reads k)) }) p)
        (exchange-rests reads k s t shared p)

  pub acknowledged :
      (t : FileTransfers) (c : FileChunk) (st : RecvState) (shared : SendShared)
      → lookup c.transfer_id t.recvs ≡ some st
      → c.offset ≡ st.written
      → os.write_fails ≡ none
      → shared.acked ≡ st.last_ack
      → let after = acknowledge (on_chunk t os c).1 shared in
        (after.acked ≡ (chunk_state c st).last_ack) × (after.cancel ≡ shared.cancel)
  unfolding on_chunk chunk_written file_ack envelope
  acknowledged t c st shared e f w a = (ground arith, ground arith)

  pub deliver_chunk :
      (t : FileTransfers) (id : String) (offset : ℕ) (bytes : List ℕ) (e : FileEvent)
      → deliver t (out (file_chunk id offset bytes) ∷ event e ∷ []) ≡ (
        (on_chunk {A = A} t os (record { transfer_id = id; offset = offset; content = bytes })).0,
        (on_chunk {A = A} t os (record { transfer_id = id; offset = offset; content = bytes })).1
            ++ [],
      )
  unfolding deliver file_chunk envelope
  deliver_chunk t id offset bytes e = refl

  pub deliver_complete :
      (t : FileTransfers) (id : String) (digest : List ℕ) (e : FileEvent)
      → deliver t (out (file_complete id digest) ∷ event e ∷ []) ≡ (
        (on_complete {A = A} sha t os (record { transfer_id = id; sha256 = digest })).0,
        (on_complete {A = A} sha t os (record { transfer_id = id; sha256 = digest })).1 ++ [],
      )
  unfolding deliver file_complete envelope
  deliver_complete t id digest e = refl
