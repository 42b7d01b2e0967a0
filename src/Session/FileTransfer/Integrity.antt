-- ===== src/Session/FileTransfer/Integrity.antt =====
-- What a receiver that reports a transfer as complete has on its disk: crates/session/src/filexfer.rs, from the
-- offer to the digest.
use reachmydevice.Prelude.{
  ℕ, ◌≤◌, ◌≡◌, sym, ap, ◌∙◌, subst, inl, inr, true, Option, none, some, List, [], ◌∷◌, String,
  arith, ◌==◌, length, All, Bool-cases,
}
use reachmydevice.Prelude.Store.{lookup}
use reachmydevice.Protocol.{FileOffer, FileChunk, FileComplete}
use reachmydevice.Session.FileTransfer.Storage.{Disk, read_at}
use reachmydevice.Session.FileTransfer.Names.{sanitize, path_of}
use reachmydevice.Session.FileTransfer.{
  FileTransfers, RecvState, Os, Output, event, completed, on_offer, on_chunk, on_complete,
}
use reachmydevice.Session.FileTransfer.Receive.{
  Synced, chunk_state, chunk_state-Synced, on_chunk_next, on_chunk_misplaced,
}
use reachmydevice.Session.FileTransfer.Completion.{on_complete-completed, on_offer_resumes}

module _ (A : Type 0) where
  -- Any chunks, one after the other.
  unfoldable pub receive : FileTransfers → Os → List FileChunk → FileTransfers
  receive t os [] = t
  receive t os (c ∷ cs) = receive (on_chunk {A = A} t os c).0 os cs

  -- The transfer `id` is open, and its state agrees with the disk.
  record Open (id : String) (size : ℕ) (path : List ℕ) (t : FileTransfers) : Type 0 where
    state : RecvState
    found : lookup id t.recvs ≡ some state
    synced : Synced t.disk state
    sized : state.size ≡ size
    placed : state.final_path ≡ path

  module _ (os : Os) (id : String) (size : ℕ) (path : List ℕ) (writes : os.write_fails ≡ none) where
    chunk-Open :
        (t : FileTransfers) (c : FileChunk)
        → c.transfer_id ≡ id
        → Open id size path t
        → Open id size path (on_chunk {A = A} t os c).0
    chunk-Open t c same w =
        let found : lookup c.transfer_id t.recvs ≡ some w.state =
          ap (λ i. lookup i t.recvs) same ∙ w.found in
        elim (Bool-cases (c.offset == w.state.written)) [
          | inr other ↦
              let passed = on_chunk_misplaced A t os c w.state found (λ e. ground (arith, other)) in
              subst (Open id size path) (sym (ap (λ r. r.0) passed)) w
          | inl next ↦
              let (found', wrote, _) =
                on_chunk_next A t os c w.state found (ground (arith, next)) writes in
              record {
                state = chunk_state c w.state;
                found = ap (λ i. lookup i (on_chunk {A = A} t os c).0.recvs) (sym same) ∙ found';
                synced =
                    subst (λ d. Synced d (chunk_state c w.state)) (sym wrote)
                      (chunk_state-Synced t.disk c w.state w.synced);
                sized = w.sized;
                placed = w.placed;
              }
        ]

    receive-Open :
        (t : FileTransfers) (cs : List FileChunk)
        → All (λ (c : FileChunk). c.transfer_id ≡ id) cs
        → Open id size path t
        → Open id size path (receive t os cs)
    unfolding receive
    receive-Open t [] h w = w
    receive-Open t (c ∷ cs) (h, hs) w =
        receive-Open (on_chunk {A = A} t os c).0 cs hs (chunk-Open t c h w)

  -- Integrity: after an offer that the disk takes, whatever chunks of this transfer arrive, in any order and
  -- with any offsets, and whatever digest: if the transfer is reported as complete, then at the path that the
  -- offered name has in the download directory there is a file of the offered size and the announced digest.
  -- No write fails, the file can be read up to the offered size, and no other transfer writes meanwhile.
  pub receive-completed :
      (sha : List ℕ → List ℕ) (t : FileTransfers) (os : Os) (o : FileOffer) (cs : List FileChunk)
      (c : FileComplete) (path : Option (List ℕ)) (rest : List (Output A))
      → os.mkdir_ok ≡ true
      → os.open_ok ≡ true
      → o.size ≤ os.readable
      → os.write_fails ≡ none
      → All (λ (x : FileChunk). x.transfer_id ≡ o.transfer_id) cs
      → c.transfer_id ≡ o.transfer_id
      → let after = on_complete {A = A} sha (receive (on_offer {A = A} t os o).0 os cs) os c in
        after.1 ≡ event (completed c.transfer_id path) ∷ rest
        → let final_path = path_of t.download_dir (sanitize o.name) in
          let file = read_at after.0.disk final_path in
          (path ≡ some final_path) × (length file ≡ o.size) × (sha file ≡ c.sha256)
  receive-completed sha t os o cs c path rest mkdir opens reads writes ids same h =
      let final_path : List ℕ = path_of t.download_dir (sanitize o.name) in
      let (st, found, s, _, size, place, _) = on_offer_resumes A sha t os o mkdir opens reads in
      let start : Open o.transfer_id o.size final_path (on_offer {A = A} t os o).0 = record {
        state = st;
        found = found;
        synced = s;
        sized = size;
        placed = place;
      } in
      let sent : FileTransfers = receive (on_offer {A = A} t os o).0 os cs in
      let w =
        receive-Open os o.transfer_id o.size final_path writes (on_offer {A = A} t os o).0 cs ids
          start in
      let (at, _, whole, digest) =
        on_complete-completed A sha sent os c w.state path rest
          (ap (λ i. lookup i sent.recvs) same ∙ w.found) w.synced h in
      let disk : Disk = (on_complete {A = A} sha sent os c).0.disk in
      (
        at ∙ ap some w.placed,
        ap (λ p. length (read_at disk p)) (sym w.placed) ∙ whole ∙ w.sized,
        ap (λ p. sha (read_at disk p)) (sym w.placed) ∙ digest,
      )
