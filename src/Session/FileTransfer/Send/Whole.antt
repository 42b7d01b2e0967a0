-- ===== src/Session/FileTransfer/Send/Whole.antt =====
-- A transfer from any point in its middle to its end, by both sides of crates/session/src/filexfer.rs.
use reachmydevice.Prelude.{
  ℕ, zero, suc, ◌+◌, ◌-◌, ◌≤◌, ◌<◌, min, ◌≡◌, refl, sym, ap, ◌∙◌, inl, inr, true, none, some, List,
  [], ◌∷◌, ◌++◌, arith, ltb, length, take, drop, subst, append_assoc, append-nil, take-length-take,
  take_split, take_all, Bool-cases,
}
use reachmydevice.Protocol.{FileChunk, FileComplete, file_chunk, file_complete}
use reachmydevice.Session.FileTransfer.Storage.{read_at}
use reachmydevice.Session.FileTransfer.{
  FileTransfers, RecvState, SendShared, Os, Output, out, event, completed, progress, chunk,
  on_chunk, on_complete,
}
use reachmydevice.Session.FileTransfer.Receive.{
  Synced, chunk_state, chunk_state-Synced, on_chunk_next,
}
use reachmydevice.Session.FileTransfer.Completion.{on_complete-completed, on_complete_all}
use reachmydevice.Session.FileTransfer.Send.{Sender, ended, read_bytes, send_step}
use reachmydevice.Session.FileTransfer.Send.Exchange.{
  chunk_state-Acked, Linked, acknowledge, deliver, exchange, sends, completes, exchange-rests,
  acknowledged, deliver_chunk, deliver_complete,
}

module _ (A : Type 0) (sha : List ℕ → List ℕ) (os : Os) where
  read_bytes-part :
      (s : Sender) (n : ℕ) → read_bytes s n ≡ take (length (read_bytes s n)) (drop s.next s.content)
  unfolding read_bytes
  read_bytes-part s n =
      sym (take-length-take (min n (min (s.size - s.next) chunk)) (drop s.next s.content))

  -- One round in the middle of a file.
  next-Linked :
      (s : Sender) (t : FileTransfers) (shared : SendShared) (st : RecvState) (bytes : List ℕ)
      → Linked A sha os s t shared st
      → os.write_fails ≡ none
      → s.next + length bytes ≤ s.size
      → bytes ≡ take (length bytes) (drop s.next s.content)
      → let c : FileChunk = record {
        transfer_id = s.transfer_id;
        offset = s.next;
        content = bytes;
      } in
        let after = on_chunk {A = A} t os c in
        Linked A sha os
          (record s { next = s.next + length bytes })
          after.0
          (acknowledge A sha os after.1 shared)
          (chunk_state c st)
  next-Linked s t shared st bytes l w inside part =
      let c : FileChunk = record {
        transfer_id = s.transfer_id;
        offset = s.next;
        content = bytes;
      } in
      let (found, wrote, _) = on_chunk_next A t os c st l.found (sym l.at) w in
      let (acked, live) = acknowledged A sha os t c st shared l.found (sym l.at) w l.acked in
      record {
        active = l.active;
        live = live ∙ l.live;
        found = found;
        at = omega (arith, l.at);
        size = l.size;
        whole = l.whole;
        inside = inside;
        acked = acked;
        acks = chunk_state-Acked c st l.acks;
        synced =
            subst (λ d. Synced d (chunk_state c st)) (sym wrote)
              (chunk_state-Synced t.disk c st l.synced);
        hashed =
            ap (λ h. h ++ bytes) l.hashed
            ∙ ap (λ b. take s.next s.content ++ b) part
            ∙ sym (
                take_split s.next (s.next + length bytes) s.content (omega arith)
                ∙ ap (λ k. take s.next s.content ++ take k (drop s.next s.content))
                    {x = s.next + length bytes - s.next} {y = length bytes} (omega arith));
        digest = l.digest;
      }

  exchange_round :
      (reads : ℕ → ℕ) (k : ℕ) (s s' : Sender) (t t' : FileTransfers) (shared : SendShared)
      (outs replies : List (Output A))
      → send_step s shared (record { seek_ok = true; read = some (suc (reads k)) }) ≡ (s', outs)
      → deliver A sha os t outs ≡ (t', replies)
      → let r = exchange A sha os reads k s' t' (acknowledge A sha os replies shared) in
        exchange A sha os reads (suc k) s t shared ≡ (r.0, r.1, replies ++ r.2)
  unfolding exchange
  exchange_round reads k s s' t t' shared outs replies e f = rw (e, f) refl

  -- How an exchange A sha os ends.
  abbrev pub Done : Sender → RecvState → Sender × FileTransfers × List (Output A) → Type 0
  Done s st r =
      (r.0.phase ≡ ended)
      × (read_at r.1.disk st.final_path ≡ s.content)
      × ((front : List (Output A)) × (r.2
            ≡ front ++ event (completed s.transfer_id (some st.final_path)) ∷ []))

  last_round :
      (reads : ℕ → ℕ) (k : ℕ) (s : Sender) (t : FileTransfers) (shared : SendShared)
      (st : RecvState)
      → Linked A sha os s t shared st
      → os.rename_ok ≡ true
      → s.size ≤ s.next
      → Done s st (exchange A sha os reads (suc k) s t shared)
  last_round reads k s t shared st l n over =
      let c : FileComplete = record { transfer_id = s.transfer_id; sha256 = s.digest } in
      let after : FileTransfers × List (Output A) = on_complete {A = A} sha t os c in
      let end : Sender = record s { phase = ended } in
      let bytes : st.hasher ≡ s.content =
        l.hashed ∙ take_all s.next s.content (omega (arith, l.whole)) in
      let acked : s.size ≤ shared.acked =
        ground (arith, l.acks.all, l.at, l.size, l.inside, l.acked) in
      let reply : after.1 ≡ event (completed s.transfer_id (some st.final_path)) ∷ [] =
        on_complete_all A sha t os c st l.found (omega (arith, l.at, l.size, l.inside))
          (ap sha bytes ∙ sym l.digest) n in
      let (_, file, _, _) =
        on_complete-completed A sha t os c st (some st.final_path) [] l.found l.synced reply in
      let sent =
        completes A sha os s shared (record { seek_ok = true; read = some (suc (reads k)) })
          l.active l.live over acked in
      let round =
        exchange_round reads k s end t after.0 shared
          (out (file_complete s.transfer_id s.digest) ∷ event (completed s.transfer_id none) ∷ [])
          (after.1 ++ []) sent
          (deliver_complete A sha os t s.transfer_id s.digest (completed s.transfer_id none)) in
      let quiet =
        exchange-rests A sha os reads k end after.0 (acknowledge A sha os (after.1 ++ []) shared)
          refl in
      subst (Done s st) (sym round) (
        subst (λ r. Done s st (r.0, r.1, (after.1 ++ []) ++ r.2)) (sym quiet)
          (refl, file ∙ bytes, ([], append-nil (after.1 ++ []) ∙ append-nil after.1 ∙ reply)))

  -- A whole transfer by both sides, from any point in the middle where nothing is under way: the thread
  -- ends, the receiver reports completion last, and the final path holds the bytes of the file. The system
  -- refuses neither a write nor the last rename, every read gives at least one byte while there is one, the
  -- transfer is not cancelled, and there are more rounds than bytes to go.
  pub exchange-completes :
      (reads : ℕ → ℕ) (k : ℕ) (s : Sender) (t : FileTransfers) (shared : SendShared)
      (st : RecvState)
      → Linked A sha os s t shared st
      → os.write_fails ≡ none
      → os.rename_ok ≡ true
      → s.size - s.next < k
      → let r = exchange A sha os reads k s t shared in
        (r.0.phase ≡ ended)
        × (read_at r.1.disk st.final_path ≡ s.content)
        × ((front : List (Output A)) × (r.2
              ≡ front ++ event (completed s.transfer_id (some st.final_path)) ∷ []))
  unfolding exchange
  exchange-completes reads zero s t shared st l w n f = absurd (omega (arith, f))
  exchange-completes reads (suc k) s t shared st l w n f = elim (Bool-cases (ltb s.next s.size)) [
    | inr over ↦ last_round reads k s t shared st l n (ground (arith, over))
    | inl more ↦
        let bytes : List ℕ = read_bytes s (suc (reads k)) in
        let c : FileChunk = record {
          transfer_id = s.transfer_id;
          offset = s.next;
          content = bytes;
        } in
        let after : FileTransfers × List (Output A) = on_chunk {A = A} t os c in
        let s' : Sender = record s { next = s.next + length bytes } in
        let (sent, some_bytes, inside) =
          sends A sha os s shared (reads k) l.active l.live l.whole (ground (arith, more))
            (omega (arith, l.at, l.acked, l.acks.near)) in
        let round =
          exchange_round reads k s s' t after.0 shared
            (out (file_chunk s.transfer_id s.next bytes)
              ∷ event (progress s.transfer_id (s.next + length bytes) s.size)
              ∷ [])
            (after.1 ++ []) sent
            (deliver_chunk A sha os t s.transfer_id s.next bytes
              (progress s.transfer_id (s.next + length bytes) s.size)) in
        let linked =
          next-Linked s t shared st bytes l w inside (read_bytes-part s (suc (reads k))) in
        let (done, file, tail) =
          exchange-completes reads k s' after.0 (acknowledge A sha os after.1 shared)
            (chunk_state c st) linked w n (omega arith) in
        let (front, last) = tail in
        subst (Done s st) (sym round) (
          rw (append-nil after.1) (
            done,
            file,
            (
              after.1 ++ front,
              ap (λ l. after.1 ++ l) last
                  ∙ sym (
                      append_assoc after.1 front
                        (event (completed s.transfer_id (some st.final_path)) ∷ [])),
            ),
          ))
  ]
