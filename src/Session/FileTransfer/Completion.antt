-- ===== src/Session/FileTransfer/Completion.antt =====
-- How a receiver starts and ends a transfer.
use reachmydevice.Prelude.{
  ℕ, suc, min, ◌≤◌, ◌≡◌, refl, sym, ap, ◌∙◌, true, Option, none, some, List, [], ◌∷◌, ◌++◌, arith,
  length, take, length-take, eq_refl,
}
use reachmydevice.Prelude.Store.{lookup, remove, lookup-insert}
use reachmydevice.Protocol.{FileOffer, FileComplete, file_ack}
use reachmydevice.Session.FileTransfer.Storage.{
  path_eq, size_at, read_at, open_or_create, set_len, rename,
}
use reachmydevice.Session.FileTransfer.Names.{sanitize, path_of, part_of}
use reachmydevice.Session.FileTransfer.{
  FileTransfers, RecvState, Os, Output, out, event, offered, completed, rehash, on_offer, finish,
  on_complete,
}
use reachmydevice.Session.FileTransfer.DiskLaws.{
  path_eq_refl, path_eq_sound, read_at-rename, opened_find, opened_content, size_at-read_at,
  set_len_within, rehash_lem,
}
use reachmydevice.Session.FileTransfer.Receive.{Synced, joined, feed, feed_lem}

module _ (A : Type 0) (sha : List ℕ → List ℕ) where
  finish-completed :
      (t : FileTransfers) (os : Os) (c : FileComplete) (st : RecvState) (path : Option (List ℕ))
      (rest : List (Output A))
      → (finish {A = A} sha t os c st).1 ≡ event (completed c.transfer_id path) ∷ rest
      → (st.written ≡ st.size)
        × (path_eq (sha st.hasher) c.sha256 ≡ true)
        × (path ≡ some st.final_path)
        × ((finish {A = A} sha t os c st).0
            ≡ record t { disk = rename t.disk st.part_path st.final_path })
  unfolding finish
  finish-completed t os c st path rest h = (ground arith, ground arith, ground arith, ground arith)

  on_complete-finish :
      (t : FileTransfers) (os : Os) (c : FileComplete) (st : RecvState)
      → lookup c.transfer_id t.recvs ≡ some st
      → on_complete {A = A} sha t os c
        ≡ finish {A = A} sha (record t { recvs = remove c.transfer_id t.recvs }) os c st
  unfolding on_complete
  on_complete-finish t os c st e = ground arith

  -- Integrity: a transfer is reported as complete only if the file at its final path has the offered
  -- size and the announced digest, and then that file is what was received.
  pub on_complete-completed :
      (t : FileTransfers) (os : Os) (c : FileComplete) (st : RecvState) (path : Option (List ℕ))
      (rest : List (Output A))
      → lookup c.transfer_id t.recvs ≡ some st
      → Synced t.disk st
      → (on_complete {A = A} sha t os c).1 ≡ event (completed c.transfer_id path) ∷ rest
      → let file = read_at (on_complete {A = A} sha t os c).0.disk st.final_path in
        (path ≡ some st.final_path)
        × (file ≡ st.hasher)
        × (length file ≡ st.size)
        × (sha file ≡ c.sha256)
  on_complete-completed t os c st path rest e s h =
      let same = on_complete-finish t os c st e in
      let t' : FileTransfers = record t { recvs = remove c.transfer_id t.recvs } in
      let (whole, digest, at, after) =
        finish-completed t' os c st path rest (sym (ap (λ r. r.1) same) ∙ h) in
      let file : read_at (on_complete {A = A} sha t os c).0.disk st.final_path ≡ st.hasher =
        ap (λ r. read_at r.disk st.final_path) (ap (λ r. r.0) same ∙ after)
        ∙ read_at-rename t.disk st.part_path st.final_path st.file.inode s.named
        ∙ s.hashed in
      (
        at,
        file,
        ap length file ∙ s.counted ∙ whole,
        ap sha file ∙ path_eq_sound (sha st.hasher) c.sha256 digest,
      )

  -- A transfer whose bytes are all there, whose digest is right and whose file can be renamed is
  -- reported as complete.
  pub on_complete_all :
      (t : FileTransfers) (os : Os) (c : FileComplete) (st : RecvState)
      → lookup c.transfer_id t.recvs ≡ some st
      → st.written ≡ st.size
      → sha st.hasher ≡ c.sha256
      → os.rename_ok ≡ true
      → (on_complete {A = A} sha t os c).1
        ≡ event (completed c.transfer_id (some st.final_path)) ∷ []
  unfolding finish
  on_complete_all t os c st e w d r =
      rw (on_complete-finish t os c st e) (ground (arith, path_eq_refl c.sha256))

  offered_state : FileTransfers → Os → FileOffer → RecvState
  offered_state t os o =
      let final_path = path_of t.download_dir (sanitize o.name) in
      let part_path = part_of final_path in
      let resume = min (size_at t.disk part_path) o.size in
      record {
        file = record { inode = (open_or_create t.disk part_path).1; pos = resume };
        part_path = part_path;
        final_path = final_path;
        written = resume;
        size = o.size;
        last_ack = resume;
        hasher = rehash (suc resume) (read_at t.disk part_path) resume os.readable [];
      }

  offered_state-Synced :
      (t : FileTransfers) (os : Os) (o : FileOffer)
      → o.size ≤ os.readable
      → let p = part_of (path_of t.download_dir (sanitize o.name)) in
        let resume = min (size_at t.disk p) o.size in
        let opened = open_or_create t.disk p in
        Synced (set_len opened.0 opened.1 resume) (offered_state t os o)
        × ((offered_state t os o).hasher ≡ take resume (read_at t.disk p))
  unfolding offered_state rehash
  offered_state-Synced t os o r =
      let p : List ℕ = part_of (path_of t.download_dir (sanitize o.name)) in
      let resume : ℕ = min (size_at t.disk p) o.size in
      let whole : size_at t.disk p ≡ length (read_at t.disk p) = size_at-read_at t.disk p in
      let hashes : (offered_state t os o).hasher ≡ take resume (read_at t.disk p) =
        rehash_lem (suc resume) (read_at t.disk p) resume os.readable [] (omega arith)
        ∙ ap (λ k. take k (read_at t.disk p)) {x = min resume os.readable} {y = resume}
            (omega arith) in
      let old : (open_or_create t.disk p).0.content (open_or_create t.disk p).1 ≡ read_at t.disk p =
        opened_content t.disk p in
      (
        record {
          named = opened_find t.disk p resume;
          hashed =
              set_len_within (open_or_create t.disk p).0 (open_or_create t.disk p).1 resume
                (omega (arith, ap length old))
              ∙ ap (take resume) old
              ∙ sym hashes;
          cursor = refl;
          counted = ap length hashes ∙ length-take resume (read_at t.disk p) ∙ omega arith;
        },
        hashes,
      )

  -- An offer that the disk allows starts a receive state at the length of the partial file (or the
  -- offered size, if that is less), keeps that many of its bytes, and asks the sender to go on there.
  pub on_offer_resumes :
      (t : FileTransfers) (os : Os) (o : FileOffer)
      → os.mkdir_ok ≡ true
      → os.open_ok ≡ true
      → o.size ≤ os.readable
      → let final_path = path_of t.download_dir (sanitize o.name) in
        let resume = min (size_at t.disk (part_of final_path)) o.size in
        let after = on_offer {A = A} t os o in
        (st : RecvState) × (lookup o.transfer_id after.0.recvs ≡ some st)
        × Synced after.0.disk st
        × (st.hasher ≡ take resume (read_at t.disk (part_of final_path)))
        × (st.size ≡ o.size)
        × (st.final_path ≡ final_path)
        × (after.1
            ≡ event (offered o.transfer_id o.name o.size)
              ∷ out (file_ack o.transfer_id resume)
              ∷ [])
  unfolding on_offer offered_state
  on_offer_resumes t os o m p r =
      let (s, h) = offered_state-Synced t os o r in
      let found = lookup-insert o.transfer_id o.transfer_id (offered_state t os o) t.recvs in
      (
        offered_state t os o,
        ground (arith, found, eq_refl o.transfer_id),
        rw (m, p) s,
        h,
        refl,
        refl,
        rw (m, p) refl,
      )

  -- A whole transfer: after an offer, the chunks behind the bytes that the partial file already held,
  -- one behind the other, and the digest of the whole, the receiver reports completion and the final
  -- path holds the offered bytes. The disk refuses nothing, and what the partial file held is a prefix
  -- of these bytes.
  pub transfer-completes :
      (t : FileTransfers) (os : Os) (o : FileOffer) (bs : List (List ℕ)) (source : List ℕ)
      → os.mkdir_ok ≡ true
      → os.open_ok ≡ true
      → o.size ≤ os.readable
      → os.write_fails ≡ none
      → os.rename_ok ≡ true
      → length source ≡ o.size
      → let final_path = path_of t.download_dir (sanitize o.name) in
        let resume = min (size_at t.disk (part_of final_path)) o.size in
        take resume (read_at t.disk (part_of final_path)) ++ joined bs ≡ source
        → let sent = feed A (on_offer {A = A} t os o).0 os o.transfer_id resume bs in
          let c : FileComplete = record { transfer_id = o.transfer_id; sha256 = sha source } in
          let after = on_complete {A = A} sha sent os c in
          (after.1 ≡ event (completed o.transfer_id (some final_path)) ∷ [])
          × (read_at after.0.disk final_path ≡ source)
  transfer-completes t os o bs source m p r w n l whole =
      let final_path : List ℕ = path_of t.download_dir (sanitize o.name) in
      let resume : ℕ = min (size_at t.disk (part_of final_path)) o.size in
      let c : FileComplete = record { transfer_id = o.transfer_id; sha256 = sha source } in
      let (st, found, s, h, z, f, _) = on_offer_resumes t os o m p r in
      let at : resume ≡ st.written = sym (
        sym s.counted
        ∙ ap length h
        ∙ length-take resume (read_at t.disk (part_of final_path))
        ∙ omega (arith, size_at-read_at t.disk (part_of final_path))) in
      let (st', found', s', h', z', f') =
        feed_lem A (on_offer {A = A} t os o).0 os o.transfer_id resume bs st w found at s in
      let sent : FileTransfers = feed A (on_offer {A = A} t os o).0 os o.transfer_id resume bs in
      let bytes : st'.hasher ≡ source = h' ∙ ap (λ b. b ++ joined bs) h ∙ whole in
      let size : st'.written ≡ st'.size = sym s'.counted ∙ ap length bytes ∙ l ∙ sym (z' ∙ z) in
      let path : st'.final_path ≡ final_path = f' ∙ f in
      let reply : (on_complete {A = A} sha sent os c).1
          ≡ event (completed o.transfer_id (some st'.final_path)) ∷ [] =
        on_complete_all sent os c st' found' size (ap sha bytes) n in
      let (_, file, _, _) =
        on_complete-completed sent os c st' (some st'.final_path) [] found' s' reply in
      (
        reply ∙ ap (λ q. event (completed o.transfer_id (some q)) ∷ []) path,
        ap (read_at (on_complete {A = A} sha sent os c).0.disk) (sym path) ∙ file ∙ bytes,
      )
