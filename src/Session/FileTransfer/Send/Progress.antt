-- ===== src/Session/FileTransfer/Send/Progress.antt =====
-- What the sending thread of crates/session/src/filexfer.rs puts out, and when it cannot be stuck.
use reachmydevice.Prelude.{
  ℕ, suc, ◌+◌, ◌-◌, ◌≤◌, ◌<◌, min, ◌≡◌, refl, sym, ap, ◌∙◌, ◌⊎◌, inl, inr, Bool, true, false,
  Option, none, some, List, [], ◌∷◌, ◌++◌, arith, length, take, drop, subst, append_assoc,
  length-take, length-drop, take-length-take, Option-cases,
}
use reachmydevice.Protocol.{Payload, file_chunk, file_complete, envelope}
use reachmydevice.Session.FileTransfer.{
  SendShared, Output, out, event, completed, chunk, window, ack_every,
}
use reachmydevice.Session.FileTransfer.Send.{
  Sender, Phase, waiting, streaming, ended, Turn, stop, read_bytes, send_bytes, send_chunk, stream,
  send_step,
}

-- The chunks among what is put out, with their offsets.
abbrev pub payload_chunk : {A : Type 0} → Option (Payload A) → List (ℕ × List ℕ)
payload_chunk (some (Payload.file_chunk c)) = (c.offset, c.content) ∷ []
payload_chunk p = []

abbrev pub chunks_of : {A : Type 0} → List (Output A) → List (ℕ × List ℕ)
chunks_of [] = []
chunks_of (out env ∷ outs) = payload_chunk env.payload ++ chunks_of outs
chunks_of (event e ∷ outs) = chunks_of outs

-- Chunks that lie one behind the other in the file, from an offset to another.
abbrev pub Laid : List ℕ → ℕ → List (ℕ × List ℕ) → ℕ → Type 0
Laid content from [] to = from ≡ to
Laid content from ((offset, bytes) ∷ cs) to =
    (offset ≡ from)
    × (bytes ≡ take (length bytes) (drop from content))
    × Laid content (from + length bytes) cs to

Laid-append :
    (content : List ℕ) (from mid to : ℕ) (cs ds : List (ℕ × List ℕ))
    → Laid content from cs mid
    → Laid content mid ds to
    → Laid content from (cs ++ ds) to
Laid-append content from mid to [] ds l m = subst (λ k. Laid content k ds to) (sym l) m
Laid-append content from mid to ((o, b) ∷ cs) ds (at, of, l) m =
    (at, of, Laid-append content (from + length b) mid to cs ds l m)

abbrev pub is_waiting : Phase → Bool
is_waiting waiting = true
is_waiting streaming = false
is_waiting ended = false

Phase-cases : (p : Phase) → (p ≡ waiting) ⊎ (p ≡ streaming) ⊎ (p ≡ ended)
Phase-cases waiting = inl refl
Phase-cases streaming = inr (inl refl)
Phase-cases ended = inr (inr refl)

module _ (A : Type 0) where
  -- What a step puts out lies in the file from the old to the new position, which the file survives.
  abbrev Moves : Sender → Sender × List (Output A) → Type 0
  Moves s r =
      Laid s.content s.next (chunks_of r.1) r.0.next
      × (r.0.content ≡ s.content)
      × (is_waiting r.0.phase ≡ false)

  send_bytes-Moves :
      (s : Sender) (w : ℕ)
      → is_waiting s.phase ≡ false
      → Moves s (send_bytes s (take w (drop s.next s.content)))
  unfolding send_bytes stop file_chunk envelope
  send_bytes-Moves s w p =
      let part = sym (take-length-take w (drop s.next s.content)) in ground (arith, part)

  stream-Moves :
      (s : Sender) (shared : SendShared) (turn : Turn)
      → is_waiting s.phase ≡ false
      → Moves s (stream s shared turn)
  unfolding stream send_chunk stop file_complete envelope read_bytes
  stream-Moves s shared turn p = elim (Option-cases turn.read) [
    | inl e ↦ ground (arith, e)
    | inr (n, e) ↦
        let (laid, same, going) = send_bytes-Moves s (min n (min (s.size - s.next) chunk)) p in
        (ground (arith, e, laid), ground (arith, e, same), ground (arith, e, going))
  ]

  step-Moves :
      (s : Sender) (shared : SendShared) (turn : Turn)
      → is_waiting s.phase ≡ false
      → Moves s (send_step s shared turn)
  unfolding send_step
  step-Moves s shared turn p = elim (Phase-cases s.phase) [
    | inl e ↦ absurd (ground (arith, e))
    | inr (inl e) ↦
        let same : send_step {A = A} s shared turn ≡ stream s shared turn = ground (arith, e) in
        subst (Moves s) (sym same) (stream-Moves s shared turn p)
    | inr (inr e) ↦
        let same : send_step {A = A} s shared turn ≡ (s, []) = ground (arith, e) in
        subst (Moves s) (sym same) (refl, refl, p)
  ]

  -- The thread's steps at given values of the shared cell and results of the system.
  unfoldable pub send_run : Sender → List (SendShared × Turn) → Sender × List (Output A)
  unfolding send_step
  send_run s [] = (s, [])
  send_run s ((shared, turn) ∷ turns) =
      let (s', outs) = send_step s shared turn in
      let (end, rest) = send_run s' turns in (end, outs ++ rest)

  chunks_of-append : (os ps : List (Output A)) → chunks_of (os ++ ps) ≡ chunks_of os ++ chunks_of ps
  chunks_of-append [] ps = refl
  chunks_of-append (event e ∷ os) ps = chunks_of-append os ps
  chunks_of-append (out env ∷ os) ps =
      ap (λ l. payload_chunk env.payload ++ l) (chunks_of-append os ps)
      ∙ sym (append_assoc (payload_chunk env.payload) (chunks_of os) (chunks_of ps))

  -- From the first acknowledgement on, the thread sends chunks that lie one behind the other in the file,
  -- from its position to the position that it ends at, whatever the shared cell holds at each step, however
  -- the reads are cut and wherever it is cancelled.
  send_run-Laid :
      (s : Sender) (turns : List (SendShared × Turn))
      → is_waiting s.phase ≡ false
      → Laid s.content s.next (chunks_of (send_run s turns).1) (send_run s turns).0.next
  unfolding send_run
  send_run-Laid s [] p = refl
  send_run-Laid s ((shared, turn) ∷ turns) p =
      let s' : Sender = (send_step {A = A} s shared turn).0 in
      let first : List (Output A) = (send_step s shared turn).1 in
      let rest : List (Output A) = (send_run s' turns).1 in
      let (laid, same, going) = step-Moves s shared turn p in
      let more : Laid s.content s'.next (chunks_of rest) (send_run s' turns).0.next =
        subst (λ c. Laid c s'.next (chunks_of rest) (send_run s' turns).0.next) same
          (send_run-Laid s' turns going) in
      subst (λ cs. Laid s.content s.next cs (send_run s' turns).0.next)
        (sym (chunks_of-append first rest))
        (Laid-append s.content s.next s'.next (send_run s' turns).0.next (chunks_of first)
          (chunks_of rest) laid more)

  -- Flow control: a step moves the position only if fewer than a window of bytes is unacknowledged, and by
  -- no more than a chunk, nor past the offered size.
  pub step_window :
      (s : Sender) (shared : SendShared) (turn : Turn)
      → s.phase ≡ streaming
      → let next = (send_step {A = A} s shared turn).0.next in
        (next ≡ s.next)
        ⊎ ((next < shared.acked + window + chunk)
            × (s.next < next)
            × (next ≤ s.size)
            × (next ≤ s.next + chunk))
  unfolding send_step stream send_chunk send_bytes read_bytes stop
  step_window s shared turn p = elim (Option-cases turn.read) [
    | inl e ↦ ground (arith, p, e)
    | inr (n, e) ↦
        let size = length-take (min n (min (s.size - s.next) chunk)) (drop s.next s.content) in
        ground (arith, p, e, size)
  ]

  -- The thread is not held up for ever: if it is not cancelled, fewer bytes than the receiver leaves
  -- unacknowledged are open, all bytes of a file that was sent whole are acknowledged, and reading gives
  -- something where there is something to read, then a step sends a chunk or the completion.
  pub step_progress :
      (s : Sender) (shared : SendShared) (turn : Turn) (n : ℕ)
      → s.phase ≡ streaming
      → shared.cancel ≡ false
      → length s.content ≡ s.size
      → s.next < shared.acked + ack_every
      → (s.size ≤ s.next → s.size ≤ shared.acked)
      → turn.read ≡ some (suc n)
      → let after = send_step {A = A} s shared turn in
        ((s.next < after.0.next) × (after.0.phase ≡ streaming))
        ⊎ ((after.0.phase ≡ ended)
            × (after.1
                ≡ out (file_complete s.transfer_id s.digest)
                  ∷ event (completed s.transfer_id none)
                  ∷ []))
  unfolding send_step stream send_chunk send_bytes read_bytes stop
  step_progress s shared turn n p live whole near all read =
      let size = length-take (min (suc n) (min (s.size - s.next) chunk)) (drop s.next s.content) in
      let rest = length-drop s.next s.content in ground (arith, p, read, size, rest)
