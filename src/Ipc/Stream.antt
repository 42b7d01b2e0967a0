-- ===== src/Ipc/Stream.antt =====
-- Messages pass the socket whole, in order, and within the size cap.
use reachmydevice.Prelude.{
  ℕ, ◌+◌, ◌^◌, ◌≤◌, ◌<◌, ◌≡◌, ◌≢◌, refl, ap, sym, ◌∙◌, inl, inr, true, false, Option, none, some,
  List, [], ◌∷◌, ◌++◌, arith, ltb, leb, length, take, drop, length-append, take-append_length,
  drop-append_length, append_assoc, Bool-cases, length-drop, le→leb, leb→le, take_all,
  take-append_le, length_pos,
}
use reachmydevice.Prelude.Bytes.{to_le_bytes, length-to_le_bytes, from_le_bytes-to_le_bytes}
use reachmydevice.Ipc.{
  max_frame_bytes, Postcard, message_too_large, frame_too_large, eof, Written, written,
  write_failed, received, read_failed, read_exact, finish_msg, write_msg, read_msg, read_all,
}

read_exact-append :
    (n : ℕ) (xs ys : List ℕ) → length xs ≡ n → read_exact n (xs ++ ys) ≡ some (xs, ys)
unfolding read_exact
read_exact-append n xs ys e =
    ap (λ k. read_exact k (xs ++ ys)) (sym e)
    ∙ rw (
      le→leb (length xs) (length (xs ++ ys)) (omega (arith, length-append xs ys)),
      take-append_length xs ys,
      drop-append_length xs ys,
    )

-- A stream that ends early gives no part of what was asked for.
read_exact-short : (n : ℕ) (xs : List ℕ) → length xs < n → read_exact n xs ≡ none
unfolding read_exact
read_exact-short n xs h = ground arith

header :
    (kept : List ℕ)
    → leb 4 (length kept) ≡ true
    → read_exact 4 kept ≡ some (take 4 kept, drop 4 kept)
unfolding read_exact
header kept h = rw h

under_cap : (n : ℕ) → n ≤ max_frame_bytes → ltb max_frame_bytes n ≡ false
under_cap n h = ground arith

take-append_four : (xs ys : List ℕ) → length xs ≡ 4 → take 4 (xs ++ ys) ≡ xs
take-append_four xs ys e = take-append_le 4 xs ys (omega arith) ∙ take_all 4 xs (omega arith)

module _ {M : Type 0} (p : Postcard M) where
  written_bytes :
      (m : M) (bytes : List ℕ)
      → write_msg p m ≡ written bytes
      → (to_le_bytes 4 (length (p.to_stdvec m)) ++ p.to_stdvec m ≡ bytes)
        × (length (p.to_stdvec m) ≤ max_frame_bytes)
  unfolding write_msg
  written_bytes m bytes e = (ground arith, ground arith)

  read_framed :
      (m : M) (rest : List ℕ)
      → length (p.to_stdvec m) ≤ max_frame_bytes
      → read_msg p (to_le_bytes 4 (length (p.to_stdvec m)) ++ (p.to_stdvec m ++ rest))
        ≡ received m rest
  unfolding read_msg finish_msg
  read_framed m rest h =
      rw
        (
          read_exact-append 4 (to_le_bytes 4 (length (p.to_stdvec m))) (p.to_stdvec m ++ rest)
              (length-to_le_bytes 4 (length (p.to_stdvec m))),
          from_le_bytes-to_le_bytes 4 (length (p.to_stdvec m)) (omega arith),
        )
        (rw (
          under_cap (length (p.to_stdvec m)) h,
          read_exact-append (length (p.to_stdvec m)) (p.to_stdvec m) rest refl,
          p.from_bytes-to_stdvec m,
          finish_msg,
        ))

  -- Reading what was just written gives the message back and leaves what stands behind it.
  pub read_msg-write_msg :
      (m : M) (bytes rest : List ℕ)
      → write_msg p m ≡ written bytes
      → read_msg p (bytes ++ rest) ≡ received m rest
  read_msg-write_msg m bytes rest e =
      let (same, small) = written_bytes m bytes e in
      rw (← same) (
        rw (append_assoc (to_le_bytes 4 (length (p.to_stdvec m))) (p.to_stdvec m) rest)
          (read_framed m rest small))

  -- All messages written, one behind the other, or nothing where one is too large.
  unfoldable pub write_all : List M → Option (List ℕ)
  write_all [] = some []
  write_all (m ∷ ms) = elim (write_msg p m) [
    | write_failed e ↦ none
    | written bytes ↦ elim (write_all ms) [ none ↦ none | some rest ↦ some (bytes ++ rest) ]
  ]

  write_all-cons :
      (m : M) (ms : List M) (stream : List ℕ)
      → write_all (m ∷ ms) ≡ some stream
      → (bytes : List ℕ) × (rest : List ℕ) × (write_msg p m ≡ written bytes)
        × (write_all ms ≡ some rest)
        × (bytes ++ rest ≡ stream)
  unfolding write_all
  write_all-cons m ms stream e = by_case (write_msg p m) (write_all ms) refl refl e
    where
      by_case :
          (w : Written) (o : Option (List ℕ))
          → write_msg p m ≡ w
          → write_all ms ≡ o
          → elim w [
            | write_failed e ↦ none
            | written bytes ↦ elim o [ none ↦ none | some rest ↦ some (bytes ++ rest) ]
          ]
            ≡ some stream
          → (bytes : List ℕ) × (rest : List ℕ) × (write_msg p m ≡ written bytes)
            × (write_all ms ≡ some rest)
            × (bytes ++ rest ≡ stream)
      by_case (write_failed x) o f g e = cc
      by_case (written bytes) none f g e = cc
      by_case (written bytes) (some rest) f g e = (bytes, rest, f, g, ground arith)

  -- A reader gets exactly the messages written, in their order, whatever their number.
  pub read_all-write_all :
      (ms : List M) (stream : List ℕ)
      → write_all ms ≡ some stream
      → read_all p (length ms) stream ≡ ms
  unfolding read_all
  read_all-write_all [] stream e = refl
  read_all-write_all (m ∷ ms) stream e =
      let (bytes, rest, f, g, same) = write_all-cons m ms stream e in
      rw (← same) (
        rw (read_msg-write_msg m bytes rest f, read_all)
          (ap (◌∷◌ m) (read_all-write_all ms rest g)))

  -- A length prefix above the cap is refused before any of the body is read, and a message above it is
  -- not written.
  pub frame_cap :
      (len : ℕ) (body : List ℕ) (m : M)
      → max_frame_bytes < len
      → len < 2 ^ 32
      → max_frame_bytes < length (p.to_stdvec m)
      → (read_msg p (to_le_bytes 4 len ++ body) ≡ read_failed frame_too_large)
        × (write_msg p m ≡ write_failed message_too_large)
  unfolding read_msg write_msg
  frame_cap len body m h k big = (
    rw
        (
          read_exact-append 4 (to_le_bytes 4 len) body (length-to_le_bytes 4 len),
          from_le_bytes-to_le_bytes 4 len (omega arith),
        )
        (ground arith),
    ground arith,
  )

  -- A stream that ends inside a message is the end of the connection, never a part of a message.
  pub read_msg-truncated :
      (m : M) (bytes kept lost : List ℕ)
      → write_msg p m ≡ written bytes
      → bytes ≡ kept ++ lost
      → lost ≢ []
      → read_msg p kept ≡ read_failed eof
  unfolding read_msg finish_msg
  read_msg-truncated m bytes kept lost e same some_lost =
      let (framed, small) = written_bytes m bytes e in
      let buf : List ℕ = p.to_stdvec m in
      let total : 4 + length buf ≡ length kept + length lost = omega (
        arith,
        ap length framed,
        ap length same,
        length-append (to_le_bytes 4 (length buf)) buf,
        length-to_le_bytes 4 (length buf),
        length-append kept lost,
      ) in
      elim (Bool-cases (leb 4 (length kept))) [
        | inr short ↦ rw (read_exact-short 4 kept (ground arith))
        | inl enough ↦
            let prefix : take 4 kept ≡ to_le_bytes 4 (length buf) =
              sym (take-append_le 4 kept lost (leb→le 4 (length kept) enough))
              ∙ ap (take 4) (sym same ∙ sym framed)
              ∙ take-append_four (to_le_bytes 4 (length buf)) buf
                  (length-to_le_bytes 4 (length buf)) in
            rw (header kept enough, prefix, from_le_bytes-to_le_bytes 4 (length buf) (omega arith))
              (rw (
                under_cap (length buf) small,
                read_exact-short (length buf) (drop 4 kept) (
                    omega (
                      arith,
                      length-drop 4 kept,
                      length_pos lost some_lost,
                      leb→le 4 (length kept) enough,
                    )),
                finish_msg,
              ))
      ]
