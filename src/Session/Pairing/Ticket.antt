-- ===== src/Session/Pairing/Ticket.antt =====
-- The ticket's binary form is read back, as far as its length field reaches.
use reachmydevice.Prelude.{
  ℕ, ◌+◌, ◌%◌, ◌^◌, ◌≤◌, ◌<◌, ◌≡◌, ◌≢◌, refl, sym, ap, ◌∙◌, Bool, true, false, List, ◌++◌, arith,
  length, take, drop, length-append, take_all, le→leb, Bool-cases, inl, inr, length-take,
  drop-append, take-append,
}
use reachmydevice.Prelude.Bytes.{
  to_le_bytes, from_le_bytes, length-to_le_bytes, from_le_bytes-to_le_bytes,
}
use reachmydevice.Session.Pairing.{
  PairingTicket, ticket_magic, encode, slice, bytes_eq, ok, err, bad_utf8, decode,
}

-- A ticket of the Rust type: two arrays of 32 bytes and a `u64`.
pub record IsTicket (t : PairingTicket) : Type 0 where
  pub key_size : length t.identity_pubkey ≡ 32
  pub seed_size : length t.seed ≡ 32
  pub expiry_range : t.expiry_unix < 2 ^ 64

module _ (t : PairingTicket) (w : IsTicket t) where
  abbrev after_expiry : List ℕ
  after_expiry = to_le_bytes 2 (length t.relay % 2 ^ 16) ++ t.relay

  abbrev after_seed : List ℕ
  after_seed = to_le_bytes 8 t.expiry_unix ++ after_expiry

  -- What is left of an encoded ticket from the start of each field on.
  drop_seed : drop 36 (encode t) ≡ t.seed ++ after_seed
  unfolding encode
  drop_seed = drop-append 32 32 0 t.identity_pubkey (t.seed ++ after_seed) w.key_size refl

  drop_expiry : drop 68 (encode t) ≡ after_seed
  unfolding encode
  drop_expiry =
      drop-append 64 32 32 t.identity_pubkey (t.seed ++ after_seed) w.key_size refl
      ∙ drop-append 32 32 0 t.seed after_seed w.seed_size refl

  drop_size : drop 76 (encode t) ≡ after_expiry
  unfolding encode
  drop_size =
      drop-append 72 32 40 t.identity_pubkey (t.seed ++ after_seed) w.key_size refl
      ∙ drop-append 40 32 8 t.seed after_seed w.seed_size refl
      ∙ drop-append 8 8 0 (to_le_bytes 8 t.expiry_unix) after_expiry
          (length-to_le_bytes 8 t.expiry_unix) refl

  drop_relay : drop 78 (encode t) ≡ t.relay
  unfolding encode
  drop_relay =
      drop-append 74 32 42 t.identity_pubkey (t.seed ++ after_seed) w.key_size refl
      ∙ drop-append 42 32 10 t.seed after_seed w.seed_size refl
      ∙ drop-append 10 8 2 (to_le_bytes 8 t.expiry_unix) after_expiry
          (length-to_le_bytes 8 t.expiry_unix) refl
      ∙ drop-append 2 2 0 (to_le_bytes 2 (length t.relay % 2 ^ 16)) t.relay
          (length-to_le_bytes 2 (length t.relay % 2 ^ 16)) refl

  slice_key : slice 4 32 (encode t) ≡ t.identity_pubkey
  unfolding encode
  slice_key = take-append 32 t.identity_pubkey (t.seed ++ after_seed) w.key_size

  slice_seed : slice 36 32 (encode t) ≡ t.seed
  slice_seed = rw drop_seed (take-append 32 t.seed after_seed w.seed_size)

  expiry_read : from_le_bytes (slice 68 8 (encode t)) ≡ t.expiry_unix
  expiry_read =
      rw
        (
          drop_expiry,
          take-append 8 (to_le_bytes 8 t.expiry_unix) after_expiry
              (length-to_le_bytes 8 t.expiry_unix),
        )
        (from_le_bytes-to_le_bytes 8 t.expiry_unix (omega (arith, w.expiry_range)))

  size_read : from_le_bytes (slice 76 2 (encode t)) ≡ length t.relay % 2 ^ 16
  size_read =
      rw
        (
          drop_size,
          take-append 2 (to_le_bytes 2 (length t.relay % 2 ^ 16)) t.relay
              (length-to_le_bytes 2 (length t.relay % 2 ^ 16)),
        )
        (from_le_bytes-to_le_bytes 2 (length t.relay % 2 ^ 16) (omega arith))

  length-encode : length (encode t) ≡ 78 + length t.relay
  unfolding encode
  length-encode = omega (
    arith,
    w.key_size,
    w.seed_size,
    length-append t.identity_pubkey (t.seed ++ after_seed),
    length-append t.seed after_seed,
    length-append (to_le_bytes 8 t.expiry_unix) after_expiry,
    length-append (to_le_bytes 2 (length t.relay % 2 ^ 16)) t.relay,
    length-to_le_bytes 8 t.expiry_unix,
    length-to_le_bytes 2 (length t.relay % 2 ^ 16),
  )

  magic_read : bytes_eq (slice 0 4 (encode t)) ticket_magic ≡ true
  unfolding encode
  magic_read = refl

-- What decoding an encoded ticket gives: the ticket with its relay cut to its length modulo 2^16,
-- where that prefix is UTF-8.
decode-encode_cut :
    (utf8 : List ℕ → Bool) (t : PairingTicket)
    → IsTicket t
    → utf8 (take (length t.relay % 2 ^ 16) t.relay) ≡ true
    → decode utf8 (encode t) ≡ ok (record t { relay = take (length t.relay % 2 ^ 16) t.relay })
unfolding decode
decode-encode_cut utf8 t w u =
    rw
      (
        size_read t w,
        drop_relay t w,
        expiry_read t w,
        slice_key t w,
        slice_seed t w,
        magic_read t w,
        length-encode t w,
      )
      (rw (
        le→leb 78 (78 + length t.relay) (omega arith),
        le→leb (78 + length t.relay % 2 ^ 16) (78 + length t.relay) (omega arith),
        u,
      ))

-- Round trip: a ticket whose relay locator has fewer than 65536 bytes is decoded from its binary
-- form.
pub decode-encode :
    (utf8 : List ℕ → Bool) (t : PairingTicket)
    → IsTicket t
    → utf8 t.relay ≡ true
    → length t.relay < 2 ^ 16
    → decode utf8 (encode t) ≡ ok t
decode-encode utf8 t w u lt =
    let whole : take (length t.relay % 2 ^ 16) t.relay ≡ t.relay =
      take_all (length t.relay % 2 ^ 16) t.relay (omega arith) in
    decode-encode_cut utf8 t w (rw whole u) ∙ ap (λ r. ok (record t { relay = r })) whole

cut_or_refused :
    (utf8 : List ℕ → Bool) (t : PairingTicket)
    → IsTicket t
    → utf8 (take (length t.relay % 2 ^ 16) t.relay) ≡ false
    → decode utf8 (encode t) ≡ err bad_utf8
unfolding decode
cut_or_refused utf8 t w u =
    rw
      (
        size_read t w,
        drop_relay t w,
        expiry_read t w,
        slice_key t w,
        slice_seed t w,
        magic_read t w,
        length-encode t w,
      )
      (rw (
        le→leb 78 (78 + length t.relay) (omega arith),
        le→leb (78 + length t.relay % 2 ^ 16) (78 + length t.relay) (omega arith),
        u,
      ))

-- With a longer locator the ticket is never recovered, although encoding it reports no error: the
-- length field wraps, and decoding cuts the locator or refuses it.
pub decode-encode_long :
    (utf8 : List ℕ → Bool) (t : PairingTicket)
    → IsTicket t
    → 2 ^ 16 ≤ length t.relay
    → decode utf8 (encode t) ≢ ok t
decode-encode_long utf8 t w ge e =
    elim (Bool-cases (utf8 (take (length t.relay % 2 ^ 16) t.relay))) [
      | inl u ↦
          let same = sym (decode-encode_cut utf8 t w u) ∙ e in
          absurd (
            omega (arith, ap length (relay_of same), length-take (length t.relay % 2 ^ 16) t.relay))
      | inr u ↦ ground (arith, sym (cut_or_refused utf8 t w u) ∙ e)
    ]
  where
    relay_of :
        ok (record t { relay = take (length t.relay % 2 ^ 16) t.relay }) ≡ ok t
        → take (length t.relay % 2 ^ 16) t.relay ≡ t.relay
    relay_of e = ground arith
