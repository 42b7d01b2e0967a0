-- ===== src/Session/Identity/KeyFile/Hex.antt =====
-- The text of a plaintext key file: crates/session/src/identity.rs, `save_with` and `load_or_create`.
use reachmydevice.Prelude.{
  ℕ, ◌/◌, ◌%◌, ◌≤◌, ◌<◌, ◌≡◌, refl, ap, false, some, List, [], ◌∷◌, arith, length, take, All,
}
use reachmydevice.Session.Pairing.{bytes_eq, is_whitespace, trim_start, trim_end}
use reachmydevice.Session.Identity.Sdp.{trim}
use reachmydevice.Session.Identity.{hex_digit, hex_encode}
use reachmydevice.Session.Identity.KeyFile.{hex_value, hex_decode, wrap_magic}

abbrev pub IsByte : ℕ → Type 0
IsByte b = b < 256

hex_value-hex_digit : (n : ℕ) → n < 16 → hex_value (hex_digit n) ≡ some n
unfolding hex_value
hex_value-hex_digit n h = ground arith

pub hex_decode-hex_encode :
    (bytes : List ℕ) → All IsByte bytes → hex_decode (hex_encode bytes) ≡ some bytes
unfolding hex_decode hex_encode
hex_decode-hex_encode [] h = refl
hex_decode-hex_encode (b ∷ bs) (h, hs) =
    rw
      (
        hex_value-hex_digit (b / 16) (omega arith),
        hex_value-hex_digit (b % 16) (omega arith),
        hex_decode-hex_encode bs hs,
      )
      (ap (λ x. some (x ∷ bs)) (omega arith))

abbrev pub NoBlank : ℕ → Type 0
NoBlank c = is_whitespace c ≡ false

trim_start_unblanked : (text : List ℕ) → All NoBlank text → trim_start text ≡ text
unfolding trim_start
trim_start_unblanked [] h = refl
trim_start_unblanked (c ∷ cs) (h, hs) = rw h refl

trim_end_unblanked : (text : List ℕ) → All NoBlank text → trim_end text ≡ text
unfolding trim_end
trim_end_unblanked [] h = refl
trim_end_unblanked (c ∷ []) (h, hs) = rw h refl
trim_end_unblanked (c ∷ d ∷ ds) (h, hs) = rw (trim_end_unblanked (d ∷ ds) hs) refl

pub trim_unblanked : (text : List ℕ) → All NoBlank text → trim text ≡ text
trim_unblanked text h = rw (trim_start_unblanked text h) (trim_end_unblanked text h)

hex_digit-NoBlank : (n : ℕ) → n < 16 → NoBlank (hex_digit n)
unfolding is_whitespace
hex_digit-NoBlank n h = ground arith

hex_encode-NoBlank : (bytes : List ℕ) → All IsByte bytes → All NoBlank (hex_encode bytes)
unfolding hex_encode
hex_encode-NoBlank [] h = tt
hex_encode-NoBlank (b ∷ bs) (h, hs) = (
  hex_digit-NoBlank (b / 16) (omega arith),
  (hex_digit-NoBlank (b % 16) (omega arith), hex_encode-NoBlank bs hs),
)

pub trim-hex_encode :
    (bytes : List ℕ) → All IsByte bytes → trim (hex_encode bytes) ≡ hex_encode bytes
trim-hex_encode bytes h =
    rw (trim_start_unblanked (hex_encode bytes) (hex_encode-NoBlank bytes h))
      (trim_end_unblanked (hex_encode bytes) (hex_encode-NoBlank bytes h))

pub hex_encode_plain :
    (bytes : List ℕ) → 1 ≤ length bytes → bytes_eq (take 4 (hex_encode bytes)) wrap_magic ≡ false
unfolding hex_encode
hex_encode_plain [] h = absurd (omega arith)
hex_encode_plain (b ∷ bs) h = ground arith
