-- ===== src/Session/Pairing.antt =====
-- crates/session/src/pairing.rs: pairing tickets, keys and codes. Texts are lists of bytes (a ticket's
-- relay) or of characters (a code). UTF-8 validation is Rust's; HKDF is a parameter.
pub mod Ticket
pub mod Keys
pub mod Code
use reachmydevice.Prelude.{
  ℕ, zero, suc, ◌+◌, ◌*◌, ◌/◌, ◌%◌, ◌^◌, Bool, true, false, not, ◌&&◌, ◌||◌, Option, none, some,
  List, [], ◌∷◌, ◌++◌, leb, ltb, ◌==◌, if◌then◌else◌, length, take, drop, bit_or, map,
}
use reachmydevice.Prelude.Bytes.{to_le_bytes, from_le_bytes}

-- `[u8; 32]` fields are byte lists here; `IsTicket` says that they have that size.
pub record PairingTicket : Type 0 where
  pub identity_pubkey : List ℕ
  pub seed : List ℕ
  pub relay : List ℕ
  pub expiry_unix : ℕ

-- The bytes of "ORP1".
abbrev pub ticket_magic : List ℕ
ticket_magic = 79 ∷ 82 ∷ 80 ∷ 49 ∷ []

-- `relay.len() as u16` keeps the low 16 bits.
unfoldable pub encode : PairingTicket → List ℕ
encode t =
    ticket_magic
    ++ (t.identity_pubkey
        ++ (t.seed
            ++ (to_le_bytes 8 t.expiry_unix
                ++ (to_le_bytes 2 (length t.relay % 2 ^ 16) ++ t.relay))))

-- `bytes[o..o + n]`.
abbrev pub slice : ℕ → ℕ → List ℕ → List ℕ
slice o n bytes = take n (drop o bytes)

abbrev pub bytes_eq : List ℕ → List ℕ → Bool
bytes_eq [] [] = true
bytes_eq [] (y ∷ ys) = false
bytes_eq (x ∷ xs) [] = false
bytes_eq (x ∷ xs) (y ∷ ys) = x == y && bytes_eq xs ys

pub data TicketError : Type 0 where
  not_a_ticket truncated bad_utf8 : TicketError

pub data Decoded : Type 0 where
  ok : PairingTicket → Decoded
  err : TicketError → Decoded

-- `String::from_utf8` accepts what `utf8` says.
unfoldable pub decode : (List ℕ → Bool) → List ℕ → Decoded
decode utf8 bytes =
    let rlen = from_le_bytes (slice 76 2 bytes) in
    if not (leb 78 (length bytes) && bytes_eq (slice 0 4 bytes) ticket_magic)
    then err not_a_ticket
    else if not (leb (78 + rlen) (length bytes))
    then err truncated
    else if not (utf8 (slice 78 rlen bytes))
    then err bad_utf8
    else ok (record {
      identity_pubkey = slice 4 32 bytes;
      seed = slice 36 32 bytes;
      relay = slice 78 rlen bytes;
      expiry_unix = from_le_bytes (slice 68 8 bytes);
    })

unfoldable pub is_expired : PairingTicket → ℕ → Bool
is_expired t now = ltb t.expiry_unix now

-- The lexicographic order of byte arrays.
unfoldable pub lex_lt : List ℕ → List ℕ → Bool
lex_lt xs [] = false
lex_lt [] (y ∷ ys) = true
lex_lt (x ∷ xs) (y ∷ ys) = ltb x y || (x == y && lex_lt xs ys)

-- `[a, b].sort()`, joined.
unfoldable pub sorted_keys : List ℕ → List ℕ → List ℕ
unfolding lex_lt
sorted_keys a b = if lex_lt b a then b ++ a else a ++ b

-- The bytes of "rmd-pairing-v1".
abbrev pub pair_tag : List ℕ
pair_tag = 114 ∷ 109 ∷ 100 ∷ 45 ∷ 112 ∷ 97 ∷ 105 ∷ 114 ∷ 105 ∷ 110 ∷ 103 ∷ 45 ∷ 118 ∷ 49 ∷ []

-- HKDF-SHA256 of salt, key material and info, at an output length.
abbrev pub Hkdf : Type 0
Hkdf = List ℕ → List ℕ → List ℕ → ℕ → List ℕ

unfoldable pub kdf : Hkdf → List ℕ → List ℕ → List ℕ → List ℕ
unfolding sorted_keys
kdf hkdf ikm a b = hkdf pair_tag ikm (sorted_keys a b) 32

unfoldable pub derive_key_from_seed : Hkdf → List ℕ → List ℕ → List ℕ → List ℕ
unfolding kdf
derive_key_from_seed hkdf seed a b = kdf hkdf seed a b

pub data Label : Type 0 where
  initiator responder : Label

-- Ours, then the peer's.
unfoldable pub role_labels : List ℕ → List ℕ → Label × Label
unfolding lex_lt
role_labels ours peers =
    if lex_lt ours peers then (initiator, responder) else (responder, initiator)

-- `CODE_ALPHABET`: abcdefghjkmnpqrstvwxyz23456789.
abbrev pub code_alphabet : List ℕ
code_alphabet =
    97 ∷ 98 ∷ 99 ∷ 100 ∷ 101 ∷ 102 ∷ 103 ∷ 104 ∷ 106 ∷ 107 ∷ 109 ∷ 110 ∷ 112 ∷ 113 ∷ 114 ∷ 115 ∷ 116
    ∷ 118 ∷ 119 ∷ 120 ∷ 121 ∷ 122 ∷ 50 ∷ 51 ∷ 52 ∷ 53 ∷ 54 ∷ 55 ∷ 56 ∷ 57 ∷ []

abbrev pub get_or : List ℕ → ℕ → ℕ
get_or xs i = elim (drop i xs) [ [] ↦ 0 | x ∷ rest ↦ x ]

-- The decimal digits of a number, as `format!` prints them, for numbers of up to `fuel` digits.
unfoldable pub decimal : ℕ → ℕ → List ℕ
decimal zero n = []
decimal (suc fuel) n =
    let high = decimal fuel (n / 10) in
    if ltb n 10 then (48 + n) ∷ [] else high ++ (48 + n % 10) ∷ []

-- From two random bytes for the channel and the rest for the secret.
unfoldable pub generate_pairing_code : ℕ → ℕ → List ℕ → List ℕ
unfolding decimal
generate_pairing_code r0 r1 raw =
    let channel = bit_or (r0 * 2 ^ 8) r1 % 1000 in
    decimal 3 channel ++ 45 ∷ map (λ b. get_or code_alphabet (b % length code_alphabet)) raw

-- `char::is_whitespace`.
unfoldable pub is_whitespace : ℕ → Bool
is_whitespace c =
    (leb 9 c && leb c 13)
    || (c == 32
        || (c == 133
            || (c == 160
                || (c == 5760
                    || ((leb 8192 c && leb c 8202)
                        || (c == 8232
                            || (c == 8233 || (c == 8239 || (c == 8287 || c == 12288)))))))))

unfoldable pub trim_start : List ℕ → List ℕ
unfolding is_whitespace
trim_start [] = []
trim_start (c ∷ cs) = if is_whitespace c then trim_start cs else c ∷ cs

unfoldable pub trim_end : List ℕ → List ℕ
unfolding is_whitespace
trim_end [] = []
trim_end (c ∷ cs) = elim (trim_end cs) [
  | [] ↦ if is_whitespace c then [] else c ∷ []
  | d ∷ ds ↦ c ∷ d ∷ ds
]

-- `split_once('-')`.
unfoldable pub split_once : List ℕ → Option (List ℕ × List ℕ)
split_once [] = none
split_once (c ∷ cs) =
    if c == 45
    then some ([], cs)
    else elim (split_once cs) [ none ↦ none | some (a, b) ↦ some (c ∷ a, b) ]

pub data CodeError : Type 0 where
  no_dash empty_part : CodeError

pub data Split : Type 0 where
  parts : List ℕ → List ℕ → Split
  bad : CodeError → Split

abbrev is_empty : List ℕ → Bool
is_empty [] = true
is_empty (c ∷ cs) = false

unfoldable pub split_code : List ℕ → Split
unfolding trim_start trim_end split_once
split_code code = elim (split_once (trim_end (trim_start code))) [
  | none ↦ bad no_dash
  | some (channel, secret) ↦
      if not (not (is_empty channel) && not (is_empty secret))
      then bad empty_part
      else parts channel secret
]
