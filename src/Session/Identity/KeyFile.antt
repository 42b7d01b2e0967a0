-- ===== src/Session/Identity/KeyFile.antt =====
-- crates/session/src/identity.rs: the identity key at rest. Texts are lists of characters, a file a list of
-- bytes; a plaintext key file is read as ASCII. Argon2 (with the encoding of a passphrase) and
-- XChaCha20-Poly1305 are parameters, and random values arguments. Whether the keyring is there, accepts a
-- value and keeps it are part of its state.
pub mod Hex
pub mod Stable
use reachmydevice.Prelude.{
  ℕ, zero, suc, ◌+◌, ◌-◌, ◌*◌, ◌≡◌, Bool, true, false, not, ◌&&◌, ◌||◌, Option, none, some, List,
  [], ◌∷◌, ◌++◌, leb, ltb, ◌==◌, if◌then◌else◌, length, take, drop,
}
use reachmydevice.Session.Pairing.{trim_start, bytes_eq}
use reachmydevice.Session.Identity.{hex_encode}
use reachmydevice.Session.Identity.Sdp.{lines_from, strip_prefix, trim}

-- "RMD_KEY_PASSPHRASE".
abbrev pub key_passphrase_env : List ℕ
key_passphrase_env =
    82 ∷ 77 ∷ 68 ∷ 95 ∷ 75 ∷ 69 ∷ 89 ∷ 95 ∷ 80 ∷ 65 ∷ 83 ∷ 83 ∷ 80 ∷ 72 ∷ 82 ∷ 65 ∷ 83 ∷ 69 ∷ []

-- "ORK1".
abbrev pub wrap_magic : List ℕ
wrap_magic = 79 ∷ 82 ∷ 75 ∷ 49 ∷ []

abbrev pub wrap_salt_len : ℕ
wrap_salt_len = 16

abbrev pub wrap_nonce_len : ℕ
wrap_nonce_len = 24

abbrev pub is_empty : List ℕ → Bool
is_empty [] = true
is_empty (x ∷ xs) = false

abbrev starts_with : ℕ → List ℕ → Bool
starts_with c [] = false
starts_with c (d ∷ ds) = d == c

abbrev ends_with : ℕ → List ℕ → Bool
ends_with c [] = false
ends_with c (d ∷ []) = d == c
ends_with c (d ∷ e ∷ es) = ends_with c (e ∷ es)

-- `strip_prefix("export ")` with the blanks behind it, or the line.
unfoldable pub strip_export : List ℕ → List ℕ
unfolding strip_prefix
strip_export line = elim (strip_prefix (101 ∷ 120 ∷ 112 ∷ 111 ∷ 114 ∷ 116 ∷ 32 ∷ []) line) [
  | none ↦ line
  | some rest ↦ trim_start rest
]

quoted_by : ℕ → List ℕ → Bool
quoted_by q val = starts_with q val && (ends_with q val && leb 2 (length val))

unfoldable pub unquote : List ℕ → List ℕ
unfolding quoted_by
unquote val =
    if quoted_by 34 val || quoted_by 39 val then take (length val - 2) (drop 1 val) else trim val

abbrev non_empty : List ℕ → Option (List ℕ)
non_empty [] = none
non_empty (c ∷ cs) = some (c ∷ cs)

unfoldable pub key_env_value : List ℕ → Option (List ℕ)
unfolding strip_prefix unquote
key_env_value line = elim (strip_prefix key_passphrase_env line) [
  | none ↦ none
  | some rest ↦ elim (strip_prefix (61 ∷ []) rest) [
    | none ↦ none
    | some val ↦ non_empty (unquote val)
  ]
]

unfoldable pub parse_key_env_line : List ℕ → Option (List ℕ)
unfolding strip_export key_env_value
parse_key_env_line line =
    let line = trim line in
    if is_empty line || starts_with 35 line then none else key_env_value (strip_export line)

unfoldable pub find_passphrase : List (List ℕ) → Option (List ℕ)
unfolding parse_key_env_line
find_passphrase [] = none
find_passphrase (line ∷ lines) = elim (parse_key_env_line line) [
  | none ↦ find_passphrase lines
  | some p ↦ some p
]

-- The environment variable, and the text of `key.env` next to the key.
pub record Sources : Type 0 where
  pub env : Option (List ℕ)
  pub key_env : Option (List ℕ)

abbrev key_env_passphrase : Option (List ℕ) → Option (List ℕ)
key_env_passphrase none = none
key_env_passphrase (some content) = find_passphrase (lines_from [] content)

unfoldable pub explicit_passphrase : Sources → Option (List ℕ)
unfolding find_passphrase
explicit_passphrase s = elim s.env [
  | none ↦ key_env_passphrase s.key_env
  | some v ↦ if is_empty v then key_env_passphrase s.key_env else some v
]

pub record Keyring : Type 0 where
  pub available : Bool
  pub entry : Option (List ℕ)
  pub accepts : Bool
  pub keeps : Bool

-- An empty entry counts as none.
unfoldable pub read_entry : Option (List ℕ) → Option (List ℕ)
read_entry none = none
read_entry (some p) = non_empty p

abbrev pub store_fresh : Keyring → List ℕ → Keyring
store_fresh k fresh = if k.keeps then record k { entry = some fresh } else k

-- The passphrase of the keyring, made from `fresh` at the first use, and the keyring after the call.
unfoldable pub get_or_create : Keyring → List ℕ → Keyring × Option (List ℕ)
unfolding read_entry
get_or_create k fresh = if not k.available then (k, none) else elim (read_entry k.entry) [
  | some p ↦ (k, some p)
  | none ↦
      if not k.accepts
      then (k, none)
      else (store_fresh k fresh, read_entry (store_fresh k fresh).entry)
]

unfoldable pub resolve_wrap_passphrase : Sources → Keyring → List ℕ → Keyring × Option (List ℕ)
unfolding explicit_passphrase get_or_create
resolve_wrap_passphrase s k fresh = elim (explicit_passphrase s) [
  | some p ↦ (k, some p)
  | none ↦ get_or_create k fresh
]

unfoldable pub resolve_unwrap_passphrase : Sources → Keyring → Option (List ℕ)
unfolding explicit_passphrase read_entry
resolve_unwrap_passphrase s k = elim (explicit_passphrase s) [
  | some p ↦ some p
  | none ↦ if k.available then read_entry k.entry else none
]

-- `derive_wrap_key`, `encrypt` and `decrypt`: what was encrypted is decrypted by the same key and nonce, and is
-- 16 bytes longer.
pub record Cipher : Type 0 where
  pub derive_wrap_key : List ℕ → List ℕ → List ℕ  -- passphrase, salt
  pub encrypt : List ℕ → List ℕ → List ℕ → List ℕ  -- key, nonce, text
  pub decrypt : List ℕ → List ℕ → List ℕ → Option (List ℕ)
  pub decrypt-encrypt :
      (key nonce text : List ℕ) → decrypt key nonce (encrypt key nonce text) ≡ some text
  pub length-encrypt :
      (key nonce text : List ℕ) → length (encrypt key nonce text) ≡ length text + 16

abbrev pub seed_of : Option (List ℕ) → Option (List ℕ)
seed_of none = none
seed_of (some text) = if length text == 32 then some text else none

-- `wrap_seed`, at a random salt and nonce.
unfoldable pub wrap_seed : Cipher → List ℕ → List ℕ → List ℕ → List ℕ → List ℕ
wrap_seed c salt nonce seed passphrase =
    wrap_magic ++ (salt ++ (nonce ++ c.encrypt (c.derive_wrap_key passphrase salt) nonce seed))

unfoldable pub unwrap_seed : Cipher → List ℕ → List ℕ → Option (List ℕ)
unwrap_seed c blob passphrase =
    let header : ℕ = 4 + wrap_salt_len + wrap_nonce_len in
    let salt = take wrap_salt_len (drop 4 blob) in
    let nonce = take wrap_nonce_len (drop (4 + wrap_salt_len) blob) in
    if not (ltb header (length blob) && bytes_eq (take 4 blob) wrap_magic)
    then none
    else seed_of (c.decrypt (c.derive_wrap_key passphrase salt) nonce (drop header blob))

-- `hex::decode`.
unfoldable pub hex_value : ℕ → Option ℕ
hex_value c =
    if leb 48 c && leb c 57
    then some (c - 48)
    else if leb 97 c && leb c 102
    then some (c - 87)
    else if leb 65 c && leb c 70
    then some (c - 55)
    else none

abbrev pub byte_of : Option ℕ → Option ℕ → Option (List ℕ) → Option (List ℕ)
byte_of (some h) (some l) (some rest) = some ((h * 16 + l) ∷ rest)
byte_of h l rest = none

unfoldable pub hex_decode : List ℕ → Option (List ℕ)
unfolding hex_value
hex_decode [] = some []
hex_decode (c ∷ []) = none
hex_decode (c ∷ d ∷ cs) = byte_of (hex_value c) (hex_value d) (hex_decode cs)

-- The random values of one call: a seed, a salt, a nonce, and a passphrase for the keyring.
pub record Random : Type 0 where
  pub seed : List ℕ
  pub salt : List ℕ
  pub nonce : List ℕ
  pub passphrase : List ℕ

-- The key's file, if there is one, and the keyring.
pub record Machine : Type 0 where
  pub file : Option (List ℕ)
  pub keyring : Keyring

module _ (c : Cipher) (s : Sources) (r : Random) where
  -- `save_with`: the new file's bytes.
  unfoldable pub saved : List ℕ → Option (List ℕ) → List ℕ
  unfolding wrap_seed
  saved seed none = hex_encode seed
  saved seed (some passphrase) = wrap_seed c r.salt r.nonce seed passphrase

  -- `atomic_write_secret` succeeds or leaves the old file.
  unfoldable pub save : Machine → List ℕ → Bool → Machine × Bool
  unfolding resolve_wrap_passphrase saved
  save m seed write_ok =
      let (keyring, passphrase) = resolve_wrap_passphrase s m.keyring r.passphrase in
      if write_ok
      then (record { file = some (saved seed passphrase); keyring = keyring }, true)
      else (record m { keyring = keyring }, false)

  abbrev pub upgraded :
      Machine → List ℕ → Bool → Keyring × Option (List ℕ) → Machine × Option (List ℕ)
  upgraded m seed write_ok (keyring, none) = (record m { keyring = keyring }, some seed)
  upgraded m seed write_ok (keyring, some passphrase) =
      if write_ok
      then (
        record { file = some (wrap_seed c r.salt r.nonce seed passphrase); keyring = keyring },
        some seed,
      )
      else (record m { keyring = keyring }, none)

  unfoldable pub load_plaintext : Machine → Bool → Option (List ℕ) → Machine × Option (List ℕ)
  unfolding resolve_wrap_passphrase wrap_seed
  load_plaintext m write_ok none = (m, none)
  load_plaintext m write_ok (some seed) =
      upgraded m seed write_ok (resolve_wrap_passphrase s m.keyring r.passphrase)

  abbrev pub unwrapped : List ℕ → Option (List ℕ) → Option (List ℕ)
  unwrapped blob none = none
  unwrapped blob (some passphrase) = unwrap_seed c blob passphrase

  -- The loaded seed, or an error, and the machine after the call.
  unfoldable pub load_or_create : Machine → Bool → Machine × Option (List ℕ)
  unfolding save load_plaintext resolve_unwrap_passphrase unwrap_seed hex_decode
  load_or_create m write_ok = elim m.file [
    | none ↦ let (m', ok) = save m r.seed write_ok in (m', (if ok then some r.seed else none))
    | some bytes ↦
        if bytes_eq (take 4 bytes) wrap_magic
        then (m, unwrapped bytes (resolve_unwrap_passphrase s m.keyring))
        else load_plaintext m write_ok (seed_of (hex_decode (trim bytes)))
  ]
