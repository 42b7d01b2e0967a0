-- ===== src/Session/Identity.antt =====
-- crates/session/src/identity.rs: what a device signs, and how a signature is checked. SHA-256 and
-- Ed25519 are parameters. Byte strings and device ids (their characters) are lists.
pub mod Proof
pub mod Sdp
pub mod KeyFile
pub mod KnownPeers
use reachmydevice.Prelude.{
  ℕ, ◌+◌, ◌/◌, ◌%◌, ◌^◌, Bool, true, false, not, List, [], ◌∷◌, ◌++◌, ltb, ◌==◌, if◌then◌else◌,
  length, take,
}
use reachmydevice.Prelude.Bytes.{to_le_bytes}

-- "rmd-access-proof-v2".
abbrev pub auth_proof_tag : List ℕ
auth_proof_tag =
    114 ∷ 109 ∷ 100 ∷ 45 ∷ 97 ∷ 99 ∷ 99 ∷ 101 ∷ 115 ∷ 115 ∷ 45 ∷ 112 ∷ 114 ∷ 111 ∷ 111 ∷ 102 ∷ 45
    ∷ 118 ∷ 50 ∷ []

-- "rmd-token-refresh-v1".
abbrev pub token_refresh_tag : List ℕ
token_refresh_tag =
    114 ∷ 109 ∷ 100 ∷ 45 ∷ 116 ∷ 111 ∷ 107 ∷ 101 ∷ 110 ∷ 45 ∷ 114 ∷ 101 ∷ 102 ∷ 114 ∷ 101 ∷ 115
    ∷ 104 ∷ 45 ∷ 118 ∷ 49 ∷ []

unfoldable pub access_proof_message : List ℕ → List ℕ → List ℕ
access_proof_message public_key binding = auth_proof_tag ++ (public_key ++ (0 ∷ [] ++ binding))

abbrev reverse_onto : List ℕ → List ℕ → List ℕ
reverse_onto [] done = done
reverse_onto (b ∷ bs) done = reverse_onto bs (b ∷ done)

-- `i64::to_be_bytes`, of the 64 bits of the number (two's complement).
unfoldable pub to_be_bytes : ℕ → List ℕ
to_be_bytes n = reverse_onto (to_le_bytes 8 n) []

unfoldable pub token_refresh_message : List ℕ → ℕ → List ℕ
unfolding to_be_bytes
token_refresh_message public_key timestamp =
    token_refresh_tag ++ (public_key ++ to_be_bytes timestamp)

abbrev pub hex_digit : ℕ → ℕ
hex_digit n = if ltb n 10 then 48 + n else 87 + n

-- `hex::encode`.
unfoldable pub hex_encode : List ℕ → List ℕ
hex_encode [] = []
hex_encode (b ∷ bs) = hex_digit (b / 16) ∷ hex_digit (b % 16) ∷ hex_encode bs

pub data ProofError : Type 0 where
  key_size bad_key signature_size signature_invalid : ProofError

pub data Verified : Type 0 where
  device : List ℕ → Verified
  rejected : ProofError → Verified

-- The third-party functions: SHA-256, `VerifyingKey::from_bytes` and `verify`.
pub record Crypto : Type 0 where
  pub sha256 : List ℕ → List ℕ
  pub is_key : List ℕ → Bool
  pub verify : List ℕ → List ℕ → List ℕ → Bool  -- key, message, signature

unfoldable pub device_id_from_public_key : Crypto → List ℕ → List ℕ
unfolding hex_encode
device_id_from_public_key k public_key = take 32 (hex_encode (k.sha256 public_key))

unfoldable pub verify_access_proof : Crypto → List ℕ → List ℕ → List ℕ → Verified
unfolding access_proof_message device_id_from_public_key
verify_access_proof k public_key signature binding =
    if not (length public_key == 32)
    then rejected key_size
    else if not (k.is_key public_key)
    then rejected bad_key
    else if not (length signature == 64)
    then rejected signature_size
    else if not (k.verify public_key (access_proof_message public_key binding) signature)
    then rejected signature_invalid
    else device (device_id_from_public_key k public_key)

-- `DeviceIdentity`, as its public key and what it signs.
pub record DeviceIdentity : Type 0 where
  pub public_key_bytes : List ℕ
  pub sign : List ℕ → List ℕ

unfoldable pub access_proof : DeviceIdentity → List ℕ → List ℕ
unfolding access_proof_message
access_proof id binding = id.sign (access_proof_message id.public_key_bytes binding)
