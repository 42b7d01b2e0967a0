-- ===== src/Tests/Identity.antt =====
-- The key at rest and the known peers of crates/session/src/identity.rs. The cipher here puts 16 zeros before the
-- text.
use reachmydevice.Prelude.{ℕ, ◌≡◌, refl, true, none, some, [], ◌∷◌, ◌++◌, arith, replicate, drop}
use reachmydevice.Session.Identity.KeyFile.{
  Cipher, Sources, Random, Machine, load_or_create, save, resolve_wrap_passphrase,
  explicit_passphrase, get_or_create, read_entry,
}
use reachmydevice.Session.Identity.KeyFile.Stable.{IsRandom, load_or_create-load_or_create}
use reachmydevice.Session.Identity.KnownPeers.{whole, cut}
use reachmydevice.Session.Identity.KnownPeers.Pinned.{Call, entry}

abbrev cipher : Cipher
cipher = record {
  derive_wrap_key = λ passphrase salt. [];
  encrypt = λ key nonce text. replicate 16 0 ++ text;
  decrypt = λ key nonce text. some (drop 16 text);
  decrypt-encrypt = λ key nonce text. refl;
  length-encrypt = λ key nonce text. omega arith;
}

-- Neither the environment nor `key.env` has a passphrase, so that the keyring makes one.
abbrev sources : Sources
sources = record { env = none; key_env = none }

abbrev new_machine : Machine
new_machine = record {
  file = none;
  keyring = record { available = true; entry = none; accepts = true; keeps = true };
}

abbrev random : ℕ → Random
random n = record {
  seed = replicate 32 n;
  salt = replicate 16 n;
  nonce = replicate 24 n;
  passphrase = 97 ∷ n ∷ [];
}

first_random : IsRandom (random 3)
first_random = record {
  seed_size = refl;
  seed_bytes = ground arith;
  salt_size = refl;
  nonce_size = refl;
  passphrase_size = omega arith;
}

created : (load_or_create cipher sources (random 3) new_machine true).1 ≡ some (replicate 32 3)
unfolding load_or_create save resolve_wrap_passphrase explicit_passphrase get_or_create read_entry
created = refl

load_or_create-load_or_create_example :
    load_or_create cipher sources
      (random 4)
      (load_or_create cipher sources (random 3) new_machine true).0
      true
    ≡ load_or_create cipher sources (random 3) new_machine true
load_or_create-load_or_create_example =
    load_or_create-load_or_create cipher sources (random 3) (random 4) first_random true new_machine
      (replicate 32 3) true created

-- The peer "a" with the keys "1" and "2", and the peer "b".
abbrev first_call : Call
first_call = record { os = whole; device_id = 97 ∷ []; public_key_hex = 49 ∷ [] }

abbrev second_call : Call
second_call = record { os = cut 2; device_id = 98 ∷ []; public_key_hex = 50 ∷ [] }

abbrev swapped_call : Call
swapped_call = record { os = whole; device_id = 97 ∷ []; public_key_hex = 50 ∷ [] }
