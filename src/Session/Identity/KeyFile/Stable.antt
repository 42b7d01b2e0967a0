-- ===== src/Session/Identity/KeyFile/Stable.antt =====
-- The key at rest is read back: crates/session/src/identity.rs, `wrap_seed`, `unwrap_seed` and
-- `load_or_create` on the file of an earlier call.
use reachmydevice.Prelude.{
  ℕ, ◌≤◌, ◌≡◌, refl, sym, ap, ◌∙◌, Bool, true, false, Option, none, some, List, ◌++◌, arith, length,
  take, All, length-append, drop-append, take-append, inl, inr, Bool-cases, Option-cases,
}
use reachmydevice.Session.Pairing.{bytes_eq}
use reachmydevice.Session.Identity.Sdp.{trim}
use reachmydevice.Session.Identity.{hex_encode}
use reachmydevice.Session.Identity.KeyFile.{
  Cipher, Sources, Keyring, Random, Machine, wrap_salt_len, wrap_nonce_len, wrap_seed, unwrap_seed,
  resolve_wrap_passphrase, resolve_unwrap_passphrase, get_or_create, read_entry, hex_decode,
  unwrapped, upgraded, seed_of, wrap_magic, load_or_create, save, saved, load_plaintext,
}
use reachmydevice.Session.Identity.KeyFile.Hex.{
  IsByte, hex_decode-hex_encode, trim-hex_encode, hex_encode_plain,
}

-- What was wrapped under a passphrase is unwrapped by it, at any salt and nonce of their sizes.
pub unwrap_seed-wrap_seed :
    (c : Cipher) (salt nonce seed passphrase : List ℕ)
    → length salt ≡ wrap_salt_len
    → length nonce ≡ wrap_nonce_len
    → length seed ≡ 32
    → unwrap_seed c (wrap_seed c salt nonce seed passphrase) passphrase ≡ some seed
unfolding wrap_seed unwrap_seed
unwrap_seed-wrap_seed c salt nonce seed p a b d =
    let text = c.encrypt (c.derive_wrap_key p salt) nonce seed in
    rw
      (
        take-append 16 salt (nonce ++ text) a,
        drop-append 16 16 0 salt (nonce ++ text) a refl,
        drop-append 40 16 24 salt (nonce ++ text) a refl,
        take-append 24 nonce text b,
        drop-append 24 24 0 nonce text b refl,
        c.decrypt-encrypt (c.derive_wrap_key p salt) nonce seed,
        length-append salt (nonce ++ text),
        length-append nonce text,
        c.length-encrypt (c.derive_wrap_key p salt) nonce seed,
        a,
        b,
        d,
      )
      refl

resolve_again :
    (s : Sources) (k k' : Keyring) (fresh p : List ℕ)
    → 1 ≤ length fresh
    → resolve_wrap_passphrase s k fresh ≡ (k', some p)
    → resolve_unwrap_passphrase s k' ≡ some p
unfolding resolve_wrap_passphrase resolve_unwrap_passphrase get_or_create read_entry
resolve_again s k k' fresh p h e = ground arith

resolve_none :
    (s : Sources) (k k' : Keyring) (fresh fresh' : List ℕ)
    → 1 ≤ length fresh
    → resolve_wrap_passphrase s k fresh ≡ (k', none)
    → resolve_wrap_passphrase s k' fresh' ≡ (k', none)
unfolding resolve_wrap_passphrase get_or_create read_entry
resolve_none s k k' fresh fresh' h e = ground arith

-- The random values have their sizes, and the passphrase of the keyring is not empty.
pub record IsRandom (r : Random) : Type 0 where
  pub seed_size : length r.seed ≡ 32
  pub seed_bytes : All IsByte r.seed
  pub salt_size : length r.salt ≡ wrap_salt_len
  pub nonce_size : length r.nonce ≡ wrap_nonce_len
  pub passphrase_size : 1 ≤ length r.passphrase

module _ (c : Cipher) (s : Sources) (r : Random) (ok : Bool) where
  wrapped_again :
      (m : Machine) (blob seed p : List ℕ)
      → bytes_eq (take 4 blob) wrap_magic ≡ true
      → unwrap_seed c blob p ≡ some seed
      → m.file ≡ some blob
      → resolve_unwrap_passphrase s m.keyring ≡ some p
      → load_or_create c s r m ok ≡ (m, some seed)
  unfolding load_or_create
  wrapped_again m blob seed p a b e f = rw (e, a, f, b) refl

  plain_again :
      (m : Machine) (text seed : List ℕ)
      → bytes_eq (take 4 text) wrap_magic ≡ false
      → seed_of (hex_decode (trim text)) ≡ some seed
      → m.file ≡ some text
      → resolve_wrap_passphrase s m.keyring r.passphrase ≡ (m.keyring, none)
      → load_or_create c s r m ok ≡ (m, some seed)
  unfolding load_or_create load_plaintext
  plain_again m text seed a b e f = rw (e, a, b, f) refl

-- A call, by the file it finds.
module _ (c : Cipher) (s : Sources) (r : Random) (m : Machine) where
  load_absent :
      m.file ≡ none
      → load_or_create c s r m true ≡ (
        record {
          file = some (saved c s r r.seed (resolve_wrap_passphrase s m.keyring r.passphrase).1);
          keyring = (resolve_wrap_passphrase s m.keyring r.passphrase).0;
        },
        some r.seed,
      )
  unfolding load_or_create save
  load_absent e = rw e refl

  load_refused : m.file ≡ none → (load_or_create c s r m false).1 ≡ none
  unfolding load_or_create save
  load_refused e = rw e refl

  load_wrapped :
      (text : List ℕ) (written : Bool)
      → m.file ≡ some text
      → bytes_eq (take 4 text) wrap_magic ≡ true
      → load_or_create c s r m written
        ≡ (m, unwrapped c s r text (resolve_unwrap_passphrase s m.keyring))
  unfolding load_or_create
  load_wrapped text written e a = rw (e, a) refl

  load_plain :
      (text : List ℕ) (written : Bool)
      → m.file ≡ some text
      → bytes_eq (take 4 text) wrap_magic ≡ false
      → load_or_create c s r m written
        ≡ load_plaintext c s r m written (seed_of (hex_decode (trim text)))
  unfolding load_or_create
  load_plain text written e a = rw (e, a) refl

module _ (c : Cipher) (s : Sources) (r r' : Random) (w : IsRandom r) (ok : Bool) where
  saved_again :
      (k k' : Keyring) (o : Option (List ℕ))
      → resolve_wrap_passphrase s k r.passphrase ≡ (k', o)
      → load_or_create c s r' (record { file = some (saved c s r r.seed o); keyring = k' }) ok
        ≡ (record { file = some (saved c s r r.seed o); keyring = k' }, some r.seed)
  unfolding saved wrap_seed
  saved_again k k' none e =
      plain_again c s r' ok (record { file = some (hex_encode r.seed); keyring = k' })
        (hex_encode r.seed) r.seed (hex_encode_plain r.seed (omega (arith, w.seed_size)))
        (rw
          (
            trim-hex_encode r.seed w.seed_bytes,
            hex_decode-hex_encode r.seed w.seed_bytes,
            w.seed_size,
          )
          refl)
        refl (resolve_none s k k' r.passphrase r'.passphrase w.passphrase_size e)
  saved_again k k' (some p) e =
      wrapped_again c s r' ok
        (record { file = some (wrap_seed c r.salt r.nonce r.seed p); keyring = k' })
        (wrap_seed c r.salt r.nonce r.seed p) r.seed p refl
        (unwrap_seed-wrap_seed c r.salt r.nonce r.seed p w.salt_size w.nonce_size w.seed_size) refl
        (resolve_again s k k' r.passphrase p w.passphrase_size e)

  upgraded_again :
      (m : Machine) (text seed loaded : List ℕ) (written : Bool) (k' : Keyring)
      (o : Option (List ℕ))
      → m.file ≡ some text
      → bytes_eq (take 4 text) wrap_magic ≡ false
      → seed_of (hex_decode (trim text)) ≡ some seed
      → length seed ≡ 32
      → resolve_wrap_passphrase s m.keyring r.passphrase ≡ (k', o)
      → (upgraded c s r m seed written (k', o)).1 ≡ some loaded
      → load_or_create c s r' (upgraded c s r m seed written (k', o)).0 ok
        ≡ upgraded c s r m seed written (k', o)
  unfolding wrap_seed
  upgraded_again m text seed loaded written k' none f a b l e g =
      plain_again c s r' ok (record m { keyring = k' }) text seed a b f
        (resolve_none s m.keyring k' r.passphrase r'.passphrase w.passphrase_size e)
  upgraded_again m text seed loaded false k' (some p) f a b l e g = absurd (cc)
  upgraded_again m text seed loaded true k' (some p) f a b l e g =
      wrapped_again c s r' ok
        (record { file = some (wrap_seed c r.salt r.nonce seed p); keyring = k' })
        (wrap_seed c r.salt r.nonce seed p) seed p refl
        (unwrap_seed-wrap_seed c r.salt r.nonce seed p w.salt_size w.nonce_size l) refl
        (resolve_again s m.keyring k' r.passphrase p w.passphrase_size e)

  seed_of_size : (o : Option (List ℕ)) (seed : List ℕ) → seed_of o ≡ some seed → length seed ≡ 32
  seed_of_size o seed e = ground arith

  plaintext_again :
      (m : Machine) (text loaded : List ℕ) (written : Bool) (o : Option (List ℕ))
      → m.file ≡ some text
      → bytes_eq (take 4 text) wrap_magic ≡ false
      → seed_of (hex_decode (trim text)) ≡ o
      → (load_plaintext c s r m written o).1 ≡ some loaded
      → load_or_create c s r' (load_plaintext c s r m written o).0 ok
        ≡ load_plaintext c s r m written o
  unfolding load_plaintext
  plaintext_again m text loaded written none f a b g = absurd (cc)
  plaintext_again m text loaded written (some seed) f a b g =
      let x = resolve_wrap_passphrase s m.keyring r.passphrase in
      upgraded_again m text seed loaded written x.0 x.1 f a b
        (seed_of_size (hex_decode (trim text)) seed b) refl g

  found_again :
      (m : Machine) (seed text : List ℕ) (written : Bool)
      → m.file ≡ some text
      → (load_or_create c s r m written).1 ≡ some seed
      → load_or_create c s r' (load_or_create c s r m written).0 ok ≡ load_or_create c s r m written
  found_again m seed text written f h = elim (Bool-cases (bytes_eq (take 4 text) wrap_magic)) [
    | inl a ↦ rw (load_wrapped c s r m text written f a) (load_wrapped c s r' m text ok f a)
    | inr a ↦
        let e = load_plain c s r m text written f a in
        rw e (
          plaintext_again m text seed written (seed_of (hex_decode (trim text))) f a refl
            (sym (ap (λ x. x.1) e) ∙ h))
  ]

  -- After a call that loaded or created the key, a later call, with any other random values, returns the
  -- same seed and changes neither the file nor the keyring.
  pub load_or_create-load_or_create :
      (m : Machine) (seed : List ℕ) (written : Bool)
      → (load_or_create c s r m written).1 ≡ some seed
      → load_or_create c s r' (load_or_create c s r m written).0 ok ≡ load_or_create c s r m written
  load_or_create-load_or_create m seed written h = elim (Option-cases m.file) [
    | inl e ↦ elim (Bool-cases written) [
      | inl t ↦
          let x = resolve_wrap_passphrase s m.keyring r.passphrase in
          rw (t, load_absent c s r m e) (saved_again m.keyring x.0 x.1 refl)
      | inr f ↦ absurd (let g = load_refused c s r m e in cc)
    ]
    | inr (text, e) ↦ found_again m seed text written e h
  ]
