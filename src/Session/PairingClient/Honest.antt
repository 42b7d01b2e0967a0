-- ===== src/Session/PairingClient/Honest.antt =====
-- Two honest devices with one code learn each other.
use reachmydevice.Prelude.{
  ℕ, ◌≡◌, ◌≢◌, refl, ap, sym, subst, ◌∙◌, true, some, List, [], ◌∷◌, arith, length, All, map,
}
use reachmydevice.Session.Constant.{tags_equal, tags_equal_iff}
use reachmydevice.Session.Identity.{Crypto, device_id_from_public_key, hex_encode}
use reachmydevice.Session.Identity.KeyFile.Hex.{IsByte, hex_decode-hex_encode}
use reachmydevice.Session.Pairing.{Hkdf, kdf, parts, split_code, derive_key_from_seed}
use reachmydevice.Session.Pairing.Keys.{derive_key_from_seed_comm, role_labels_opposite}
use reachmydevice.Session.PairingClient.{
  PairMsg, confirm, Frame, payload, peer_joined, PairedPeer, good, Pake, confirmation,
  wait_for_peer, recv_hello, recv_confirm, PeerHello, Outcome, pake_finish, our_tag,
  expected_peer_tag, check_tag, confirm_peer, after_hello, our_hello, exchange_keys, pair_with,
  pair_pake,
}

-- A device that pairs: its key and its name.
pub record Party : Type 0 where
  pub key : List ℕ
  pub name : List ℕ

abbrev pub delivered : List PairMsg → List Frame
delivered ms = peer_joined ∷ map (λ m. payload (some m)) ms

module _ (k : Crypto) (hkdf : Hkdf) (pake : Pake) (shared : List ℕ) where
  -- The two messages of a party in a run with the other.
  abbrev pub messages : Party → Party → List ℕ → List PairMsg
  messages a b message =
      our_hello k hkdf pake a.key a.name message
      ∷ confirm (hex_encode (our_tag k hkdf pake a.key a.name (kdf hkdf shared a.key b.key) b.key))
      ∷ []

  abbrev pub peer_of : Party → PairedPeer
  peer_of b = record {
    device_id = device_id_from_public_key k b.key;
    public_key = b.key;
    name = b.name;
  }

  -- What SPAKE2 and HKDF promise of a run of two parties: one shared key, and values that are bytes.
  pub record Agrees (a b : Party) (secret random_a random_b : List ℕ) : Type 0 where
    pub shared_key :
        pake.finish (pake.start secret random_a).0 (pake.start secret random_b).1 ≡ some shared
    pub message_bytes : All IsByte (pake.start secret random_b).1
    pub key_bytes : All IsByte b.key
    pub key_size : length b.key ≡ 32
    pub tag_bytes :
        All IsByte (our_tag k hkdf pake b.key b.name (kdf hkdf shared b.key a.key) a.key)

  module _ (a b : Party) (secret random_a random_b : List ℕ) (differ : a.key ≢ b.key)
      (agrees : Agrees a b secret random_a random_b) where
    same_tag :
        our_tag k hkdf pake b.key b.name (kdf hkdf shared b.key a.key) a.key
        ≡ expected_peer_tag k hkdf pake a.key a.name (kdf hkdf shared a.key b.key) b.key
    unfolding derive_key_from_seed
    same_tag =
        ap (λ key. our_tag k hkdf pake b.key b.name key a.key)
          (derive_key_from_seed_comm hkdf shared b.key a.key)
        ∙ ap (confirmation hkdf (kdf hkdf shared a.key b.key))
            (sym (role_labels_opposite a.key b.key differ).1)

    theirs : PeerHello
    theirs = record {
      message = (pake.start secret random_b).1;
      public_key = b.key;
      name = b.name;
      rest =
          payload (
            some (
              confirm (
                hex_encode (our_tag k hkdf pake b.key b.name (kdf hkdf shared b.key a.key) a.key))))
          ∷ [];
    }

    hears_hello :
        recv_hello (map (λ m. payload (some m)) (messages b a (pake.start secret random_b).1))
        ≡ good theirs
    unfolding recv_hello theirs
    hears_hello =
        rw
          (
            hex_decode-hex_encode b.key agrees.key_bytes,
            agrees.key_size,
            hex_decode-hex_encode (pake.start secret random_b).1 agrees.message_bytes,
          )
          refl

    abbrev tag : List ℕ
    tag = our_tag k hkdf pake b.key b.name (kdf hkdf shared b.key a.key) a.key

    tag_checked :
        tags_equal tag
          (expected_peer_tag k hkdf pake a.key a.name (kdf hkdf shared a.key b.key) b.key)
        ≡ true
    tag_checked =
        subst (λ t. tags_equal tag t ≡ true) same_tag
          ((tags_equal_iff tag tag agrees.tag_bytes agrees.tag_bytes).1 refl)

    confirms : confirm_peer k hkdf pake a.key a.name theirs (some (kdf hkdf shared a.key b.key)) ≡ (
      confirm (hex_encode (our_tag k hkdf pake a.key a.name (kdf hkdf shared a.key b.key) b.key))
          ∷ [],
      good (peer_of b),
    )
    unfolding confirm_peer theirs recv_confirm check_tag
    confirms = rw (hex_decode-hex_encode tag agrees.tag_bytes, tag_checked) refl

    finishes :
        pake_finish k hkdf pake a.key a.name
          (pake.start secret random_a).0
          (pake.start secret random_b).1
          b.key
        ≡ some (kdf hkdf shared a.key b.key)
    unfolding pake_finish
    finishes = ground (arith, agrees.shared_key)

    one_side :
        (channel code : List ℕ)
        → split_code code ≡ parts channel secret
        → pair_pake k hkdf pake a.key a.name code random_a
            (delivered (messages b a (pake.start secret random_b).1))
          ≡ (messages a b (pake.start secret random_a).1, good (peer_of b))
    unfolding pair_pake pair_with exchange_keys wait_for_peer after_hello theirs
    one_side channel code split =
        let step : after_hello k hkdf pake a.key a.name (pake.start secret random_a).0 (
              recv_hello
                (map (λ m. payload (some m)) (messages b a (pake.start secret random_b).1)))
            ≡ (
              confirm (
                    hex_encode
                      (our_tag k hkdf pake a.key a.name (kdf hkdf shared a.key b.key) b.key))
                  ∷ [],
              good (peer_of b),
            ) =
          ap (after_hello k hkdf pake a.key a.name (pake.start secret random_a).0) hears_hello
          ∙ ap (confirm_peer k hkdf pake a.key a.name theirs) finishes
          ∙ confirms in
        ap
          (λ w.
            pair_with k hkdf pake a.key a.name w random_a
              (delivered (messages b a (pake.start secret random_b).1)))
          split
        ∙ ap
            (λ (r : List PairMsg × Outcome PairedPeer).
              (our_hello k hkdf pake a.key a.name (pake.start secret random_a).1 ∷ r.0, r.1))
            step

  -- Two devices of different keys that enter one code pair, where SPAKE2 gives both one shared key and keys,
  -- messages and tags are bytes: each sends its Hello and its tag, which are exactly what the other needs,
  -- and each ends with the other's key, name and device id.
  pub pair_pake_both :
      (a b : Party) (code channel secret random_a random_b : List ℕ)
      → split_code code ≡ parts channel secret
      → a.key ≢ b.key
      → Agrees a b secret random_a random_b
      → Agrees b a secret random_b random_a
      → (pair_pake k hkdf pake a.key a.name code random_a
            (delivered (messages b a (pake.start secret random_b).1))
          ≡ (messages a b (pake.start secret random_a).1, good (peer_of b)))
        × (pair_pake k hkdf pake b.key b.name code random_b
              (delivered (messages a b (pake.start secret random_a).1))
            ≡ (messages b a (pake.start secret random_b).1, good (peer_of a)))
  pair_pake_both a b code channel secret random_a random_b split differ of_a of_b = (
    one_side a b secret random_a random_b differ of_a channel code split,
    one_side b a secret random_b random_a (λ e. differ (sym e)) of_b channel code split,
  )
