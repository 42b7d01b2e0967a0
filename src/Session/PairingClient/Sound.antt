-- ===== src/Session/PairingClient/Sound.antt =====
-- What a successful pairing proves, whatever the relay and the room deliver.
use reachmydevice.Prelude.{
  ℕ, ◌≡◌, ◌≢◌, inl, inr, refl, ap, sym, subst, true, some, List, arith, length, All, Option-cases,
}
use reachmydevice.Session.Constant.{tags_equal, tags_equal_iff}
use reachmydevice.Session.Identity.{Crypto, device_id_from_public_key}
use reachmydevice.Session.Identity.KeyFile.{hex_decode}
use reachmydevice.Session.Identity.KeyFile.Hex.{IsByte}
use reachmydevice.Session.Pairing.{
  Hkdf, Label, initiator, responder, role_labels, Split, parts, bad, split_code,
}
use reachmydevice.Session.PairingClient.{
  hello, confirm, Frame, payload, PairedPeer, pake_failed, Outcome, good, fails, Pake, confirmation,
  wait_for_peer, recv_hello, recv_confirm, PeerHello, pake_finish, our_tag, expected_peer_tag,
  check_tag, confirm_peer, after_hello, exchange_keys, pair_with, pair_pake,
}
use reachmydevice.Session.PairingClient.Frames.{
  Delivered, Heard, hex_decode-Bytes, labels_differ, recv_confirm_sound, widened, recv_hello_sound,
  wait_for_peer_sound,
}

-- What HKDF promises: bytes, and other ones for the two roles.
pub record Separates (hkdf : Hkdf) : Type 0 where
  pub bytes : (key : List ℕ) (role : Label) → All IsByte (confirmation hkdf key role)
  pub roles : (key : List ℕ) → confirmation hkdf key initiator ≢ confirmation hkdf key responder

module _ (k : Crypto) (hkdf : Hkdf) (pake : Pake) (ours : List ℕ) (our_name : List ℕ)
    (separates : Separates hkdf) where
  -- What stands behind the peer that a pairing gives.
  pub record IsProven (secret random : List ℕ) (fs : List Frame) (peer : PairedPeer) : Type 0 where
    pub message_text : List ℕ
    pub key_text : List ℕ
    pub tag_text : List ℕ
    pub message : List ℕ
    pub key : List ℕ
    pub hello_came : Delivered (payload (some (hello message_text key_text peer.name))) fs
    pub message_decoded : hex_decode message_text ≡ some message
    pub key_decoded : hex_decode key_text ≡ some peer.public_key
    pub key_size : length peer.public_key ≡ 32
    pub agreed :
        pake_finish k hkdf pake ours our_name (pake.start secret random).0 message peer.public_key
        ≡ some key
    pub tag_came : Delivered (payload (some (confirm tag_text))) fs
    pub tag_expected :
        hex_decode tag_text ≡ some (expected_peer_tag k hkdf pake ours our_name key peer.public_key)
    pub not_reflected :
        expected_peer_tag k hkdf pake ours our_name key peer.public_key
        ≢ our_tag k hkdf pake ours our_name key peer.public_key
    pub fingerprint : peer.device_id ≡ device_id_from_public_key k peer.public_key

  tags_differ :
      (key : List ℕ) (roles : Label × Label)
      → roles.0 ≢ roles.1
      → confirmation hkdf key roles.1 ≢ confirmation hkdf key roles.0
  tags_differ key (initiator, initiator) h = absurd (h refl)
  tags_differ key (responder, responder) h = absurd (h refl)
  tags_differ key (initiator, responder) h = λ e. separates.roles key (sym e)
  tags_differ key (responder, initiator) h = λ e. separates.roles key e

  abbrev paired_with : PeerHello → PairedPeer
  paired_with h = record {
    device_id = device_id_from_public_key k h.public_key;
    public_key = h.public_key;
    name = h.name;
  }

  check_tag_sound :
      (h : PeerHello) (key : List ℕ) (tag : Outcome (List ℕ)) (peer : PairedPeer)
      → ((t : List ℕ) → tag ≡ good t → All IsByte t)
      → check_tag k hkdf pake ours our_name h key tag ≡ good peer
      → (tag ≡ good (expected_peer_tag k hkdf pake ours our_name key h.public_key))
        × (paired_with h ≡ peer)
  unfolding check_tag
  check_tag_sound h key (fails e) peer small r = absurd (cc)
  check_tag_sound h key (good tag) peer small r =
      let expected = expected_peer_tag k hkdf pake ours our_name key h.public_key in
      let test : tags_equal tag expected ≡ true = ground (arith, r) in
      let same : tag ≡ expected =
        (tags_equal_iff tag expected (small tag refl)
            (separates.bytes key (role_labels ours h.public_key).1)).0
          test in
      (ap good same, ground (arith, r))

  module _ (secret random : List ℕ) where
    abbrev exchange : pake.Exchange
    exchange = (pake.start secret random).0

    confirmed :
        (fs : List Frame) (h : PeerHello) (key : List ℕ) (peer : PairedPeer)
        → Heard fs h
        → pake_finish k hkdf pake ours our_name exchange h.message h.public_key ≡ some key
        → check_tag k hkdf pake ours our_name h key (recv_confirm h.rest) ≡ good peer
        → IsProven secret random fs peer
    confirmed fs h key peer w agreed r =
        let (is_tag, same) =
          check_tag_sound h key (recv_confirm h.rest) peer
            (λ t e.
              let (text, came, decoded) = recv_confirm_sound h.rest t e in
              hex_decode-Bytes text t decoded)
            r in
        let (text, came, decoded) =
          recv_confirm_sound h.rest (expected_peer_tag k hkdf pake ours our_name key h.public_key)
            is_tag in
        subst (IsProven secret random fs) same (record {
          message_text = w.message_text;
          key_text = w.key_text;
          tag_text = text;
          message = h.message;
          key = key;
          hello_came = w.came;
          message_decoded = w.message_decoded;
          key_decoded = w.key_decoded;
          key_size = w.key_size;
          agreed = agreed;
          tag_came = w.later (payload (some (confirm text))) came;
          tag_expected = decoded;
          not_reflected =
              tags_differ key (role_labels ours h.public_key) (labels_differ ours h.public_key);
          fingerprint = refl;
        })

    from_hello :
        (fs gs : List Frame) (heard : Outcome PeerHello) (peer : PairedPeer)
        → ((f : Frame) → Delivered f gs → Delivered f fs)
        → recv_hello gs ≡ heard
        → (after_hello k hkdf pake ours our_name exchange heard).1 ≡ good peer
        → IsProven secret random fs peer
    unfolding after_hello confirm_peer
    from_hello fs gs (fails e) peer weaker came r = absurd (cc)
    from_hello fs gs (good h) peer weaker came r =
        elim (Option-cases
          (pake_finish k hkdf pake ours our_name exchange h.message h.public_key)) [
            | inl none_e ↦
                let failed : ◌≡◌ {A = Outcome PairedPeer} (fails pake_failed) (good peer) =
                  subst (λ p. (confirm_peer k hkdf pake ours our_name h p).1 ≡ good peer) none_e
                    r in
                absurd (cc)
            | inr (key, some_e) ↦
                confirmed fs h key peer (widened fs gs h weaker (recv_hello_sound gs h came)) some_e
                  (subst (λ p. (confirm_peer k hkdf pake ours our_name h p).1 ≡ good peer) some_e r)
          ]

    from_join :
        (fs : List Frame) (joined : Outcome (List Frame)) (peer : PairedPeer)
        → wait_for_peer fs ≡ joined
        → (exchange_keys k hkdf pake ours our_name secret random joined).1 ≡ good peer
        → IsProven secret random fs peer
    unfolding exchange_keys
    from_join fs (fails e) peer came r = absurd (cc)
    from_join fs (good gs) peer came r =
        from_hello fs gs (recv_hello gs) peer (λ f d. wait_for_peer_sound fs gs f came d) refl r

  from_code :
      (split : Split) (random : List ℕ) (fs : List Frame) (peer : PairedPeer)
      → (pair_with k hkdf pake ours our_name split random fs).1 ≡ good peer
      → (channel : List ℕ) × (secret : List ℕ) × (split ≡ parts channel secret)
        × IsProven secret random fs peer
  unfolding pair_with
  from_code (bad e) random fs peer r = absurd (cc)
  from_code (parts channel secret) random fs peer r =
      (channel, secret, refl, from_join secret random fs (wait_for_peer fs) peer refl r)

  -- A pairing succeeds only with a peer that holds the key, where HKDF gives bytes and other ones for the
  -- two roles: whatever frames the relay and the room deliver,
  -- the result's public key and name came in a Hello, SPAKE2 on that Hello's message and our secret gave a
  -- key, and a tag came that is the confirmation of this key for the peer's role. It is not the tag that we
  -- sent, so that reflecting our own messages is of no use.
  pub pair_pake_sound :
      (code random : List ℕ) (fs : List Frame) (peer : PairedPeer)
      → (pair_pake k hkdf pake ours our_name code random fs).1 ≡ good peer
      → (channel : List ℕ) × (secret : List ℕ) × (split_code code ≡ parts channel secret)
        × IsProven secret random fs peer
  unfolding pair_pake
  pair_pake_sound code random fs peer r = from_code (split_code code) random fs peer r
