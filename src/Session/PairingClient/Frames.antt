-- ===== src/Session/PairingClient/Frames.antt =====
-- What the client's loops over frames return: something that was delivered.
use reachmydevice.Prelude.{
  ℕ, ◌+◌, ◌*◌, ◌<◌, ◌≡◌, ◌≢◌, ◌⊎◌, inl, inr, refl, sym, subst, Option, none, some, List, [], ◌∷◌,
  arith, length, All,
}
use reachmydevice.Session.Identity.KeyFile.{hex_decode, hex_value, byte_of}
use reachmydevice.Session.Identity.KeyFile.Hex.{IsByte}
use reachmydevice.Session.Pairing.{role_labels}
use reachmydevice.Session.PairingClient.{
  hello, confirm, Frame, payload, peer_joined, peer_left, relay_error, not_text, bad_json, broken,
  anything, good, wait_for_peer, recv_hello, recv_confirm, PeerHello, decode_hello, decode_tag,
}

-- The frame was delivered.
abbrev pub Delivered : Frame → List Frame → Type 0
Delivered f [] = ⊥
Delivered f (g ∷ gs) = (g ≡ f) ⊎ Delivered f gs

hex_value_small : (c h : ℕ) → hex_value c ≡ some h → h < 16
unfolding hex_value
hex_value_small c h e = ground arith

byte_of_small :
    (h l : Option ℕ) (rest : Option (List ℕ)) (bytes : List ℕ)
    → ((n : ℕ) → h ≡ some n → n < 16)
    → ((n : ℕ) → l ≡ some n → n < 16)
    → ((bs : List ℕ) → rest ≡ some bs → All IsByte bs)
    → byte_of h l rest ≡ some bytes
    → All IsByte bytes
byte_of_small (some h) (some l) (some bs) [] hs ls small e = tt
byte_of_small (some h) (some l) (some bs) (b ∷ bytes) hs ls small e =
    let high = hs h refl in
    let low = ls l refl in
    let first : b ≡ h * 16 + l = cc in
    let more : bs ≡ bytes = cc in (ground (arith, first), subst (All IsByte) more (small bs refl))
byte_of_small none l rest bytes hs ls small e = absurd (cc)
byte_of_small (some h) none rest bytes hs ls small e = absurd (cc)
byte_of_small (some h) (some l) none bytes hs ls small e = absurd (cc)

-- What `hex::decode` gives are bytes.
pub hex_decode-Bytes : (text bytes : List ℕ) → hex_decode text ≡ some bytes → All IsByte bytes
unfolding hex_decode
hex_decode-Bytes [] bytes e = let same : [] ≡ bytes = cc in subst (All IsByte) same tt
hex_decode-Bytes (c ∷ []) bytes e = absurd (cc)
hex_decode-Bytes (c ∷ d ∷ cs) bytes e =
    byte_of_small (hex_value c) (hex_value d) (hex_decode cs) bytes (hex_value_small c)
      (hex_value_small d) (hex_decode-Bytes cs) e

-- The labels of the two roles differ, whatever the keys.
pub labels_differ : (ours peers : List ℕ) → (role_labels ours peers).0 ≢ (role_labels ours peers).1
unfolding role_labels
labels_differ ours peers = ground arith

pub recv_confirm_sound :
    (fs : List Frame) (tag : List ℕ)
    → recv_confirm fs ≡ good tag
    → (text : List ℕ) × Delivered (payload (some (confirm text))) fs × (hex_decode text ≡ some tag)
unfolding recv_confirm
recv_confirm_sound [] tag e = absurd (cc)
recv_confirm_sound (not_text ∷ fs) tag e =
    let (t, d, h) = recv_confirm_sound fs tag e in (t, inr d, h)
recv_confirm_sound (bad_json ∷ fs) tag e = absurd (cc)
recv_confirm_sound (broken ∷ fs) tag e = absurd (cc)
recv_confirm_sound (peer_joined ∷ fs) tag e =
    let (t, d, h) = recv_confirm_sound fs tag e in (t, inr d, h)
recv_confirm_sound (peer_left ∷ fs) tag e =
    let (t, d, h) = recv_confirm_sound fs tag e in (t, inr d, h)
recv_confirm_sound (anything ∷ fs) tag e =
    let (t, d, h) = recv_confirm_sound fs tag e in (t, inr d, h)
recv_confirm_sound (relay_error ∷ fs) tag e = absurd (cc)
recv_confirm_sound (payload none ∷ fs) tag e = absurd (cc)
recv_confirm_sound (payload (some (hello m key name)) ∷ fs) tag e =
    let (t, d, h) = recv_confirm_sound fs tag e in (t, inr d, h)
recv_confirm_sound (payload (some (confirm text)) ∷ fs) tag e =
    (text, inl refl, decode_tag_sound (hex_decode text) e)
  where
    decode_tag_sound : (found : Option (List ℕ)) → decode_tag found ≡ good tag → found ≡ some tag
    decode_tag_sound none e' = absurd (cc)
    decode_tag_sound (some t) e' = cc

-- A Hello that was received: a frame that was delivered, its parts decoded, and the frames after it.
pub record Heard (fs : List Frame) (h : PeerHello) : Type 0 where
  pub message_text : List ℕ
  pub key_text : List ℕ
  pub came : Delivered (payload (some (hello message_text key_text h.name))) fs
  pub key_decoded : hex_decode key_text ≡ some h.public_key
  pub key_size : length h.public_key ≡ 32
  pub message_decoded : hex_decode message_text ≡ some h.message
  pub later : (f : Frame) → Delivered f h.rest → Delivered f fs

later_Heard : (g : Frame) (fs : List Frame) (h : PeerHello) → Heard fs h → Heard (g ∷ fs) h
later_Heard g fs h w = record {
  message_text = w.message_text;
  key_text = w.key_text;
  came = inr w.came;
  key_decoded = w.key_decoded;
  key_size = w.key_size;
  message_decoded = w.message_decoded;
  later = λ f d. inr (w.later f d);
}

abbrev heard_of : List ℕ → List ℕ → List ℕ → List Frame → PeerHello
heard_of m key name fs = record { message = m; public_key = key; name = name; rest = fs }

pub widened :
    (fs gs : List Frame) (h : PeerHello)
    → ((f : Frame) → Delivered f gs → Delivered f fs)
    → Heard gs h
    → Heard fs h
widened fs gs h weaker w = record {
  message_text = w.message_text;
  key_text = w.key_text;
  came = weaker (payload (some (hello w.message_text w.key_text h.name))) w.came;
  key_decoded = w.key_decoded;
  key_size = w.key_size;
  message_decoded = w.message_decoded;
  later = λ f d. weaker f (w.later f d);
}

hello_parts :
    (mt kt : List ℕ) (m key : Option (List ℕ)) (name : List ℕ) (fs : List Frame) (h : PeerHello)
    → hex_decode mt ≡ m
    → hex_decode kt ≡ key
    → decode_hello mt key name fs ≡ good h
    → Heard (payload (some (hello mt kt name)) ∷ fs) h
hello_parts mt kt m none name fs h em ek e = absurd (cc)
hello_parts mt kt none (some key) name fs h em ek e = absurd (ground (arith, em, e))
hello_parts mt kt (some m) (some key) name fs h em ek e =
    let size : length key ≡ 32 = ground (arith, e) in
    let same : heard_of m key name fs ≡ h = ground (arith, em, e) in
    subst (Heard (payload (some (hello mt kt name)) ∷ fs)) same (record {
      message_text = mt;
      key_text = kt;
      came = inl refl;
      key_decoded = ek;
      key_size = size;
      message_decoded = em;
      later = λ f d. inr d;
    })

pub recv_hello_sound : (fs : List Frame) (h : PeerHello) → recv_hello fs ≡ good h → Heard fs h
unfolding recv_hello
recv_hello_sound [] h e = absurd (cc)
recv_hello_sound (not_text ∷ fs) h e = later_Heard not_text fs h (recv_hello_sound fs h e)
recv_hello_sound (bad_json ∷ fs) h e = absurd (cc)
recv_hello_sound (broken ∷ fs) h e = absurd (cc)
recv_hello_sound (peer_joined ∷ fs) h e = later_Heard peer_joined fs h (recv_hello_sound fs h e)
recv_hello_sound (peer_left ∷ fs) h e = later_Heard peer_left fs h (recv_hello_sound fs h e)
recv_hello_sound (anything ∷ fs) h e = later_Heard anything fs h (recv_hello_sound fs h e)
recv_hello_sound (relay_error ∷ fs) h e = absurd (cc)
recv_hello_sound (payload none ∷ fs) h e = absurd (cc)
recv_hello_sound (payload (some (confirm tag)) ∷ fs) h e =
    later_Heard (payload (some (confirm tag))) fs h (recv_hello_sound fs h e)
recv_hello_sound (payload (some (hello m key name)) ∷ fs) h e =
    hello_parts m key (hex_decode m) (hex_decode key) name fs h refl refl e

pub wait_for_peer_sound :
    (fs gs : List Frame) (f : Frame) → wait_for_peer fs ≡ good gs → Delivered f gs → Delivered f fs
unfolding wait_for_peer
wait_for_peer_sound [] gs f e d = absurd (cc)
wait_for_peer_sound (not_text ∷ fs) gs f e d = inr (wait_for_peer_sound fs gs f e d)
wait_for_peer_sound (bad_json ∷ fs) gs f e d = absurd (cc)
wait_for_peer_sound (peer_joined ∷ fs) gs f e d =
    let same : fs ≡ gs = cc in inr (subst (Delivered f) (sym same) d)
wait_for_peer_sound (peer_left ∷ fs) gs f e d = absurd (cc)
wait_for_peer_sound (relay_error ∷ fs) gs f e d = absurd (cc)
wait_for_peer_sound (broken ∷ fs) gs f e d = absurd (cc)
wait_for_peer_sound (anything ∷ fs) gs f e d = inr (wait_for_peer_sound fs gs f e d)
wait_for_peer_sound (payload m ∷ fs) gs f e d = inr (wait_for_peer_sound fs gs f e d)
