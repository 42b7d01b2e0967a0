-- ===== src/Session/PairingClient.antt =====
-- crates/session/src/pairing_client.rs: the pairing of two devices over a room of the rendezvous server.
-- What the socket delivers is a list of frames, JSON already parsed; what is sent is a list of messages.
-- SPAKE2 is a parameter, and so is HKDF. What is sent is accepted by the socket.
pub mod Honest
pub mod Frames
pub mod Sound
use reachmydevice.Prelude.{
  ℕ, Bool, true, false, not, Option, none, some, List, [], ◌∷◌, ◌++◌, ◌==◌, if◌then◌else◌, length,
  map,
}
use reachmydevice.Session.Constant.{tags_equal}
use reachmydevice.Session.Identity.{Crypto, device_id_from_public_key, hex_encode}
use reachmydevice.Session.Identity.KeyFile.{hex_decode}
use reachmydevice.Session.Pairing.{
  Hkdf, kdf, Label, initiator, responder, role_labels, Split, parts, bad, split_code,
}

-- The fields are texts: hexadecimal digits, and a name.
pub data PairMsg : Type 0 where
  hello : List ℕ → List ℕ → List ℕ → PairMsg  -- SPAKE2 message, public key, name
  confirm : List ℕ → PairMsg

-- A text frame by what the code looks for in it, `peer`, `payload` or `error`, of which the relay puts one
-- into a frame; a payload may not parse.
pub data Frame : Type 0 where
  not_text bad_json peer_joined peer_left relay_error anything broken : Frame
  payload : Option PairMsg → Frame

pub record PairedPeer : Type 0 where
  pub device_id : List ℕ
  pub public_key : List ℕ
  pub name : List ℕ

pub data PairError : Type 0 where
  bad_code socket_broken bad_frame left refused_by_relay closed bad_hex key_size pake_failed
        not_confirmed :
      PairError

pub data Outcome (A : Type 0) : Type 0 where
  good : A → Outcome A
  fails : PairError → Outcome A

-- SPAKE2, symmetric: from the secret and random bytes a state and a message; the state and the peer's
-- message give a key, or fail.
pub record Pake : Type 1 where
  pub Exchange : Type 0
  pub start : List ℕ → List ℕ → Exchange × List ℕ
  pub finish : Exchange → List ℕ → Option (List ℕ)

-- The bytes of "rmd-pairing-confirm-v2", "initiator" and "responder".
abbrev pub confirm_salt : List ℕ
confirm_salt =
    114 ∷ 109 ∷ 100 ∷ 45 ∷ 112 ∷ 97 ∷ 105 ∷ 114 ∷ 105 ∷ 110 ∷ 103 ∷ 45 ∷ 99 ∷ 111 ∷ 110 ∷ 102 ∷ 105
    ∷ 114 ∷ 109 ∷ 45 ∷ 118 ∷ 50 ∷ []

abbrev pub label_bytes : Label → List ℕ
label_bytes initiator = 105 ∷ 110 ∷ 105 ∷ 116 ∷ 105 ∷ 97 ∷ 116 ∷ 111 ∷ 114 ∷ []
label_bytes responder = 114 ∷ 101 ∷ 115 ∷ 112 ∷ 111 ∷ 110 ∷ 100 ∷ 101 ∷ 114 ∷ []

-- `pairing::confirmation`.
unfoldable pub confirmation : Hkdf → List ℕ → Label → List ℕ
confirmation hkdf key role = hkdf confirm_salt key (label_bytes role) 16

-- Frames until the relay says that the peer is there.
unfoldable pub wait_for_peer : List Frame → Outcome (List Frame)
wait_for_peer [] = fails closed
wait_for_peer (not_text ∷ fs) = wait_for_peer fs
wait_for_peer (bad_json ∷ fs) = fails bad_frame
wait_for_peer (peer_joined ∷ fs) = good fs
wait_for_peer (peer_left ∷ fs) = fails left
wait_for_peer (relay_error ∷ fs) = fails refused_by_relay
wait_for_peer (broken ∷ fs) = fails socket_broken
wait_for_peer (anything ∷ fs) = wait_for_peer fs
wait_for_peer (payload m ∷ fs) = wait_for_peer fs

-- What a received Hello is decoded to, with the frames after it.
pub record PeerHello : Type 0 where
  pub message : List ℕ
  pub public_key : List ℕ
  pub name : List ℕ
  pub rest : List Frame

abbrev pub hello_message : Option (List ℕ) → List ℕ → List ℕ → List Frame → Outcome PeerHello
hello_message none key name fs = fails bad_hex
hello_message (some m) key name fs =
    good (record { message = m; public_key = key; name = name; rest = fs })

abbrev pub decode_hello : List ℕ → Option (List ℕ) → List ℕ → List Frame → Outcome PeerHello
decode_hello m none name fs = fails bad_hex
decode_hello m (some key) name fs =
    if not (length key == 32) then fails key_size else hello_message (hex_decode m) key name fs

-- The loop around `recv` that waits for the peer's Hello.
unfoldable pub recv_hello : List Frame → Outcome PeerHello
recv_hello [] = fails closed
recv_hello (not_text ∷ fs) = recv_hello fs
recv_hello (bad_json ∷ fs) = fails bad_frame
recv_hello (broken ∷ fs) = fails socket_broken
recv_hello (peer_joined ∷ fs) = recv_hello fs
recv_hello (peer_left ∷ fs) = recv_hello fs
recv_hello (anything ∷ fs) = recv_hello fs
recv_hello (relay_error ∷ fs) = fails refused_by_relay
recv_hello (payload none ∷ fs) = fails bad_frame
recv_hello (payload (some (confirm tag)) ∷ fs) = recv_hello fs
recv_hello (payload (some (hello m key name)) ∷ fs) = decode_hello m (hex_decode key) name fs

abbrev pub decode_tag : Option (List ℕ) → Outcome (List ℕ)
decode_tag none = fails bad_hex
decode_tag (some tag) = good tag

-- The loop that waits for the peer's confirmation tag.
unfoldable pub recv_confirm : List Frame → Outcome (List ℕ)
recv_confirm [] = fails closed
recv_confirm (not_text ∷ fs) = recv_confirm fs
recv_confirm (bad_json ∷ fs) = fails bad_frame
recv_confirm (broken ∷ fs) = fails socket_broken
recv_confirm (peer_joined ∷ fs) = recv_confirm fs
recv_confirm (peer_left ∷ fs) = recv_confirm fs
recv_confirm (anything ∷ fs) = recv_confirm fs
recv_confirm (relay_error ∷ fs) = fails refused_by_relay
recv_confirm (payload none ∷ fs) = fails bad_frame
recv_confirm (payload (some (hello m key name)) ∷ fs) = recv_confirm fs
recv_confirm (payload (some (confirm tag)) ∷ fs) = decode_tag (hex_decode tag)

-- What a run sends, and how it ends.
abbrev pub PairRun : Type 0
PairRun = List PairMsg × Outcome PairedPeer

module _ (k : Crypto) (hkdf : Hkdf) (pake : Pake) (ours : List ℕ) (our_name : List ℕ) where
  open pake use {Exchange, start, finish}

  -- `pake_finish`.
  unfoldable pub pake_finish : Exchange → List ℕ → List ℕ → Option (List ℕ)
  pake_finish exchange message peers = elim (finish exchange message) [
    | none ↦ none
    | some key ↦ some (kdf hkdf key ours peers)
  ]

  abbrev pub our_tag : List ℕ → List ℕ → List ℕ
  our_tag key peers = confirmation hkdf key (role_labels ours peers).0

  abbrev pub expected_peer_tag : List ℕ → List ℕ → List ℕ
  expected_peer_tag key peers = confirmation hkdf key (role_labels ours peers).1

  unfoldable pub check_tag : PeerHello → List ℕ → Outcome (List ℕ) → Outcome PairedPeer
  check_tag h key (fails e) = fails e
  check_tag h key (good tag) =
      if tags_equal tag (expected_peer_tag key h.public_key)
      then good (record {
        device_id = device_id_from_public_key k h.public_key;
        public_key = h.public_key;
        name = h.name;
      })
      else fails not_confirmed

  -- From the peer's Hello on.
  unfoldable pub confirm_peer : PeerHello → Option (List ℕ) → PairRun
  confirm_peer h none = ([], fails pake_failed)
  confirm_peer h (some key) =
      (confirm (hex_encode (our_tag key h.public_key)) ∷ [], check_tag h key (recv_confirm h.rest))

  unfoldable pub after_hello : Exchange → Outcome PeerHello → PairRun
  after_hello exchange (fails e) = ([], fails e)
  after_hello exchange (good h) = confirm_peer h (pake_finish exchange h.message h.public_key)

  abbrev pub our_hello : List ℕ → PairMsg
  our_hello message = hello (hex_encode message) (hex_encode ours) our_name

  -- From the join of the peer on.
  unfoldable pub exchange_keys : List ℕ → List ℕ → Outcome (List Frame) → PairRun
  exchange_keys secret random (fails e) = ([], fails e)
  exchange_keys secret random (good fs) =
      let (exchange, message) = start secret random in
      let (sent, result) = after_hello exchange (recv_hello fs) in
      (our_hello message ∷ sent, result)

  unfoldable pub pair_with : Split → List ℕ → List Frame → PairRun
  pair_with (bad e) random fs = ([], fails bad_code)
  pair_with (parts channel secret) random fs = exchange_keys secret random (wait_for_peer fs)

  -- The random bytes are SPAKE2's; the connection to the room of the code's channel is made.
  unfoldable pub pair_pake : List ℕ → List ℕ → List Frame → PairRun
  pair_pake code random fs = pair_with (split_code code) random fs
