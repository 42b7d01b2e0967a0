-- ===== src/Tests/PairingClient.antt =====
-- Pairing over the relay: crates/session/src/pairing_client.rs.
use reachmydevice.Prelude.{ℕ, ◌≡◌, ◌≢◌, refl, ap, some, List, [], ◌∷◌, arith, replicate, All}
use reachmydevice.Session.Pairing.{
  Hkdf, Label, initiator, responder, role_labels, lex_lt, parts, split_code, trim_start, trim_end,
  split_once,
}
use reachmydevice.Session.Identity.KeyFile.Hex.{IsByte}
use reachmydevice.Session.PairingClient.{
  Pake, Frame, PairRun, label_bytes, good, confirmation, pair_pake,
}
use reachmydevice.Session.PairingClient.Honest.{
  Party, Agrees, delivered, messages, peer_of, pair_pake_both,
}
use reachmydevice.Session.PairingClient.Sound.{Separates, IsProven, pair_pake_sound}
use reachmydevice.Tests.Host.{crypto}

abbrev hkdf : Hkdf
hkdf = λ salt material info size. info

abbrev shared : List ℕ
shared = 9 ∷ []

abbrev pake : Pake
pake = record {
  Exchange = List ℕ;
  start = λ secret random. (random, random);
  finish = λ exchange message. some shared;
}

abbrev desk : Party
desk = record { key = replicate 32 1; name = 100 ∷ [] }

abbrev phone : Party
phone = record { key = replicate 32 2; name = 112 ∷ [] }

-- "7-a".
abbrev code : List ℕ
code = 55 ∷ 45 ∷ 97 ∷ []

code_parts : split_code code ≡ parts (55 ∷ []) (97 ∷ [])
unfolding split_code trim_start trim_end split_once
code_parts = refl

differ : desk.key ≢ phone.key
differ e = cc

desk-Agrees : Agrees crypto hkdf pake shared desk phone (97 ∷ []) (5 ∷ []) (6 ∷ [])
unfolding confirmation role_labels lex_lt
desk-Agrees = record {
  shared_key = refl;
  message_bytes = omega arith;
  key_bytes = omega arith;
  key_size = refl;
  tag_bytes = omega arith;
}

phone-Agrees : Agrees crypto hkdf pake shared phone desk (97 ∷ []) (6 ∷ []) (5 ∷ [])
unfolding confirmation role_labels lex_lt
phone-Agrees = record {
  shared_key = refl;
  message_bytes = omega arith;
  key_bytes = omega arith;
  key_size = refl;
  tag_bytes = omega arith;
}

abbrev to_desk : List Frame
to_desk = delivered (messages crypto hkdf pake shared phone desk (6 ∷ []))

abbrev to_phone : List Frame
to_phone = delivered (messages crypto hkdf pake shared desk phone (5 ∷ []))

pair_pake_both_example :
    (pair_pake crypto hkdf pake desk.key desk.name code (5 ∷ []) to_desk ≡ (
      messages crypto hkdf pake shared desk phone (5 ∷ []),
      good (peer_of crypto hkdf pake shared phone),
    ))
    × (pair_pake crypto hkdf pake phone.key phone.name code (6 ∷ []) to_phone ≡ (
      messages crypto hkdf pake shared phone desk (6 ∷ []),
      good (peer_of crypto hkdf pake shared desk),
    ))
pair_pake_both_example =
    pair_pake_both crypto hkdf pake shared desk phone code (55 ∷ []) (97 ∷ []) (5 ∷ []) (6 ∷ [])
      code_parts differ desk-Agrees phone-Agrees

label-Bytes : (role : Label) → All IsByte (label_bytes role)
label-Bytes initiator = omega arith
label-Bytes responder = omega arith

first_byte : List ℕ → ℕ
first_byte [] = 0
first_byte (b ∷ bs) = b

labels_apart : label_bytes initiator ≢ label_bytes responder
unfolding first_byte
labels_apart e = let first : 105 ≡ 114 = ap first_byte e in omega (arith, first)

hkdf-Separates : Separates hkdf
unfolding confirmation
hkdf-Separates = record { bytes = λ key role. label-Bytes role; roles = λ key e. labels_apart e }

pair_pake_sound_example :
    (channel : List ℕ) × (secret : List ℕ) × (split_code code ≡ parts channel secret)
    × IsProven crypto hkdf pake desk.key desk.name hkdf-Separates secret
        (5 ∷ [])
        to_desk
        (peer_of crypto hkdf pake shared phone)
pair_pake_sound_example =
    pair_pake_sound crypto hkdf pake desk.key desk.name hkdf-Separates code (5 ∷ []) to_desk
      (peer_of crypto hkdf pake shared phone) (ap (λ (r : PairRun). r.1) pair_pake_both_example.0)
