-- ===== src/Tests/Clipboard.antt =====
-- The clipboards of two peers, crates/session/src/clipboard.rs: one copied "hi", the other holds "old".
use reachmydevice.Prelude.{ℕ, ◌≡◌, ◌≢◌, refl, true, false, List, [], ◌∷◌, arith, ◌%◌, ◌^◌}
use reachmydevice.Protocol.{clipboard_text, fnv1a, fnv1a_from}
use reachmydevice.Session.Clipboard.{Calls}
use reachmydevice.Session.Clipboard.Settled.{
  Peers, Turn, left_turn, right_turn, all_well, peers_run, IsSettled, copied_settles,
}

abbrev hi : List ℕ
hi = 104 ∷ 105 ∷ []

abbrev peers : Peers
peers = record {
  left = record { content = hi; last_hash = 7; seq = 0 };
  right = record { content = 111 ∷ 108 ∷ 100 ∷ []; last_hash = 7; seq = 4 };
  to_left = [];
  to_right = [];
}

-- A turn in which no call of the clipboard succeeds.
abbrev failing : Calls
failing = record { set_ok = false; get_ok = false }

not_seven : peers.left.last_hash ≢ fnv1a hi
unfolding fnv1a fnv1a_from
not_seven = ground arith

abbrev turns : List Turn
turns =
    left_turn all_well
    ∷ right_turn all_well
    ∷ right_turn all_well
    ∷ left_turn failing
    ∷ left_turn all_well
    ∷ []

copied_settles_example :
    ((peers_run ℕ (λ t. true) peers turns).1 ≡ clipboard_text hi (1 % 2 ^ 64) ∷ [])
    × IsSettled hi (peers_run ℕ (λ t. true) peers turns).0
copied_settles_example =
    copied_settles ℕ (λ t. true) hi peers
      (right_turn all_well ∷ left_turn failing ∷ left_turn all_well ∷ []) refl refl refl not_seven
      refl refl
