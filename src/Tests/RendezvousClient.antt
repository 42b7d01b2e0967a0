-- ===== src/Tests/RendezvousClient.antt =====
-- The rendezvous client of crates/session/src/rendezvous.rs: a host with the viewers "a" and "b".
use reachmydevice.Prelude.{
  ℕ, ◌+◌, ◌≤◌, ◌≡◌, refl, arith, true, false, some, List, [], ◌∷◌, ◌++◌, str_eq, String,
}
use reachmydevice.Session.Identity.Sdp.{offer, candidate}
use reachmydevice.Session.RendezvousClient.{
  Relay, hello, Inbound, Event, outgoing, incoming, text, relay_step, relay_run, signal_to,
}
use reachmydevice.Session.RendezvousClient.Replay.{run-replay}
use reachmydevice.Session.RendezvousClient.Fresh.{has_offer, taken_over}
use reachmydevice.Session.RendezvousClient.Dialing.{
  Try, Attempt, Failing, fails, watchdog, restart_in_place, first_dial, dial, dial_run, try_dial,
  fail, dial_run-restart,
}

abbrev host : Relay
host = record {
  is_viewer = false;
  peer = some "a";
  pending = [];
  last_offer = some (offer (1 ∷ []));
  sent_candidates = candidate (2 ∷ []) ∷ [];
  peer_switched = false;
  received_any = true;
}

abbrev from : String → Inbound
from device = record { from = device; payload = hello }

-- The socket fails at the first candidate.
abbrev rough : List Event
rough = outgoing 0 (candidate (4 ∷ [])) ∷ outgoing 1 (candidate (5 ∷ [])) ∷ []

run-replay_example :
    (relay_step
      (relay_run host (outgoing 1 (offer (3 ∷ [])) ∷ rough)).0
      (incoming 3 true (text (from "a")))).1
    ≡ signal_to "a" (offer (3 ∷ []))
      ∷ signal_to "a" (candidate (4 ∷ []))
      ∷ signal_to "a" (candidate (5 ∷ []))
      ∷ []
run-replay_example = run-replay host "a" (3 ∷ []) 1 rough 3 refl (refl, (refl, tt)) (omega arith)

other_device : str_eq "a" "b" ≡ false
other_device = refl

taken_over_example :
    (has_offer
        (relay_run host
          (incoming 5 true (text (from "b")) ∷ incoming 5 true (text (from "b")) ∷ rough)).1
      ≡ false)
    × ((relay_step host (incoming 5 true (text (from "b")))).0.peer_switched ≡ true)
taken_over_example =
    taken_over host "a" (from "b") 5 true (incoming 5 true (text (from "b")) ∷ rough) refl refl refl
      other_device (refl, (refl, (refl, tt)))

abbrev idle_at : ℕ → Try
idle_at now = record { attempt = Attempt.failed; now = now; active = some false }

restarts :
    (try_dial (dial_run (first_dial []) (idle_at 7 ∷ [])) (idle_at (7 + watchdog))).1
    ≡ restart_in_place
unfolding dial_run first_dial dial fail
restarts = refl

dial_run-restart_example :
    (some false ≡ some false)
    × (before : List Try) × (f : Try) × (rest : List Try) × (idle_at 7 ∷ [] ≡ before ++ f ∷ rest)
    × (f.now + watchdog ≤ 7 + watchdog)
    × Failing (f ∷ rest)
    × (fails Attempt.failed ≡ true)
dial_run-restart_example = dial_run-restart [] (idle_at 7 ∷ []) (idle_at (7 + watchdog)) restarts
