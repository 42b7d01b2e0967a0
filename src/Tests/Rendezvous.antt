-- ===== src/Tests/Rendezvous.antt =====
-- The rendezvous server: apps/rendezvous.
use reachmydevice.Prelude.{
  ℕ, ◌*◌, ◌≡◌, ◌≢◌, refl, Bool, true, Option, none, some, List, [], ◌∷◌, String, arith, All, subst,
  eq_iff,
}
use reachmydevice.Prelude.Store.{lookup}
use reachmydevice.Rendezvous.Throttle.{LoginThrottle, retry_after, nanos, check, record_failure}
use reachmydevice.Rendezvous.Throttle.Backoff.{fail_run, check-fail_run}
use reachmydevice.Rendezvous.Throttle.Isolation.{WellTimed}
use reachmydevice.Rendezvous.Tickets.{
  ResolvedCredential, TicketStore, redeem, redeems, issues, run, redeem_once,
}
use reachmydevice.Rendezvous.Hub.Rooms
use reachmydevice.Rendezvous.Hub.{Hub, Member, relay}
use reachmydevice.Rendezvous.Hub.Rooms.{RoomsOk, RoomOk, joins, leaves, run-RoomsOk}
use reachmydevice.Rendezvous.Limiter.{
  FrameLimiter, allow_at, allowed_count, allowed_count-new, allowed_count-Spaced,
}
use reachmydevice.Rendezvous.Limiter
use reachmydevice.Rendezvous.Socket.{Incoming, text, close, RelayFrame, recv_task}
use reachmydevice.Rendezvous.Socket.Frames.{Justified, recv_task-Justified}

-- Bob fails at the seconds 1 to 5 and then at 6.
abbrev five_failures : List ℕ
five_failures = 1 * nanos ∷ 2 * nanos ∷ 3 * nanos ∷ 4 * nanos ∷ 5 * nanos ∷ []

check-fail_run_example :
    check (record_failure (fail_run [] "bob" five_failures) "bob" (6 * nanos)) "bob" (7 * nanos)
    ≡ retry_after 2
unfolding lookup
check-fail_run_example =
    check-fail_run [] "bob" five_failures (6 * nanos) (7 * nanos) tt refl (omega arith)

abbrev locked : LoginThrottle
locked =
    ("bob", record { fails = 6; locked_until = some (8 * nanos); last = some (6 * nanos) }) ∷ []

locked-WellTimed : WellTimed (6 * nanos) locked
unfolding lookup
locked-WellTimed = record {
  unique = (refl, tt);
  timed = λ v a e. (6 * nanos, ground arith, omega arith, ground arith);
}

ann-ne-bob : ◌≢◌ {A = String} "ann" "bob"
ann-ne-bob e = ground (arith, eq_iff "ann" "bob")

abbrev cred : ResolvedCredential
cred = record { user_id = 1; signaling_id = "dev" }

abbrev one_ticket : TicketStore
one_ticket = ("bob", (cred, 10)) ∷ []

redeem_once_example :
    (redeem
      (run (redeem one_ticket "bob" 1).0 (issues cred "ann" 2 5 ∷ redeems "bob" 3 ∷ []))
      "bob"
      4).1
    ≡ none
unfolding lookup
redeem_once_example =
    redeem_once one_ticket "bob" 1 4 (issues cred "ann" 2 5 ∷ redeems "bob" 3 ∷ []) (refl, tt)
      (ann-ne-bob, tt)

abbrev all_open : ℕ → Bool
all_open tx = true

abbrev hub : Hub
hub = record {
  peers = ("h", record { user_id = 1; tx = 10 }) ∷ ("v", record { user_id = 2; tx = 11 }) ∷ [];
  rooms = ("42", record { id = 0; tx = 20 } ∷ record { id = 1; tx = 21 } ∷ []) ∷ [];
  next_member = 2;
}

abbrev two_members : List Member
two_members = record { id = 0; tx = 20 } ∷ record { id = 1; tx = 21 } ∷ []

two_members-RoomOk : RoomOk 2 two_members
two_members-RoomOk = record { occupied = omega arith; two_party = omega arith; fresh = omega arith }

hub-RoomsOk : RoomsOk hub
unfolding lookup
hub-RoomsOk code ms e =
    subst (RoomOk 2) {x = two_members} {y = ms} (ground arith) two_members-RoomOk

run-RoomsOk_example : RoomsOk (Rooms.run all_open hub (joins "7" 30 ∷ leaves "42" 0 ∷ []))
run-RoomsOk_example =
    run-RoomsOk all_open hub (joins "7" 30 ∷ leaves "42" 0 ∷ []) (omega arith) hub-RoomsOk

abbrev waiting : Hub
waiting = record hub { rooms = ("42", record { id = 0; tx = 20 } ∷ []) ∷ [] }

abbrev arrivals : List ℕ
arrivals = 1 ∷ 2 ∷ 3 * nanos ∷ []

allowed_count-Spaced_example :
    allowed_count (Limiter.with_limits 16 1 0) (1 * nanos ∷ 2 * nanos ∷ []) ≡ 2
allowed_count-Spaced_example =
    allowed_count-Spaced 0 16 1 nanos (1 * nanos ∷ 2 * nanos ∷ []) (omega arith) (omega arith)
      (omega arith)

-- A client of account 1 that writes to "h", and is known as "me".
abbrev to_h : String → Option (RelayFrame ℕ)
to_h t = some (record { to = "h"; payload = 7 })

abbrev signed : String → ℕ → String
signed me payload = me

abbrev frames : List Incoming
frames =
    record { now = 5; hub = hub; msg = text "x" } ∷ record { now = 6; hub = hub; msg = close } ∷ []

recv_task-Justified_example :
    All
      (Justified to_h signed all_open "me" 1 frames)
      (recv_task to_h signed all_open "me" 1 (Limiter.new 0) frames)
recv_task-Justified_example = recv_task-Justified to_h signed all_open "me" 1 (Limiter.new 0) frames

-- The frame is delivered.
frames_delivered : recv_task to_h signed all_open "me" 1 (Limiter.new 0) frames ≡ (10, "me") ∷ []
unfolding recv_task Limiter.new allow_at relay lookup
frames_delivered = refl
