-- ===== src/Session/RendezvousClient.antt =====
-- crates/session/src/rendezvous.rs, `run`: the client of the rendezvous server. A step is one turn of the relay
-- loop, and `dial` one attempt to connect. `writes` is how many more texts the socket takes before a write
-- fails. The serializer of the relayed payload does not fail.
pub mod Replay
pub mod Fresh
pub mod Dialing
use reachmydevice.Prelude.{
  ℕ, ◌+◌, ◌-◌, ◌*◌, min, Bool, true, false, not, ◌&&◌, Option, none, some, List, [], ◌∷◌, ◌++◌, map,
  String, str_eq, leb, ltb, if◌then◌else◌, length, take,
}
use reachmydevice.Session.Identity.Sdp.{SignalMsg, offer, answer, candidate}

pub data Payload : Type 0 where
  hello : Payload
  signal : SignalMsg → Payload

pub record Inbound : Type 0 where
  pub from : String
  pub payload : Payload

-- The variables that survive a reconnection, with the flag for the host, and `received_any` of a connection.
pub record Relay : Type 0 where
  pub is_viewer : Bool
  pub peer : Option String
  pub pending : List SignalMsg
  pub last_offer : Option SignalMsg
  pub sent_candidates : List SignalMsg
  pub peer_switched : Bool
  pub received_any : Bool

unfoldable pub new : Option String → Relay
new peer = record {
  is_viewer = elim peer [ none ↦ false | some to ↦ true ];
  peer = peer;
  pending = [];
  last_offer = none;
  sent_candidates = [];
  peer_switched = false;
  received_any = false;
}

-- What the loop puts out: a text for a device, a ping, or a message for the session.
pub data Output : Type 0 where
  send : String → Payload → Output
  ping : Output
  deliver : SignalMsg → Output

-- Whether the relay loop goes on, ends with the session, or loses its socket.
pub data Stop : Type 0 where
  running session_ended socket_closed : Stop

pub data Frame : Type 0 where
  text : Inbound → Frame
  bad_text other : Frame
  failed end_of_stream : Frame

pub data Event : Type 0 where
  announce : ℕ → Event
  keepalive : Bool → ℕ → Event  -- whether the socket was silent for too long
  outgoing : ℕ → SignalMsg → Event
  session_dropped : Event
  incoming : ℕ → Bool → Frame → Event  -- whether the session still takes messages

abbrev pub Result : Type 0
Result = Relay × List Output × Stop

-- Writes of texts, one after the other, up to the first that fails.
unfoldable pub write_all : ℕ → Relay → List Output → Result
write_all writes r outs =
    (r, take writes outs, (if leb (length outs) writes then running else socket_closed))

unfoldable pub remember : Relay → SignalMsg → Relay
remember r (offer json) = record r { last_offer = some (offer json); sent_candidates = [] }
remember r (candidate json) = record r {
  sent_candidates = r.sent_candidates ++ candidate json ∷ [];
}
remember r (answer json) = r

abbrev pub signal_to : String → SignalMsg → Output
signal_to to msg = send to (signal msg)

unfoldable pub on_outgoing : ℕ → Relay → SignalMsg → Result
unfolding remember write_all
on_outgoing writes r msg = elim r.peer [
  | some to ↦ write_all writes (remember r msg) (signal_to to msg ∷ [])
  | none ↦ (record (remember r msg) { pending = (remember r msg).pending ++ msg ∷ [] }, [], running)
]

abbrev pub is_peer : Option String → String → Bool
is_peer none from = false
is_peer (some to) from = str_eq to from

abbrev pub is_known : Option String → Bool
is_known none = false
is_known (some to) = true

-- A viewer that takes over from another one: the old offer is no use to it.
unfoldable pub switch : Relay → String → Relay
switch r from =
    if not r.is_viewer && (not (is_peer r.peer from) && is_known r.peer)
    then record r { last_offer = none; sent_candidates = []; peer_switched = true }
    else r

-- The messages that a known peer that announces itself again gets.
unfoldable pub replay : Relay → List Output
replay r = elim r.peer [
  | none ↦ []
  | some to ↦ elim r.last_offer [ none ↦ [] | some o ↦ map (signal_to to) (o ∷ r.sent_candidates) ]
]

-- After the writes of a first contact, if they went well.
unfoldable pub on_payload : ℕ → Bool → Bool → Relay → Payload → Result
unfolding replay write_all
on_payload writes open' first_contact r (signal msg) =
    if open' then (r, deliver msg ∷ [], running) else (r, [], session_ended)
on_payload writes open' first_contact r hello =
    if first_contact then (r, [], running) else write_all writes r (replay r)

abbrev pub then_payload : ℕ → Bool → Result → Payload → Result
then_payload writes open' (r, outs, running) payload =
    let (r', more, stop) = on_payload writes open' true r payload in (r', outs ++ more, stop)
then_payload writes open' (r, outs, stop) payload = (r, outs, stop)

-- `drain` empties `pending` also if a write fails.
unfoldable pub on_inbound : ℕ → Bool → Relay → Inbound → Result
unfolding switch write_all on_payload
on_inbound writes open' r inbound =
    let known = is_peer r.peer inbound.from in
    let s = switch (record r { received_any = true }) inbound.from in
    let drained =
      write_all writes (record s { peer = some inbound.from; pending = [] })
        (map (signal_to inbound.from) s.pending) in
    if known
    then on_payload writes open' false s inbound.payload
    else then_payload (writes - length s.pending) open' drained inbound.payload

unfoldable pub on_frame : ℕ → Bool → Relay → Frame → Result
unfolding on_inbound
on_frame writes open' r (text inbound) = on_inbound writes open' r inbound
on_frame writes open' r bad_text = (r, [], running)
on_frame writes open' r other = (r, [], running)
on_frame writes open' r failed = (r, [], socket_closed)
on_frame writes open' r end_of_stream = (r, [], socket_closed)

unfoldable pub on_announce : ℕ → Relay → Result
unfolding write_all
on_announce writes r = elim r.peer [
  | none ↦ (r, [], running)
  | some to ↦
      if r.is_viewer && not r.received_any
      then write_all writes r (send to hello ∷ [])
      else (r, [], running)
]

unfoldable pub relay_step : Relay → Event → Result
unfolding on_announce on_outgoing on_frame write_all
relay_step r (announce writes) = on_announce writes r
relay_step r (keepalive silent writes) =
    if silent then (r, [], socket_closed) else write_all writes r (ping ∷ [])
relay_step r (outgoing writes msg) = on_outgoing writes r msg
relay_step r session_dropped = (r, [], session_ended)
relay_step r (incoming writes open' frame) = on_frame writes open' r frame

abbrev pub ends : Stop → Bool
ends session_ended = true
ends s = false

-- What a new connection starts with.
abbrev pub after : Stop → Relay → Relay
after socket_closed r = record r { received_any = false }
after s r = r

-- The relay loop over as many connections as it takes, until the session ends.
unfoldable pub relay_run : Relay → List Event → Relay × List Output
unfolding relay_step
relay_run r [] = (r, [])
relay_run r (e ∷ es) =
    let (r', out, stop) = relay_step r e in
    let (end, outs) = relay_run (after stop r') es in
    if ends stop then (r', out) else (end, out ++ outs)
