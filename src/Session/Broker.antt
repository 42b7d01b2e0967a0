-- ===== src/Session/Broker.antt =====
-- crates/session/src/broker.rs: the broker between the capture agents of the graphical sessions and the
-- viewer. One turn of `broker_loop` is a step. The control channel of an agent has the agent's number; what
-- the broker sends is a list of messages with the number of their agent. `R` is the type of a monitor
-- rectangle, which the broker passes on. The number of the next agent, a u64 in the source, does not wrap around:
-- 2^64 connections are not reached.
pub mod Provider
pub mod Handover
pub mod Capturing
pub mod Admission
use reachmydevice.Prelude.{
  ℕ, zero, suc, ◌+◌, ◌-◌, ◌%◌, ◌^◌, Bool, true, false, ◌&&◌, ◌||◌, Option, none, some, List, [],
  ◌∷◌, leb, ◌==◌, if◌then◌else◌,
}
use reachmydevice.Protocol.{DisplayDescriptor}

-- The messages of crates/ipc/src/lib.rs that a broker sends.
pub data BrokerMsg : Type 0 where
  set_capturing : Bool → BrokerMsg
  set_bitrate : ℕ → BrokerMsg
  force_keyframe : BrokerMsg
  select_display : ℕ → BrokerMsg
  set_show_cursor : Bool → BrokerMsg

-- `VideoPlane` calls, as the plane sends them to the loop.
pub data PlaneCmd : Type 0 where
  capturing_cmd : Bool → PlaneCmd
  select_cmd : ℕ → PlaneCmd
  show_cursor_cmd : Bool → PlaneCmd
  keyframe_cmd : PlaneCmd

-- `u64::MAX`.
abbrev pub no_agent : ℕ
no_agent = 2 ^ 64 - 1

abbrev pub Sent : Type 0
Sent = List (ℕ × BrokerMsg)

abbrev pub has_id : ℕ → List ℕ → Bool
has_id id [] = false
has_id id (i ∷ ids) = i == id || has_id id ids

unfoldable pub remove_id : ℕ → List ℕ → List ℕ
remove_id id [] = []
remove_id id (i ∷ ids) = if i == id then remove_id id ids else i ∷ remove_id id ids

-- `AllowedUids::permits`; `greeters` are the accounts found at the start.
unfoldable pub permits : List ℕ → ℕ → Bool
permits greeters uid = uid == 0 || (leb 1000 uid || has_id uid greeters)

pub record BrokerShared (R : Type 0) : Type 0 where
  pub displays : List DisplayDescriptor
  pub monitor_rect : Option R
  pub geometry_gen : ℕ

-- The variables of `broker_loop`. `pending` has the agents that have not said `Hello`.
pub record Broker (R : Type 0) : Type 0 where
  pub shared : BrokerShared R
  pub active_id : ℕ
  pub active : Option ℕ
  pub pending : List ℕ
  pub capturing : Bool
  pub next_id : ℕ

pub data AgentEvent (R : Type 0) : Type 0 where
  hello : ℕ → Option R → List DisplayDescriptor → AgentEvent R
  displays : ℕ → List DisplayDescriptor → AgentEvent R
  closed : ℕ → AgentEvent R

-- What `select!` can take: a connection with the user of its peer, if that can be read; an agent's event; a
-- command of the plane; the tick, with the target bitrate at that time.
pub data Input (R : Type 0) : Type 0 where
  accept : Option ℕ → Input R
  agent : AgentEvent R → Input R
  command : PlaneCmd → Input R
  bitrate_tick : ℕ → Input R

module _ {R : Type 0} where
  unfoldable pub new : Broker R
  new = record {
    shared = record { displays = []; monitor_rect = none; geometry_gen = 0 };
    active_id = no_agent;
    active = none;
    pending = [];
    capturing = false;
    next_id = 0;
  }

  -- `if let Some(a) = &active { a.ctrl_tx.send(msg) }`.
  unfoldable pub tell : Broker R → BrokerMsg → Sent
  tell b msg = elim b.active [ none ↦ [] | some id ↦ (id, msg) ∷ [] ]

  abbrev turn_generation : BrokerShared R → ℕ
  turn_generation s = (s.geometry_gen + 1) % 2 ^ 64

  unfoldable pub on_accept : List ℕ → Broker R → Option ℕ → Broker R × Sent
  unfolding permits
  on_accept greeters b none = (b, [])
  on_accept greeters b (some uid) =
      if permits greeters uid
      then (record b { pending = b.next_id ∷ b.pending; next_id = b.next_id + 1 }, [])
      else (b, [])

  unfoldable pub on_agent : Broker R → AgentEvent R → Broker R × Sent
  unfolding remove_id
  on_agent b (hello id rect ds) =
      if has_id id b.pending
      then (
        record b {
          shared = record {
            displays = ds;
            monitor_rect = rect;
            geometry_gen = turn_generation b.shared;
          };
          active_id = id;
          active = some id;
          pending = remove_id id b.pending;
        },
        (if b.capturing then (id, set_capturing true) ∷ (id, force_keyframe) ∷ [] else []),
      )
      else (b, [])
  on_agent b (displays id ds) =
      if b.active_id == id
      then (record b { shared = record b.shared { displays = ds } }, [])
      else (b, [])
  on_agent b (closed id) =
      let gone = record b { pending = remove_id id b.pending } in
      if elim b.active [ none ↦ false | some a ↦ a == id ]
      then (
        record gone {
          shared = record b.shared { displays = []; geometry_gen = turn_generation b.shared };
          active_id = no_agent;
          active = none;
        },
        [],
      )
      else (gone, [])

  unfoldable pub on_command : Broker R → PlaneCmd → Broker R × Sent
  unfolding tell
  on_command b (capturing_cmd on) = (record b { capturing = on }, tell b (set_capturing on))
  on_command b (select_cmd display) = (b, tell b (select_display display))
  on_command b (show_cursor_cmd show) = (b, tell b (set_show_cursor show))
  on_command b keyframe_cmd = (b, tell b force_keyframe)

  unfoldable pub step : List ℕ → Broker R → Input R → Broker R × Sent
  unfolding on_accept on_agent on_command tell
  step greeters b (accept peer) = on_accept greeters b peer
  step greeters b (agent ev) = on_agent b ev
  step greeters b (command cmd) = on_command b cmd
  step greeters b (bitrate_tick bps) = (b, (if b.capturing then tell b (set_bitrate bps) else []))

-- What an agent's connection gets, and what `agent_conn` makes of it: a frame for the viewer, or an event.
pub data AgentMsg (R : Type 0) : Type 0 where
  agent_hello : Option R → List DisplayDescriptor → AgentMsg R
  video : List ℕ → Bool → ℕ → AgentMsg R
  agent_displays : List DisplayDescriptor → AgentMsg R
  failed : AgentMsg R

pub data Forward (R : Type 0) : Type 0 where
  frame : List ℕ → Bool → ℕ → Forward R
  report : AgentEvent R → Forward R
  dropped : Forward R

unfoldable pub on_agent_msg : {R : Type 0} → ℕ → ℕ → AgentMsg R → Forward R
on_agent_msg active_id id (agent_hello rect ds) = report (hello id rect ds)
on_agent_msg active_id id (video annexb is_keyframe ts) =
    if active_id == id then frame annexb is_keyframe ts else dropped
on_agent_msg active_id id (agent_displays ds) = report (displays id ds)
on_agent_msg active_id id failed = report (closed id)

-- `BrokerVideoPlane::poll_geometry_changed`, with the generation that was seen last.
unfoldable pub poll_geometry_changed : {R : Type 0} → BrokerShared R → ℕ → ℕ × Option (Option R)
poll_geometry_changed s last =
    if s.geometry_gen == last then (last, none) else (s.geometry_gen, some s.monitor_rect)
