-- ===== src/Session/Host/Core.antt =====
-- crates/session/src/host.rs, `run_host_core`: the loop around `handle_control`. A step is what the loop does
-- with one thing that it receives. The thread of the clipboard, which sends to the viewer on its own, is one
-- more thing that happens: a text that it has polled. The capture and audio threads are not modelled;
-- rebuilding the injector gives one or not.
use reachmydevice.Prelude.{
  ℕ, Bool, true, false, not, ◌&&◌, Option, none, some, List, [], ◌∷◌, ◌++◌, map, if◌then◌else◌,
}
use reachmydevice.Protocol.{Envelope, clipboard_text}
use reachmydevice.Codec.{Doubles}
use reachmydevice.Session.FileTransfer.{Os}
use reachmydevice.Session.Identity.Sdp.{SignalMsg, offer, answer, fingerprint_from_session_json}
use reachmydevice.Session.Host.Guess.{reset}
use reachmydevice.Session.Host.Control.{
  HostSide, Session, Effect, send_data, release_all, request_keyframe, handle_control,
}

pub data HostStatus : Type 0 where
  waiting active ended : HostStatus

-- What the loop does beside the effects of a control message.
pub data CoreEffect (A : Type 0) : Type 0 where
  act : Effect A → CoreEffect A
  feed_signal : SignalMsg → CoreEffect A
  send_signal : SignalMsg → CoreEffect A
  request_ice_restart : CoreEffect A
  pause : CoreEffect A
  on_status : HostStatus → CoreEffect A

-- The variables of the loop; `session` has those that `handle_control` changes.
pub record Core (A : Type 0) : Type 0 where
  pub session : Session A
  pub connected : Bool
  pub was_authorized : Bool
  pub remote_fingerprint : Option (List ℕ)
  pub local_fingerprint : Option (List ℕ)
  pub has_injector : Bool

pub data Incoming (A : Type 0) : Type 0 where
  peer_signal : SignalMsg → Incoming A  -- `signal.try_recv`
  peer_switched : Incoming A
  geometry_changed : Bool → Incoming A  -- whether an injector can be had
  local_signal : SignalMsg → Incoming A
  connected : Incoming A
  disconnected : Incoming A
  arrived : ℕ → Os → Option (Envelope A) → Incoming A  -- `Data`
  video : Incoming A
  keyframe_requested : Incoming A
  clipboard_polled : List ℕ → ℕ → Incoming A  -- `ClipboardSync`: a local text, and its number

abbrev pub or_empty : Option (List ℕ) → List ℕ
or_empty none = []
or_empty (some text) = text

-- `if let Some(fp) = … { fingerprint = Some(fp) }`.
abbrev pub learn : Option (List ℕ) → Option (List ℕ) → Option (List ℕ)
learn old none = old
learn old (some fp) = some fp

-- The arguments of `handle_control` at this time.
unfoldable pub host_now : {A : Type 0} → HostSide → Core A → HostSide
host_now host c = record host {
  channel_binding = or_empty c.remote_fingerprint;
  local_fingerprint = or_empty c.local_fingerprint;
  has_injector = c.has_injector;
}

module _ {A : Type 0} (d : Doubles A) (host : HostSide) (sha : List ℕ → List ℕ)
    (sdp_of : List ℕ → Option (List ℕ)) where
  unfoldable pub on_data : Core A → ℕ → Os → Option (Envelope A) → Core A × List (CoreEffect A)
  unfolding host_now
  on_data c now os message =
      let (s, effects) = handle_control d (host_now host c) sha now os c.session message in
      let starts = s.authorized && not c.was_authorized in
      (
        record c { session = s; was_authorized = (if starts then true else c.was_authorized) },
        map act effects ++ (if starts then on_status active ∷ [] else []),
      )

  unfoldable pub on_peer_signal : Core A → SignalMsg → Core A
  on_peer_signal c (answer json) = record c {
    remote_fingerprint = learn c.remote_fingerprint (fingerprint_from_session_json sdp_of json);
  }
  on_peer_signal c msg = c

  unfoldable pub on_local_signal : Core A → SignalMsg → Core A
  on_local_signal c (offer json) = record c {
    local_fingerprint = learn c.local_fingerprint (fingerprint_from_session_json sdp_of json);
  }
  on_local_signal c msg = c

  unfoldable pub core_step : Core A → Incoming A → Core A × List (CoreEffect A)
  unfolding on_peer_signal on_local_signal
  core_step c (peer_signal msg) = (on_peer_signal c msg, feed_signal msg ∷ [])
  core_step c peer_switched = (c, request_ice_restart ∷ [])
  core_step c (geometry_changed available) = (record c { has_injector = available }, [])
  core_step c (local_signal msg) = (on_local_signal c msg, send_signal msg ∷ [])
  core_step c connected = (
    record c {
      connected = true;
      session = record c.session { authorized = false; view_only = false };
      was_authorized = false;
    },
    [],
  )
  core_step c disconnected = (
    record c {
      connected = false;
      session = record c.session {
        authorized = false;
        view_only = false;
        pw_throttle = reset c.session.pw_throttle;
      };
      was_authorized = false;
    },
    (if c.has_injector then act release_all ∷ [] else []) ++ pause ∷ on_status ended ∷ [],
  )
  core_step c (arrived now os message) = on_data c now os message
  core_step c video = (c, [])
  core_step c keyframe_requested = (c, act request_keyframe ∷ [])
  core_step c (clipboard_polled content seq) =
      (c, act (send_data (clipboard_text content seq)) ∷ [])
