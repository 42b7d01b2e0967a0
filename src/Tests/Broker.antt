-- ===== src/Tests/Broker.antt =====
-- The broker of crates/session/src/broker.rs: two agents, of a greeter and of a user, and a viewer that watches.
use reachmydevice.Prelude.{
  ℕ, ◌≡◌, refl, true, false, none, some, List, [], ◌∷◌, arith, if◌then◌else◌,
}
use reachmydevice.Session.Broker.{
  AgentEvent, Input, capturing_cmd, new, on_agent_msg, AgentMsg, frame, dropped, step, on_accept,
  on_agent, on_command, permits, tell, remove_id,
}
use reachmydevice.Session.Broker.Provider.{abstract, run, spec_run, is_provider}
use reachmydevice.Session.Broker.Admission.{Provides, latest_first, run-Provides}
use reachmydevice.Session.Broker.Handover.{run-frame}
use reachmydevice.Session.Broker.Capturing.{told, asked, run-told}

-- The greeter's agent provides the picture until the user's agent comes.
abbrev evening : List (Input ℕ)
evening =
    Input.accept (some 120)
    ∷ Input.command (capturing_cmd true)
    ∷ Input.agent (AgentEvent.hello 0 none [])
    ∷ Input.accept (some 1000)
    ∷ Input.agent (AgentEvent.hello 1 none [])
    ∷ Input.agent (AgentEvent.closed 0)
    ∷ []

abbrev greeters : List ℕ
greeters = 120 ∷ []

run-frame_example :
    on_agent_msg {R = ℕ} (run greeters new evening).0.active_id 1 (AgentMsg.video (7 ∷ []) true 9)
    ≡ (if is_provider (spec_run greeters (abstract (new {R = ℕ})) evening).provider 1
        then frame (7 ∷ []) true 9
        else dropped)
run-frame_example = run-frame ℕ greeters evening 1 (7 ∷ []) true 9 (omega arith)

users : (run greeters new evening).0.active ≡ some 1
unfolding run new step on_accept on_agent on_command permits tell remove_id
users = refl

run-told_example : told 1 (run greeters new evening).1 false ≡ asked evening false
run-told_example = run-told ℕ greeters evening 1 users

run-Provides_example : Provides greeters 1 (latest_first greeters evening [])
run-Provides_example = run-Provides ℕ greeters evening 1 users
