-- ===== src/Session/Broker/Handover.antt =====
-- What reaches the viewer and the agents through the broker of crates/session/src/broker.rs.
use reachmydevice.Prelude.{
  ℕ, ◌+◌, ◌<◌, ◌≡◌, refl, ap, inl, inr, Bool, true, Option, none, some, List, [], ◌∷◌, arith, ◌==◌,
  if◌then◌else◌, Bool-cases,
}
use reachmydevice.Session.Broker.{
  Broker, capturing_cmd, AgentEvent, Input, no_agent, has_id, remove_id, permits, new, on_accept,
  on_agent, on_command, step, AgentMsg, frame, dropped, on_agent_msg,
}
use reachmydevice.Session.Broker.Provider.{run, spec_run, abstract, run_refines, is_provider}

abbrev pub active_number : Option ℕ → ℕ
active_number none = no_agent
active_number (some a) = a

abbrev pub BelowNext : Option ℕ → ℕ → Type 0
BelowNext none n = Unit
BelowNext (some a) n = a < n

-- The two records of the active agent agree, and every number that is in use was given out.
pub record BrokerOk {R : Type 0} (b : Broker R) : Type 0 where
  pub agree : b.active_id ≡ active_number b.active
  pub active_known : BelowNext b.active b.next_id
  pub pending_known : (i : ℕ) → has_id i b.pending ≡ true → i < b.next_id

remove_id-kept :
    (i id : ℕ) (ids : List ℕ) → has_id i (remove_id id ids) ≡ true → has_id i ids ≡ true
unfolding remove_id
remove_id-kept i id [] h = h
remove_id-kept i id (j ∷ ids) h = ground (arith, remove_id-kept i id ids)

BelowNext-more : (o : Option ℕ) (n : ℕ) → BelowNext o n → BelowNext o (n + 1)
BelowNext-more none n h = tt
BelowNext-more (some a) n h = omega (arith, h)

active_number-is :
    (o : Option ℕ) (id : ℕ) → id < no_agent → (active_number o == id) ≡ is_provider o id
active_number-is none id h = ground arith
active_number-is (some a) id h = refl

module _ (R : Type 0) (greeters : List ℕ) where
  closed-BrokerOk :
      (b : Broker R) (id : ℕ) → BrokerOk b → BrokerOk (on_agent b (AgentEvent.closed id)).0
  unfolding on_agent
  closed-BrokerOk b id ok = record {
    agree = ground (arith, ok.agree);
    active_known = closed_known;
    pending_known = λ i h. ground (arith, ok.pending_known i, remove_id-kept i id b.pending);
  }
    where
      closed_known :
          BelowNext
            (on_agent b (AgentEvent.closed id)).0.active
            (on_agent b (AgentEvent.closed id)).0.next_id
      closed_known = ground (arith, ok.active_known)

  step-BrokerOk : (b : Broker R) (i : Input R) → BrokerOk b → BrokerOk (step greeters b i).0
  unfolding step on_accept on_agent on_command
  step-BrokerOk b (Input.accept none) ok = ok
  step-BrokerOk b (Input.accept (some uid)) ok = elim (Bool-cases (permits greeters uid)) [
    | inl e ↦ rw e (record {
      agree = ok.agree;
      active_known = BelowNext-more b.active b.next_id ok.active_known;
      pending_known = λ i h. ground (arith, ok.pending_known i);
    })
    | inr e ↦ rw e ok
  ]
  step-BrokerOk b (Input.agent (AgentEvent.hello id rect ds)) ok =
      elim (Bool-cases (has_id id b.pending)) [
        | inl e ↦ rw e (record {
          agree = refl;
          active_known = ok.pending_known id e;
          pending_known = λ i h. ok.pending_known i (remove_id-kept i id b.pending h);
        })
        | inr e ↦ rw e ok
      ]
  step-BrokerOk b (Input.agent (AgentEvent.displays id ds)) ok =
      elim (Bool-cases (b.active_id == id)) [
        | inl e ↦ rw e (record {
          agree = ok.agree;
          active_known = ok.active_known;
          pending_known = ok.pending_known;
        })
        | inr e ↦ rw e ok
      ]
  step-BrokerOk b (Input.agent (AgentEvent.closed id)) ok = closed-BrokerOk b id ok
  step-BrokerOk b (Input.command (capturing_cmd on)) ok = record {
    agree = ok.agree;
    active_known = ok.active_known;
    pending_known = ok.pending_known;
  }
  step-BrokerOk b (Input.command cmd) ok = ok
  step-BrokerOk b (Input.bitrate_tick bps) ok = ok

  run-BrokerOk :
      (b : Broker R) (inputs : List (Input R)) → BrokerOk b → BrokerOk (run greeters b inputs).0
  unfolding run
  run-BrokerOk b [] ok = ok
  run-BrokerOk b (i ∷ inputs) ok = run-BrokerOk (step greeters b i).0 inputs (step-BrokerOk b i ok)

  new-BrokerOk : BrokerOk (new {R = R})
  unfolding new
  new-BrokerOk = record {
    agree = refl;
    active_known = tt;
    pending_known = λ i h. absurd (ground arith);
  }

  -- After any inputs, a frame of an agent goes to the viewer exactly
  -- if that agent is the provider of the specification.
  pub run-frame :
      (inputs : List (Input R)) (id : ℕ) (annexb : List ℕ) (is_keyframe : Bool) (ts : ℕ)
      → id < no_agent
      → on_agent_msg {R = R}
          (run greeters new inputs).0.active_id
          id
          (AgentMsg.video annexb is_keyframe ts)
        ≡ (if is_provider (spec_run greeters (abstract (new {R = R})) inputs).provider id
            then frame annexb is_keyframe ts
            else dropped)
  unfolding on_agent_msg
  run-frame inputs id annexb is_keyframe ts known =
      let ok = run-BrokerOk new inputs new-BrokerOk in
      let same : (run greeters (new {R = R}) inputs).0.active
          ≡ (spec_run greeters (abstract (new {R = R})) inputs).provider =
        (run_refines R greeters new inputs).provider in
      rw (← same, ok.agree)
        (ap (λ c. if c then frame annexb is_keyframe ts else dropped)
          (active_number-is (run greeters (new {R = R}) inputs).0.active id known))
