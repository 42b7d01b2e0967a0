-- ===== src/Session/Broker/Provider.antt =====
-- The broker of crates/session/src/broker.rs as a choice of one provider.
use reachmydevice.Prelude.{
  ℕ, ◌+◌, ◌≡◌, refl, ◌∙◌, Bool, false, not, ◌&&◌, ◌||◌, Option, none, some, List, [], ◌∷◌, ◌++◌,
  arith, ◌==◌, if◌then◌else◌,
}
use reachmydevice.Session.Broker.{
  Broker, capturing_cmd, AgentEvent, Input, Sent, has_id, remove_id, permits, on_accept, on_agent,
  on_command, step,
}

-- The broker without its messages: agents wait, and at most one is the provider, the one whose `Hello` was
-- taken last. When the provider closes there is none until the next `Hello`, also if older agents are there.
pub record Spec : Type 0 where
  pub waits : ℕ → Bool
  pub provider : Option ℕ
  pub watched : Bool
  pub joined : ℕ

abbrev pub abstract : {R : Type 0} → Broker R → Spec
abstract b = record {
  waits = λ i. has_id i b.pending;
  provider = b.active;
  watched = b.capturing;
  joined = b.next_id;
}

abbrev pub is_provider : Option ℕ → ℕ → Bool
is_provider none id = false
is_provider (some a) id = a == id

unfoldable pub spec_step : {R : Type 0} → List ℕ → Spec → Input R → Spec
spec_step greeters s (Input.accept none) = s
spec_step greeters s (Input.accept (some uid)) =
    if permits greeters uid
    then record s { waits = (λ i. s.joined == i || s.waits i); joined = s.joined + 1 }
    else s
spec_step greeters s (Input.agent (AgentEvent.hello id rect ds)) =
    if s.waits id
    then record s { waits = (λ i. not (i == id) && s.waits i); provider = some id }
    else s
spec_step greeters s (Input.agent (AgentEvent.displays id ds)) = s
spec_step greeters s (Input.agent (AgentEvent.closed id)) = record s {
  waits = λ i. not (i == id) && s.waits i;
  provider = if is_provider s.provider id then none else s.provider;
}
spec_step greeters s (Input.command (capturing_cmd on)) = record s { watched = on }
spec_step greeters s (Input.command cmd) = s
spec_step greeters s (Input.bitrate_tick bps) = s

pub has_id-remove_id :
    (i id : ℕ) (ids : List ℕ) → has_id i (remove_id id ids) ≡ (not (i == id) && has_id i ids)
unfolding remove_id
has_id-remove_id i id [] = ground arith
has_id-remove_id i id (j ∷ ids) = ground (arith, has_id-remove_id i id ids)

-- Two states of the specification that agree on every question.
pub record Same (s t : Spec) : Type 0 where
  pub waits : (i : ℕ) → s.waits i ≡ t.waits i
  pub provider : s.provider ≡ t.provider
  pub watched : s.watched ≡ t.watched
  pub joined : s.joined ≡ t.joined

module _ (R : Type 0) (greeters : List ℕ) where
  step_refines :
      (b : Broker R) (i : Input R)
      → Same (abstract (step greeters b i).0) (spec_step greeters (abstract b) i)
  unfolding step on_accept on_agent on_command spec_step
  step_refines b (Input.accept none) = record {
    waits = λ i. refl;
    provider = refl;
    watched = refl;
    joined = refl;
  }
  step_refines b (Input.accept (some uid)) = record {
    waits = λ i. ground arith;
    provider = ground arith;
    watched = ground arith;
    joined = ground arith;
  }
  step_refines b (Input.agent (AgentEvent.hello id rect ds)) = record {
    waits = λ i. ground (arith, has_id-remove_id i id b.pending);
    provider = ground arith;
    watched = ground arith;
    joined = ground arith;
  }
  step_refines b (Input.agent (AgentEvent.displays id ds)) = record {
    waits = λ i. ground arith;
    provider = ground arith;
    watched = ground arith;
    joined = ground arith;
  }
  step_refines b (Input.agent (AgentEvent.closed id)) = record {
    waits = λ i. ground (arith, has_id-remove_id i id b.pending);
    provider = ground arith;
    watched = ground arith;
    joined = ground arith;
  }
  step_refines b (Input.command (capturing_cmd on)) = record {
    waits = λ i. refl;
    provider = refl;
    watched = refl;
    joined = refl;
  }
  step_refines b (Input.command cmd) = record {
    waits = λ i. ground arith;
    provider = ground arith;
    watched = ground arith;
    joined = ground arith;
  }
  step_refines b (Input.bitrate_tick bps) = record {
    waits = λ i. refl;
    provider = refl;
    watched = refl;
    joined = refl;
  }

spec_step-Same :
    (R : Type 0) (greeters : List ℕ) (s t : Spec) (i : Input R)
    → Same s t
    → Same (spec_step greeters s i) (spec_step greeters t i)
unfolding spec_step
spec_step-Same R greeters s t (Input.accept none) e = e
spec_step-Same R greeters s t (Input.accept (some uid)) e = record {
  waits = λ i. ground (arith, e.waits i, e.joined);
  provider = ground (arith, e.provider);
  watched = ground (arith, e.watched);
  joined = ground (arith, e.joined);
}
spec_step-Same R greeters s t (Input.agent (AgentEvent.hello id rect ds)) e = record {
  waits = λ i. ground (arith, e.waits i, e.waits id);
  provider = ground (arith, e.provider, e.waits id);
  watched = ground (arith, e.watched, e.waits id);
  joined = ground (arith, e.joined, e.waits id);
}
spec_step-Same R greeters s t (Input.agent (AgentEvent.displays id ds)) e = e
spec_step-Same R greeters s t (Input.agent (AgentEvent.closed id)) e = record {
  waits = λ i. ground (arith, e.waits i);
  provider = ground (arith, e.provider);
  watched = e.watched;
  joined = e.joined;
}
spec_step-Same R greeters s t (Input.command (capturing_cmd on)) e = record {
  waits = e.waits;
  provider = e.provider;
  watched = refl;
  joined = e.joined;
}
spec_step-Same R greeters s t (Input.command cmd) e = e
spec_step-Same R greeters s t (Input.bitrate_tick bps) e = e

Same-trans : (s t u : Spec) → Same s t → Same t u → Same s u
Same-trans s t u e f = record {
  waits = λ i. e.waits i ∙ f.waits i;
  provider = e.provider ∙ f.provider;
  watched = e.watched ∙ f.watched;
  joined = e.joined ∙ f.joined;
}

module _ {R : Type 0} where
  unfoldable pub run : List ℕ → Broker R → List (Input R) → Broker R × Sent
  run greeters b [] = (b, [])
  run greeters b (i ∷ inputs) =
      let (b', sent) = step greeters b i in
      let (end, rest) = run greeters b' inputs in (end, sent ++ rest)

  unfoldable pub spec_run : List ℕ → Spec → List (Input R) → Spec
  spec_run greeters s [] = s
  spec_run greeters s (i ∷ inputs) = spec_run greeters (spec_step greeters s i) inputs

module _ (R : Type 0) (greeters : List ℕ) where
  spec_run-Same :
      (s t : Spec) (inputs : List (Input R))
      → Same s t
      → Same (spec_run greeters s inputs) (spec_run greeters t inputs)
  unfolding spec_run
  spec_run-Same s t [] e = e
  spec_run-Same s t (i ∷ inputs) e =
      spec_run-Same (spec_step greeters s i) (spec_step greeters t i) inputs
        (spec_step-Same R greeters s t i e)

  -- The broker implements the choice of one provider: after any inputs, the agents that wait, the provider, the
  -- watching and the number of agents so far are those of the specification after the same inputs.
  pub run_refines :
      (b : Broker R) (inputs : List (Input R))
      → Same (abstract (run greeters b inputs).0) (spec_run greeters (abstract b) inputs)
  unfolding run spec_run
  run_refines b [] = record { waits = λ i. refl; provider = refl; watched = refl; joined = refl }
  run_refines b (i ∷ inputs) =
      let b' : Broker R = (step greeters b i).0 in
      Same-trans (abstract (run greeters b' inputs).0) (spec_run greeters (abstract b') inputs)
        (spec_run greeters (spec_step greeters (abstract b) i) inputs) (run_refines b' inputs)
        (spec_run-Same (abstract b') (spec_step greeters (abstract b) i) inputs
          (step_refines R greeters b i))
