-- ===== src/Session/Broker/Capturing.antt =====
-- What the agents of crates/session/src/broker.rs know about capturing.
use reachmydevice.Prelude.{
  ℕ, ◌≤◌, ◌<◌, ◌≡◌, refl, ap, ◌∙◌, inl, inr, Bool, true, false, Option, none, some, List, [], ◌∷◌,
  ◌++◌, arith, ◌==◌, if◌then◌else◌, Bool-cases,
}
use reachmydevice.Protocol.{DisplayDescriptor}
use reachmydevice.Session.Broker.{
  Broker, set_capturing, PlaneCmd, capturing_cmd, select_cmd, show_cursor_cmd, keyframe_cmd,
  AgentEvent, Input, Sent, has_id, permits, tell, new, on_accept, on_agent, on_command, step,
}
use reachmydevice.Session.Broker.Provider.{has_id-remove_id, run}

-- What an agent was last told about capturing; nothing is `false`, since an agent starts idle.
abbrev pub told : ℕ → Sent → Bool → Bool
told id [] last = last
told id ((j, set_capturing on) ∷ sent) last = told id sent (if j == id then on else last)
told id ((j, m) ∷ sent) last = told id sent last

told-append :
    (id : ℕ) (xs ys : Sent) (last : Bool) → told id (xs ++ ys) last ≡ told id ys (told id xs last)
told-append id [] ys last = refl
told-append id ((j, set_capturing on) ∷ xs) ys last =
    told-append id xs ys (if j == id then on else last)
told-append id ((j, m) ∷ xs) ys last = told-append id xs ys last

-- What the viewer's session asked for last; nothing is `false`.
unfoldable pub asked : {R : Type 0} → List (Input R) → Bool → Bool
asked [] last = last
asked (Input.command (capturing_cmd on) ∷ inputs) last = asked inputs on
asked (i ∷ inputs) last = asked inputs last

-- The agents know what they have to: the provider whether it captures, all others that they do not.
pub record Informed {R : Type 0} (b : Broker R) (knows : ℕ → Bool) : Type 0 where
  pub provider : (a : ℕ) → b.active ≡ some a → knows a ≡ b.capturing
  pub waiting : (i : ℕ) → has_id i b.pending ≡ true → knows i ≡ false
  pub later : (i : ℕ) → b.next_id ≤ i → knows i ≡ false
  pub apart : (a : ℕ) → b.active ≡ some a → has_id a b.pending ≡ false
  pub active_known : (a : ℕ) → b.active ≡ some a → a < b.next_id
  pub pending_known : (i : ℕ) → has_id i b.pending ≡ true → i < b.next_id

Informed-ext :
    {R : Type 0} (b : Broker R) (knows knows' : ℕ → Bool)
    → Informed b knows
    → ((i : ℕ) → knows' i ≡ knows i)
    → Informed b knows'
Informed-ext b knows knows' k e = record {
  provider = λ a h. e a ∙ k.provider a h;
  waiting = λ i h. e i ∙ k.waiting i h;
  later = λ i h. e i ∙ k.later i h;
  apart = k.apart;
  active_known = k.active_known;
  pending_known = k.pending_known;
}

module _ (R : Type 0) (greeters : List ℕ) where
  accept-Informed :
      (b : Broker R) (peer : Option ℕ) (knows : ℕ → Bool)
      → Informed b knows
      → Informed (on_accept greeters b peer).0 knows
  unfolding on_accept
  accept-Informed b none knows k = k
  accept-Informed b (some uid) knows k = elim (Bool-cases (permits greeters uid)) [
    | inr e ↦ rw e k
    | inl e ↦ rw e (record {
      provider = k.provider;
      waiting = λ i h. ground (arith, k.waiting i, k.later i);
      later = λ i h. k.later i (omega (arith, h));
      apart = λ a h. ground (arith, k.apart a h, k.active_known a h);
      active_known = λ a h. omega (arith, k.active_known a h);
      pending_known = λ i h. ground (arith, k.pending_known i);
    })
  ]

  hello-Informed :
      (b : Broker R) (id : ℕ) (rect : Option R) (ds : List DisplayDescriptor) (knows : ℕ → Bool)
      → Informed b knows
      → has_id id b.pending ≡ true
      → Informed
          (on_agent b (AgentEvent.hello id rect ds)).0
          (λ i. told i (on_agent b (AgentEvent.hello id rect ds)).1 (knows i))
  unfolding on_agent
  hello-Informed b id rect ds knows k waits = rw waits (record {
    provider = λ a h. ground (arith, h, k.waiting a, k.waiting id waits);
    waiting = λ i h. ground (arith, h, has_id-remove_id i id b.pending, k.waiting i);
    later = λ i h. ground (arith, k.later i h, k.pending_known id waits);
    apart = λ a h. ground (arith, h, has_id-remove_id a id b.pending);
    active_known = λ a h. ground (arith, h, k.pending_known id waits);
    pending_known = λ i h. ground (arith, h, has_id-remove_id i id b.pending, k.pending_known i);
  })

  closed-Informed :
      (b : Broker R) (id : ℕ) (knows : ℕ → Bool)
      → Informed b knows
      → Informed (on_agent b (AgentEvent.closed id)).0 knows
  unfolding on_agent
  closed-Informed b id knows k = record {
    provider = λ a h. ground (arith, h, k.provider a);
    waiting = λ i h. ground (arith, h, has_id-remove_id i id b.pending, k.waiting i);
    later = λ i h. ground (arith, h, k.later i);
    apart = λ a h. ground (arith, h, has_id-remove_id a id b.pending, k.apart a);
    active_known = λ a h. ground (arith, h, k.active_known a);
    pending_known = λ i h. ground (arith, h, has_id-remove_id i id b.pending, k.pending_known i);
  }

  tell-Informed :
      (b : Broker R) (cmd : PlaneCmd) (knows : ℕ → Bool)
      → Informed b knows
      → Informed (on_command b cmd).0 (λ i. told i (on_command b cmd).1 (knows i))
  unfolding on_command tell
  tell-Informed b (capturing_cmd on) knows k = record {
    provider = λ a h. ground (arith, h);
    waiting = λ i h. ground (arith, h, k.waiting i h, k.apart i);
    later = λ i h. ground (arith, h, k.later i h, k.active_known i);
    apart = k.apart;
    active_known = k.active_known;
    pending_known = k.pending_known;
  }
  tell-Informed b cmd knows k = record {
    provider = λ a h. ground (arith, h, k.provider a h);
    waiting = λ i h. ground (arith, h, k.waiting i h);
    later = λ i h. ground (arith, h, k.later i h);
    apart = k.apart;
    active_known = k.active_known;
    pending_known = k.pending_known;
  }

  step-Informed :
      (b : Broker R) (i : Input R) (knows : ℕ → Bool)
      → Informed b knows
      → Informed (step greeters b i).0 (λ a. told a (step greeters b i).1 (knows a))
  unfolding step on_accept on_agent tell
  step-Informed b (Input.accept peer) knows k =
      Informed-ext (on_accept greeters b peer).0 knows
        (λ a. told a (step greeters b (Input.accept peer)).1 (knows a))
        (accept-Informed b peer knows k) (λ a. ground arith)
  step-Informed b (Input.agent (AgentEvent.hello id rect ds)) knows k =
      elim (Bool-cases (has_id id b.pending)) [
        | inl e ↦ hello-Informed b id rect ds knows k e
        | inr e ↦ rw e k
      ]
  step-Informed b (Input.agent (AgentEvent.displays id ds)) knows k =
      elim (Bool-cases (b.active_id == id)) [
        | inl e ↦ rw e (record {
          provider = k.provider;
          waiting = k.waiting;
          later = k.later;
          apart = k.apart;
          active_known = k.active_known;
          pending_known = k.pending_known;
        })
        | inr e ↦ rw e k
      ]
  step-Informed b (Input.agent (AgentEvent.closed id)) knows k =
      Informed-ext (on_agent b (AgentEvent.closed id)).0 knows
        (λ a. told a (step greeters b (Input.agent (AgentEvent.closed id))).1 (knows a))
        (closed-Informed b id knows k) (λ a. ground arith)
  step-Informed b (Input.command cmd) knows k = tell-Informed b cmd knows k
  step-Informed b (Input.bitrate_tick bps) knows k =
      Informed-ext b knows (λ a. told a (step greeters b (Input.bitrate_tick bps)).1 (knows a)) (k)
        (λ a. ground arith)

  accept_keeps :
      (b : Broker R) (peer : Option ℕ) → (on_accept greeters b peer).0.capturing ≡ b.capturing
  unfolding on_accept
  accept_keeps b none = refl
  accept_keeps b (some uid) = ground arith

  agent_keeps : (b : Broker R) (ev : AgentEvent R) → (on_agent b ev).0.capturing ≡ b.capturing
  unfolding on_agent
  agent_keeps b (AgentEvent.hello id rect ds) = ground arith
  agent_keeps b (AgentEvent.displays id ds) = ground arith
  agent_keeps b (AgentEvent.closed id) = ground arith

  run-Informed :
      (b : Broker R) (inputs : List (Input R)) (knows : ℕ → Bool)
      → Informed b knows
      → Informed (run greeters b inputs).0 (λ a. told a (run greeters b inputs).1 (knows a))
  unfolding run
  run-Informed b [] knows k = k
  run-Informed b (i ∷ inputs) knows k =
      let b' : Broker R = (step greeters b i).0 in
      let sent : Sent = (step greeters b i).1 in
      let more : Sent = (run greeters b' inputs).1 in
      Informed-ext (run greeters b' inputs).0 (λ a. told a more (told a sent (knows a)))
        (λ a. told a (sent ++ more) (knows a))
        (run-Informed b' inputs (λ a. told a sent (knows a)) (step-Informed b i knows k))
        (λ a. told-append a sent more (knows a))

  -- The flag of the broker is what was asked for last.
  capturing-asked :
      (b : Broker R) (inputs : List (Input R))
      → (run greeters b inputs).0.capturing ≡ asked inputs b.capturing
  unfolding run asked step on_accept on_agent on_command tell
  capturing-asked b [] = refl
  capturing-asked b (Input.accept none ∷ inputs) = capturing-asked b inputs
  capturing-asked b (Input.accept (some uid) ∷ inputs) =
      capturing-asked (step greeters b (Input.accept (some uid))).0 inputs
      ∙ ap (asked inputs) (accept_keeps b (some uid))
  capturing-asked b (Input.agent ev ∷ inputs) =
      capturing-asked (step greeters b (Input.agent ev)).0 inputs
      ∙ ap (asked inputs) (agent_keeps b ev)
  capturing-asked b (Input.command (capturing_cmd on) ∷ inputs) =
      capturing-asked (step greeters b (Input.command (capturing_cmd on))).0 inputs
  capturing-asked b (Input.command (select_cmd n) ∷ inputs) = capturing-asked b inputs
  capturing-asked b (Input.command (show_cursor_cmd show) ∷ inputs) = capturing-asked b inputs
  capturing-asked b (Input.command keyframe_cmd ∷ inputs) = capturing-asked b inputs
  capturing-asked b (Input.bitrate_tick bps ∷ inputs) = capturing-asked b inputs

  -- Handover: whatever agents come and go, the last thing that the active agent was told about capturing is
  -- the last command of the viewer's session about it, also if that came before the agent; without any, it
  -- was told nothing or to stop.
  pub run-told :
      (inputs : List (Input R)) (a : ℕ)
      → (run greeters new inputs).0.active ≡ some a
      → told a (run greeters new inputs).1 false ≡ asked inputs false
  unfolding new
  run-told inputs a h =
      (run-Informed new inputs (λ i. false) start).provider a h ∙ capturing-asked new inputs
    where
      start : Informed (new {R = R}) (λ i. false)
      start = record {
        provider = λ a h. refl;
        waiting = λ i h. refl;
        later = λ i h. refl;
        apart = λ a h. refl;
        active_known = λ a h. absurd (ground arith);
        pending_known = λ i h. absurd (ground arith);
      }
