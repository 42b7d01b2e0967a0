-- ===== src/Session/Broker/Admission.antt =====
-- Whose pictures the broker of crates/session/src/broker.rs takes: the history of the agent that provides.
use reachmydevice.Prelude.{
  ℕ, ◌+◌, ◌≡◌, ◌⊎◌, refl, inl, inr, sym, ap, ◌∙◌, Bool, true, false, ◌||◌, none, some, List, [],
  ◌∷◌, arith, ltb, ◌==◌, if◌then◌else◌, Bool-cases,
}
use reachmydevice.Session.Broker.{
  Broker, AgentEvent, Input, has_id, remove_id, permits, new, on_accept, on_agent, on_command, step,
}
use reachmydevice.Session.Broker.Provider.{has_id-remove_id, run}

-- Root, the account of a person, or a greeter's.
abbrev pub may_run : List ℕ → ℕ → Bool
may_run greeters uid = uid == 0 || (ltb 999 uid || has_id uid greeters)

permits-may_run :
    (greeters : List ℕ) (uid : ℕ) (value : Bool)
    → permits greeters uid ≡ value
    → may_run greeters uid ≡ value
unfolding permits
permits-may_run greeters uid value h = ground (arith, h)

module _ {R : Type 0} (greeters : List ℕ) where
  -- A connection of a user that may run an agent.
  unfoldable pub lets_in : Input R → Bool
  lets_in (Input.accept (some uid)) = may_run greeters uid
  lets_in i = false

  unfoldable pub says_hello : ℕ → Input R → Bool
  says_hello a (Input.agent (AgentEvent.hello id rect ds)) = id == a
  says_hello a i = false

  unfoldable pub closes : ℕ → Input R → Bool
  closes a (Input.agent (AgentEvent.closed id)) = id == a
  closes a i = false

  -- How many were let in. A history has the latest input first.
  unfoldable pub joined : List (Input R) → ℕ
  joined [] = 0
  joined (i ∷ past) = if lets_in i then joined past + 1 else joined past

  -- The `a`-th connection that was let in is there, and has not closed since.
  abbrev pub IsAdmitted : ℕ → List (Input R) → Type 0
  IsAdmitted a [] = ⊥
  IsAdmitted a (i ∷ past) =
      ((lets_in i ≡ true) × (joined past ≡ a)) ⊎ ((closes a i ≡ false) × IsAdmitted a past)

  -- It said `Hello` when it was there, and has not closed since.
  abbrev pub Provides : ℕ → List (Input R) → Type 0
  Provides a [] = ⊥
  Provides a (i ∷ past) =
      ((says_hello a i ≡ true) × IsAdmitted a past) ⊎ ((closes a i ≡ false) × Provides a past)

  abbrev pub latest_first : List (Input R) → List (Input R) → List (Input R)
  latest_first [] past = past
  latest_first (i ∷ inputs) past = latest_first inputs (i ∷ past)

  record Explained (b : Broker R) (past : List (Input R)) : Type 0 where
    provider : (a : ℕ) → b.active ≡ some a → Provides a past
    waiting : (a : ℕ) → has_id a b.pending ≡ true → IsAdmitted a past
    count : b.next_id ≡ joined past

  -- An input that changes none of the three.
  passed :
      (b c : Broker R) (i : Input R) (past : List (Input R))
      → c.active ≡ b.active
      → c.pending ≡ b.pending
      → c.next_id ≡ b.next_id
      → lets_in i ≡ false
      → ((a : ℕ) → closes a i ≡ false)
      → Explained b past
      → Explained c (i ∷ past)
  unfolding joined
  passed b c i past same_active same_pending same_id shut open' w = record {
    provider = λ a h. inr (open' a, w.provider a (sym same_active ∙ h));
    waiting = λ a h. inr (open' a, w.waiting a (ap (has_id a) (sym same_pending) ∙ h));
    count = same_id ∙ ground (arith, w.count, shut);
  }

  accept-Explained :
      (b : Broker R) (uid : ℕ) (past : List (Input R))
      → permits greeters uid ≡ true
      → Explained b past
      → Explained (on_accept greeters b (some uid)).0 (Input.accept (some uid) ∷ past)
  unfolding on_accept joined lets_in closes
  accept-Explained b uid past may w = rw may (record {
    provider = λ a h. inr (refl, w.provider a h);
    waiting = λ a h. elim (Bool-cases (b.next_id == a)) [
      | inl same ↦ inl (permits-may_run greeters uid true may, ground (arith, w.count, same))
      | inr other ↦ inr (refl, w.waiting a (ground (arith, other, h)))
    ];
    count = ground (arith, w.count, permits-may_run greeters uid true may);
  })

  hello-Explained :
      (b : Broker R) (id : ℕ) (i : Input R) (c : Broker R) (past : List (Input R))
      → c.active ≡ some id
      → c.pending ≡ remove_id id b.pending
      → c.next_id ≡ b.next_id
      → lets_in i ≡ false
      → ((a : ℕ) → closes a i ≡ false)
      → says_hello id i ≡ true
      → has_id id b.pending ≡ true
      → Explained b past
      → Explained c (i ∷ past)
  unfolding joined
  hello-Explained b id i c past is_active left same_id shut open' said waits w = record {
    provider = λ a h.
        let same : id ≡ a = ground (arith, is_active, h) in
        inl (
          ap (λ x. says_hello x i) (sym same) ∙ said,
          w.waiting a (ap (λ x. has_id x b.pending) (sym same) ∙ waits),
        );
    waiting = λ a h.
        inr (open' a, w.waiting a (ground (arith, left, h, has_id-remove_id a id b.pending)));
    count = same_id ∙ ground (arith, w.count, shut);
  }

  closed-Explained :
      (b : Broker R) (id : ℕ) (past : List (Input R))
      → Explained b past
      → Explained (on_agent b (AgentEvent.closed id)).0 (Input.agent (AgentEvent.closed id) ∷ past)
  unfolding on_agent joined lets_in closes
  closed-Explained b id past w = record {
    provider = λ a h. inr (ground (arith, h), w.provider a (ground (arith, h)));
    waiting = λ a h. inr (
      ground (arith, h, has_id-remove_id a id b.pending),
      w.waiting a (ground (arith, h, has_id-remove_id a id b.pending)),
    );
    count = ground (arith, w.count);
  }

  step-Explained :
      (b : Broker R) (i : Input R) (past : List (Input R))
      → Explained b past
      → Explained (step greeters b i).0 (i ∷ past)
  unfolding step on_accept on_agent on_command lets_in closes says_hello
  step-Explained b (Input.accept none) past w =
      passed b b (Input.accept none) past refl refl refl refl (λ a. refl) w
  step-Explained b (Input.accept (some uid)) past w = elim (Bool-cases (permits greeters uid)) [
    | inl may ↦ accept-Explained b uid past may w
    | inr may ↦ rw may (
        passed b b (Input.accept (some uid)) past refl refl refl
          (permits-may_run greeters uid false may) (λ a. refl) w)
  ]
  step-Explained b (Input.agent (AgentEvent.hello id rect ds)) past w =
      let i : Input R = Input.agent (AgentEvent.hello id rect ds) in
      elim (Bool-cases (has_id id b.pending)) [
        | inl waits ↦
            hello-Explained b id i (step greeters b i).0 past (ground (arith, waits))
              (ground (arith, waits)) (ground (arith, waits)) refl (λ a. refl) (ground arith) waits
              w
        | inr gone ↦ rw gone (passed b b i past refl refl refl refl (λ a. refl) w)
      ]
  step-Explained b (Input.agent (AgentEvent.displays id ds)) past w =
      let i : Input R = Input.agent (AgentEvent.displays id ds) in
      passed b (step greeters b i).0 i past (ground arith) (ground arith) (ground arith) refl
        (λ a. refl) w
  step-Explained b (Input.agent (AgentEvent.closed id)) past w = closed-Explained b id past w
  step-Explained b (Input.command cmd) past w =
      passed b (step greeters b (Input.command cmd)).0 (Input.command cmd) past (ground arith)
        (ground arith) (ground arith) refl (λ a. refl) w
  step-Explained b (Input.bitrate_tick bps) past w =
      passed b b (Input.bitrate_tick bps) past refl refl refl refl (λ a. refl) w

  run-Explained :
      (b : Broker R) (inputs past : List (Input R))
      → Explained b past
      → Explained (run greeters b inputs).0 (latest_first inputs past)
  unfolding run
  run-Explained b [] past w = w
  run-Explained b (i ∷ inputs) past w =
      run-Explained (step greeters b i).0 inputs (i ∷ past) (step-Explained b i past w)

-- Only an agent that was let in provides the picture: whatever happened since the broker's start, the active
-- agent `a` is the `a`-th connection, counted from 0, of a user that may run one, it said `Hello` after it
-- came, and it has not closed since.
pub run-Provides :
    (R : Type 0) (greeters : List ℕ) (inputs : List (Input R)) (a : ℕ)
    → (run greeters new inputs).0.active ≡ some a
    → Provides greeters a (latest_first greeters inputs [])
unfolding new joined
run-Provides R greeters inputs a h = (run-Explained greeters new inputs [] start).provider a h
  where
    start : Explained greeters (new {R = R}) []
    start = record { provider = λ a h. absurd (cc); waiting = λ a h. absurd (cc); count = refl }
