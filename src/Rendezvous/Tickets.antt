-- ===== src/Rendezvous/Tickets.antt =====
-- apps/rendezvous/src/auth.rs, `TicketStore`, with the credential of resolver.rs: one-time tickets
-- for the WebSocket upgrade. The random ticket and the clock (nanoseconds) are arguments.
use reachmydevice.Prelude.{
  ℕ, ◌+◌, ◌*◌, ◌≤◌, min, max, ◌≡◌, ◌≢◌, inl, inr, Bool, Option, none, some, List, [], ◌∷◌, String,
  arith, ltb, if◌then◌else◌, eq_iff, eq_refl, Option-cases,
}
use reachmydevice.Prelude.Store.{
  Store, lookup, insert, remove, retain, Unique, lookup-insert, lookup-remove, lookup-retain,
  insert-Unique, retain-Unique, remove-Unique,
}
use reachmydevice.Rendezvous.Throttle.{nanos}

-- `user_id` is an `i64` that the code only compares.
pub record ResolvedCredential : Type 0 where
  pub user_id : ℕ
  pub signaling_id : String

-- A ticket's credential and the time at which it expires.
abbrev pub TicketStore : Type 0
TicketStore = Store (ResolvedCredential × ℕ)

-- `RMD_WS_TICKET_TTL` as parsed, in seconds; the result is in nanoseconds.
unfoldable pub ticket_ttl : Option ℕ → ℕ
ticket_ttl none = 120 * nanos
ticket_ttl (some s) = max 5 (min s 3600) * nanos

is_live : ℕ → ResolvedCredential × ℕ → Bool
is_live now (cred, exp) = ltb now exp

unfoldable pub issue : TicketStore → ResolvedCredential → String → ℕ → ℕ → TicketStore
unfolding is_live
issue m cred ticket now ttl = insert ticket (cred, now + ttl) (retain (is_live now) m)

unexpired : ℕ → Option (ResolvedCredential × ℕ) → Option ResolvedCredential
unexpired now none = none
unexpired now (some (cred, exp)) = if ltb now exp then some cred else none

unfoldable pub redeem : TicketStore → String → ℕ → TicketStore × Option ResolvedCredential
unfolding unexpired
redeem m ticket now = (remove ticket m, unexpired now (lookup ticket m))

-- A ticket just issued gives its credential until its time to live, at least 5 seconds and at most an
-- hour, is over, and nothing from then on.
pub redeem-issue :
    (m : TicketStore) (cred : ResolvedCredential) (ticket : String) (now later : ℕ) (env : Option ℕ)
    → ((redeem (issue m cred ticket now (ticket_ttl env)) ticket later).1
        ≡ (if ltb later (now + ticket_ttl env) then some cred else none))
      × (5 * nanos ≤ ticket_ttl env)
      × (ticket_ttl env ≤ 3600 * nanos)
unfolding redeem issue ticket_ttl
redeem-issue m cred ticket now later none = (
  ground (
    arith,
    lookup-insert ticket ticket (cred, now + 120 * nanos) (retain (is_live now) m),
    eq_refl ticket,
  ),
  omega arith,
  omega arith,
)
redeem-issue m cred ticket now later (some s) = (
  ground (
    arith,
    lookup-insert ticket ticket (cred, now + max 5 (min s 3600) * nanos) (retain (is_live now) m),
    eq_refl ticket,
  ),
  omega arith,
  omega arith,
)

-- Issuing a ticket drops no other ticket that could still be redeemed.
pub redeem-issue_other :
    (m : TicketStore) (cred : ResolvedCredential) (ticket other : String) (now ttl later : ℕ)
    → Unique m
    → ticket ≢ other
    → now ≤ later
    → (redeem (issue m cred ticket now ttl) other later).1 ≡ (redeem m other later).1
unfolding redeem issue
redeem-issue_other m cred ticket other now ttl later u ne h = elim (Option-cases (lookup other m)) [
  | inl n ↦ ground (
    arith,
    lookup-insert ticket other (cred, now + ttl) (retain (is_live now) m),
    lookup-retain (is_live now) other m u,
    eq_iff ticket other,
  )
  | inr (a, e) ↦ ground (
    arith,
    lookup-insert ticket other (cred, now + ttl) (retain (is_live now) m),
    lookup-retain (is_live now) other m u,
    eq_iff ticket other,
  )
]

-- What else may happen to the store.
pub data Op : Type 0 where
  issues : ResolvedCredential → String → ℕ → ℕ → Op
  redeems : String → ℕ → Op

unfoldable pub step : TicketStore → Op → TicketStore
step m (issues cred ticket now ttl) = issue m cred ticket now ttl
step m (redeems ticket now) = (redeem m ticket now).0

unfoldable pub run : TicketStore → List Op → TicketStore
run m [] = m
run m (o ∷ os) = run (step m o) os

-- No operation of the list issues the ticket.
abbrev pub NotIssued : String → List Op → Type 0
NotIssued k [] = Unit
NotIssued k (issues cred ticket now ttl ∷ os) = (ticket ≢ k) × NotIssued k os
NotIssued k (redeems ticket now ∷ os) = NotIssued k os

step-Unique : (m : TicketStore) (o : Op) → Unique m → Unique (step m o)
unfolding step issue redeem
step-Unique m (issues cred ticket now ttl) u =
    insert-Unique ticket _ _ (retain-Unique (is_live now) m u)
step-Unique m (redeems ticket now) u = remove-Unique ticket m u

lookup-run :
    (m : TicketStore) (k : String) (os : List Op)
    → Unique m
    → lookup k m ≡ none
    → NotIssued k os
    → lookup k (run m os) ≡ none
unfolding run step issue redeem
lookup-run m k [] u e h = e
lookup-run m k (issues cred ticket now ttl ∷ os) u e h =
    lookup-run (step m (issues cred ticket now ttl)) k os
      (step-Unique m (issues cred ticket now ttl) u)
      (ground (
        arith,
        lookup-insert ticket k (cred, now + ttl) (retain (is_live now) m),
        lookup-retain (is_live now) k m u,
        eq_iff ticket k,
      ))
      h.1
lookup-run m k (redeems ticket now ∷ os) u e h =
    lookup-run (step m (redeems ticket now)) k os (step-Unique m (redeems ticket now) u)
      (ground (arith, lookup-remove ticket k m)) h

-- Single use: once a ticket was presented, whether it was valid or not, it never gives a credential
-- again, whatever other tickets are issued and presented in between, unless it is issued anew.
pub redeem_once :
    (m : TicketStore) (k : String) (now later : ℕ) (os : List Op)
    → Unique m
    → NotIssued k os
    → (redeem (run (redeem m k now).0 os) k later).1 ≡ none
unfolding redeem
redeem_once m k now later os u h = rw (
    lookup-run (remove k m) k os (remove-Unique k m u)
      (ground (arith, lookup-remove k k m, eq_refl k)) h)
