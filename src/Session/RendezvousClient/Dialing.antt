-- ===== src/Session/RendezvousClient/Dialing.antt =====
-- crates/session/src/rendezvous.rs, `run`: the attempts to connect. Times are nanoseconds. `restart_in_place` does
-- not return.
use reachmydevice.Prelude.{
  ℕ, ◌+◌, ◌-◌, ◌*◌, ◌≤◌, ◌≡◌, refl, sym, ◌∙◌, min, Bool, true, false, not, ◌&&◌, Option, none, some,
  List, [], ◌∷◌, leb, if◌then◌else◌, arith, ◌≢◌, All, ◌⊎◌, inl, inr, ◌++◌, ap, Bool-cases,
  Option-cases,
}

abbrev second : ℕ
second = 1000000000

abbrev pub watchdog : ℕ
watchdog = 150 * second

abbrev pub backoff_limit : ℕ
backoff_limit = 30 * second

pub record Dial : Type 0 where
  pub token : List ℕ
  pub first_fail : Option ℕ
  pub backoff : ℕ

unfoldable pub first_dial : List ℕ → Dial
first_dial token = record { token = token; first_fail = none; backoff = second }

-- The result of `connect_async` with its timeout. A rejected token comes with what the refresher gives.
pub data Attempt : Type 0 where
  connected : Attempt
  unauthorized : Option (List ℕ) → Attempt
  failed timed_out : Attempt

pub data Next : Type 0 where
  relay retry_now restart_in_place : Next
  sleep : ℕ → Next

abbrev pub since : Option ℕ → ℕ → ℕ
since none now = now
since (some t) now = t

abbrev pub is_idle : Option Bool → Bool
is_idle none = false
is_idle (some a) = not a

-- `active` is the flag of the session, which the viewer does not give.
unfoldable pub fail : Dial → ℕ → Option Bool → Dial × Next
fail d now active =
    let start = since d.first_fail now in
    if is_idle active && leb watchdog (now - start)
    then (record d { first_fail = some start }, restart_in_place)
    else (
      record d { first_fail = some start; backoff = min (d.backoff * 2) backoff_limit },
      sleep d.backoff,
    )

unfoldable pub dial : Dial → Attempt → ℕ → Option Bool → Dial × Next
unfolding fail
dial d connected now active = (record d { first_fail = none; backoff = second }, relay)
dial d (unauthorized (some token)) now active =
    (record d { token = token; first_fail = none }, retry_now)
dial d (unauthorized none) now active = fail d now active
dial d failed now active = fail d now active
dial d timed_out now active = fail d now active

-- One attempt: its result, its time, and the session's flag then.
pub record Try : Type 0 where
  pub attempt : Attempt
  pub now : ℕ
  pub active : Option Bool

abbrev pub try_dial : Dial → Try → Dial × Next
try_dial d t = dial d t.attempt t.now t.active

unfoldable pub dial_run : Dial → List Try → Dial
dial_run d [] = d
dial_run d (t ∷ ts) = dial_run (try_dial d t).0 ts

abbrev pub fails : Attempt → Bool
fails connected = false
fails (unauthorized (some token)) = false
fails a = true

-- A try that fails is one of `fail`.
dial_fails : (d : Dial) (t : Try) → fails t.attempt ≡ true → try_dial d t ≡ fail d t.now t.active
unfolding dial
dial_fails d t h = by_attempt t.attempt h
  where
    by_attempt : (a : Attempt) → fails a ≡ true → dial d a t.now t.active ≡ fail d t.now t.active
    by_attempt connected e = absurd (ground arith)
    by_attempt (unauthorized (some token)) e = absurd (ground arith)
    by_attempt (unauthorized none) e = refl
    by_attempt failed e = refl
    by_attempt timed_out e = refl

dial_works :
    (d : Dial) (t : Try)
    → fails t.attempt ≡ false
    → ((try_dial d t).0.first_fail ≡ none) × ((try_dial d t).1 ≢ restart_in_place)
unfolding dial
dial_works d t h = by_attempt t.attempt h
  where
    by_attempt :
        (a : Attempt)
        → fails a ≡ false
        → ((dial d a t.now t.active).0.first_fail ≡ none)
          × ((dial d a t.now t.active).1 ≢ restart_in_place)
    by_attempt connected e = (refl, λ same. absurd (ground arith))
    by_attempt (unauthorized (some token)) e = (refl, λ same. absurd (ground arith))
    by_attempt (unauthorized none) e = absurd (ground arith)
    by_attempt failed e = absurd (ground arith)
    by_attempt timed_out e = absurd (ground arith)

fail_start :
    (d : Dial) (now : ℕ) (active : Option Bool)
    → (fail d now active).0.first_fail ≡ some (since d.first_fail now)
unfolding fail
fail_start d now active = ground arith

-- The tries since the first failure all failed.
abbrev pub Failing : List Try → Type 0
Failing ts = All (λ t. fails t.attempt ≡ true) ts

abbrev Streak : Dial → List Try → ℕ → Type 0
Streak d ts start =
    ((d.first_fail ≡ some start) × Failing ts)
    ⊎ ((before : List Try) × (f : Try) × (rest : List Try) × (ts ≡ before ++ f ∷ rest)
        × (f.now ≡ start)
        × Failing (f ∷ rest))

streak :
    (d : Dial) (ts : List Try) (start : ℕ)
    → (dial_run d ts).first_fail ≡ some start
    → Streak d ts start
unfolding dial_run
streak d [] start h = inl (h, tt)
streak d (t ∷ ts) start h = elim (streak (try_dial d t).0 ts start h) [
  | inr (before, f, rest, split, same, failing) ↦
      inr (t ∷ before, f, rest, ap (λ l. t ∷ l) split, same, failing)
  | inl (begun, failing) ↦ elim (Bool-cases (fails t.attempt)) [
    | inr fine ↦ absurd (let (reset', _) = dial_works d t fine in ground (arith, reset', begun))
    | inl bad ↦
        let e : some start ≡ some (since d.first_fail t.now) =
          sym begun ∙ ap (λ x. x.0.first_fail) (dial_fails d t bad) ∙ fail_start d t.now t.active in
        elim (Option-cases d.first_fail) [
          | inl none' ↦
              (let whole : Failing (t ∷ ts) = (bad, failing) in
                inr ([], t, ts, refl, ground (arith, e, none'), whole))
          | inr (s, known) ↦ inl (ground (arith, e, known), (bad, failing))
        ]
  ]
]

-- What a restart wants.
restarting :
    (d : Dial) (now : ℕ) (active : Option Bool)
    → (fail d now active).1 ≡ restart_in_place
    → (active ≡ some false) × (watchdog ≤ now - since d.first_fail now)
unfolding fail
restarting d now active h = (ground arith, ground arith)

-- The process restarts itself only if the caller gave it a session's flag, no session is active at that time, and
-- for at least 150 seconds every attempt failed: none connected, and no new token was had.
pub dial_run-restart :
    (token : List ℕ) (ts : List Try) (t : Try)
    → (try_dial (dial_run (first_dial token) ts) t).1 ≡ restart_in_place
    → (t.active ≡ some false)
      × (before : List Try) × (f : Try) × (rest : List Try) × (ts ≡ before ++ f ∷ rest)
      × (f.now + watchdog ≤ t.now)
      × Failing (f ∷ rest)
      × (fails t.attempt ≡ true)
unfolding first_dial
dial_run-restart token ts t h =
    let d = dial_run (first_dial token) ts in
    elim (Bool-cases (fails t.attempt)) [
      | inr fine ↦ absurd (let (_, stays) = dial_works d t fine in stays h)
      | inl bad ↦
          let (idle, long) =
            restarting d t.now t.active (sym (ap (λ x. x.1) (dial_fails d t bad)) ∙ h) in
          elim (Option-cases d.first_fail) [
            | inl none' ↦ absurd (ground (arith, long, none'))
            | inr (s, known) ↦ elim (streak (first_dial token) ts s known) [
              | inl (begun, _) ↦ absurd (ground (arith, begun))
              | inr (before, f, rest, split, same, failing) ↦
                  (idle, before, f, rest, split, ground (arith, long, known, same), failing, bad)
            ]
          ]
    ]
