-- ===== src/Rendezvous/Socket/Frames.antt =====
-- What leaves a signaling socket, and how much of it.
use mathlib.Core.List.{Memᴰ}
use reachmydevice.Prelude.{
  ℕ, ◌+◌, ◌-◌, ◌*◌, ◌≤◌, ◌≡◌, refl, inl, inr, ◌⊎◌, Bool, Option, some, List, [], ◌∷◌, ◌++◌, String,
  arith, if◌then◌else◌, length, All-append, All-map, length-append, All, Option-cases, Bool-cases,
}
use reachmydevice.Prelude.Store.{lookup}
use reachmydevice.Rendezvous.Throttle.{nanos}
use reachmydevice.Rendezvous.Hub.{Hub, Mail, relay, send}
use reachmydevice.Rendezvous.Hub.Accounts.{relay-mail}
use reachmydevice.Rendezvous.Limiter.{
  FrameLimiter, new, allow_at, allowed_count, allowed_count-new, Ordered, last_time, relay_burst,
  relay_frames_per_sec,
}
use reachmydevice.Rendezvous.Socket.{
  Message, text, close, control, Incoming, RelayFrame, relay_text, recv_task,
}

Message-cases : (m : Message) → ((t : String) × (m ≡ text t)) ⊎ (m ≡ close) ⊎ (m ≡ control)
Message-cases (text t) = inl (t, refl)
Message-cases close = inr (inl refl)
Message-cases control = inr (inr refl)

module _ {J : Type 0} (parse : String → Option (RelayFrame J)) (reply : String → J → String)
    (open' : ℕ → Bool) (me : String) (user : ℕ) where
  -- Why a text `got` may go into a channel `tx`: one of the messages found, on the hub of its time, a
  -- device of the account `user` behind `tx`, and `got` names `me` as its sender.
  abbrev pub Justified : List Incoming → ℕ × String → Type 0
  Justified is (tx, got) =
      (i : Incoming) × (to : String) × (payload : J) × Memᴰ i is
      × (lookup to i.hub.peers ≡ some (record { user_id = user; tx = tx }))
      × (got ≡ reply me payload)

  relay_text-Justified :
      (i : Incoming) (is : List Incoming) (t : String)
      → All (Justified (i ∷ is)) (relay_text parse reply open' me user i.hub t)
  unfolding relay_text
  relay_text-Justified i is t = elim (Option-cases (parse t)) [
    | inl e ↦ rw (e, relay_text) tt
    | inr (f, e) ↦
        rw (e, relay_text)
          (mailed f.to f.payload (relay open' i.hub user f.to (reply me f.payload)).1 refl)
  ]
    where
      mailed :
          (to : String) (p : J) (m : Mail)
          → (relay open' i.hub user to (reply me p)).1 ≡ m
          → All (Justified (i ∷ is)) m
      mailed to p [] e = tt
      mailed to p ((tx, got) ∷ rest) e =
          let r = relay-mail open' i.hub user to (reply me p) tx got rest e in
          ((i, to, p, Memᴰ.head refl, r.0, r.2), rw r.3 tt)

  abbrev later : (l : FrameLimiter) (is : List Incoming) → Mail
  later l is = recv_task parse reply open' me user l is

  recv_task-nil : (l : FrameLimiter) → later l [] ≡ []
  unfolding recv_task
  recv_task-nil l = refl

  recv_task-step :
      (l : FrameLimiter) (i : Incoming) (is : List Incoming) (t : String)
      → i.msg ≡ text t
      → later l (i ∷ is) ≡ (
          if (allow_at l i.now).1
          then relay_text parse reply open' me user i.hub t ++ later (allow_at l i.now).0 is
          else later (allow_at l i.now).0 is)
  unfolding recv_task
  recv_task-step l i is t e = rw (e, recv_task)

  recv_task-close :
      (l : FrameLimiter) (i : Incoming) (is : List Incoming) → i.msg ≡ close → later l (i ∷ is) ≡ []
  unfolding recv_task
  recv_task-close l i is e = rw (e, recv_task)

  recv_task-control :
      (l : FrameLimiter) (i : Incoming) (is : List Incoming)
      → i.msg ≡ control
      → later l (i ∷ is) ≡ later l is
  unfolding recv_task
  recv_task-control l i is e = rw (e, recv_task)

  Justified-tail :
      (i : Incoming) (is : List Incoming) (m : ℕ × String) → Justified is m → Justified (i ∷ is) m
  Justified-tail i is (tx, got) (j, to, p, mem, found, same) =
      (j, to, p, Memᴰ.tail mem, found, same)

  widen :
      (i : Incoming) (is : List Incoming) (m : Mail)
      → All (Justified is) m
      → All (Justified (i ∷ is)) m
  widen i is m = All-map (Justified is) (Justified (i ∷ is)) m (Justified-tail i is)

  -- Whatever frames a client sends, each text that its socket puts into a channel goes to a device of
  -- the client's own account, connected when one of the frames came, and carries the client's
  -- authenticated identity as its sender.
  pub recv_task-Justified :
      (l : FrameLimiter) (is : List Incoming) → All (Justified is) (later l is)
  unfolding recv_task
  recv_task-Justified l [] = tt
  recv_task-Justified l (i ∷ is) =
      by_message (Message-cases i.msg) (recv_task-Justified (allow_at l i.now).0 is)
        (recv_task-Justified l is)
    where
      by_message :
          ((t : String) × (i.msg ≡ text t)) ⊎ (i.msg ≡ close) ⊎ (i.msg ≡ control)
          → All (Justified is) (later (allow_at l i.now).0 is)
          → All (Justified is) (later l is)
          → All (Justified (i ∷ is)) (later l (i ∷ is))
      by_message (inl (t, e)) next same = elim (Bool-cases (allow_at l i.now).1) [
        | inl ok ↦
            rw (recv_task-step l i is t e, ok)
              (All-append (Justified (i ∷ is)) (relay_text parse reply open' me user i.hub t)
                (later (allow_at l i.now).0 is) (relay_text-Justified i is t)
                (widen i is (later (allow_at l i.now).0 is) next))
        | inr dropped ↦
            rw (recv_task-step l i is t e, dropped)
              (widen i is (later (allow_at l i.now).0 is) next)
      ]
      by_message (inr (inl e)) next same = rw (recv_task-close l i is e) tt
      by_message (inr (inr e)) next same =
          rw (recv_task-control l i is e) (widen i is (later l is) same)

  length-relay_text : (h : Hub) (t : String) → length (relay_text parse reply open' me user h t) ≤ 1
  unfolding relay_text relay send
  length-relay_text h t = ground arith

  -- When the texts among the messages come, up to the close message.
  abbrev pub text_times : List Incoming → List ℕ
  text_times [] = []
  text_times (i ∷ is) = elim i.msg [
    | text t ↦ i.now ∷ text_times is
    | close ↦ []
    | control ↦ text_times is
  ]

  length-recv_task :
      (l : FrameLimiter) (is : List Incoming)
      → length (later l is) ≤ allowed_count l (text_times is)
  unfolding allowed_count
  length-recv_task l [] = rw (recv_task-nil l) (omega arith)
  length-recv_task l (i ∷ is) =
      by_message (Message-cases i.msg) (length-recv_task (allow_at l i.now).0 is)
        (length-recv_task l is)
    where
      by_message :
          ((t : String) × (i.msg ≡ text t)) ⊎ (i.msg ≡ close) ⊎ (i.msg ≡ control)
          → length (later (allow_at l i.now).0 is)
            ≤ allowed_count (allow_at l i.now).0 (text_times is)
          → length (later l is) ≤ allowed_count l (text_times is)
          → length (later l (i ∷ is)) ≤ allowed_count l (text_times (i ∷ is))
      by_message (inl (t, e)) next same = elim (Bool-cases (allow_at l i.now).1) [
        | inl ok ↦
            rw (recv_task-step l i is t e, e, ok)
              (omega (
                arith,
                length-append (relay_text parse reply open' me user i.hub t)
                    (later (allow_at l i.now).0 is),
                length-relay_text i.hub t,
              ))
        | inr dropped ↦ rw (recv_task-step l i is t e, e, dropped) next
      ]
      by_message (inr (inl e)) next same = rw (recv_task-close l i is e) (omega arith)
      by_message (inr (inr e)) next same = rw (recv_task-control l i is e, e) same

  -- A new socket passes on at most 64 texts plus 16 for each second that has passed, whatever the
  -- client sends (counted in billionths).
  pub length-recv_task_new :
      (start : ℕ) (is : List Incoming)
      → Ordered start (text_times is)
      → length (later (new start) is) * nanos
        ≤ relay_burst * nanos + (last_time start (text_times is) - start) * relay_frames_per_sec
  length-recv_task_new start is h =
      omega (arith, length-recv_task (new start) is, allowed_count-new start (text_times is) h)
