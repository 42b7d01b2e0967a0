-- ===== src/Session/RendezvousClient/Replay.antt =====
-- What a viewer that announces itself again gets from the client of crates/session/src/rendezvous.rs.
use reachmydevice.Prelude.{
  ℕ, suc, ◌≤◌, ◌≡◌, refl, sym, ap, ◌∙◌, subst, Bool, true, false, not, ◌&&◌, some, List, [], ◌∷◌,
  ◌++◌, map, String, str_eq, eq_refl, arith, All, length, take, take_all, append_assoc, append-nil,
  if◌then◌else◌,
}
use reachmydevice.Session.Identity.Sdp.{SignalMsg, offer, answer, candidate}
use reachmydevice.Session.RendezvousClient.{
  Payload, hello, signal, Result, running, session_ended, socket_closed, is_peer, bad_text, other,
  failed, end_of_stream, ping, send, Inbound, Relay, Output, signal_to, Stop, ends, after, text,
  Event, outgoing, incoming, announce, keepalive, session_dropped, write_all, remember, on_outgoing,
  on_payload, on_inbound, on_frame, on_announce, switch, replay, relay_step, relay_run,
}

abbrev pub is_offer : SignalMsg → Bool
is_offer (offer json) = true
is_offer msg = false

-- The session goes on, with this peer and without a new offer.
abbrev pub Calm : String → Event → Type 0
Calm v session_dropped = ⊥
Calm v (outgoing writes msg) = is_offer msg ≡ false
Calm v (incoming writes open' (text inbound)) = (str_eq v inbound.from ≡ true) × (open' ≡ true)
Calm v e = Unit

abbrev pub candidates_of : List Event → List SignalMsg
candidates_of [] = []
candidates_of (outgoing writes (candidate json) ∷ es) = candidate json ∷ candidates_of es
candidates_of (e ∷ es) = candidates_of es

pub record Offers (v : String) (o : List ℕ) (cs : List SignalMsg) (r : Relay) : Type 0 where
  pub peer : r.peer ≡ some v
  pub offered : r.last_offer ≡ some (offer o)
  pub candidates : r.sent_candidates ≡ cs

switch_known : (r : Relay) (from : String) → is_peer r.peer from ≡ true → switch r from ≡ r
unfolding switch
switch_known r from known = ground (arith, known)

pub on_inbound_known :
    (writes : ℕ) (open' : Bool) (r : Relay) (i : Inbound)
    → is_peer r.peer i.from ≡ true
    → on_inbound writes open' r i
      ≡ on_payload writes open' false (record r { received_any = true }) i.payload
unfolding on_inbound
on_inbound_known writes open' r i known =
    ground (arith, known, switch_known (record r { received_any = true }) i.from known)

pub on_outgoing_known :
    (writes : ℕ) (r : Relay) (to : String) (msg : SignalMsg)
    → r.peer ≡ some to
    → on_outgoing writes r msg ≡ write_all writes (remember r msg) (signal_to to msg ∷ [])
unfolding on_outgoing
on_outgoing_known writes r to msg known = ground (arith, known)

pub on_announce_known :
    (writes : ℕ) (r : Relay) (to : String)
    → r.peer ≡ some to
    → on_announce writes r ≡ (
        if r.is_viewer && not r.received_any
        then write_all writes r (send to hello ∷ [])
        else (r, [], running))
unfolding on_announce
on_announce_known writes r to known = ground (arith, known)

module _ (v : String) (o : List ℕ) where
  after-Offers :
      (cs : List SignalMsg) (s : Stop) (r : Relay) → Offers v o cs r → Offers v o cs (after s r)
  after-Offers cs socket_closed r k = record {
    peer = k.peer;
    offered = k.offered;
    candidates = k.candidates;
  }
  after-Offers cs running r k = k
  after-Offers cs session_ended r k = k

  -- A turn that changes nothing that counts here.
  Keeps : List SignalMsg → Result → Type 0
  Keeps cs x = Offers v o cs x.0 × (ends x.2 ≡ false)

  write_all-Keeps :
      (cs : List SignalMsg) (writes : ℕ) (r : Relay) (outs : List Output)
      → Offers v o cs r
      → Keeps cs (write_all writes r outs)
  unfolding write_all Keeps
  write_all-Keeps cs writes r outs k = (k, ground arith)

  payload-Keeps :
      (cs : List SignalMsg) (writes : ℕ) (r : Relay) (p : Payload)
      → Offers v o cs r
      → Keeps cs (on_payload writes true false r p)
  unfolding on_payload Keeps
  payload-Keeps cs writes r (signal msg) k = (k, refl)
  payload-Keeps cs writes r hello k = write_all-Keeps cs writes r (replay r) k

  known-Keeps :
      (cs : List SignalMsg) (writes : ℕ) (r : Relay) (i : Inbound)
      → Offers v o cs r
      → str_eq v i.from ≡ true
      → Keeps cs (on_inbound writes true r i)
  known-Keeps cs writes r i k same =
      subst (Keeps cs)
        (sym (on_inbound_known writes true r i (ap (λ p. is_peer p i.from) k.peer ∙ same)))
        (payload-Keeps cs writes (record r { received_any = true }) i.payload
          (record { peer = k.peer; offered = k.offered; candidates = k.candidates }))

  still-Keeps :
      (cs : List SignalMsg) (r : Relay) (s : Stop)
      → Offers v o cs r
      → ends s ≡ false
      → Keeps cs (r, [], s)
  unfolding Keeps
  still-Keeps cs r s k h = (k, h)

  either-Keeps :
      (cs : List SignalMsg) (b : Bool) (x y : Result)
      → Keeps cs x
      → Keeps cs y
      → Keeps cs (if b then x else y)
  either-Keeps cs true x y p q = p
  either-Keeps cs false x y p q = q

  nothing-Keeps :
      (cs : List SignalMsg) (r : Relay) (s : Stop)
      → Offers v o cs r
      → ends s ≡ false
      → Keeps (cs ++ []) (r, [], s)
  unfolding Keeps
  nothing-Keeps cs r s k h = (
    record { peer = k.peer; offered = k.offered; candidates = k.candidates ∙ sym (append-nil cs) },
    h,
  )

  outgoing-Keeps :
      (cs : List SignalMsg) (r : Relay) (writes : ℕ) (msg : SignalMsg)
      → Offers v o cs (remember r msg)
      → r.peer ≡ some v
      → Keeps cs (on_outgoing writes r msg)
  outgoing-Keeps cs r writes msg k known =
      subst (Keeps cs) (sym (on_outgoing_known writes r v msg known))
        (write_all-Keeps cs writes (remember r msg) (signal_to v msg ∷ []) k)

  step-Keeps :
      (cs : List SignalMsg) (r : Relay) (e : Event)
      → Offers v o cs r
      → Calm v e
      → Keeps (cs ++ candidates_of (e ∷ [])) (relay_step r e)
  unfolding relay_step remember on_frame
  step-Keeps cs r (announce writes) k h = rw (append-nil cs) (
      subst (Keeps cs) (sym (on_announce_known writes r v k.peer)) (
        either-Keeps cs (r.is_viewer && not r.received_any) (write_all writes r (send v hello ∷ []))
          (r, [], running) (write_all-Keeps cs writes r (send v hello ∷ []) k)
          (still-Keeps cs r running k refl)))
  step-Keeps cs r (keepalive silent writes) k h = rw (append-nil cs) (
      either-Keeps cs silent (r, [], socket_closed) (write_all writes r (ping ∷ []))
        (still-Keeps cs r socket_closed k refl) (write_all-Keeps cs writes r (ping ∷ []) k))
  step-Keeps cs r (outgoing writes (candidate json)) k h =
      outgoing-Keeps (cs ++ candidate json ∷ []) r writes (candidate json)
        (record {
          peer = k.peer;
          offered = k.offered;
          candidates = ap (λ l. l ++ candidate json ∷ []) k.candidates;
        })
        k.peer
  step-Keeps cs r (outgoing writes (answer json)) k h =
      rw (append-nil cs) (outgoing-Keeps cs r writes (answer json) k k.peer)
  step-Keeps cs r (outgoing writes (offer json)) k h = absurd (ground (arith, h))
  step-Keeps cs r (incoming writes false (text inbound)) k (same, ok) = absurd (ground (arith, ok))
  step-Keeps cs r (incoming writes true (text inbound)) k (same, ok) =
      rw (append-nil cs) (known-Keeps cs writes r inbound k same)
  step-Keeps cs r (incoming writes open' bad_text) k h = nothing-Keeps cs r running k refl
  step-Keeps cs r (incoming writes open' other) k h = nothing-Keeps cs r running k refl
  step-Keeps cs r (incoming writes open' failed) k h = nothing-Keeps cs r socket_closed k refl
  step-Keeps cs r (incoming writes open' end_of_stream) k h =
      nothing-Keeps cs r socket_closed k refl
  step-Keeps cs r session_dropped k h = absurd h

  candidates_of-cons :
      (e : Event) (es : List Event)
      → candidates_of (e ∷ []) ++ candidates_of es ≡ candidates_of (e ∷ es)
  candidates_of-cons (outgoing writes (candidate json)) es = refl
  candidates_of-cons (outgoing writes (offer json)) es = refl
  candidates_of-cons (outgoing writes (answer json)) es = refl
  candidates_of-cons e es = refl

  run-Offers :
      (cs : List SignalMsg) (r : Relay) (es : List Event)
      → Offers v o cs r
      → All (Calm v) es
      → Offers v o (cs ++ candidates_of es) (relay_run r es).0
  unfolding relay_run Keeps
  run-Offers cs r [] k h = rw (append-nil cs) k
  run-Offers cs r (e ∷ es) k (h, hs) =
      let x = relay_step r e in
      let (k', goes) = step-Keeps cs r e k h in
      let rest =
        run-Offers (cs ++ candidates_of (e ∷ [])) (after x.2 x.0) es
          (after-Offers (cs ++ candidates_of (e ∷ [])) x.2 x.0 k') hs in
      let whole : cs ++ candidates_of (e ∷ es)
          ≡ (cs ++ candidates_of (e ∷ [])) ++ candidates_of es =
        ap (λ l. cs ++ l) (sym (candidates_of-cons e es))
        ∙ sym (append_assoc cs (candidates_of (e ∷ [])) (candidates_of es)) in
      rw (whole, goes) rest

abbrev announced : String → Inbound
announced v = record { from = v; payload = hello }

length-map : {A B : Type 0} (f : A → B) (xs : List A) → length (map f xs) ≡ length xs
length-map f [] = refl
length-map f (x ∷ xs) = ap suc (length-map f xs)

replay_known :
    (v : String) (o : List ℕ) (cs : List SignalMsg) (r : Relay)
    → Offers v o cs r
    → replay r ≡ map (signal_to v) (offer o ∷ cs)
unfolding replay
replay_known v o cs r k = ground (arith, k.peer, k.offered, k.candidates)

replay-Offers :
    (v : String) (o : List ℕ) (cs : List SignalMsg) (r : Relay) (writes : ℕ)
    → Offers v o cs r
    → length (offer o ∷ cs) ≤ writes
    → (on_inbound writes true r (announced v)).1 ≡ map (signal_to v) (offer o ∷ cs)
unfolding on_payload write_all
replay-Offers v o cs r writes k room =
    ap (λ x. x.1)
      (on_inbound_known writes true r (announced v) (ap (λ p. is_peer p v) k.peer ∙ eq_refl v))
    ∙ ap (take writes) (
        replay_known v o cs (record r { received_any = true })
          (record { peer = k.peer; offered = k.offered; candidates = k.candidates }))
    ∙ take_all writes (map (signal_to v) (offer o ∷ cs))
        (omega (arith, length-map (signal_to v) (offer o ∷ cs), room))

first_offer :
    (v : String) (o : List ℕ) (r : Relay) (w : ℕ)
    → r.peer ≡ some v
    → Offers v o [] (on_outgoing w r (offer o)).0 × (ends (on_outgoing w r (offer o)).2 ≡ false)
unfolding remember Keeps
first_offer v o r w known =
    outgoing-Keeps v o [] r w (offer o) (record { peer = known; offered = refl; candidates = refl })
      known

-- A viewer that announces itself again gets the offer that the host made last and every candidate since then, in
-- order, over a socket that takes them, whatever happened in between: writes that failed, new connections,
-- answers, and other messages and announcements of that viewer.
pub run-replay :
    (r : Relay) (v : String) (o : List ℕ) (w : ℕ) (es : List Event) (writes : ℕ)
    → r.peer ≡ some v
    → All (Calm v) es
    → length (offer o ∷ candidates_of es) ≤ writes
    → (relay_step
        (relay_run r (outgoing w (offer o) ∷ es)).0
        (incoming writes true (text (record { from = v; payload = hello })))).1
      ≡ map (signal_to v) (offer o ∷ candidates_of es)
unfolding relay_run relay_step on_frame
run-replay r v o w es writes known calm room =
    let x = on_outgoing w r (offer o) in
    let (k, goes) = first_offer v o r w known in
    let rest = run-Offers v o [] (after x.2 x.0) es (after-Offers v o [] x.2 x.0 k) calm in
    rw goes (replay-Offers v o (candidates_of es) (relay_run (after x.2 x.0) es).0 writes rest room)
