-- ===== src/Session/RendezvousClient/Fresh.antt =====
-- A viewer that takes over gets no offer that was made for the viewer before it: crates/session/src/rendezvous.rs
-- for the host, after `peer_switched`.
use reachmydevice.Prelude.{
  ℕ, zero, suc, ◌-◌, ◌≡◌, refl, sym, ap, ◌∙◌, subst, Bool, true, false, not, ◌&&◌, ◌||◌, Option,
  none, some, List, [], ◌∷◌, ◌++◌, map, String, str_eq, leb, arith, All, length, take,
  if◌then◌else◌,
}
use reachmydevice.Session.Identity.Sdp.{SignalMsg, offer, answer, candidate}
use reachmydevice.Session.RendezvousClient.{
  Payload, hello, signal, Inbound, Relay, Output, send, ping, signal_to, Stop, running,
  session_ended, socket_closed, after, text, bad_text, other, failed, end_of_stream, Event,
  outgoing, incoming, announce, keepalive, session_dropped, Result, is_peer, is_known, write_all,
  remember, on_outgoing, on_payload, on_inbound, on_frame, switch, replay, then_payload, relay_step,
  relay_run,
}
use reachmydevice.Session.RendezvousClient.Replay.{is_offer, on_outgoing_known, on_announce_known}

abbrev offers : Output → Bool
offers (send to (signal msg)) = is_offer msg
offers out = false

abbrev pub has_offer : List Output → Bool
has_offer [] = false
has_offer (out ∷ outs) = offers out || has_offer outs

-- The session makes no offer.
abbrev pub makes_offer : Event → Bool
makes_offer (outgoing writes msg) = is_offer msg
makes_offer e = false

-- The client knows its peer and has no offer to replay.
pub record IsBlank (r : Relay) : Type 0 where
  pub known : is_known r.peer ≡ true
  pub no_offer : r.last_offer ≡ none
  pub none_pending : r.pending ≡ []

Quiet : Result → Type 0
Quiet x = IsBlank x.0 × (has_offer x.1 ≡ false)

has_offer-take :
    (n : ℕ) (outs : List Output) → has_offer outs ≡ false → has_offer (take n outs) ≡ false
has_offer-take zero outs h = refl
has_offer-take (suc n) [] h = refl
has_offer-take (suc n) (out ∷ outs) h =
    let rest = has_offer-take n outs (ground (arith, h)) in ground (arith, h, rest)

has_offer-append : (xs ys : List Output) → has_offer (xs ++ ys) ≡ has_offer xs || has_offer ys
has_offer-append [] ys = refl
has_offer-append (x ∷ xs) ys = ground (arith, has_offer-append xs ys)

write_all-Quiet :
    (writes : ℕ) (r : Relay) (outs : List Output)
    → IsBlank r
    → has_offer outs ≡ false
    → Quiet (write_all writes r outs)
unfolding write_all Quiet
write_all-Quiet writes r outs b h = (b, has_offer-take writes outs h)

still-Quiet : (r : Relay) (s : Stop) → IsBlank r → Quiet (r, [], s)
unfolding Quiet
still-Quiet r s b = (b, refl)

either-Quiet : (c : Bool) (x y : Result) → Quiet x → Quiet y → Quiet (if c then x else y)
either-Quiet true x y p q = p
either-Quiet false x y p q = q

replay-IsBlank : (r : Relay) → IsBlank r → replay r ≡ []
unfolding replay
replay-IsBlank r b = ground (arith, b.no_offer)

payload-Quiet :
    (writes : ℕ) (open' first_contact : Bool) (r : Relay) (p : Payload)
    → IsBlank r
    → Quiet (on_payload writes open' first_contact r p)
unfolding on_payload Quiet
payload-Quiet writes true first_contact r (signal msg) b = (b, refl)
payload-Quiet writes false first_contact r (signal msg) b = (b, refl)
payload-Quiet writes open' true r hello b = (b, refl)
payload-Quiet writes open' false r hello b =
    write_all-Quiet writes r (replay r) b (ap has_offer (replay-IsBlank r b))

then-Quiet :
    (writes : ℕ) (open' : Bool) (r : Relay) (outs : List Output) (s : Stop) (p : Payload)
    → Quiet (r, outs, s)
    → Quiet (then_payload writes open' (r, outs, s) p)
unfolding Quiet
then-Quiet writes open' r outs running p (b, h) =
    let (b', h') = payload-Quiet writes open' true r p b in
    (b', ground (arith, has_offer-append outs (on_payload writes open' true r p).1, h, h'))
then-Quiet writes open' r outs session_ended p q = q
then-Quiet writes open' r outs socket_closed p q = q

switch-IsBlank : (r : Relay) (from : String) → IsBlank r → IsBlank (switch r from)
unfolding switch
switch-IsBlank r from b = record {
  known = ground (arith, b.known);
  no_offer = ground (arith, b.no_offer);
  none_pending = ground (arith, b.none_pending);
}

inbound-Quiet :
    (writes : ℕ) (open' : Bool) (r : Relay) (i : Inbound)
    → IsBlank (switch (record r { received_any = true }) i.from)
    → Quiet (on_inbound writes open' r i)
unfolding on_inbound
inbound-Quiet writes open' r i blank =
    let s = switch (record r { received_any = true }) i.from in
    let d : Relay = record s { peer = some i.from; pending = [] } in
    let drained : Result = write_all writes d (map (signal_to i.from) s.pending) in
    either-Quiet (is_peer r.peer i.from) (on_payload writes open' false s i.payload)
      (then_payload (writes - length s.pending) open' drained i.payload)
      (payload-Quiet writes open' false s i.payload blank)
      (then-Quiet (writes - length s.pending) open' drained.0 drained.1 drained.2 i.payload (
        write_all-Quiet writes d (map (signal_to i.from) s.pending)
          (record { known = refl; no_offer = blank.no_offer; none_pending = refl })
          (ap (λ l. has_offer (map (signal_to i.from) l)) blank.none_pending)))

known_peer : (o : Option String) → is_known o ≡ true → (to : String) × (o ≡ some to)
known_peer none h = absurd (ground arith)
known_peer (some to) h = (to, refl)

outgoing-Quiet :
    (writes : ℕ) (r : Relay) (msg : SignalMsg)
    → IsBlank r
    → is_offer msg ≡ false
    → Quiet (on_outgoing writes r msg)
unfolding remember
outgoing-Quiet writes r msg b h =
    let (to, known) = known_peer r.peer b.known in
    subst Quiet (sym (on_outgoing_known writes r to msg known)) (
      write_all-Quiet writes (remember r msg) (signal_to to msg ∷ []) (remembered msg h)
        (ground (arith, h)))
  where
    remembered : (m : SignalMsg) → is_offer m ≡ false → IsBlank (remember r m)
    remembered (offer json) e = absurd (ground arith)
    remembered (answer json) e = b
    remembered (candidate json) e = record {
      known = b.known;
      no_offer = b.no_offer;
      none_pending = b.none_pending;
    }

step-Quiet : (r : Relay) (e : Event) → IsBlank r → makes_offer e ≡ false → Quiet (relay_step r e)
unfolding relay_step on_frame
step-Quiet r (announce writes) b h =
    let (to, known) = known_peer r.peer b.known in
    subst Quiet (sym (on_announce_known writes r to known)) (
      either-Quiet (r.is_viewer && not r.received_any) (write_all writes r (send to hello ∷ []))
        (r, [], running) (write_all-Quiet writes r (send to hello ∷ []) b refl)
        (still-Quiet r running b))
step-Quiet r (keepalive silent writes) b h =
    either-Quiet silent (r, [], socket_closed) (write_all writes r (ping ∷ []))
      (still-Quiet r socket_closed b) (write_all-Quiet writes r (ping ∷ []) b refl)
step-Quiet r (outgoing writes msg) b h = outgoing-Quiet writes r msg b h
step-Quiet r (incoming writes open' (text inbound)) b h = inbound-Quiet writes open' r inbound (
    switch-IsBlank (record r { received_any = true }) inbound.from
      (record { known = b.known; no_offer = b.no_offer; none_pending = b.none_pending }))
step-Quiet r (incoming writes open' bad_text) b h = still-Quiet r running b
step-Quiet r (incoming writes open' other) b h = still-Quiet r running b
step-Quiet r (incoming writes open' failed) b h = still-Quiet r socket_closed b
step-Quiet r (incoming writes open' end_of_stream) b h = still-Quiet r socket_closed b
step-Quiet r session_dropped b h = still-Quiet r session_ended b

after-IsBlank : (s : Stop) (r : Relay) → IsBlank r → IsBlank (after s r)
after-IsBlank socket_closed r b = record {
  known = b.known;
  no_offer = b.no_offer;
  none_pending = b.none_pending;
}
after-IsBlank running r b = b
after-IsBlank session_ended r b = b

has_offer-relay_run :
    (r : Relay) (e : Event) (es : List Event)
    → has_offer (relay_step r e).1 ≡ false
    → has_offer (relay_run (after (relay_step r e).2 (relay_step r e).0) es).1 ≡ false
    → has_offer (relay_run r (e ∷ es)).1 ≡ false
unfolding relay_run
has_offer-relay_run r e es quiet rest =
    let x = relay_step r e in
    ground (arith, quiet, rest, has_offer-append x.1 (relay_run (after x.2 x.0) es).1)

run-Quiet :
    (r : Relay) (es : List Event)
    → IsBlank r
    → All (λ e. makes_offer e ≡ false) es
    → has_offer (relay_run r es).1 ≡ false
unfolding relay_run Quiet
run-Quiet r [] b h = refl
run-Quiet r (e ∷ es) b (h, hs) =
    let x = relay_step r e in
    let (b', quiet) = step-Quiet r e b h in
    has_offer-relay_run r e es quiet (run-Quiet (after x.2 x.0) es (after-IsBlank x.2 x.0 b') hs)

switch_other :
    (r : Relay) (old from : String)
    → r.is_viewer ≡ false
    → r.peer ≡ some old
    → str_eq old from ≡ false
    → switch r from ≡ record r { last_offer = none; sent_candidates = []; peer_switched = true }
unfolding switch
switch_other r old from host known differs = ground (arith, host, known, differs)

then_payload-peer_switched :
    (writes : ℕ) (open' : Bool) (r : Relay) (outs : List Output) (s : Stop) (p : Payload)
    → (then_payload writes open' (r, outs, s) p).0.peer_switched ≡ r.peer_switched
unfolding on_payload
then_payload-peer_switched writes true r outs running (signal msg) = refl
then_payload-peer_switched writes false r outs running (signal msg) = refl
then_payload-peer_switched writes open' r outs running hello = refl
then_payload-peer_switched writes open' r outs session_ended p = refl
then_payload-peer_switched writes open' r outs socket_closed p = refl

on_inbound-peer_switched :
    (writes : ℕ) (open' : Bool) (r : Relay) (i : Inbound)
    → is_peer r.peer i.from ≡ false
    → (on_inbound writes open' r i).0.peer_switched
      ≡ (switch (record r { received_any = true }) i.from).peer_switched
unfolding on_inbound write_all
on_inbound-peer_switched writes open' r i other' =
    let s = switch (record r { received_any = true }) i.from in
    let outs = map (signal_to i.from) s.pending in
    let d : Relay = record s { peer = some i.from; pending = [] } in
    let stop : Stop = if leb (length outs) writes then running else socket_closed in
    ap
      (λ known.
        (if known
          then on_payload writes open' false s i.payload
          else then_payload (writes - length s.pending) open' (d, take writes outs, stop)
              i.payload).0.peer_switched)
      other'
    ∙ then_payload-peer_switched (writes - length s.pending) open' d (take writes outs) stop
        i.payload

-- When another viewer takes over from the one that the host knew, the flag for a new offer is set, and until the
-- session makes that offer, no offer reaches anyone: not at the takeover, and not in whatever follows, further
-- announcements, takeovers, failed writes and new connections included.
pub taken_over :
    (r : Relay) (old : String) (i : Inbound) (writes : ℕ) (open' : Bool) (es : List Event)
    → r.is_viewer ≡ false
    → r.peer ≡ some old
    → r.pending ≡ []
    → str_eq old i.from ≡ false
    → All (λ e. makes_offer e ≡ false) es
    → (has_offer (relay_run r (incoming writes open' (text i) ∷ es)).1 ≡ false)
      × ((relay_step r (incoming writes open' (text i))).0.peer_switched ≡ true)
unfolding relay_step on_frame Quiet
taken_over r old i writes open' es host known none_waits differs calm =
    let e = incoming writes open' (text i) in
    let x = relay_step r e in
    let switched = switch_other (record r { received_any = true }) old i.from host known differs in
    let (b, quiet) = inbound-Quiet writes open' r i (
      subst IsBlank (sym switched)
        (record { known = ap is_known known; no_offer = refl; none_pending = none_waits })) in
    (
      has_offer-relay_run r e es quiet
          (run-Quiet (after x.2 x.0) es (after-IsBlank x.2 x.0 b) calm),
      on_inbound-peer_switched writes open' r i (ap (λ p. is_peer p i.from) known ∙ differs)
          ∙ ap (λ s. s.peer_switched) switched,
    )
