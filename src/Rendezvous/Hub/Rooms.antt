-- ===== src/Rendezvous/Hub/Rooms.antt =====
-- Pairing rooms: two members at most, and a frame reaches the other one.
use reachmydevice.Prelude.{
  ℕ, ◌+◌, ◌%◌, ◌^◌, ◌≤◌, ◌<◌, ◌≡◌, ◌≢◌, refl, sym, ◌∙◌, inl, inr, ◌⊎◌, Bool, some, List, [], ◌∷◌,
  ◌++◌, String, arith, leb, if◌then◌else◌, length, str_eq, Option-cases, Bool-cases, length-append,
  All, subst,
}
use reachmydevice.Prelude.Store.{lookup, insert, remove, lookup-insert, lookup-remove}
use reachmydevice.Rendezvous.Hub.{
  Hub, Member, members_of, is_empty, join_room, others, leave_room, register, unregister,
}

-- Ids are below `n`, and no two are equal.
abbrev pub Fresh : ℕ → List Member → Type 0
Fresh n [] = Unit
Fresh n (m ∷ ms) = (m.id < n) × All (λ o. m.id ≢ o.id) ms × Fresh n ms

pub record RoomOk (n : ℕ) (ms : List Member) : Type 0 where
  pub occupied : 1 ≤ length ms
  pub two_party : length ms ≤ 2
  pub fresh : Fresh n ms

-- Every room that exists is neither empty nor over-full, and its members' ids are their own.
abbrev pub RoomsOk : Hub → Type 0
RoomsOk h =
    (code : String) (ms : List Member) → lookup code h.rooms ≡ some ms → RoomOk h.next_member ms

Fresh-mono : (m n : ℕ) (ms : List Member) → m ≤ n → Fresh m ms → Fresh n ms
Fresh-mono m n [] h f = tt
Fresh-mono m n (x ∷ ms) h f = (omega arith, f.1, Fresh-mono m n ms h f.2)

Fresh-append :
    (n tx : ℕ) (ms : List Member)
    → Fresh n ms
    → Fresh (n + 1) (ms ++ record { id = n; tx = tx } ∷ [])
Fresh-append n tx [] f = (omega arith, tt, tt)
Fresh-append n tx (m ∷ ms) f = (omega arith, apart ms f.0 f.1, Fresh-append n tx ms f.2)
  where
    apart :
        (os : List Member)
        → m.id < n
        → All (λ o. m.id ≢ o.id) os
        → All (λ o. m.id ≢ o.id) (os ++ record { id = n; tx = tx } ∷ [])
    apart [] l a = (omega arith, tt)
    apart (o ∷ os) l a = (a.0, apart os l a.1)

others-Apart :
    (i id : ℕ) (ms : List Member) → All (λ o. i ≢ o.id) ms → All (λ o. i ≢ o.id) (others id ms)
unfolding others
others-Apart i id [] a = tt
others-Apart i id (m ∷ ms) a = ground (arith, others-Apart i id ms a.1)

others-Fresh : (n id : ℕ) (ms : List Member) → Fresh n ms → Fresh n (others id ms)
unfolding others
others-Fresh n id [] f = tt
others-Fresh n id (m ∷ ms) f = ground (arith, others-Fresh n id ms f.2, others-Apart m.id id ms f.1)

length-others-le : (id : ℕ) (ms : List Member) → length (others id ms) ≤ length ms
unfolding others
length-others-le id [] = omega arith
length-others-le id (m ∷ ms) = ground (arith, length-others-le id ms)

room_of : (h : Hub) (code : String) → RoomsOk h → Fresh h.next_member (members_of h code)
unfolding members_of
room_of h code ok = elim (Option-cases (lookup code h.rooms)) [
  | inl e ↦ rw (e, members_of) tt
  | inr (ms, e) ↦ rw (e, members_of) (ok code ms e).fresh
]

-- What a lookup finds after a join that found room.
joined_room :
    (h : Hub) (code c : String) (tx : ℕ) (ms : List Member)
    → RoomsOk h
    → h.next_member + 1 < 2 ^ 64
    → length (members_of h code) ≤ 1
    → (if str_eq code c
        then some (members_of h code ++ record { id = h.next_member; tx = tx } ∷ [])
        else lookup c h.rooms)
      ≡ some ms
    → RoomOk (h.next_member + 1) ms
joined_room h code c tx ms ok lt le e = elim (Bool-cases (str_eq code c)) [
  | inl same ↦
      subst (RoomOk (h.next_member + 1))
        {x = members_of h code ++ record { id = h.next_member; tx = tx } ∷ []} {y = ms}
        (ground arith)
        (record {
          occupied = omega (
            arith,
            length-append (members_of h code) (record { id = h.next_member; tx = tx } ∷ []),
          );
          two_party = omega (
            arith,
            length-append (members_of h code) (record { id = h.next_member; tx = tx } ∷ []),
          );
          fresh = Fresh-append h.next_member tx (members_of h code) (room_of h code ok);
        })
  | inr other ↦
      let old : RoomOk h.next_member ms = ok c ms (ground arith) in
      record {
        occupied = old.occupied;
        two_party = old.two_party;
        fresh = Fresh-mono h.next_member (h.next_member + 1) ms (omega arith) old.fresh;
      }
]

pub join_room-RoomsOk :
    (open' : ℕ → Bool) (h : Hub) (code : String) (tx : ℕ)
    → h.next_member + 1 < 2 ^ 64
    → RoomsOk h
    → RoomsOk (join_room open' h code tx).0
unfolding join_room
join_room-RoomsOk open' h code tx lt ok = elim (Bool-cases (leb 2 (length (members_of h code)))) [
  | inl full ↦ rw full ok
  | inr space ↦ rw space λ c ms e.
      let id_next : h.next_member + 1 ≡ (h.next_member + 1) % 2 ^ 64 = omega arith in
      subst (λ n. RoomOk n ms) id_next
        (joined_room h code c tx ms ok lt (ground arith) (
          sym (
            lookup-insert code c (members_of h code ++ record { id = h.next_member; tx = tx } ∷ [])
              h.rooms)
          ∙ e))
]

left_room :
    (h : Hub) (code c : String) (id : ℕ) (left ms : List Member)
    → RoomsOk h
    → RoomOk h.next_member left ⊎ (left ≡ [])
    → lookup c (if is_empty left then remove code h.rooms else insert code left h.rooms) ≡ some ms
    → RoomOk h.next_member ms
left_room h code c id [] ms ok keep e = ok c ms (ground (arith, lookup-remove code c h.rooms))
left_room h code c id (m ∷ left) ms ok (inr e') e = cc
left_room h code c id (m ∷ left) ms ok (inl keep) e = elim (Bool-cases (str_eq code c)) [
  | inl same ↦
      subst (RoomOk h.next_member) {x = m ∷ left} {y = ms}
        (ground (arith, lookup-insert code c (m ∷ left) h.rooms)) keep
  | inr other ↦ ok c ms (ground (arith, lookup-insert code c (m ∷ left) h.rooms))
]

others_ok :
    (n id : ℕ) (ms : List Member) → RoomOk n ms → RoomOk n (others id ms) ⊎ (others id ms ≡ [])
others_ok n id ms ok = by_length (others id ms) refl
  where
    by_length :
        (os : List Member) → others id ms ≡ os → RoomOk n (others id ms) ⊎ (others id ms ≡ [])
    by_length [] e = inr e
    by_length (o ∷ os) e = inl (record {
      occupied = rw e (omega arith);
      two_party = omega (arith, length-others-le id ms, ok.two_party);
      fresh = others-Fresh n id ms ok.fresh;
    })

pub leave_room-RoomsOk :
    (open' : ℕ → Bool) (h : Hub) (code : String) (id : ℕ)
    → RoomsOk h
    → RoomsOk (leave_room open' h code id).0
unfolding leave_room
leave_room-RoomsOk open' h code id ok = elim (Option-cases (lookup code h.rooms)) [
  | inl e ↦ rw (e, leave_room) ok
  | inr (members, e) ↦
      rw (e, leave_room)
        λ c ms f.
          left_room h code c id (others id members) ms ok
            (others_ok h.next_member id members (ok code members e)) f
]

-- What a client can make the hub do to its rooms and peers.
pub data HubOp : Type 0 where
  joins : String → ℕ → HubOp
  leaves : String → ℕ → HubOp
  registers : String → ℕ → ℕ → HubOp
  unregisters : String → ℕ → HubOp

unfoldable pub step : (ℕ → Bool) → Hub → HubOp → Hub
step open' h (joins code tx) = (join_room open' h code tx).0
step open' h (leaves code id) = (leave_room open' h code id).0
step open' h (registers device user tx) = register h device user tx
step open' h (unregisters device tx) = unregister h device tx

unfoldable pub run : (ℕ → Bool) → Hub → List HubOp → Hub
run open' h [] = h
run open' h (o ∷ os) = run open' (step open' h o) os

step-next_member :
    (open' : ℕ → Bool) (h : Hub) (o : HubOp)
    → h.next_member + 1 < 2 ^ 64
    → (step open' h o).next_member ≤ h.next_member + 1
unfolding step join_room leave_room register unregister
step-next_member open' h (joins code tx) lt = ground arith
step-next_member open' h (leaves code id) lt = ground arith
step-next_member open' h (registers device user tx) lt = ground arith
step-next_member open' h (unregisters device tx) lt = ground arith

unregister_rooms :
    (h : Hub) (device : String) (tx : ℕ)
    → ((unregister h device tx).rooms ≡ h.rooms)
      × ((unregister h device tx).next_member ≡ h.next_member)
unfolding unregister
unregister_rooms h device tx = (ground arith, ground arith)

step-RoomsOk :
    (open' : ℕ → Bool) (h : Hub) (o : HubOp)
    → h.next_member + 1 < 2 ^ 64
    → RoomsOk h
    → RoomsOk (step open' h o)
unfolding step register
step-RoomsOk open' h (joins code tx) lt ok = join_room-RoomsOk open' h code tx lt ok
step-RoomsOk open' h (leaves code id) lt ok = leave_room-RoomsOk open' h code id ok
step-RoomsOk open' h (registers device user tx) lt ok = ok
step-RoomsOk open' h (unregisters device tx) lt ok =
    rw (unregister_rooms h device tx).0 (rw (unregister_rooms h device tx).1 ok)

-- After any history of fewer than 2^64 steps from a hub whose rooms are in order (a new one is), each
-- room has one or two members, whose ids differ from each other and from all ids to come.
pub run-RoomsOk :
    (open' : ℕ → Bool) (h : Hub) (os : List HubOp)
    → h.next_member + length os < 2 ^ 64
    → RoomsOk h
    → RoomsOk (run open' h os)
unfolding run
run-RoomsOk open' h [] lt ok = ok
run-RoomsOk open' h (o ∷ os) lt ok =
    run-RoomsOk open' (step open' h o) os (omega (arith, step-next_member open' h o (omega arith)))
      (step-RoomsOk open' h o (omega arith) ok)
