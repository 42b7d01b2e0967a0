-- ===== src/Rendezvous/Hub/Mailbox.antt =====
-- A pairing room as a mailbox between two parties.
use reachmydevice.Prelude.{
  ℕ, ◌+◌, ◌^◌, ◌<◌, ◌≡◌, ◌≢◌, inl, inr, Bool, none, some, List, [], ◌∷◌, ◌++◌, String, arith,
  eq_iff, eq_refl, append-nil, Option-cases,
}
use reachmydevice.Prelude.Store.{lookup, insert, lookup-insert, lookup-remove}
use reachmydevice.Rendezvous.Hub.{
  Hub, Member, send, send_all, members_of, join_room, others, relay_room, leave_room, joined_text,
  left_text,
}
use reachmydevice.Rendezvous.Hub.Rooms.{RoomsOk}

-- Two parties that join a free code both get in, as members with consecutive ids; nobody is told
-- anything when the first comes, and both are told that their peer is there when the second does.
pub join_room_twice :
    (open' : ℕ → Bool) (h : Hub) (code : String) (tx tx' : ℕ)
    → lookup code h.rooms ≡ none
    → h.next_member + 1 < 2 ^ 64
    → let first = join_room open' h code tx in
      let second = join_room open' first.0 code tx' in
      let a : Member = record { id = h.next_member; tx = tx } in
      let b : Member = record { id = h.next_member + 1; tx = tx' } in
      (first.1 ≡ some h.next_member)
      × (first.2 ≡ [])
      × (second.1 ≡ some (h.next_member + 1))
      × (second.2 ≡ send open' tx joined_text ++ send open' tx' joined_text)
      × (lookup code second.0.rooms ≡ some (a ∷ b ∷ []))
unfolding join_room send_all members_of
join_room_twice open' h code tx tx' e lt =
    let alone : List Member = record { id = h.next_member; tx = tx } ∷ [] in
    let once = lookup-insert code code alone h.rooms in
    let twice =
      lookup-insert code code (alone ++ record { id = h.next_member + 1; tx = tx' } ∷ [])
        (insert code alone h.rooms) in
    let r = eq_refl code in
    (
      ground arith,
      ground arith,
      ground arith,
      ground (arith, append-nil (send open' tx joined_text)),
      ground arith,
    )

-- In a room of two, a third party is refused and changes nothing, a frame of either member is put
-- into the other's channel and no other, and when one leaves the other is told and keeps the room.
pub room_of_two :
    (open' : ℕ → Bool) (h : Hub) (code : String) (a b : Member) (tx : ℕ) (text : String)
    → RoomsOk h
    → lookup code h.rooms ≡ some (a ∷ b ∷ [])
    → (join_room open' h code tx ≡ (h, none, []))
      × (relay_room open' h code a.id text ≡ send open' b.tx text)
      × (relay_room open' h code b.id text ≡ send open' a.tx text)
      × ((leave_room open' h code a.id).1 ≡ send open' b.tx left_text)
      × (lookup code (leave_room open' h code a.id).0.rooms ≡ some (b ∷ []))
      × ((leave_room open' h code b.id).1 ≡ send open' a.tx left_text)
      × (lookup code (leave_room open' h code b.id).0.rooms ≡ some (a ∷ []))
unfolding join_room relay_room leave_room send_all members_of others
room_of_two open' h code a b tx text ok e =
    let apart : a.id ≢ b.id = (ok code (a ∷ b ∷ []) e).fresh.1.0 in
    let la = lookup-insert code code (a ∷ []) h.rooms in
    let lb = lookup-insert code code (b ∷ []) h.rooms in
    let r = eq_refl code in
    (
      ground (arith),
      ground (arith, append-nil (send open' b.tx text)),
      ground (arith, append-nil (send open' a.tx text)),
      ground (arith, append-nil (send open' b.tx left_text)),
      ground (arith),
      ground (arith, append-nil (send open' a.tx left_text)),
      ground (arith),
    )

-- The last member to leave takes the room away, and tells nobody.
pub leave_room_last :
    (open' : ℕ → Bool) (h : Hub) (code : String) (a : Member)
    → lookup code h.rooms ≡ some (a ∷ [])
    → (lookup code (leave_room open' h code a.id).0.rooms ≡ none)
      × ((leave_room open' h code a.id).1 ≡ [])
unfolding leave_room others send_all
leave_room_last open' h code a e =
    (ground (arith, lookup-remove code code h.rooms, eq_refl code), ground arith)

-- What happens in one room is not seen in another: the members there stay, and so do its frames.
pub other_room :
    (open' : ℕ → Bool) (h : Hub) (code other : String) (tx id : ℕ)
    → code ≢ other
    → (lookup other (join_room open' h code tx).0.rooms ≡ lookup other h.rooms)
      × (lookup other (leave_room open' h code id).0.rooms ≡ lookup other h.rooms)
unfolding join_room leave_room
other_room open' h code other tx id ne = (
  ground (
    arith,
    eq_iff code other,
    lookup-insert code other (members_of h code ++ record { id = h.next_member; tx = tx } ∷ [])
        h.rooms,
  ),
  elim (Option-cases (lookup code h.rooms)) [
    | inl e ↦ ground arith
    | inr (ms, e) ↦ ground (
      arith,
      eq_iff code other,
      lookup-insert code other (others id ms) h.rooms,
      lookup-remove code other h.rooms,
    )
  ],
)
