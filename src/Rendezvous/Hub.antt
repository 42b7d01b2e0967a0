-- ===== src/Rendezvous/Hub.antt =====
-- apps/rendezvous/src/signaling.rs, `Hub`: connected peers and two-party pairing rooms. Each method
-- holds its mutex throughout, so it is one step. A sender is the number of its channel, `open` says
-- whose receiver is still there, and a step lists what it puts into which channel.
pub mod Rooms
pub mod Mailbox
pub mod Accounts
use reachmydevice.Prelude.{
  ℕ, ◌+◌, ◌%◌, ◌^◌, Bool, true, false, not, Option, none, some, List, [], ◌∷◌, ◌++◌, map, String,
  leb, ◌==◌, if◌then◌else◌, length,
}
use reachmydevice.Prelude.Store.{Store, lookup, insert, remove}

pub record Member : Type 0 where
  pub id : ℕ
  pub tx : ℕ

-- `user_id` is an `i64` that is only compared.
pub record Peer : Type 0 where
  pub user_id : ℕ
  pub tx : ℕ

pub data RelayError : Type 0 where
  offline cross_account : RelayError

pub record Hub : Type 0 where
  pub peers : Store Peer
  pub rooms : Store (List Member)
  pub next_member : ℕ  -- an `AtomicU64`

unfoldable pub new : Hub
new = record { peers = []; rooms = []; next_member = 0 }

-- Texts put into channels, first to last.
abbrev pub Mail : Type 0
Mail = List (ℕ × String)

-- `UnboundedSender::send`, which fails once the receiver is gone.
unfoldable pub send : (ℕ → Bool) → ℕ → String → Mail
send open' tx text = if open' tx then (tx, text) ∷ [] else []

-- `let _ = tx.send(text)` for each member.
unfoldable pub send_all : (ℕ → Bool) → List Member → String → Mail
unfolding send
send_all open' [] text = []
send_all open' (m ∷ ms) text = send open' m.tx text ++ send_all open' ms text

abbrev pub joined_text : String
joined_text = "{\"peer\":\"joined\"}"

abbrev pub left_text : String
left_text = "{\"peer\":\"left\"}"

-- `entry(code).or_default()`.
unfoldable pub members_of : Hub → String → List Member
members_of h code = elim (lookup code h.rooms) [ none ↦ [] | some ms ↦ ms ]

abbrev is_empty : List Member → Bool
is_empty [] = true
is_empty (m ∷ ms) = false

unfoldable pub join_room : (ℕ → Bool) → Hub → String → ℕ → Hub × Option ℕ × Mail
unfolding send_all members_of
join_room open' h code tx =
    let members = members_of h code in
    let id = h.next_member in
    if leb 2 (length members) then (h, none, []) else (
      record h {
        next_member = (id + 1) % 2 ^ 64;
        rooms = insert code (members ++ record { id = id; tx = tx } ∷ []) h.rooms;
      },
      some id,
      send_all open' members joined_text
          ++ (if is_empty members then [] else send open' tx joined_text),
    )

-- The members whose id differs.
unfoldable pub others : ℕ → List Member → List Member
others id [] = []
others id (m ∷ ms) = if m.id == id then others id ms else m ∷ others id ms

unfoldable pub relay_room : (ℕ → Bool) → Hub → String → ℕ → String → Mail
unfolding send_all others
relay_room open' h code from_id text = elim (lookup code h.rooms) [
  | none ↦ []
  | some members ↦ send_all open' (others from_id members) text
]

unfoldable pub leave_room : (ℕ → Bool) → Hub → String → ℕ → Hub × Mail
unfolding send_all others
leave_room open' h code id = elim (lookup code h.rooms) [
  | none ↦ (h, [])
  | some members ↦
      let left = others id members in
      (
        record h {
          rooms = if is_empty left then remove code h.rooms else insert code left h.rooms;
        },
        send_all open' left left_text,
      )
]

unfoldable pub register : Hub → String → ℕ → ℕ → Hub
register h device_id user_id tx = record h {
  peers = insert device_id (record { user_id = user_id; tx = tx }) h.peers;
}

-- `same_channel` compares channel numbers.
unfoldable pub unregister : Hub → String → ℕ → Hub
unregister h device_id tx = elim (lookup device_id h.peers) [
  | none ↦ h
  | some existing ↦ if existing.tx == tx then record h { peers = remove device_id h.peers } else h
]

-- What `relay` returns: delivered, or the error.
abbrev pub RelayResult : Type 0
RelayResult = Option RelayError

unfoldable pub relay : (ℕ → Bool) → Hub → ℕ → String → String → RelayResult × Mail
unfolding send
relay open' h from_user_id to text = elim (lookup to h.peers) [
  | none ↦ (some offline, [])
  | some peer ↦
      if peer.user_id == from_user_id
      then (if open' peer.tx then none else some offline, send open' peer.tx text)
      else (some cross_account, [])
]

unfoldable pub online_count : Hub → ℕ
online_count h = length h.peers

unfoldable pub is_online : Hub → String → Bool
is_online h id = elim (lookup id h.peers) [ none ↦ false | some p ↦ true ]

unfoldable pub online_peers : Hub → List String
online_peers h = map (λ e. e.0) h.peers
