-- ===== src/Rendezvous/Socket.antt =====
-- apps/rendezvous/src/signaling.rs: the sockets. `ws_handler` authenticates, `handle_socket` relays the
-- frames of one device, `ws_pair_handler` and `handle_pair_socket` those of one pairing party. What
-- other connections do to the hub in between enters through the hub that each message finds.
-- JSON (`serde_json`) and the credential resolver are parameters.
pub mod Frames
use Prim.Native.String.{len}
use reachmydevice.Prelude.{
  ℕ, suc, ◌+◌, Bool, true, false, not, ◌&&◌, Option, none, some, List, [], ◌∷◌, ◌++◌, String, leb,
  ◌==◌, if◌then◌else◌,
}
use reachmydevice.Rendezvous.Tickets.{ResolvedCredential, TicketStore, redeem}
use reachmydevice.Rendezvous.Hub.{Hub, Mail, relay, relay_room}
use reachmydevice.Rendezvous.Limiter.{FrameLimiter, allow_at}

-- `ws_handler`: a ticket goes before a token; with neither the upgrade is refused.
unfoldable pub authenticate :
    (String → Option ResolvedCredential)
    → TicketStore
    → Option String
    → Option String
    → ℕ
    → TicketStore × Option ResolvedCredential
authenticate resolve m (some ticket) token now = redeem m ticket now
authenticate resolve m none (some token) now = (m, resolve token)
authenticate resolve m none none now = (m, none)

pub data Message : Type 0 where
  text : String → Message
  close : Message
  control : Message  -- binary, ping or pong

-- A message that arrives at a time, and the hub as it is then.
pub record Incoming : Type 0 where
  pub now : ℕ
  pub hub : Hub
  pub msg : Message

-- `{"to": …, "payload": …}`.
pub record RelayFrame (J : Type 0) : Type 0 where
  pub to : String
  pub payload : J

module _ {J : Type 0} (parse : String → Option (RelayFrame J)) (reply : String → J → String) where
  -- What is relayed of one text that the limiter let through.
  unfoldable pub relay_text : (ℕ → Bool) → String → ℕ → Hub → String → Mail
  relay_text open' me user h t = elim (parse t) [
    | none ↦ []
    | some frame ↦ (relay open' h user frame.to (reply me frame.payload)).1
  ]

  -- The receive task of `handle_socket`.
  unfoldable pub recv_task : (ℕ → Bool) → String → ℕ → FrameLimiter → List Incoming → Mail
  unfolding relay_text
  recv_task open' me user l [] = []
  recv_task open' me user l (i ∷ is) =
      let on_text = λ (t : String).
        (let (l', ok) = allow_at l i.now in
          let rest = recv_task open' me user l' is in
          if ok then relay_text open' me user i.hub t ++ rest else rest) in
      let skip = recv_task open' me user l is in
      elim i.msg [ text t ↦ on_text t | close ↦ [] | control ↦ skip ]

-- `ws_pair_handler`: a code of 1 to 128 bytes.
unfoldable pub accepts_code : String → Bool
accepts_code code = not (len code == 0) && leb (len code) 128

module _ {J : Type 0} (parse : String → Option J) (wrap : J → String) where
  unfoldable pub pair_text : (ℕ → Bool) → String → ℕ → Hub → String → Mail
  pair_text open' code member h t = elim (parse t) [
    | none ↦ []
    | some payload ↦ relay_room open' h code member (wrap payload)
  ]

  -- The receive task of `handle_pair_socket`.
  unfoldable pub pair_task : (ℕ → Bool) → String → ℕ → List Incoming → Mail
  unfolding pair_text
  pair_task open' code member [] = []
  pair_task open' code member (i ∷ is) =
      let rest = pair_task open' code member is in
      elim i.msg [
        | text t ↦ pair_text open' code member i.hub t ++ rest
        | close ↦ []
        | control ↦ rest
      ]
