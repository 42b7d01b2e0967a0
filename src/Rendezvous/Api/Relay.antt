-- ===== src/Rendezvous/Api/Relay.antt =====
-- apps/rendezvous/src/api.rs: the ICE servers with TURN credentials, and the tickets of the WebSocket.
use Prim.Native.String
use reachmydevice.Prelude.{
  ℕ, zero, suc, ◌+◌, Option, none, some, List, [], ◌∷◌, String, ltb, ◌==◌, ◌&&◌, not, if◌then◌else◌,
}
use reachmydevice.Rendezvous.Tickets.{ResolvedCredential, issue, ticket_ttl}
use reachmydevice.Rendezvous.Api.Sql.{select_first, select_all}
use reachmydevice.Rendezvous.Api.Signin.{bearer_token, user_id_for_session}
use reachmydevice.Rendezvous.Api.Manage.{resolve}
use reachmydevice.Rendezvous.Api.{
  unauthorized, ok, err, TurnCredential, TurnConfig, AppState, Config, Outside, Call, App,
  RelayDecision, is_allowed, reason, ◌>>=◌, pure, ok_or,
}

-- An entry of `ice_servers`.
pub data IceServer : Type 0 where
  stun : String → ℕ → IceServer
  public_stun : IceServer
  turn : String → ℕ → String → String → IceServer  -- user name and credential

pub record IceReply : Type 0 where
  pub servers : List IceServer
  pub relay_denied : Option String

abbrev pub string_take : ℕ → String → String
string_take zero s = String.[]
string_take (suc n) String.[] = String.[]
string_take (suc n) (String.◌∷◌ c s) = String.◌∷◌ c (string_take n s)

-- `&token[..16]`, of a token of hexadecimal digits.
unfoldable pub first_16 : String → String
first_16 token = string_take 16 token

unfoldable pub request_token : Option String → Option String → Option String
request_token header query = elim (bearer_token header) [ none ↦ query | some t ↦ some t ]

module _ (o : Outside) (call : Call) where
  unfoldable pub session_user : Option String → AppState → Option ℕ
  session_user header s = elim (bearer_token header) [
    | none ↦ none
    | some t ↦ user_id_for_session o call s.db t
  ]

  unfoldable pub resolved : Option String → App ResolvedCredential
  resolved none s = (s, err unauthorized)
  resolved (some token) s = let (s', found) = resolve o call token s in ok_or unauthorized found s'

  -- A user name `<expiry>:<user id>` and its HMAC.
  unfoldable pub fresh_credential : TurnConfig → ℕ → TurnCredential
  fresh_credential t user =
      let username = String.◌++◌ (o.show (call.now + t.ttl_secs)) (String.◌++◌ ":" (o.show user)) in
      record {
        owner = user;
        username = username;
        credential = o.mint_turn_credential t.secret username;
        expiry = call.now + t.ttl_secs;
      }

  unfoldable pub minted : TurnCredential → AppState → AppState × TurnCredential
  minted c s = (
    record s {
      ice_cache =
          c
          ∷ select_all (λ (e : TurnCredential). ltb call.now e.expiry && not (e.owner == c.owner))
              s.ice_cache;
    },
    c,
  )

  unfoldable pub reuse_or_mint :
      TurnConfig → ℕ → Option TurnCredential → AppState → AppState × TurnCredential
  reuse_or_mint t user (some c) s =
      if ltb (call.now + 60) c.expiry then (s, c) else minted (fresh_credential t user) s
  reuse_or_mint t user none s = minted (fresh_credential t user) s

  unfoldable pub turn_creds_for : TurnConfig → ℕ → AppState → AppState × TurnCredential
  turn_creds_for t user s =
      reuse_or_mint t user (select_first (λ (e : TurnCredential). e.owner == user) s.ice_cache) s

  unfoldable pub relay_reply : TurnConfig → ℕ → RelayDecision → App IceReply
  relay_reply t user decision s =
      let (s', c) = turn_creds_for t user s in
      if is_allowed decision
      then (
        s',
        ok (record {
          servers = stun t.host t.port ∷ turn t.host t.port c.username c.credential ∷ [];
          relay_denied = none;
        }),
      )
      else (s, ok (record { servers = stun t.host t.port ∷ []; relay_denied = reason decision }))

  unfoldable pub ice_reply : Config → ℕ → App IceReply
  ice_reply config user s = elim config.turn [
    | none ↦ (s, ok (record { servers = public_stun ∷ []; relay_denied = none }))
    | some t ↦ relay_reply t user (call.allow_relay user) s
  ]

  -- A live session, else the credential that the resolver knows.
  unfoldable pub requester : Option ℕ → Option String → App ℕ
  requester (some user) token s = (s, ok user)
  requester none token s = (resolved token >>= λ cred. pure cred.user_id) s

  unfoldable pub ice_servers : Config → Option String → Option String → App IceReply
  ice_servers config header query s =
      (requester (session_user header s) (request_token header query) >>= ice_reply config) s

  unfoldable pub issue_ticket : ResolvedCredential → App String
  issue_ticket cred s = (
    record s {
      ws_tickets =
          issue s.ws_tickets cred call.ticket call.instant (ticket_ttl call.ticket_ttl_env);
    },
    ok call.ticket,
  )

  -- `v:<user id>:<16 random digits>`.
  unfoldable pub viewer_credential : ℕ → ResolvedCredential
  viewer_credential user = record {
    user_id = user;
    signaling_id =
        String.◌++◌ "v:" (String.◌++◌ (o.show user) (String.◌++◌ ":" (first_16 call.token)));
  }

  unfoldable pub ticket_for : Option ℕ → Option String → App ResolvedCredential
  ticket_for (some user) token s = (s, ok (viewer_credential user))
  ticket_for none token s = resolved token s

  unfoldable pub ws_ticket : Option String → Option String → App String
  ws_ticket header query s =
      (ticket_for (session_user header s) (request_token header query) >>= issue_ticket) s
