-- ===== src/Rendezvous/Api/Serve/Credentials.antt =====
-- Presenting a credential, and what it is exchanged for, keep the constraints of the database.
use reachmydevice.Prelude.{
  ℕ, ◌≡◌, refl, ap, Option, none, some, String, arith, Option-cases, inl, inr,
}
use reachmydevice.Rendezvous.Api.{
  unauthorized, Device, AppState, Config, Outside, Call, TurnConfig, pure,
}
use reachmydevice.Rendezvous.Api.Consistent.{update-IsConsistent}
use reachmydevice.Rendezvous.Api.Manage.{
  seen, resolve_device_token, device_for_token, stamped, resolve,
}
use reachmydevice.Rendezvous.Api.Relay.{
  resolved, requester, turn_creds_for, reuse_or_mint, minted, relay_reply, ice_reply, ice_servers,
  ticket_for, issue_ticket, ws_ticket, session_user, request_token,
}
use reachmydevice.Rendezvous.Api.Serve.Authentication.{Ok, after_keeps, ok_or_same, same_db}

module _ (o : Outside) (call : Call) where
  stamped-Ok : (found : Option Device) (s : AppState) → Ok s → Ok (stamped o call found s).0
  unfolding stamped
  stamped-Ok none s c = c
  stamped-Ok (some row) s c = update-IsConsistent s.db _ (seen call.now) (λ r. refl) (λ r. refl) c

  pub resolve_device_token-Ok :
      (token : String) (s : AppState) → Ok s → Ok (resolve_device_token o call token s).0
  unfolding resolve_device_token
  resolve_device_token-Ok token s c = stamped-Ok (device_for_token o call token s.db) s c

  resolved-Ok : (token : Option String) (s : AppState) → Ok s → Ok (resolved o call token s).0
  unfolding resolved resolve
  resolved-Ok none s c = c
  resolved-Ok (some token) s c =
      same_db
        (ap (λ t. t.db)
          (ok_or_same unauthorized (resolve o call token s).1 (resolve o call token s).0))
        (resolve_device_token-Ok token s c)

  requester-Ok :
      (user : Option ℕ) (token : Option String) (s : AppState)
      → Ok s
      → Ok (requester o call user token s).0
  unfolding requester
  requester-Ok (some user) token s c = c
  requester-Ok none token s c =
      after_keeps Ok (resolved o call token s) (λ cred. pure cred.user_id) (resolved-Ok token s c)
        (λ cred t e h. h)

  ticket_for-Ok :
      (user : Option ℕ) (token : Option String) (s : AppState)
      → Ok s
      → Ok (ticket_for o call user token s).0
  unfolding ticket_for
  ticket_for-Ok (some user) token s c = c
  ticket_for-Ok none token s c = resolved-Ok token s c

  pub ws_ticket-Ok :
      (header query : Option String) (s : AppState) → Ok s → Ok (ws_ticket o call header query s).0
  unfolding ws_ticket issue_ticket
  ws_ticket-Ok header query s c =
      after_keeps Ok
        (ticket_for o call (session_user o call header s) (request_token header query) s)
        (issue_ticket o call) (ticket_for-Ok _ _ s c) (λ cred t e h. h)

  pub turn_creds_for_db :
      (t : TurnConfig) (user : ℕ) (s : AppState) → (turn_creds_for o call t user s).0.db ≡ s.db
  unfolding turn_creds_for reuse_or_mint minted
  turn_creds_for_db t user s = ground arith

  pub ice_reply_db :
      (config : Config) (user : ℕ) (s : AppState) → (ice_reply o call config user s).0.db ≡ s.db
  unfolding ice_reply relay_reply
  ice_reply_db config user s = elim (Option-cases config.turn) [
    | inl e ↦ rw e refl
    | inr (t, e) ↦ rw e (ground (arith, turn_creds_for_db t user s))
  ]

  pub ice_servers-Ok :
      (config : Config) (header query : Option String) (s : AppState)
      → Ok s
      → Ok (ice_servers o call config header query s).0
  unfolding ice_servers
  ice_servers-Ok config header query s c =
      after_keeps Ok
        (requester o call (session_user o call header s) (request_token header query) s)
        (ice_reply o call config) (requester-Ok _ _ s c)
        (λ user t e h. same_db (ice_reply_db config user t) h)
