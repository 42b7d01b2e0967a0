-- ===== src/Rendezvous/Api/Serve/Tokens.antt =====
-- The handlers of apps/rendezvous/src/api.rs that leave the table of tokens as it is.
use reachmydevice.Prelude.{ℕ, ◌≡◌, refl, ap, ◌∙◌, Bool, Option, none, some, String, arith}
use reachmydevice.Rendezvous.Api.{Device, AppState, Config, Outside, Call, pure, unauthorized}
use reachmydevice.Rendezvous.Api.Users.{
  RegisterUser, register_user, create_account, create_hashed, create_user_if_allowed,
  set_registration, set_setting, signup_rights, registration_open,
}
use reachmydevice.Rendezvous.Api.Signin.{authenticate_user, login, mint_user_session}
use reachmydevice.Rendezvous.Api.Devices.{RegisterDevice, claim_device}
use reachmydevice.Rendezvous.Api.Manage.{
  rename_owned, stamped, device_for_token, resolve_device_token, resolve,
}
use reachmydevice.Rendezvous.Api.Relay.{
  resolved, requester, ice_reply, ice_servers, ticket_for, issue_ticket, ws_ticket, session_user,
  request_token,
}
use reachmydevice.Rendezvous.Api.Serve.Authentication.{
  after_keeps, ok_or_same, authenticate_user_db,
}
use reachmydevice.Rendezvous.Api.Serve.Credentials.{ice_reply_db}

-- The tokens of the state are those that it had.
abbrev pub Kept : AppState → AppState → Type 0
Kept s t = t.db.device_tokens ≡ s.db.device_tokens

create_hashed_tokens :
    (hash : Option String) (username : String) (rights : Bool × Bool) (s : AppState)
    → Kept s (create_hashed hash username rights s).0
unfolding create_hashed create_user_if_allowed
create_hashed_tokens none username rights s = refl
create_hashed_tokens (some hash) username rights s = ground arith

pub register_user_tokens :
    (config : Config) (call : Call) (body : RegisterUser) (s : AppState)
    → Kept s (register_user config call body s).0
unfolding register_user create_account
register_user_tokens config call body s =
    let rights = signup_rights config (registration_open config s.db) body.bootstrap in
    ground (arith, create_hashed_tokens call.password_hash body.username rights s)

pub set_registration_tokens :
    (config : Config) (header : Option String) (enabled : Bool) (s : AppState)
    → Kept s (set_registration config header enabled s).0
unfolding set_registration set_setting
set_registration_tokens config header enabled s = ground arith

module _ (o : Outside) (call : Call) where
  mint_tokens : (user : ℕ) (s : AppState) → Kept s (mint_user_session o call user s).0
  unfolding mint_user_session
  mint_tokens user s = ground arith

  pub login_tokens :
      (username password : String) (s : AppState) → Kept s (login o call username password s).0
  unfolding login
  login_tokens username password s =
      after_keeps (Kept s) (authenticate_user o call username password s) (mint_user_session o call)
        (ap (λ d. d.device_tokens) (authenticate_user_db o call username password s))
        (λ user t e h. mint_tokens user t ∙ h)

  pub stamped_tokens : (found : Option Device) (s : AppState) → Kept s (stamped o call found s).0
  unfolding stamped
  stamped_tokens none s = refl
  stamped_tokens (some row) s = refl

  resolved_tokens : (token : Option String) (s : AppState) → Kept s (resolved o call token s).0
  unfolding resolved resolve resolve_device_token
  resolved_tokens none s = refl
  resolved_tokens (some token) s =
      ap (λ t. t.db.device_tokens)
        (ok_or_same unauthorized (resolve o call token s).1 (resolve o call token s).0)
      ∙ stamped_tokens (device_for_token o call token s.db) s

  requester_tokens :
      (user : Option ℕ) (token : Option String) (s : AppState)
      → Kept s (requester o call user token s).0
  unfolding requester
  requester_tokens (some user) token s = refl
  requester_tokens none token s =
      after_keeps (Kept s) (resolved o call token s) (λ cred. pure cred.user_id)
        (resolved_tokens token s) (λ cred t e h. h)

  ticket_for_tokens :
      (user : Option ℕ) (token : Option String) (s : AppState)
      → Kept s (ticket_for o call user token s).0
  unfolding ticket_for
  ticket_for_tokens (some user) token s = refl
  ticket_for_tokens none token s = resolved_tokens token s

  pub ws_ticket_tokens :
      (header query : Option String) (s : AppState) → Kept s (ws_ticket o call header query s).0
  unfolding ws_ticket issue_ticket
  ws_ticket_tokens header query s =
      after_keeps (Kept s)
        (ticket_for o call (session_user o call header s) (request_token header query) s)
        (issue_ticket o call) (ticket_for_tokens _ _ s) (λ cred t e h. h)

  pub ice_servers_tokens :
      (config : Config) (header query : Option String) (s : AppState)
      → Kept s (ice_servers o call config header query s).0
  unfolding ice_servers
  ice_servers_tokens config header query s =
      after_keeps (Kept s)
        (requester o call (session_user o call header s) (request_token header query) s)
        (ice_reply o call config) (requester_tokens _ _ s)
        (λ user t e h. ap (λ d. d.device_tokens) (ice_reply_db o call config user t) ∙ h)

pub rename_owned_tokens :
    (device_id raw : String) (user : ℕ) (s : AppState)
    → Kept s (rename_owned device_id raw user s).0
unfolding rename_owned
rename_owned_tokens device_id raw user s = ground arith

module _ (o : Outside) (config : Config) (call : Call) where
  pub claim_device_tokens :
      (user : ℕ) (body : RegisterDevice) (found : Option Device) (s : AppState)
      → Kept s (claim_device o config call user body found s).0
  unfolding claim_device
  claim_device_tokens user body none s = refl
  claim_device_tokens user body (some row) s = ground arith
