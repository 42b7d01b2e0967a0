-- ===== src/Rendezvous/Api/Serve/Signup.antt =====
-- Closed sign-up: no run of requests adds an account.
use reachmydevice.Prelude.{
  ◌≡◌, refl, ap, sym, subst, ◌∙◌, Bool, true, false, ◌&&◌, Option, none, some, List, [], ◌∷◌,
  String, arith, ◌==◌, length, Option-cases, inl, inr,
}
use reachmydevice.Prelude.Store.{Store}
use reachmydevice.Rendezvous.Api.{User, TurnCredential, AppState, Database, Config, Outside, Call}
use reachmydevice.Rendezvous.Api.Users.{
  RegisterUser, register_user, create_account, create_hashed, create_user_if_allowed,
  set_registration, require_admin, signup_rights, registration_open, same_secret,
}
use reachmydevice.Rendezvous.Api.Signin.{revoke_user_session}
use reachmydevice.Rendezvous.Api.Manage.{
  list_devices, devices_of, delete_device, delete_owned, rename_device, rename_owned,
  touch_last_seen,
}
use reachmydevice.Rendezvous.Api.Relay.{
  requester, ice_servers, ice_reply, session_user, request_token,
}
use reachmydevice.Rendezvous.Api.Serve.{
  Request, sign_up, set_signup, sign_in, sign_out, enrol, renew, list, delete, rename, heartbeat,
  present, ice, ticket, serve, serve_all,
}
use reachmydevice.Rendezvous.Api.Serve.Authentication.{after_keeps}
use reachmydevice.Rendezvous.Api.Serve.Credentials.{ice_reply_db}
use reachmydevice.Rendezvous.Api.Serve.Steady.{
  IsSteady, login-IsSteady, resolve_device_token-IsSteady, requester-IsSteady, ws_ticket-IsSteady,
  for_user-IsSteady, delete_owned-IsSteady, rename_owned-IsSteady, register_device-IsSteady,
  refresh_token-IsSteady,
}

-- Whether the bootstrap token is configured and presented.
unfoldable pub presents_bootstrap : Config → Option String → Bool
presents_bootstrap config presented = elim config.bootstrap_token [
  | none ↦ false
  | some expected ↦ elim presented [ none ↦ false | some t ↦ same_secret t expected ]
]

-- A request of the operator: with the bootstrap token or the admin's.
unfoldable pub is_operator : Config → Request → Bool
is_operator config (sign_up body) = presents_bootstrap config body.bootstrap
is_operator config (set_signup header enabled) = require_admin config header
is_operator config r = false

-- No request of the run is the operator's.
abbrev pub NoOperator : Config → List (Call × Request) → Type 0
NoOperator config [] = Unit
NoOperator config (r ∷ rs) = (is_operator config r.1 ≡ false) × NoOperator config rs

-- The first account needs no bootstrap token.
abbrev pub first_needs_none : Config → Bool
first_needs_none config = elim config.bootstrap_token [ none ↦ true | some t ↦ false ]

-- Sign-up is closed, and there is an account, or the first one needs the bootstrap token.
pub record IsClosed (config : Config) (db : Database) : Type 0 where
  pub shut : registration_open config db ≡ false
  pub claimed : ((length db.users == 0) && first_needs_none config) ≡ false

create_account_same :
    (call : Call) (username : String) (boot : Bool) (s : AppState)
    → ((length s.db.users == 0) && boot) ≡ false
    → (create_account call username (false, boot) s).0 ≡ s
unfolding create_account create_hashed create_user_if_allowed
create_account_same call username boot s e = elim (Option-cases call.password_hash) [
  | inl n ↦ ground (arith, n, e)
  | inr (h, n) ↦ ground (arith, n, e)
]

rights_closed :
    (config : Config) (presented : Option String)
    → presents_bootstrap config presented ≡ false
    → signup_rights config false presented ≡ (false, first_needs_none config)
unfolding signup_rights presents_bootstrap
rights_closed config presented h = elim (Option-cases config.bootstrap_token) [
  | inl e ↦ rw e refl
  | inr (t, e) ↦ ground (arith, e, h)
]

register_user_same :
    (config : Config) (call : Call) (body : RegisterUser) (s : AppState)
    → IsClosed config s.db
    → presents_bootstrap config body.bootstrap ≡ false
    → (register_user config call body s).0 ≡ s
unfolding register_user
register_user_same config call body s c h =
    let rights : signup_rights config (registration_open config s.db) body.bootstrap
        ≡ (false, first_needs_none config) =
      ap (λ b. signup_rights config b body.bootstrap) c.shut
      ∙ rights_closed config body.bootstrap h in
    let same : (create_account call body.username
          (signup_rights config (registration_open config s.db) body.bootstrap) s).0
        ≡ s =
      ap (λ r. (create_account call body.username r s).0) rights
      ∙ create_account_same call body.username (first_needs_none config) s c.claimed in
    ground (arith, same)

set_registration_same :
    (config : Config) (header : Option String) (enabled : Bool) (s : AppState)
    → require_admin config header ≡ false
    → (set_registration config header enabled s).0 ≡ s
unfolding set_registration
set_registration_same config header enabled s e = rw e refl

module _ (o : Outside) (config : Config) where
  -- The accounts and the settings, which sign-up reads.
  abbrev Same : List User → Store String → AppState → Type 0
  Same users settings s = (s.db.users ≡ users) × (s.db.settings ≡ settings)

  of_steady :
      (users : List User) (settings : Store String) (cache : List TurnCredential) (s : AppState)
      → IsSteady users settings cache s
      → Same users settings s
  of_steady users settings cache s h = (h.same_users, h.same_settings)

  pub steady : (s : AppState) → IsSteady s.db.users s.db.settings s.ice_cache s
  steady s = record { same_users = refl; same_settings = refl; same_cache = refl }

  ice-Same :
      (call : Call) (header query : Option String) (s : AppState)
      → Same s.db.users s.db.settings (ice_servers o call config header query s).0
  unfolding ice_servers
  ice-Same call header query s =
      let user = session_user o call header s in
      let token = request_token header query in
      after_keeps (Same s.db.users s.db.settings) (requester o call user token s)
        (ice_reply o call config)
        (of_steady s.db.users s.db.settings s.ice_cache (requester o call user token s).0
          (requester-IsSteady s.db.users s.db.settings s.ice_cache o call user token s (steady s)))
        (λ id t e h. (
          ap (λ d. d.users) (ice_reply_db o call config id t) ∙ h.0,
          ap (λ d. d.settings) (ice_reply_db o call config id t) ∙ h.1,
        ))

  serve-Same :
      (s : AppState) (call : Call) (r : Request)
      → IsClosed config s.db
      → is_operator config r ≡ false
      → Same s.db.users s.db.settings (serve o config s (call, r))
  unfolding serve is_operator list_devices devices_of delete_device rename_device touch_last_seen
      revoke_user_session
  serve-Same s call (sign_up body) c h =
      let e = register_user_same config call body s c h in
      (ap (λ t. t.db.users) e, ap (λ t. t.db.settings) e)
  serve-Same s call (set_signup header enabled) c h =
      let e = set_registration_same config header enabled s h in
      (ap (λ t. t.db.users) e, ap (λ t. t.db.settings) e)
  serve-Same s call (sign_in username password) c h =
      of_steady _ _ _ _ (login-IsSteady _ _ s.ice_cache o call username password s (steady s))
  serve-Same s call (sign_out token) c h = (refl, refl)
  serve-Same s call (enrol header body) c h =
      of_steady _ _ _ _
        (register_device-IsSteady _ _ s.ice_cache o config call header body s (steady s))
  serve-Same s call (renew body) c h =
      of_steady _ _ _ _ (refresh_token-IsSteady _ _ s.ice_cache o config call body s (steady s))
  serve-Same s call (list header) c h =
      of_steady _ _ _ _
        (for_user-IsSteady _ _ s.ice_cache o call header devices_of s (λ user t k. k) (steady s))
  serve-Same s call (delete header device_id) c h = of_steady _ _ _ _ (
      for_user-IsSteady _ _ s.ice_cache o call header (delete_owned device_id) s
        (delete_owned-IsSteady _ _ s.ice_cache device_id) (steady s))
  serve-Same s call (rename header device_id name) c h = of_steady _ _ _ _ (
      for_user-IsSteady _ _ s.ice_cache o call header (rename_owned device_id name) s
        (rename_owned-IsSteady _ _ s.ice_cache device_id name) (steady s))
  serve-Same s call (heartbeat device_id) c h = (refl, refl)
  serve-Same s call (present token) c h =
      of_steady _ _ _ _ (resolve_device_token-IsSteady _ _ s.ice_cache o call token s (steady s))
  serve-Same s call (ice header query) c h = ice-Same call header query s
  serve-Same s call (ticket header query) c h =
      of_steady _ _ _ _ (ws_ticket-IsSteady _ _ s.ice_cache o call header query s (steady s))

  closed_again :
      (s t : AppState)
      → Same s.db.users s.db.settings t
      → IsClosed config s.db
      → IsClosed config t.db
  unfolding registration_open
  closed_again s t (users, settings) c = record {
    shut =
        subst (λ m. registration_open config (record s.db { settings = m }) ≡ false) (sym settings)
          c.shut;
    claimed =
        subst (λ us. ((length us == 0) && first_needs_none config) ≡ false) (sym users) c.claimed;
  }

  -- Closed sign-up stays closed: once registration is off, and there is an account or the first one needs
  -- the bootstrap token, no run of requests without the bootstrap token and the admin token adds an
  -- account, changes a password or opens registration.
  pub serve_all-IsClosed :
      (s : AppState) (rs : List (Call × Request))
      → IsClosed config s.db
      → NoOperator config rs
      → ((serve_all o config s rs).db.users ≡ s.db.users)
        × (registration_open config (serve_all o config s rs).db ≡ false)
  unfolding serve_all
  serve_all-IsClosed s [] c h = (refl, c.shut)
  serve_all-IsClosed s (r ∷ rs) c h =
      let same = serve-Same s r.0 r.1 c h.0 in
      let next = serve o config s r in
      let rest = serve_all-IsClosed next rs (closed_again s next same c) h.1 in
      (rest.0 ∙ same.0, rest.1)
