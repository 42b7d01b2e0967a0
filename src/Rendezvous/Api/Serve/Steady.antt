-- ===== src/Rendezvous/Api/Serve/Steady.antt =====
-- What most requests leave alone: the accounts, the settings and the cache of TURN credentials.
use reachmydevice.Prelude.{
  ℕ, ◌≡◌, refl, sym, subst, ◌∙◌, Option, none, some, List, String, arith, Bool-cases, inl, inr,
}
use reachmydevice.Prelude.Store.{Store}
use reachmydevice.Rendezvous.Throttle.{Verdict, allowed, retry_after, check}
use reachmydevice.Rendezvous.Api.Sql.{select_first}
use reachmydevice.Rendezvous.Api.{
  User, Device, TurnCredential, AppState, Config, Outside, Call, App, after, pure, unauthorized,
}
use reachmydevice.Rendezvous.Api.Signin.{
  authed_user, authenticate_user, login, mint_user_session, try_password, password_checked,
  basic_user, session_or_basic, basic_auth, bearer_token, user_id_for_session,
}
use reachmydevice.Rendezvous.Api.Devices.{
  RegisterDevice, RefreshToken, has_device_id, device_user, body_user, register_device,
  register_for, find_or_create, claim_device, token_reply, issue_device_token, issued, insert_token,
  refresh_token, refresh_row, delete_devices, proves_key,
}
use reachmydevice.Rendezvous.Api.Manage.{
  delete_owned, rename_owned, resolve_device_token, device_for_token, stamped, resolve,
}
use reachmydevice.Rendezvous.Api.Relay.{
  resolved, requester, ticket_for, issue_ticket, ws_ticket, session_user, request_token,
}
use reachmydevice.Rendezvous.Api.Serve.Authentication.{after_keeps, ok_or_same}

module _ (users : List User) (settings : Store String) (cache : List TurnCredential) where
  pub record IsSteady (s : AppState) : Type 0 where
    pub same_users : s.db.users ≡ users
    pub same_settings : s.db.settings ≡ settings
    pub same_cache : s.ice_cache ≡ cache

  -- A step that leaves all three.
  leaves :
      (s t : AppState)
      → t.db.users ≡ s.db.users
      → t.db.settings ≡ s.db.settings
      → t.ice_cache ≡ s.ice_cache
      → IsSteady s
      → IsSteady t
  leaves s t u e c h = record {
    same_users = u ∙ h.same_users;
    same_settings = e ∙ h.same_settings;
    same_cache = c ∙ h.same_cache;
  }

  module _ (o : Outside) (call : Call) where
    try_password-IsSteady :
        (v : Verdict) (username password : String) (s : AppState)
        → IsSteady s
        → IsSteady (try_password o call v username password s).0
    unfolding try_password password_checked
    try_password-IsSteady (retry_after secs) username password s h = h
    try_password-IsSteady allowed username password s h =
        leaves s (try_password o call allowed username password s).0 (ground arith) (ground arith)
          (ground arith) h

    authenticate_user-IsSteady :
        (username password : String) (s : AppState)
        → IsSteady s
        → IsSteady (authenticate_user o call username password s).0
    unfolding authenticate_user
    authenticate_user-IsSteady username password s h =
        try_password-IsSteady (check s.throttle username call.instant) username password s h

    basic_user-IsSteady :
        (found : Option (String × String)) (s : AppState)
        → IsSteady s
        → IsSteady (basic_user o call found s).0
    unfolding basic_user
    basic_user-IsSteady none s h = h
    basic_user-IsSteady (some (username, password)) s h =
        authenticate_user-IsSteady username password s h

    session_or_basic-IsSteady :
        (token header : Option String) (s : AppState)
        → IsSteady s
        → IsSteady (session_or_basic o call token header s).0
    unfolding session_or_basic
    session_or_basic-IsSteady none header s h = basic_user-IsSteady (basic_auth o header) s h
    session_or_basic-IsSteady (some token) header s h =
        subst IsSteady (sym (ok_or_same unauthorized (user_id_for_session o call s.db token) s)) h

    pub authed_user-IsSteady :
        (header : Option String) (s : AppState)
        → IsSteady s
        → IsSteady (authed_user o call header s).0
    unfolding authed_user
    authed_user-IsSteady header s h = session_or_basic-IsSteady (bearer_token header) header s h

    mint_user_session-IsSteady :
        (user : ℕ) (s : AppState) → IsSteady s → IsSteady (mint_user_session o call user s).0
    unfolding mint_user_session
    mint_user_session-IsSteady user s h =
        leaves s (mint_user_session o call user s).0 (ground arith) (ground arith) (ground arith) h

    pub login-IsSteady :
        (username password : String) (s : AppState)
        → IsSteady s
        → IsSteady (login o call username password s).0
    unfolding login
    login-IsSteady username password s h =
        after_keeps IsSteady (authenticate_user o call username password s)
          (mint_user_session o call) (authenticate_user-IsSteady username password s h)
          (λ user t e k. mint_user_session-IsSteady user t k)

    stamped-IsSteady :
        (found : Option Device) (s : AppState) → IsSteady s → IsSteady (stamped o call found s).0
    unfolding stamped
    stamped-IsSteady none s h = h
    stamped-IsSteady (some row) s h = leaves s _ refl refl refl h

    pub resolve_device_token-IsSteady :
        (token : String) (s : AppState)
        → IsSteady s
        → IsSteady (resolve_device_token o call token s).0
    unfolding resolve_device_token
    resolve_device_token-IsSteady token s h =
        stamped-IsSteady (device_for_token o call token s.db) s h

    resolved-IsSteady :
        (token : Option String) (s : AppState) → IsSteady s → IsSteady (resolved o call token s).0
    unfolding resolved resolve
    resolved-IsSteady none s h = h
    resolved-IsSteady (some token) s h =
        subst IsSteady
          (sym (ok_or_same unauthorized (resolve o call token s).1 (resolve o call token s).0))
          (resolve_device_token-IsSteady token s h)

    pub requester-IsSteady :
        (user : Option ℕ) (token : Option String) (s : AppState)
        → IsSteady s
        → IsSteady (requester o call user token s).0
    unfolding requester
    requester-IsSteady (some user) token s h = h
    requester-IsSteady none token s h =
        after_keeps IsSteady (resolved o call token s) (λ cred. pure cred.user_id)
          (resolved-IsSteady token s h) (λ cred t e k. k)

    ticket_for-IsSteady :
        (user : Option ℕ) (token : Option String) (s : AppState)
        → IsSteady s
        → IsSteady (ticket_for o call user token s).0
    unfolding ticket_for
    ticket_for-IsSteady (some user) token s h = h
    ticket_for-IsSteady none token s h = resolved-IsSteady token s h

    pub ws_ticket-IsSteady :
        (header query : Option String) (s : AppState)
        → IsSteady s
        → IsSteady (ws_ticket o call header query s).0
    unfolding ws_ticket issue_ticket
    ws_ticket-IsSteady header query s h =
        after_keeps IsSteady
          (ticket_for o call (session_user o call header s) (request_token header query) s)
          (issue_ticket o call) (ticket_for-IsSteady _ _ s h)
          (λ cred t e k. leaves t _ refl refl refl k)

    -- An operation of a signed-in user.
    pub for_user-IsSteady :
        {A : Type 0} (header : Option String) (f : ℕ → App A) (s : AppState)
        → ((user : ℕ) (t : AppState) → IsSteady t → IsSteady (f user t).0)
        → IsSteady s
        → IsSteady (after (authed_user o call header s) f).0
    for_user-IsSteady header f s keeps h =
        after_keeps IsSteady (authed_user o call header s) f (authed_user-IsSteady header s h)
          (λ user t e k. keeps user t k)

  pub delete_owned-IsSteady :
      (device_id : String) (user : ℕ) (s : AppState)
      → IsSteady s
      → IsSteady (delete_owned device_id user s).0
  unfolding delete_owned delete_devices
  delete_owned-IsSteady device_id user s h =
      leaves s (delete_owned device_id user s).0 (ground arith) (ground arith) (ground arith) h

  pub rename_owned-IsSteady :
      (device_id raw : String) (user : ℕ) (s : AppState)
      → IsSteady s
      → IsSteady (rename_owned device_id raw user s).0
  unfolding rename_owned
  rename_owned-IsSteady device_id raw user s h =
      leaves s (rename_owned device_id raw user s).0 (ground arith) (ground arith) (ground arith) h

  module _ (o : Outside) (config : Config) (call : Call) where
    token_reply-IsSteady :
        (id : String) (pk : ℕ) (s : AppState)
        → IsSteady s
        → IsSteady (token_reply o config call id pk s).0
    unfolding token_reply issue_device_token issued insert_token
    token_reply-IsSteady id pk s h =
        leaves s (token_reply o config call id pk s).0 (ground arith) (ground arith) (ground arith)
          h

    claim_device-IsSteady :
        (user : ℕ) (body : RegisterDevice) (found : Option Device) (s : AppState)
        → IsSteady s
        → IsSteady (claim_device o config call user body found s).0
    unfolding claim_device
    claim_device-IsSteady user body none s h = leaves s _ refl refl refl h
    claim_device-IsSteady user body (some d) s h =
        leaves s (claim_device o config call user body (some d) s).0 (ground arith) (ground arith)
          (ground arith) h

    register_for-IsSteady :
        (body : RegisterDevice) (user : ℕ) (s : AppState)
        → IsSteady s
        → IsSteady (register_for o config call body user s).0
    unfolding register_for find_or_create
    register_for-IsSteady body user s h =
        after_keeps IsSteady
          (claim_device o config call user body
            (select_first (has_device_id body.device_id) s.db.devices) s)
          (token_reply o config call body.device_id) (claim_device-IsSteady user body _ s h)
          (λ pk t e k. token_reply-IsSteady body.device_id pk t k)

    body_user-IsSteady :
        (username password : Option String) (s : AppState)
        → IsSteady s
        → IsSteady (body_user o config call username password s).0
    unfolding body_user
    body_user-IsSteady (some username) (some password) s h =
        authenticate_user-IsSteady o call username password s h
    body_user-IsSteady none password s h = h
    body_user-IsSteady (some username) none s h = h

    device_user-IsSteady :
        (header : Option String) (body : RegisterDevice) (s : AppState)
        → IsSteady s
        → IsSteady (device_user o config call header body s).0
    unfolding device_user
    device_user-IsSteady (some value) body s h = authed_user-IsSteady o call (some value) s h
    device_user-IsSteady none body s h = body_user-IsSteady body.username body.password s h

    pub register_device-IsSteady :
        (header : Option String) (body : RegisterDevice) (s : AppState)
        → IsSteady s
        → IsSteady (register_device o config call header body s).0
    unfolding register_device
    register_device-IsSteady header body s h =
        after_keeps IsSteady (device_user o config call header body s)
          (register_for o config call body) (device_user-IsSteady header body s h)
          (λ user t e k. register_for-IsSteady body user t k)

    refresh_row-IsSteady :
        (body : RefreshToken) (found : Option Device) (s : AppState)
        → IsSteady s
        → IsSteady (refresh_row o config call body found s).0
    unfolding refresh_row
    refresh_row-IsSteady body none s h = h
    refresh_row-IsSteady body (some d) s h = token_reply-IsSteady body.device_id d.id s h

    pub refresh_token-IsSteady :
        (body : RefreshToken) (s : AppState)
        → IsSteady s
        → IsSteady (refresh_token o config call body s).0
    unfolding refresh_token
    refresh_token-IsSteady body s h = elim (Bool-cases (proves_key o call body)) [
      | inr e ↦ rw e h
      | inl e ↦ rw e (refresh_row-IsSteady body _ s h)
    ]
