-- ===== src/Rendezvous/Api/Serve/Constraints.antt =====
-- Every request keeps the constraints of the database.
use reachmydevice.Prelude.{ℕ, refl, Option, String}
use reachmydevice.Rendezvous.Api.{AppState, Config, Outside, Call, App, after}
use reachmydevice.Rendezvous.Api.Consistent.{
  IsConsistent, update-IsConsistent, delete_session-IsConsistent,
}
use reachmydevice.Rendezvous.Api.Signin.{authed_user, revoke_user_session}
use reachmydevice.Rendezvous.Api.Manage.{
  devices_of, delete_owned, rename_owned, seen, touch_last_seen, list_devices, delete_device,
  rename_device,
}
use reachmydevice.Rendezvous.Api.Serve.{
  Request, sign_up, set_signup, sign_in, sign_out, enrol, renew, list, delete, rename, heartbeat,
  present, ice, ticket, serve,
}
use reachmydevice.Rendezvous.Api.Serve.Authentication.{Ok, after_keeps, same_db, authed_user_db}
use reachmydevice.Rendezvous.Api.Serve.Accounts.{register_user-Ok, set_registration-Ok, login-Ok}
use reachmydevice.Rendezvous.Api.Serve.Enrolment.{
  register_device-Ok, refresh_token-Ok, delete_owned-Ok, rename_owned-Ok,
}
use reachmydevice.Rendezvous.Api.Serve.Credentials.{
  resolve_device_token-Ok, ice_servers-Ok, ws_ticket-Ok,
}

module _ (o : Outside) (call : Call) where
  -- An operation of a signed-in user.
  for_user-Ok :
      {A : Type 0} (header : Option String) (f : ℕ → App A) (s : AppState)
      → ((user : ℕ) (t : AppState) → Ok t → Ok (f user t).0)
      → Ok s
      → Ok (after (authed_user o call header s) f).0
  for_user-Ok header f s keeps c =
      after_keeps Ok (authed_user o call header s) f (same_db (authed_user_db o call header s) c)
        (λ user t e h. keeps user t h)

module _ (o : Outside) (config : Config) where
  pub serve-IsConsistent :
      (s : AppState) (r : Call × Request) → IsConsistent s.db → IsConsistent (serve o config s r).db
  unfolding serve list_devices devices_of delete_device rename_device touch_last_seen
      revoke_user_session
  serve-IsConsistent s (call, sign_up body) c = register_user-Ok config call body s c
  serve-IsConsistent s (call, set_signup header enabled) c =
      set_registration-Ok config header enabled s c
  serve-IsConsistent s (call, sign_in username password) c = login-Ok o call username password s c
  serve-IsConsistent s (call, sign_out token) c = delete_session-IsConsistent s.db _ c
  serve-IsConsistent s (call, enrol header body) c =
      register_device-Ok o config call header body s c
  serve-IsConsistent s (call, renew body) c = refresh_token-Ok o config call body s c
  serve-IsConsistent s (call, list header) c =
      for_user-Ok o call header devices_of s (λ user t h. h) c
  serve-IsConsistent s (call, delete header device_id) c =
      for_user-Ok o call header (delete_owned device_id) s (delete_owned-Ok device_id) c
  serve-IsConsistent s (call, rename header device_id name) c =
      for_user-Ok o call header (rename_owned device_id name) s (rename_owned-Ok device_id name) c
  serve-IsConsistent s (call, heartbeat device_id) c =
      update-IsConsistent s.db _ (seen call.now) (λ r. refl) (λ r. refl) c
  serve-IsConsistent s (call, present token) c = resolve_device_token-Ok o call token s c
  serve-IsConsistent s (call, ice header query) c = ice_servers-Ok o call config header query s c
  serve-IsConsistent s (call, ticket header query) c = ws_ticket-Ok o call header query s c
