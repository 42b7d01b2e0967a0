-- ===== src/Rendezvous/Api/Serve/Isolation.antt =====
-- Runs of the server: whose requests can change a device's record.
use reachmydevice.Prelude.{
  ℕ, ◌≡◌, ◌≢◌, refl, ap, sym, subst, Option, none, some, List, [], ◌∷◌, String, arith, Option-cases,
  inl, inr,
}
use reachmydevice.Rendezvous.Api.Sql.{select_first}
use reachmydevice.Rendezvous.Api.{
  AppResult, ok, err, Device, Database, AppState, Config, Outside, Call, App, after, pure,
  unauthorized,
}
use reachmydevice.Rendezvous.Api.Consistent.{IsConsistent}
use reachmydevice.Rendezvous.Api.Signin.{authed_user, revoke_user_session}
use reachmydevice.Rendezvous.Api.Devices.{
  RegisterDevice, has_device_id, device_user, register_device, register_for, find_or_create,
  claim_device, token_reply,
}
use reachmydevice.Rendezvous.Api.Manage.{
  list_devices, devices_of, delete_device, delete_owned, rename_device, rename_owned,
  touch_last_seen, resolve_device_token, device_for_token, stamped, resolve,
}
use reachmydevice.Rendezvous.Api.Relay.{
  resolved, requester, ice_servers, ice_reply, ticket_for, issue_ticket, ws_ticket, session_user,
  request_token,
}
use reachmydevice.Rendezvous.Api.Serve.{
  Request, sign_up, set_signup, sign_in, sign_out, enrol, renew, list, delete, rename, heartbeat,
  present, ice, ticket, serve, serve_all,
}
use reachmydevice.Rendezvous.Api.Serve.Authentication.{
  after_keeps, ok_or_same, authed_user_db, device_user_db,
}
use reachmydevice.Rendezvous.Api.Serve.Credentials.{ice_reply_db}
use reachmydevice.Rendezvous.Api.Serve.Constraints.{serve-IsConsistent}
use reachmydevice.Rendezvous.Api.Serve.Ownership.{
  Description, description, Recorded, seen-Recorded, delete_owned-Recorded, rename_owned-Recorded,
  claim_device-Recorded,
}
use reachmydevice.Rendezvous.Api.Serve.Unchanged.{
  register_user_devices, set_registration_devices, login_devices, token_reply_devices,
  refresh_token_devices,
}

abbrev pub result : {A : Type 0} → AppResult A → Option A
result (ok a) = some a
result (err e) = none

module _ (o : Outside) (config : Config) where
  -- The account that a request proves to act for, where it manages devices.
  unfoldable pub acting_user : AppState → Call × Request → Option ℕ
  acting_user s (call, enrol header body) = result (device_user o config call header body s).1
  acting_user s (call, delete header device_id) = result (authed_user o call header s).1
  acting_user s (call, rename header device_id name) = result (authed_user o call header s).1
  acting_user s (call, r) = none

  -- No request of the run acts for the account.
  abbrev pub Foreign : ℕ → AppState → List (Call × Request) → Type 0
  Foreign owner s [] = Unit
  Foreign owner s (r ∷ rs) = (acting_user s r ≢ some owner) × Foreign owner (serve o config s r) rs

-- The description that the database has of a device.
unfoldable pub description_of : String → Database → Option Description
description_of id db = elim (select_first (has_device_id id) db.devices) [
  | none ↦ none
  | some r ↦ some (description r)
]

described :
    (id : String) (v : Description) (db : Database) (row : Device)
    → select_first (has_device_id id) db.devices ≡ some row
    → description row ≡ v
    → description_of id db ≡ some v
unfolding description_of
described id v db row found says = ground arith

module _ (o : Outside) (config : Config) (id : String) (v : Description) where
  abbrev Holds : AppState → Type 0
  Holds s = Recorded id v s.db.devices

  same_devices :
      (devices old : List Device) → devices ≡ old → Recorded id v old → Recorded id v devices
  same_devices devices old e h = subst (Recorded id v) (sym e) h

  register_for-Recorded :
      (call : Call) (body : RegisterDevice) (user : ℕ) (s : AppState)
      → user ≢ v.owner
      → IsConsistent s.db
      → Holds s
      → Holds (register_for o config call body user s).0
  unfolding register_for find_or_create
  register_for-Recorded call body user s other c h =
      after_keeps Holds
        (claim_device o config call user body
          (select_first (has_device_id body.device_id) s.db.devices) s)
        (token_reply o config call body.device_id)
        (claim_device-Recorded id v o config call user body _ s other refl c h)
        (λ pk t e k.
          same_devices _ t.db.devices (token_reply_devices o config call body.device_id pk t) k)

  -- What an authenticated user does, where the user is another one than the owner.
  by_user :
      {B : Type 0} (r : AppState × AppResult ℕ) (f : ℕ → App B) (db : Database)
      → result r.1 ≢ some v.owner
      → r.0.db ≡ db
      → IsConsistent db
      → Recorded id v db.devices
      → ((user : ℕ) (t : AppState)
          → user ≢ v.owner
          → IsConsistent t.db
          → Holds t
          → Holds (f user t).0)
      → Holds (after r f).0
  by_user (s, err e) f db foreign same c h act =
      same_devices s.db.devices db.devices (ap (λ d. d.devices) same) h
  by_user (s, ok user) f db foreign same c h act =
      act user s (λ e. foreign (ap some e)) (subst IsConsistent (sym same) c)
        (same_devices s.db.devices db.devices (ap (λ d. d.devices) same) h)

  stamped-Recorded :
      (call : Call) (found : Option Device) (s : AppState)
      → Holds s
      → Holds (stamped o call found s).0
  unfolding stamped
  stamped-Recorded call none s h = h
  stamped-Recorded call (some row) s h = seen-Recorded id v _ call.now s.db.devices h

  resolved-Recorded :
      (call : Call) (token : Option String) (s : AppState)
      → Holds s
      → Holds (resolved o call token s).0
  unfolding resolved resolve resolve_device_token
  resolved-Recorded call none s h = h
  resolved-Recorded call (some token) s h =
      subst Holds
        (sym (ok_or_same unauthorized (resolve o call token s).1 (resolve o call token s).0))
        (stamped-Recorded call (device_for_token o call token s.db) s h)

  requester-Recorded :
      (call : Call) (user : Option ℕ) (token : Option String) (s : AppState)
      → Holds s
      → Holds (requester o call user token s).0
  unfolding requester
  requester-Recorded call (some user) token s h = h
  requester-Recorded call none token s h =
      after_keeps Holds (resolved o call token s) (λ cred. pure cred.user_id)
        (resolved-Recorded call token s h) (λ cred t e k. k)

  ticket_for-Recorded :
      (call : Call) (user : Option ℕ) (token : Option String) (s : AppState)
      → Holds s
      → Holds (ticket_for o call user token s).0
  unfolding ticket_for
  ticket_for-Recorded call (some user) token s h = h
  ticket_for-Recorded call none token s h = resolved-Recorded call token s h

  from_db : (old db : Database) → db ≡ old → Recorded id v old.devices → Recorded id v db.devices
  from_db old db e h = same_devices db.devices old.devices (ap (λ d. d.devices) e) h

  serve-Recorded :
      (s : AppState) (r : Call × Request)
      → IsConsistent s.db
      → acting_user o config s r ≢ some v.owner
      → Holds s
      → Holds (serve o config s r)
  unfolding serve acting_user list_devices devices_of delete_device rename_device register_device
      touch_last_seen resolve_device_token revoke_user_session ice_servers ws_ticket issue_ticket
  serve-Recorded s (call, sign_up body) c foreign h =
      same_devices _ s.db.devices (register_user_devices config call body s) h
  serve-Recorded s (call, set_signup header enabled) c foreign h =
      same_devices _ s.db.devices (set_registration_devices config header enabled s) h
  serve-Recorded s (call, sign_in username password) c foreign h =
      same_devices _ s.db.devices (login_devices o call username password s) h
  serve-Recorded s (call, sign_out token) c foreign h = h
  serve-Recorded s (call, enrol header body) c foreign h =
      by_user (device_user o config call header body s) (register_for o config call body) s.db
        foreign (device_user_db o config call header body s) c h (register_for-Recorded call body)
  serve-Recorded s (call, renew body) c foreign h =
      same_devices _ s.db.devices (refresh_token_devices o config call body s) h
  serve-Recorded s (call, list header) c foreign h =
      after_keeps Holds (authed_user o call header s) devices_of
        (from_db s.db _ (authed_user_db o call header s) h) (λ user t e k. k)
  serve-Recorded s (call, delete header device_id) c foreign h =
      by_user (authed_user o call header s) (delete_owned device_id) s.db foreign
        (authed_user_db o call header s) c h
        (λ user t other d k. delete_owned-Recorded id v device_id user t other k)
  serve-Recorded s (call, rename header device_id name) c foreign h =
      by_user (authed_user o call header s) (rename_owned device_id name) s.db foreign
        (authed_user_db o call header s) c h
        (λ user t other d k. rename_owned-Recorded id v device_id name user t other k)
  serve-Recorded s (call, heartbeat device_id) c foreign h =
      seen-Recorded id v _ call.now s.db.devices h
  serve-Recorded s (call, present token) c foreign h =
      stamped-Recorded call (device_for_token o call token s.db) s h
  serve-Recorded s (call, ice header query) c foreign h =
      after_keeps Holds
        (requester o call (session_user o call header s) (request_token header query) s)
        (ice_reply o call config) (requester-Recorded call _ _ s h)
        (λ user t e k. from_db t.db _ (ice_reply_db o call config user t) k)
  serve-Recorded s (call, ticket header query) c foreign h =
      after_keeps Holds
        (ticket_for o call (session_user o call header s) (request_token header query) s)
        (issue_ticket o call) (ticket_for-Recorded call _ _ s h) (λ cred t e k. k)

  run-Recorded :
      (s : AppState) (rs : List (Call × Request))
      → IsConsistent s.db
      → Foreign o config v.owner s rs
      → Holds s
      → Holds (serve_all o config s rs)
  unfolding serve_all
  run-Recorded s [] c foreign h = h
  run-Recorded s (r ∷ rs) c foreign h =
      run-Recorded (serve o config s r) rs (serve-IsConsistent o config s r c) foreign.1
        (serve-Recorded s r c foreign.0 h)

-- A device belongs to its account: over any run of requests of which none authenticates as the account
-- that owns the device, its record keeps its owner, name, public key and role. Other accounts, and
-- strangers who present tokens, sessions, refresh proofs or heartbeats, cannot take it over, rename or
-- delete it.
pub description_of-serve_all :
    (o : Outside) (config : Config) (id : String) (v : Description) (s : AppState)
    (rs : List (Call × Request))
    → IsConsistent s.db
    → description_of id s.db ≡ some v
    → Foreign o config v.owner s rs
    → description_of id (serve_all o config s rs).db ≡ some v
unfolding description_of
description_of-serve_all o config id v s rs c known foreign =
    elim (Option-cases (select_first (has_device_id id) s.db.devices)) [
      | inl e ↦ ground (arith, known)
      | inr (r, e) ↦
          let says : description r ≡ v = ground (arith, known) in
          let kept = run-Recorded o config id v s rs c foreign (r, e, says) in
          described id v (serve_all o config s rs).db kept.0 kept.1 kept.2
    ]
