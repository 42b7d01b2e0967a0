-- ===== src/Rendezvous/Api/Serve.antt =====
-- The requests that the routes of apps/rendezvous/src/lib.rs lead to the handlers of api.rs, and a run
-- of the server over a list of them, each with what it finds outside.
pub mod Authentication
pub mod Accounts
pub mod Enrolment
pub mod Credentials
pub mod Constraints
pub mod Tokens
pub mod Single
pub mod Ownership
pub mod Steady
pub mod Signup
pub mod Turn
pub mod Relaying
pub mod Unchanged
pub mod Isolation
use reachmydevice.Prelude.{ℕ, Bool, Option, List, [], ◌∷◌, String}
use reachmydevice.Rendezvous.Api.{AppState, Config, Outside, Call}
use reachmydevice.Rendezvous.Api.Users.{RegisterUser, register_user, set_registration}
use reachmydevice.Rendezvous.Api.Signin.{login, revoke_user_session}
use reachmydevice.Rendezvous.Api.Devices.{
  RegisterDevice, RefreshToken, register_device, refresh_token,
}
use reachmydevice.Rendezvous.Api.Manage.{
  list_devices, delete_device, rename_device, touch_last_seen, resolve_device_token,
}
use reachmydevice.Rendezvous.Api.Relay.{ice_servers, ws_ticket}

-- `Option String` is the `Authorization` header, and the token of the query.
pub data Request : Type 0 where
  sign_up : RegisterUser → Request
  set_signup : Option String → Bool → Request
  sign_in : String → String → Request
  sign_out : String → Request
  enrol : Option String → RegisterDevice → Request
  renew : RefreshToken → Request
  list : Option String → Request
  delete : Option String → String → Request
  rename : Option String → String → String → Request
  heartbeat : String → Request
  present : String → Request
  ice : Option String → Option String → Request
  ticket : Option String → Option String → Request

module _ (o : Outside) (config : Config) where
  unfoldable pub serve : AppState → Call × Request → AppState
  serve s (call, sign_up body) = (register_user config call body s).0
  serve s (call, set_signup header enabled) = (set_registration config header enabled s).0
  serve s (call, sign_in username password) = (login o call username password s).0
  serve s (call, sign_out token) = (revoke_user_session o token s).0
  serve s (call, enrol header body) = (register_device o config call header body s).0
  serve s (call, renew body) = (refresh_token o config call body s).0
  serve s (call, list header) = (list_devices o call header s).0
  serve s (call, delete header device_id) = (delete_device o call header device_id s).0
  serve s (call, rename header device_id name) = (rename_device o call header device_id name s).0
  serve s (call, heartbeat device_id) = touch_last_seen call.now device_id s
  serve s (call, present token) = (resolve_device_token o call token s).0
  serve s (call, ice header query) = (ice_servers o call config header query s).0
  serve s (call, ticket header query) = (ws_ticket o call header query s).0

  unfoldable pub serve_all : AppState → List (Call × Request) → AppState
  serve_all s [] = s
  serve_all s (r ∷ rs) = serve_all (serve s r) rs
