-- ===== src/Rendezvous/Api/Serve/Unchanged.antt =====
-- What leaves the table of devices as it is: accounts, sessions and tokens.
use reachmydevice.Prelude.{ℕ, ◌≡◌, refl, ap, ◌∙◌, Bool, Option, none, some, String, arith}
use reachmydevice.Rendezvous.Api.Sql.{select_first}
use reachmydevice.Rendezvous.Api.{Device, AppState, Config, Outside, Call, pure}
use reachmydevice.Rendezvous.Api.Users.{
  RegisterUser, register_user, create_account, create_hashed, create_user_if_allowed,
  set_registration, set_setting, signup_rights, registration_open,
}
use reachmydevice.Rendezvous.Api.Signin.{authenticate_user, login, mint_user_session}
use reachmydevice.Rendezvous.Api.Devices.{
  RefreshToken, has_device_id, token_reply, issue_device_token, issued, insert_token, refresh_token,
  refresh_row,
}
use reachmydevice.Rendezvous.Api.Serve.Authentication.{after_keeps, authenticate_user_db}

create_hashed_devices :
    (hash : Option String) (username : String) (rights : Bool × Bool) (s : AppState)
    → (create_hashed hash username rights s).0.db.devices ≡ s.db.devices
unfolding create_hashed create_user_if_allowed
create_hashed_devices none username rights s = refl
create_hashed_devices (some hash) username rights s = ground arith

pub register_user_devices :
    (config : Config) (call : Call) (body : RegisterUser) (s : AppState)
    → (register_user config call body s).0.db.devices ≡ s.db.devices
unfolding register_user create_account
register_user_devices config call body s =
    let rights = signup_rights config (registration_open config s.db) body.bootstrap in
    ground (arith, create_hashed_devices call.password_hash body.username rights s)

pub set_registration_devices :
    (config : Config) (header : Option String) (enabled : Bool) (s : AppState)
    → (set_registration config header enabled s).0.db.devices ≡ s.db.devices
unfolding set_registration set_setting
set_registration_devices config header enabled s = ground arith

module _ (o : Outside) (call : Call) where
  mint_devices :
      (user : ℕ) (s : AppState) → (mint_user_session o call user s).0.db.devices ≡ s.db.devices
  unfolding mint_user_session
  mint_devices user s = ground arith

  pub login_devices :
      (username password : String) (s : AppState)
      → (login o call username password s).0.db.devices ≡ s.db.devices
  unfolding login
  login_devices username password s =
      after_keeps (λ t. t.db.devices ≡ s.db.devices) (authenticate_user o call username password s)
        (mint_user_session o call)
        (ap (λ d. d.devices) (authenticate_user_db o call username password s))
        (λ user t e h. mint_devices user t ∙ h)

module _ (o : Outside) (config : Config) (call : Call) where
  issue_devices :
      (pk : ℕ) (s : AppState) → (issue_device_token o config call pk s).0.db.devices ≡ s.db.devices
  unfolding issue_device_token issued insert_token
  issue_devices pk s = ground arith

  pub token_reply_devices :
      (id : String) (pk : ℕ) (s : AppState)
      → (token_reply o config call id pk s).0.db.devices ≡ s.db.devices
  unfolding token_reply
  token_reply_devices id pk s =
      after_keeps (λ t. t.db.devices ≡ s.db.devices) (issue_device_token o config call pk s)
        (λ token. pure (token, id)) (issue_devices pk s) (λ token t e h. h)

  refresh_row_devices :
      (body : RefreshToken) (found : Option Device) (s : AppState)
      → (refresh_row o config call body found s).0.db.devices ≡ s.db.devices
  unfolding refresh_row
  refresh_row_devices body none s = refl
  refresh_row_devices body (some row) s = token_reply_devices body.device_id row.id s

  pub refresh_token_devices :
      (body : RefreshToken) (s : AppState)
      → (refresh_token o config call body s).0.db.devices ≡ s.db.devices
  unfolding refresh_token
  refresh_token_devices body s =
      ground (
        arith,
        refresh_row_devices body (select_first (has_device_id body.device_id) s.db.devices) s,
      )
