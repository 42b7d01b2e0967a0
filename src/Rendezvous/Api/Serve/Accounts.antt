-- ===== src/Rendezvous/Api/Serve/Accounts.antt =====
-- Accounts and sessions: sign-up, sign-in and the admin's switch keep the constraints of the database.
use reachmydevice.Prelude.{
  ℕ, ltb, Bool, not, ◌&&◌, ◌||◌, Option, none, some, String, arith, ◌==◌, str_eq, Bool-cases, inl,
  inr, length,
}
use reachmydevice.Prelude.Store.{Store}
use reachmydevice.Rendezvous.Api.Text.{is_empty, trim, as_bytes}
use reachmydevice.Rendezvous.Api.Sql.{exists_row}
use reachmydevice.Rendezvous.Api.{
  AppResult, ok, err, User, UserSession, Database, AppState, Config, Outside, Call,
  unique_violation,
}
use reachmydevice.Rendezvous.Api.Consistent.{
  IsConsistent, insert_user-IsConsistent, insert_session-IsConsistent,
}
use reachmydevice.Rendezvous.Api.Users.{
  create_user_if_allowed, require_admin, signed_up, create_hashed, create_account, register_user,
  RegisterUser, set_registration, set_setting,
}
use reachmydevice.Rendezvous.Api.Signin.{mint_user_session, authenticate_user, login}
use reachmydevice.Rendezvous.Api.Serve.Authentication.{
  Ok, after_keeps, same_db, authenticate_user_db,
}

create_user-IsConsistent :
    (db : Database) (username hash : String) (is_open boot : Bool)
    → IsConsistent db
    → IsConsistent (create_user_if_allowed db username hash is_open boot).0
unfolding create_user_if_allowed
create_user-IsConsistent db username hash is_open boot c =
    elim (Bool-cases ((length db.users == 0 && boot) || is_open)) [
      | inr shut ↦ rw shut c
      | inl may ↦
          elim (Bool-cases (exists_row (λ (u : User). str_eq u.username username) db.users)) [
            | inl taken ↦ rw (may, taken) c
            | inr fresh ↦ rw (may, fresh) (insert_user-IsConsistent db _ fresh c)
          ]
    ]

signed_up-Ok :
    (s : AppState) (r : Database × AppResult ℕ) → Ok s → IsConsistent r.0 → Ok (signed_up s r).0
signed_up-Ok s (db, ok n) c d = elim (Bool-cases (n == 0)) [ inl e ↦ rw e c | inr e ↦ rw e d ]
signed_up-Ok s (db, err unique_violation) c d = c
signed_up-Ok s (db, err e) c d = ground arith

create_hashed-Ok :
    (hash : Option String) (username : String) (rights : Bool × Bool) (s : AppState)
    → Ok s
    → Ok (create_hashed hash username rights s).0
unfolding create_hashed
create_hashed-Ok none username rights s c = c
create_hashed-Ok (some hash) username rights s c =
    signed_up-Ok s (create_user_if_allowed s.db username hash rights.0 rights.1) c
      (create_user-IsConsistent s.db username hash rights.0 rights.1 c)

create_account-Ok :
    (call : Call) (username : String) (rights : Bool × Bool) (s : AppState)
    → Ok s
    → Ok (create_account call username rights s).0
unfolding create_account
create_account-Ok call username rights s c = elim (Bool-cases (not rights.0 && not rights.1)) [
  | inl e ↦ rw e c
  | inr e ↦ rw e (create_hashed-Ok call.password_hash username rights s c)
]

pub register_user-Ok :
    (config : Config) (call : Call) (body : RegisterUser) (s : AppState)
    → Ok s
    → Ok (register_user config call body s).0
unfolding register_user
register_user-Ok config call body s c =
    elim (Bool-cases (is_empty (trim body.username) || ltb (length (as_bytes body.password)) 8)) [
      | inl e ↦ rw e c
      | inr e ↦ rw e (create_account-Ok call body.username _ s c)
    ]

settings-Ok :
    (db : Database) (settings : Store String)
    → IsConsistent db
    → IsConsistent (record db { settings = settings })
settings-Ok db settings c = record {
  usernames = c.usernames;
  device_pks = c.device_pks;
  device_ids = c.device_ids;
  token_hashes = c.token_hashes;
  tokens_refer = c.tokens_refer;
  sessions = c.sessions;
}

pub set_registration-Ok :
    (config : Config) (header : Option String) (enabled : Bool) (s : AppState)
    → Ok s
    → Ok (set_registration config header enabled s).0
unfolding set_registration set_setting
set_registration-Ok config header enabled s c = elim (Bool-cases (require_admin config header)) [
  | inl e ↦ rw e (settings-Ok s.db _ c)
  | inr e ↦ rw e c
]

module _ (o : Outside) (call : Call) where
  mint_user_session-Ok : (user : ℕ) (s : AppState) → Ok s → Ok (mint_user_session o call user s).0
  unfolding mint_user_session
  mint_user_session-Ok user s c =
      elim (Bool-cases (
        exists_row (λ (r : UserSession). str_eq r.token_hash (o.hash_token call.token))
          s.db.user_sessions)) [
            | inl taken ↦ rw taken c
            | inr fresh ↦ rw fresh (insert_session-IsConsistent s.db _ fresh c)
          ]

  pub login-Ok :
      (username password : String) (s : AppState) → Ok s → Ok (login o call username password s).0
  unfolding login
  login-Ok username password s c =
      after_keeps Ok (authenticate_user o call username password s) (mint_user_session o call)
        (same_db (authenticate_user_db o call username password s) c)
        (λ user t e h. mint_user_session-Ok user t h)
