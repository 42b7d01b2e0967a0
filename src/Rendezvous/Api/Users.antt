-- ===== src/Rendezvous/Api/Users.antt =====
-- apps/rendezvous/src/api.rs and db.rs: accounts, sign-in and console sessions.
use reachmydevice.Prelude.{
  ℕ, Bool, true, false, not, ◌&&◌, ◌||◌, Option, none, some, [], ◌∷◌, ◌++◌, String, ltb, ◌==◌,
  if◌then◌else◌, length, str_eq,
}
use reachmydevice.Prelude.Store.{lookup, insert}
use reachmydevice.Session.Constant.{ct_eq}
use reachmydevice.Rendezvous.Api.Text.{as_bytes, is_empty, trim, strip_prefix}
use reachmydevice.Rendezvous.Api.Sql.{exists_row, next_id}
use reachmydevice.Rendezvous.Api.{
  bad_request, unauthorized, conflict, registration_closed, internal, unique_violation, AppResult,
  ok, err, User, Database, AppState, Config, Call, App,
}

-- `ct_eq` of api.rs, on the bytes of two texts.
unfoldable pub same_secret : String → String → Bool
same_secret a b = ct_eq (as_bytes a) (as_bytes b)

abbrev pub open_registration : String
open_registration = "open_registration"

unfoldable pub bool_str : Bool → String
bool_str b = if b then "true" else "false"

unfoldable pub parse_bool : String → Bool
parse_bool s = str_eq s "true" || str_eq s "1"

unfoldable pub set_setting : Database → String → String → Database
set_setting db key value = record db { settings = insert key value db.settings }

-- `INSERT OR IGNORE`.
unfoldable pub seed_settings : Config → Database → Database
unfolding set_setting bool_str
seed_settings config db = elim (lookup open_registration db.settings) [
  | none ↦ set_setting db open_registration (bool_str config.allow_open_registration)
  | some v ↦ db
]

unfoldable pub registration_open : Config → Database → Bool
unfolding parse_bool
registration_open config db = elim (lookup open_registration db.settings) [
  | none ↦ config.allow_open_registration
  | some v ↦ parse_bool v
]

-- The table as `create_user_if_allowed` leaves it, or `none` where the statement inserts no row.
unfoldable pub create_user_if_allowed :
    Database → String → String → Bool → Bool → Database × AppResult ℕ
create_user_if_allowed db username password_hash is_open allow_bootstrap =
    if (length db.users == 0 && allow_bootstrap) || is_open
    then (if exists_row (λ u. str_eq u.username username) db.users
        then (db, err unique_violation)
        else (
          record db {
            users =
                db.users
                ++ record {
                  id = next_id (λ (u : User). u.id) db.users;
                  username = username;
                  password_hash = password_hash;
                }
                  ∷ [];
          },
          ok 1,
        ))
    else (db, ok 0)

pub record RegisterUser : Type 0 where
  pub username : String
  pub password : String
  pub bootstrap : Option String

-- Whether sign-up is open to this request, and whether it may make the first account.
unfoldable pub signup_rights : Config → Bool → Option String → Bool × Bool
unfolding same_secret
signup_rights config is_open presented = elim config.bootstrap_token [
  | none ↦ (is_open, true)
  | some expected ↦
      let good : Bool = elim presented [ none ↦ false | some t ↦ same_secret t expected ] in
      (is_open || good, good)
]

-- What the handler answers, from the table that the statement leaves.
abbrev pub signed_up : AppState → Database × AppResult ℕ → AppState × AppResult (Unit {0})
signed_up s (db, err unique_violation) = (s, err (conflict "username already taken"))
signed_up s (db, err e) = (s, err e)
signed_up s (db, ok n) =
    if n == 0 then (s, err registration_closed) else (record s { db = db }, ok tt)

unfoldable pub create_hashed : Option String → String → Bool × Bool → App (Unit {0})
create_hashed none username rights s = (s, err internal)
create_hashed (some hash) username (effective_open, allow_bootstrap) s =
    signed_up s (create_user_if_allowed s.db username hash effective_open allow_bootstrap)

unfoldable pub create_account : Call → String → Bool × Bool → App (Unit {0})
create_account call username rights s =
    if not rights.0 && not rights.1
    then (s, err registration_closed)
    else create_hashed call.password_hash username rights s

unfoldable pub register_user : Config → Call → RegisterUser → App (Unit {0})
register_user config call body s =
    if is_empty (trim body.username) || ltb (length (as_bytes body.password)) 8
    then (s, err (bad_request "username required; password must be at least 8 chars"))
    else create_account call body.username
        (signup_rights config (registration_open config s.db) body.bootstrap) s

-- The token after `Bearer `, as it stands.
unfoldable pub bearer_value : Option String → Option String
bearer_value header = elim header [ none ↦ none | some value ↦ strip_prefix "Bearer " value ]

-- Whether the admin token is presented.
unfoldable pub require_admin : Config → Option String → Bool
unfolding same_secret bearer_value
require_admin config header = elim config.admin_token [
  | none ↦ false
  | some expected ↦ elim (bearer_value header) [
    | none ↦ false
    | some presented ↦ same_secret presented expected
  ]
]

unfoldable pub set_registration : Config → Option String → Bool → App (Unit {0})
unfolding require_admin set_setting bool_str
set_registration config header enabled s =
    if require_admin config header
    then (record s { db = set_setting s.db open_registration (bool_str enabled) }, ok tt)
    else (s, err unauthorized)
