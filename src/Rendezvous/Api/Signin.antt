-- ===== src/Rendezvous/Api/Signin.antt =====
-- apps/rendezvous/src/api.rs: sign-in by password, and console sessions.
use reachmydevice.Prelude.{
  ℕ, ◌+◌, ◌*◌, Bool, true, ◌&&◌, Option, none, some, [], ◌∷◌, ◌++◌, String, ltb, if◌then◌else◌,
  str_eq,
}
use reachmydevice.Rendezvous.Throttle.{
  Verdict, allowed, retry_after, check, record_failure, record_success,
}
use reachmydevice.Rendezvous.Api.Text.{is_empty, trim, strip_prefix, split_once}
use reachmydevice.Rendezvous.Api.Sql.{select_first, exists_row, delete_where}
use reachmydevice.Rendezvous.Api.Users.{bearer_value}
use reachmydevice.Rendezvous.Api.{
  unauthorized, too_many_requests, unique_violation, ok, err, User, UserSession, Database, Outside,
  Call, App, ◌>>=◌, ok_or,
}

abbrev pub session_ttl_secs : ℕ
session_ttl_secs = 30 * 24 * 3600

nonempty : String → Option String
nonempty s = if is_empty s then none else some s

-- The trimmed token of an `Authorization: Bearer` header.
unfoldable pub bearer_token : Option String → Option String
unfolding nonempty bearer_value
bearer_token header = elim (bearer_value header) [
  | none ↦ none
  | some token ↦ nonempty (trim token)
]

module _ (o : Outside) where
  -- The hash that the one Argon2 check reads: a fixed one where there is no such user.
  unfoldable pub stored_hash : Option User → String
  stored_hash (some u) = u.password_hash
  stored_hash none = o.dummy_phc

  -- `basic_auth`, of the `Authorization` header.
  unfoldable pub basic_auth : Option String → Option (String × String)
  basic_auth header = elim header [
    | none ↦ none
    | some value ↦ elim (strip_prefix "Basic " value) [
      | none ↦ none
      | some raw ↦ elim (o.base64_text raw) [ none ↦ none | some text ↦ split_once text ]
    ]
  ]

  unfoldable pub revoke_user_session : String → App (Unit {0})
  revoke_user_session token s = (
    record s {
      db = record s.db {
        user_sessions =
            delete_where (λ (r : UserSession). str_eq r.token_hash (o.hash_token token))
              s.db.user_sessions;
      };
    },
    ok tt,
  )

-- The answer once the password is checked.
unfoldable pub password_checked : Call → String → Option User → Bool → App ℕ
password_checked call username (some u) true s =
    (record s { throttle = record_success s.throttle username }, ok u.id)
password_checked call username row matches s =
    (record s { throttle = record_failure s.throttle username call.instant }, err unauthorized)

module _ (o : Outside) (call : Call) where
  unfoldable pub try_password : Verdict → String → String → App ℕ
  try_password (retry_after secs) username password s = (s, err (too_many_requests secs))
  try_password allowed username password s =
      let row = select_first (λ (u : User). str_eq u.username username) s.db.users in
      password_checked call username row (o.verify_password password (stored_hash o row)) s

  unfoldable pub authenticate_user : String → String → App ℕ
  authenticate_user username password s =
      try_password (check s.throttle username call.instant) username password s

  unfoldable pub mint_user_session : ℕ → App String
  mint_user_session user s =
      if exists_row (λ (r : UserSession). str_eq r.token_hash (o.hash_token call.token))
        s.db.user_sessions
      then (s, err unique_violation)
      else (
        record s {
          db = record s.db {
            user_sessions =
                s.db.user_sessions
                ++ record {
                  user_id = user;
                  token_hash = o.hash_token call.token;
                  expires_at = call.now + session_ttl_secs;
                }
                  ∷ [];
          };
        },
        ok call.token,
      )

  unfoldable pub user_id_for_session : Database → String → Option ℕ
  user_id_for_session db token =
      elim (select_first
        (λ (r : UserSession). str_eq r.token_hash (o.hash_token token) && ltb call.now r.expires_at)
        db.user_sessions) [ none ↦ none | some r ↦ some r.user_id ]

  unfoldable pub login : String → String → App String
  login username password = do user ← authenticate_user username password; mint_user_session user

  unfoldable pub basic_user : Option (String × String) → App ℕ
  basic_user none s = (s, err unauthorized)
  basic_user (some (username, password)) s = authenticate_user username password s

  unfoldable pub session_or_basic : Option String → Option String → App ℕ
  session_or_basic (some token) header s = ok_or unauthorized (user_id_for_session s.db token) s
  session_or_basic none header s = basic_user (basic_auth o header) s

  unfoldable pub authed_user : Option String → App ℕ
  authed_user header s = session_or_basic (bearer_token header) header s
