-- ===== src/Rendezvous/Api/Serve/Authentication.antt =====
-- Authentication of a request touches the throttle alone, whatever its outcome.
use reachmydevice.Prelude.{
  ◌≡◌, refl, ap, sym, subst, Bool, true, false, Option, none, some, String, arith, if◌then◌else◌,
}
use reachmydevice.Rendezvous.Api.{
  AppError, unauthorized, ok_or, AppResult, ok, err, Database, AppState, Config, Outside, Call, App,
  after,
}
use reachmydevice.Rendezvous.Api.Consistent.{IsConsistent}
use reachmydevice.Rendezvous.Throttle.{Verdict, allowed, retry_after, check}
use reachmydevice.Rendezvous.Api.Signin.{
  try_password, password_checked, basic_user, session_or_basic, basic_auth, user_id_for_session,
  bearer_token, authenticate_user, authed_user,
}
use reachmydevice.Rendezvous.Api.Devices.{RegisterDevice, body_user, device_user}

abbrev pub Ok : AppState → Type 0
Ok s = IsConsistent s.db

-- A step after another, where both keep a property of the state.
pub after_keeps :
    {A B : Type 0} (P : AppState → Type 0) (r : AppState × AppResult A) (f : A → App B)
    → P r.0
    → ((a : A) (s : AppState) → r ≡ (s, ok a) → P s → P (f a s).0)
    → P (after r f).0
after_keeps P (s, ok a) f h k = k a s refl h
after_keeps P (s, err e) f h k = h

-- A state with the same database.
pub same_db : {d e : Database} → e ≡ d → IsConsistent d → IsConsistent e
same_db e c = subst IsConsistent (sym e) c

-- One of two outcomes, each of which keeps the constraints.
pub either-Ok :
    {A : Type 0} (b : Bool) (r t : AppState × AppResult A)
    → Ok r.0
    → Ok t.0
    → Ok (if b then r else t).0
either-Ok true r t c d = c
either-Ok false r t c d = d

pub ok_or_same :
    {A : Type 0} (e : AppError) (found : Option A) (s : AppState) → (ok_or e found s).0 ≡ s
ok_or_same e none s = refl
ok_or_same e (some a) s = refl

module _ (o : Outside) (call : Call) where
  try_password_db :
      (v : Verdict) (username password : String) (s : AppState)
      → (try_password o call v username password s).0.db ≡ s.db
  unfolding try_password password_checked
  try_password_db (retry_after secs) username password s = refl
  try_password_db allowed username password s = ground arith

  -- Authentication touches the throttle alone.
  pub authenticate_user_db :
      (username password : String) (s : AppState)
      → (authenticate_user o call username password s).0.db ≡ s.db
  unfolding authenticate_user
  authenticate_user_db username password s =
      try_password_db (check s.throttle username call.instant) username password s

  basic_user_db :
      (found : Option (String × String)) (s : AppState) → (basic_user o call found s).0.db ≡ s.db
  unfolding basic_user
  basic_user_db none s = refl
  basic_user_db (some (username, password)) s = authenticate_user_db username password s

  session_or_basic_db :
      (token header : Option String) (s : AppState)
      → (session_or_basic o call token header s).0.db ≡ s.db
  unfolding session_or_basic
  session_or_basic_db none header s = basic_user_db (basic_auth o header) s
  session_or_basic_db (some token) header s =
      ap (λ t. t.db) (ok_or_same unauthorized (user_id_for_session o call s.db token) s)

  pub authed_user_db :
      (header : Option String) (s : AppState) → (authed_user o call header s).0.db ≡ s.db
  unfolding authed_user
  authed_user_db header s = session_or_basic_db (bearer_token header) header s

module _ (o : Outside) (config : Config) (call : Call) where
  body_user_db :
      (username password : Option String) (s : AppState)
      → (body_user o config call username password s).0.db ≡ s.db
  unfolding body_user
  body_user_db (some username) (some password) s = authenticate_user_db o call username password s
  body_user_db none password s = refl
  body_user_db (some username) none s = refl

  pub device_user_db :
      (header : Option String) (body : RegisterDevice) (s : AppState)
      → (device_user o config call header body s).0.db ≡ s.db
  unfolding device_user
  device_user_db (some value) body s = authed_user_db o call (some value) s
  device_user_db none body s = body_user_db body.username body.password s
