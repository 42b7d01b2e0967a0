-- ===== src/Rendezvous/Api/Devices.antt =====
-- apps/rendezvous/src/api.rs: a user's devices and their bearer tokens.
use reachmydevice.Prelude.{
  ℕ, ◌+◌, ◌-◌, ◌%◌, ◌^◌, Bool, true, false, not, ◌&&◌, Option, none, some, List, [], ◌∷◌, ◌++◌,
  String, ltb, ◌==◌, if◌then◌else◌, length, str_eq,
}
use reachmydevice.Session.Identity.{token_refresh_message, device_id_from_public_key}
use reachmydevice.Session.Identity.KeyFile.{hex_decode}
use reachmydevice.Rendezvous.Api.Text.{as_bytes, same_bytes}
use reachmydevice.Rendezvous.Api.Sql.{select_first, exists_row, update_where, delete_where, next_id}
use reachmydevice.Rendezvous.Api.Signin.{authenticate_user, authed_user}
use reachmydevice.Rendezvous.Api.{
  unauthorized, conflict, unique_violation, ok, err, AppResult, Device, DeviceToken, Database,
  AppState, Config, Outside, Call, App, ◌>>=◌, pure,
}

pub record RegisterDevice : Type 0 where
  pub username : Option String
  pub password : Option String
  pub device_id : String
  pub name : String
  pub public_key : String
  pub role : String

pub record RefreshToken : Type 0 where
  pub device_id : String
  pub public_key : String
  pub timestamp : ℕ  -- an i64, by its 64 bits
  pub signature : String

abbrev pub token_refresh_skew_secs : ℕ
token_refresh_skew_secs = 120

abbrev pub has_device_id : String → Device → Bool
has_device_id device_id r = str_eq r.device_id device_id

abbrev pub is_owned : ℕ → String → Device → Bool
is_owned user device_id r = r.user_id == user && str_eq r.device_id device_id

abbrev pub with_devices : AppState → List Device → AppState
with_devices s devices = record s { db = record s.db { devices = devices } }

-- `DELETE FROM devices`, with the tokens of the rows: ON DELETE CASCADE.
unfoldable pub delete_devices : (Device → Bool) → Database → Database
delete_devices doomed db = record db {
  devices = delete_where doomed db.devices;
  device_tokens =
      delete_where
        (λ (t : DeviceToken).
          exists_row (λ (r : Device). doomed r && r.id == t.device_pk) db.devices)
        db.device_tokens;
}

abbrev pub tokens_dropped : ℕ → Database → Database
tokens_dropped device_pk db = record db {
  device_tokens = delete_where (λ (t : DeviceToken). t.device_pk == device_pk) db.device_tokens;
}

unfoldable pub insert_token : DeviceToken → Database → Database × Bool
insert_token row db =
    if exists_row (λ (t : DeviceToken). str_eq t.token_hash row.token_hash) db.device_tokens
    then (db, false)
    else (record db { device_tokens = db.device_tokens ++ row ∷ [] }, true)

unfoldable pub issued : String → AppState → Database × Bool → AppState × AppResult String
issued token s (db, true) = (record s { db = db }, ok token)
issued token s (db, false) = (record s { db = db }, err unique_violation)

abbrev pub redescribed : RegisterDevice → Device → Device
redescribed body r = record r { name = body.name; public_key = body.public_key; role = body.role }

-- `(now - timestamp).abs() > TOKEN_REFRESH_SKEW_SECS` on i64, as a release build computes it: the difference
-- wraps around, and the absolute value of -2^63 is -2^63 again, which is not more than 120.
unfoldable pub is_stale : ℕ → ℕ → Bool
is_stale now timestamp =
    let difference = (now + 2 ^ 64 - timestamp) % 2 ^ 64 in
    let size = if ltb difference (2 ^ 63) then difference else 2 ^ 64 - difference in
    ltb size (2 ^ 63) && ltb token_refresh_skew_secs size

module _ (o : Outside) (call : Call) where
  unfoldable pub refresh_signature_valid : List ℕ → ℕ → List ℕ → Bool
  refresh_signature_valid key timestamp signature =
      o.crypto.is_key key && o.crypto.verify key (token_refresh_message key timestamp) signature

  unfoldable pub check_signature : RefreshToken → List ℕ → Option (List ℕ) → Bool
  check_signature body key none = false
  check_signature body key (some signature) =
      length signature == 64 && refresh_signature_valid key body.timestamp signature

  unfoldable pub check_key : RefreshToken → Option (List ℕ) → Bool
  check_key body none = false
  check_key body (some key) =
      length key == 32
      && same_bytes (device_id_from_public_key o.crypto key) (as_bytes body.device_id)
      && not (is_stale call.now body.timestamp)
      && check_signature body key (hex_decode (as_bytes body.signature))

  -- The guards of `refresh_token`, in the code's order: the key, its fingerprint, the time and the
  -- signature.
  unfoldable pub proves_key : RefreshToken → Bool
  proves_key body = check_key body (hex_decode (as_bytes body.public_key))

module _ (o : Outside) (config : Config) (call : Call) where
  abbrev pub new_token : ℕ → DeviceToken
  new_token device_pk = record {
    device_pk = device_pk;
    token_hash = o.hash_token call.token;
    expires_at = elim config.token_ttl_secs [ none ↦ none | some ttl ↦ some (call.now + ttl) ];
  }

  -- The device's old tokens go first.
  unfoldable pub issue_device_token : ℕ → App String
  issue_device_token device_pk s =
      issued call.token s (insert_token (new_token device_pk) (tokens_dropped device_pk s.db))

  -- The answer, a token and the device that it is for.
  unfoldable pub token_reply : String → ℕ → App (String × String)
  token_reply device_id device_pk =
      issue_device_token device_pk >>= λ token. pure (token, device_id)

  abbrev pub new_device : ℕ → RegisterDevice → List Device → Device
  new_device user body devices = record {
    id = next_id (λ (r : Device). r.id) devices;
    user_id = user;
    device_id = body.device_id;
    name = body.name;
    public_key = body.public_key;
    role = body.role;
    created_at = call.now;
    last_seen = none;
  }

  -- Finds or creates the device, for its one owner; the result is its key in the table.
  unfoldable pub claim_device : ℕ → RegisterDevice → Option Device → App ℕ
  claim_device user body (some row) s =
      if not (row.user_id == user)
      then (s, err (conflict "device already registered to another account"))
      else (
        with_devices s
            (update_where (λ (r : Device). r.id == row.id) (redescribed body) s.db.devices),
        ok row.id,
      )
  claim_device user body none s =
      let row = new_device user body s.db.devices in
      (with_devices s (s.db.devices ++ row ∷ []), ok row.id)

  unfoldable pub find_or_create : ℕ → RegisterDevice → App ℕ
  find_or_create user body s =
      claim_device user body (select_first (has_device_id body.device_id) s.db.devices) s

  unfoldable pub body_user : Option String → Option String → App ℕ
  body_user (some username) (some password) s = authenticate_user o call username password s
  body_user username password s = (s, err unauthorized)

  -- The header takes precedence over the credentials in the body.
  unfoldable pub device_user : Option String → RegisterDevice → App ℕ
  device_user (some value) body s = authed_user o call (some value) s
  device_user none body s = body_user body.username body.password s

  unfoldable pub register_for : RegisterDevice → ℕ → App (String × String)
  register_for body user = do
    device_pk ← find_or_create user body
    token_reply body.device_id device_pk

  unfoldable pub register_device : Option String → RegisterDevice → App (String × String)
  register_device header body = device_user header body >>= register_for body

  unfoldable pub refresh_row : RefreshToken → Option Device → App (String × String)
  refresh_row body none s = (s, err unauthorized)
  refresh_row body (some row) s = token_reply body.device_id row.id s

  unfoldable pub refresh_token : RefreshToken → App (String × String)
  refresh_token body s =
      if not (proves_key o call body)
      then (s, err unauthorized)
      else refresh_row body (select_first (has_device_id body.device_id) s.db.devices) s
