-- ===== src/Rendezvous/Api/Manage.antt =====
-- apps/rendezvous/src/api.rs: the list of devices, deleting and renaming, and the resolution of a device
-- token, which resolver.rs and the WebSocket use.
use reachmydevice.Prelude.{
  ℕ, Bool, true, ◌&&◌, Option, none, some, List, String, ltb, ◌==◌, if◌then◌else◌, str_eq,
}
use reachmydevice.Rendezvous.Tickets.{ResolvedCredential}
use reachmydevice.Rendezvous.Api.Text.{is_empty, trim}
use reachmydevice.Rendezvous.Api.Sql.{select_first, select_all, exists_row, update_where, order_by}
use reachmydevice.Rendezvous.Api.Signin.{authed_user}
use reachmydevice.Rendezvous.Api.Devices.{is_owned, with_devices, delete_devices}
use reachmydevice.Rendezvous.Api.{
  bad_request, not_found, ok, err, Device, DeviceToken, Database, AppState, Outside, Call, App,
  ◌>>=◌,
}

-- The rows of one user, ordered by the time of creation.
unfoldable pub devices_of : ℕ → App (List Device)
devices_of user s = (
  s,
  ok (
      order_by (λ (r : Device). r.created_at)
        (select_all (λ (r : Device). r.user_id == user) s.db.devices)),
)

unfoldable pub delete_owned : String → ℕ → App (Unit {0})
delete_owned device_id user s =
    if exists_row (is_owned user device_id) s.db.devices
    then (record s { db = delete_devices (is_owned user device_id) s.db }, ok tt)
    else (s, err not_found)

abbrev pub renamed : String → Device → Device
renamed name r = record r { name = name }

unfoldable pub rename_owned : String → String → ℕ → App (Unit {0})
rename_owned device_id raw user s =
    if is_empty (trim raw)
    then (s, err (bad_request "name required"))
    else if exists_row (is_owned user device_id) s.db.devices
    then (
      with_devices s (update_where (is_owned user device_id) (renamed (trim raw)) s.db.devices),
      ok tt,
    )
    else (s, err not_found)

abbrev pub seen : ℕ → Device → Device
seen now r = record r { last_seen = some now }

unfoldable pub touch_last_seen : ℕ → String → AppState → AppState
touch_last_seen now device_id s =
    with_devices s
      (update_where (λ (r : Device). str_eq r.device_id device_id) (seen now) s.db.devices)

abbrev pub is_unexpired : ℕ → Option ℕ → Bool
is_unexpired now none = true
is_unexpired now (some exp) = ltb now exp

module _ (o : Outside) (call : Call) where
  unfoldable pub list_devices : Option String → App (List Device)
  list_devices header = authed_user o call header >>= devices_of

  unfoldable pub delete_device : Option String → String → App (Unit {0})
  delete_device header device_id = authed_user o call header >>= delete_owned device_id

  unfoldable pub rename_device : Option String → String → String → App (Unit {0})
  rename_device header device_id name = authed_user o call header >>= rename_owned device_id name

  -- The join of a token's row with its device's.
  unfoldable pub token_row : String → Database → Option DeviceToken
  token_row token db =
      select_first
        (λ (t : DeviceToken).
          str_eq t.token_hash (o.hash_token token)
          && is_unexpired call.now t.expires_at
          && exists_row (λ (r : Device). r.id == t.device_pk) db.devices)
        db.device_tokens

  unfoldable pub device_for_token : String → Database → Option Device
  unfolding token_row
  device_for_token token db = elim (token_row token db) [
    | none ↦ none
    | some t ↦ select_first (λ (r : Device). r.id == t.device_pk) db.devices
  ]

  unfoldable pub stamped : Option Device → AppState → AppState × Option (ℕ × String)
  stamped none s = (s, none)
  stamped (some row) s = (
    with_devices s (update_where (λ (r : Device). r.id == row.id) (seen call.now) s.db.devices),
    some (row.user_id, row.device_id),
  )

  unfoldable pub resolve_device_token : String → AppState → AppState × Option (ℕ × String)
  resolve_device_token token s = stamped (device_for_token token s.db) s

  unfoldable pub user_id_for_token : String → AppState → AppState × Option ℕ
  unfolding resolve_device_token
  user_id_for_token token s =
      let (s', found) = resolve_device_token token s in
      (s', elim found [ none ↦ none | some p ↦ some p.0 ])

  unfoldable pub device_id_for_token : String → AppState → AppState × Option String
  unfolding resolve_device_token
  device_id_for_token token s =
      let (s', found) = resolve_device_token token s in
      (s', elim found [ none ↦ none | some p ↦ some p.1 ])

  -- `DeviceTokenResolver`.
  unfoldable pub resolve : String → AppState → AppState × Option ResolvedCredential
  unfolding resolve_device_token
  resolve token s =
      let (s', found) = resolve_device_token token s in
      (
        s',
        elim found [ none ↦ none | some p ↦ some (record { user_id = p.0; signaling_id = p.1 }) ],
      )
