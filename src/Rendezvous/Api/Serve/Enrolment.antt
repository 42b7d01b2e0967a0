-- ===== src/Rendezvous/Api/Serve/Enrolment.antt =====
-- Devices: registering, refreshing a token, deleting and renaming keep the constraints of the database.
use reachmydevice.Prelude.{
  ℕ, ◌≡◌, refl, sym, subst, ◌∙◌, true, Option, none, some, List, [], ◌∷◌, ◌++◌, String, arith, ◌==◌,
  ==_refl, Bool-cases, inl, inr,
}
use reachmydevice.Rendezvous.Api.Text.{trim}
use reachmydevice.Rendezvous.Api.Sql.{select_first, exists_row}
use reachmydevice.Rendezvous.Api.Sql.Laws.{
  exists_row-select_first, exists_row-none, exists_row-update_where,
}
use reachmydevice.Rendezvous.Api.{
  unauthorized, AppResult, ok, err, Device, AppState, Config, Outside, Call, after, not_found, pure,
}
use reachmydevice.Rendezvous.Api.Consistent.{
  IsConsistent, update-IsConsistent, delete_devices-IsConsistent, insert_device-IsConsistent,
  tokens_dropped-IsConsistent, insert_token-IsConsistent,
}
use reachmydevice.Rendezvous.Api.Devices.{
  RegisterDevice, RefreshToken, has_device_id, is_owned, tokens_dropped, insert_token, new_token,
  new_device, redescribed, issue_device_token, token_reply, delete_devices, claim_device,
  find_or_create, register_for, register_device, device_user, refresh_row, refresh_token, issued,
}
use reachmydevice.Rendezvous.Api.Manage.{delete_owned, rename_owned, renamed}
use reachmydevice.Rendezvous.Api.Serve.Authentication.{
  Ok, after_keeps, same_db, either-Ok, device_user_db,
}

module _ (o : Outside) (config : Config) (call : Call) where
  issue_db :
      (pk : ℕ) (s : AppState)
      → (issue_device_token o config call pk s).0.db
        ≡ (insert_token (new_token o config call pk) (tokens_dropped pk s.db)).0
  unfolding issue_device_token issued insert_token
  issue_db pk s = ground arith

  issue-Ok :
      (pk : ℕ) (s : AppState)
      → exists_row (λ (r : Device). r.id == pk) s.db.devices ≡ true
      → Ok s
      → Ok (issue_device_token o config call pk s).0
  issue-Ok pk s known c = subst IsConsistent (sym (issue_db pk s)) (
      insert_token-IsConsistent (new_token o config call pk) (tokens_dropped pk s.db) known
        (tokens_dropped-IsConsistent pk s.db c))

  exists_row_last :
      (row : Device) (rows : List Device)
      → exists_row (λ (r : Device). r.id == row.id) (rows ++ row ∷ []) ≡ true
  unfolding exists_row
  exists_row_last row [] = rw (==_refl row.id) refl
  exists_row_last row (r ∷ rows) = ground (arith, exists_row_last row rows)

  -- A device's row is in the table before a token is issued for it.
  unfoldable pub Claimed : AppState × AppResult ℕ → Type 0
  Claimed (s, ok pk) = Ok s × (exists_row (λ (r : Device). r.id == pk) s.db.devices ≡ true)
  Claimed (s, err e) = Ok s

  pub claim_device-Claimed :
      (user : ℕ) (body : RegisterDevice) (found : Option Device) (s : AppState)
      → select_first (has_device_id body.device_id) s.db.devices ≡ found
      → Ok s
      → Claimed (claim_device o config call user body found s)
  unfolding claim_device Claimed
  claim_device-Claimed user body (some row) s e c = elim (Bool-cases (row.user_id == user)) [
    | inr other ↦ rw other c
    | inl mine ↦ rw mine (
      update-IsConsistent s.db (λ (r : Device). r.id == row.id) (redescribed body) (λ r. refl)
          (λ r. refl) c,
      exists_row-update_where (λ (r : Device). r.id == row.id) (λ (r : Device). r.id == row.id)
            (redescribed body) s.db.devices (λ r. refl)
          ∙ exists_row-select_first (has_device_id body.device_id) (λ (r : Device). r.id == row.id)
              s.db.devices row e (==_refl row.id),
    )
  ]
  claim_device-Claimed user body none s e c = (
    insert_device-IsConsistent s.db (new_device o config call user body s.db.devices) refl
        (exists_row-none (has_device_id body.device_id) s.db.devices e) c,
    exists_row_last (new_device o config call user body s.db.devices) s.db.devices,
  )

  then_issue-Ok :
      (device_id : String) (r : AppState × AppResult ℕ)
      → Claimed r
      → Ok (after r (token_reply o config call device_id)).0
  unfolding Claimed token_reply
  then_issue-Ok device_id (s, err e) c = c
  then_issue-Ok device_id (s, ok pk) c =
      after_keeps Ok (issue_device_token o config call pk s) (λ token. pure (token, device_id))
        (issue-Ok pk s c.1 c.0) (λ token t e h. h)

  pub register_for-Ok :
      (body : RegisterDevice) (user : ℕ) (s : AppState)
      → Ok s
      → Ok (register_for o config call body user s).0
  unfolding register_for find_or_create
  register_for-Ok body user s c =
      then_issue-Ok body.device_id
        (claim_device o config call user body
          (select_first (has_device_id body.device_id) s.db.devices) s)
        (claim_device-Claimed user body _ s refl c)

  pub register_device-Ok :
      (header : Option String) (body : RegisterDevice) (s : AppState)
      → Ok s
      → Ok (register_device o config call header body s).0
  unfolding register_device
  register_device-Ok header body s c =
      after_keeps Ok (device_user o config call header body s) (register_for o config call body)
        (same_db (device_user_db o config call header body s) c)
        (λ user t e h. register_for-Ok body user t h)

  refresh_row-Ok :
      (body : RefreshToken) (found : Option Device) (s : AppState)
      → select_first (has_device_id body.device_id) s.db.devices ≡ found
      → Ok s
      → Ok (refresh_row o config call body found s).0
  unfolding refresh_row Claimed
  refresh_row-Ok body none s e c = c
  refresh_row-Ok body (some row) s e c =
      then_issue-Ok body.device_id (s, ok row.id)
        (
          c,
          exists_row-select_first (has_device_id body.device_id) (λ (r : Device). r.id == row.id)
              s.db.devices row e (==_refl row.id),
        )

  pub refresh_token-Ok :
      (body : RefreshToken) (s : AppState) → Ok s → Ok (refresh_token o config call body s).0
  unfolding refresh_token
  refresh_token-Ok body s c = either-Ok _ (s, err unauthorized) _ c (refresh_row-Ok body _ s refl c)

pub delete_owned-Ok :
    (device_id : String) (user : ℕ) (s : AppState) → Ok s → Ok (delete_owned device_id user s).0
unfolding delete_owned
delete_owned-Ok device_id user s c =
    either-Ok _ (record s { db = delete_devices (is_owned user device_id) s.db }, ok tt)
      (s, err not_found) (delete_devices-IsConsistent (is_owned user device_id) s.db c) c

pub rename_owned-Ok :
    (device_id raw : String) (user : ℕ) (s : AppState)
    → Ok s
    → Ok (rename_owned device_id raw user s).0
unfolding rename_owned
rename_owned-Ok device_id raw user s c =
    either-Ok _ (s, err _) _ c
      (either-Ok _ (_, ok tt) (s, err not_found)
        (update-IsConsistent s.db (is_owned user device_id) (renamed (trim raw)) (λ r. refl)
          (λ r. refl) c)
        c)
