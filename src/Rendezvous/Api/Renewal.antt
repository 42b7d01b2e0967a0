-- ===== src/Rendezvous/Api/Renewal.antt =====
-- What a token that a handler hands out is worth, and what the older ones of the device are.
use reachmydevice.Prelude.{
  ℕ, ◌≡◌, ◌≢◌, refl, ap, subst, ◌∙◌, false, Option, none, some, String, arith, ◌==◌, ==_refl,
  if◌then◌else◌, str_eq, eq_refl, Bool-cases, inl, inr,
}
use reachmydevice.Rendezvous.Api.Sql.{select_first, exists_row, update_where}
use reachmydevice.Rendezvous.Api.Sql.Laws.{
  select_first-snoc, select_first-update_where, exists_row-none, exists_row-delete_where,
}
use reachmydevice.Rendezvous.Api.{
  AppResult, ok, err, Device, DeviceToken, AppState, Config, Outside, Call, after,
}
use reachmydevice.Rendezvous.Api.Consistent.{IsConsistent}
use reachmydevice.Rendezvous.Api.Devices.{
  RefreshToken, RegisterDevice, has_device_id, new_token, token_reply, refresh_token, refresh_row,
  proves_key, claim_device, find_or_create, register_for, new_device, redescribed,
  issue_device_token, issued, insert_token,
}
use reachmydevice.Rendezvous.Api.Manage.{is_unexpired, device_id_for_token}
use reachmydevice.Rendezvous.Api.Refresh.{ProvesKey, proves_key_complete}
use reachmydevice.Rendezvous.Api.Rotation.{new_device_id, old_device_id}
use reachmydevice.Rendezvous.Api.Serve.Enrolment.{Claimed, claim_device-Claimed}

module _ (o : Outside) (config : Config) (call later : Call) (x : String) where
  -- The new token gives the device until it expires, and another one, `x`, does not give it.
  abbrev Replaces : String → ℕ → AppState → Type 0
  Replaces id pk t =
      ((device_id_for_token o later call.token t).1 ≡ (
        if is_unexpired later.now (new_token o config call pk).expires_at then some id else none))
      × ((device_id_for_token o later x t).1 ≢ some id)

  reply-Replaces :
      (id : String) (d : Device) (s : AppState) (reply : String × String)
      → IsConsistent s.db
      → select_first (has_device_id id) s.db.devices ≡ some d
      → o.hash_token x ≢ o.hash_token call.token
      → (token_reply o config call id d.id s).1 ≡ ok reply
      → Replaces id d.id (token_reply o config call id d.id s).0
  reply-Replaces id d s reply c known other issued = (
    new_device_id o config call id d s reply c known issued later,
    old_device_id o config call id d s reply c known issued later x other,
  )

  refresh-Replaces :
      (body : RefreshToken) (s : AppState) (found : Option Device) (reply : String × String)
      → IsConsistent s.db
      → select_first (has_device_id body.device_id) s.db.devices ≡ found
      → o.hash_token x ≢ o.hash_token call.token
      → (refresh_row o config call body found s).1 ≡ ok reply
      → Replaces body.device_id 0 (refresh_row o config call body found s).0
  unfolding refresh_row
  refresh-Replaces body s none reply c e other h = absurd (cc)
  refresh-Replaces body s (some d) reply c e other h =
      reply-Replaces body.device_id d s reply c e other h

  -- A renewed token takes the place of the old ones: it gives the device that asked, from then on and
  -- until its time to live is over, and no token of another hash gives that device any more.
  pub refresh_token-device_id_for_token :
      (body : RefreshToken) (s : AppState) (reply : String × String)
      → IsConsistent s.db
      → o.hash_token x ≢ o.hash_token call.token
      → (refresh_token o config call body s).1 ≡ ok reply
      → ((device_id_for_token o later call.token (refresh_token o config call body s).0).1 ≡ (
          if is_unexpired later.now (new_token o config call 0).expires_at
          then some body.device_id
          else none))
        × ((device_id_for_token o later x (refresh_token o config call body s).0).1
            ≢ some body.device_id)
  unfolding refresh_token
  refresh_token-device_id_for_token body s reply c other h =
      elim (Bool-cases (proves_key o call body)) [
        | inr e ↦ absurd (ground (arith, h))
        | inl e ↦ rw e (
            refresh-Replaces body s (select_first (has_device_id body.device_id) s.db.devices) reply
              c refl other (ground (arith, h)))
      ]

  -- The row of a device that is found or made.
  ClaimedRow : String → AppState × AppResult ℕ → Type 0
  ClaimedRow id (s, ok pk) =
      IsConsistent s.db
      × ((d : Device) × (select_first (has_device_id id) s.db.devices ≡ some d) × (d.id ≡ pk))
  ClaimedRow id (s, err e) = Unit

  with_row :
      (id : String) (r : AppState × AppResult ℕ) (pk : ℕ)
      → Claimed o config call r
      → r.1 ≡ ok pk
      → (d : Device) × (select_first (has_device_id id) r.0.db.devices ≡ some d) × (d.id ≡ pk)
      → ClaimedRow id r
  unfolding Claimed ClaimedRow
  with_row id (s, ok k) pk c e (d, found, key) = (c.0, (d, found, cc))
  with_row id (s, err k) pk c e d = tt

  row_again :
      (body : RegisterDevice) (d : Device) (s : AppState)
      → select_first (has_device_id body.device_id) s.db.devices ≡ some d
      → (r : Device) × (select_first
            (has_device_id body.device_id)
            (update_where (λ (t : Device). t.id == d.id) (redescribed body) s.db.devices)
          ≡ some r)
        × (r.id ≡ d.id)
  row_again body d s e = (
    redescribed body d,
    select_first-update_where (has_device_id body.device_id) (λ (t : Device). t.id == d.id)
          (redescribed body) s.db.devices d (λ r. refl) e
        ∙ ap (λ b. some (if b then redescribed body d else d)) (==_refl d.id),
    refl,
  )

  claimed_row :
      (user : ℕ) (body : RegisterDevice) (found : Option Device) (s : AppState)
      → select_first (has_device_id body.device_id) s.db.devices ≡ found
      → IsConsistent s.db
      → ClaimedRow body.device_id (claim_device o config call user body found s)
  unfolding ClaimedRow claim_device
  claimed_row user body none s e c =
      let row = new_device o config call user body s.db.devices in
      with_row body.device_id (claim_device o config call user body none s) row.id
        (claim_device-Claimed o config call user body none s e c) refl
        (
          row,
          select_first-snoc (has_device_id body.device_id) (has_device_id body.device_id)
                s.db.devices row (λ r h. h)
                (exists_row-none (has_device_id body.device_id) s.db.devices e)
              ∙ ap (λ b. if b then some row else none) (eq_refl body.device_id),
          refl,
        )
  claimed_row user body (some d) s e c = elim (Bool-cases (d.user_id == user)) [
    | inr f ↦ rw f tt
    | inl f ↦
        with_row body.device_id (claim_device o config call user body (some d) s) d.id
          (claim_device-Claimed o config call user body (some d) s e c) (rw f refl)
          (rw f (row_again body d s e))
  ]

  register-Replaces :
      (id : String) (r : AppState × AppResult ℕ) (reply : String × String)
      → ClaimedRow id r
      → o.hash_token x ≢ o.hash_token call.token
      → (after r (token_reply o config call id)).1 ≡ ok reply
      → Replaces id 0 (after r (token_reply o config call id)).0
  unfolding ClaimedRow
  register-Replaces id (s, err e) reply row other h = absurd (cc)
  register-Replaces id (s, ok pk) reply (c, (d, found, key)) other h =
      subst
        (λ k.
          (token_reply o config call id k s).1 ≡ ok reply
          → Replaces id 0 (token_reply o config call id k s).0)
        key (reply-Replaces id d s reply c found other) h

  -- So does the token of a device that is registered, anew or again: it gives the device until its time
  -- to live is over, and no token of another hash gives the device any more.
  pub register_for-device_id_for_token :
      (body : RegisterDevice) (user : ℕ) (s : AppState) (reply : String × String)
      → IsConsistent s.db
      → o.hash_token x ≢ o.hash_token call.token
      → (register_for o config call body user s).1 ≡ ok reply
      → ((device_id_for_token o later call.token (register_for o config call body user s).0).1 ≡ (
          if is_unexpired later.now (new_token o config call 0).expires_at
          then some body.device_id
          else none))
        × ((device_id_for_token o later x (register_for o config call body user s).0).1
            ≢ some body.device_id)
  unfolding register_for find_or_create
  register_for-device_id_for_token body user s reply c other h =
      register-Replaces body.device_id
        (claim_device o config call user body
          (select_first (has_device_id body.device_id) s.db.devices) s)
        reply
        (claimed_row user body (select_first (has_device_id body.device_id) s.db.devices) s refl c)
        other h

module _ (o : Outside) (config : Config) (call : Call) where
  reply_succeeds :
      (id : String) (pk : ℕ) (s : AppState)
      → exists_row
          (λ (t : DeviceToken). str_eq t.token_hash (o.hash_token call.token))
          s.db.device_tokens
        ≡ false
      → (token_reply o config call id pk s).1 ≡ ok (call.token, id)
  unfolding token_reply issue_device_token issued insert_token
  reply_succeeds id pk s fresh = ground (
    arith,
    exists_row-delete_where (λ (t : DeviceToken). str_eq t.token_hash (o.hash_token call.token))
        (λ (t : DeviceToken). t.device_pk == pk) s.db.device_tokens fresh,
  )

  row_succeeds :
      (body : RefreshToken) (found : Option Device) (d : Device) (s : AppState)
      → found ≡ some d
      → exists_row
          (λ (t : DeviceToken). str_eq t.token_hash (o.hash_token call.token))
          s.db.device_tokens
        ≡ false
      → (refresh_row o config call body found s).1 ≡ ok (call.token, body.device_id)
  unfolding refresh_row
  row_succeeds body none d s e fresh = absurd (cc)
  row_succeeds body (some k) d s e fresh = reply_succeeds body.device_id k.id s fresh

  -- A host recovers by itself: a registered device that proves its key gets a new token, whatever became
  -- of its old ones, as long as the random token is new.
  pub refresh_token_complete :
      (body : RefreshToken) (d : Device) (s : AppState)
      → ProvesKey o call body
      → select_first (has_device_id body.device_id) s.db.devices ≡ some d
      → exists_row
          (λ (t : DeviceToken). str_eq t.token_hash (o.hash_token call.token))
          s.db.device_tokens
        ≡ false
      → (refresh_token o config call body s).1 ≡ ok (call.token, body.device_id)
  unfolding refresh_token
  refresh_token_complete body d s proof known fresh =
      rw (proves_key_complete o call body proof) (
        row_succeeds body (select_first (has_device_id body.device_id) s.db.devices) d s known
          fresh)
