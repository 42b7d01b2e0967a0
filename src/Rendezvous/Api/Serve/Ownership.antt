-- ===== src/Rendezvous/Api/Serve/Ownership.antt =====
-- A device's record is changed or removed only by a request that authenticates as its owner.
use reachmydevice.Prelude.{
  ℕ, ◌≡◌, ◌≢◌, refl, ap, sym, subst, ◌∙◌, Bool, true, false, Option, none, some, List, [], ◌∷◌,
  String, arith, ◌==◌, ==_iff, if◌then◌else◌, str_eq, Bool-cases, inl, inr,
}
use reachmydevice.Rendezvous.Api.Text.{is_empty, trim}
use reachmydevice.Rendezvous.Api.Sql.{select_first, exists_row, update_where}
use reachmydevice.Rendezvous.Api.Sql.Laws.{
  select_first-update_where, select_first-delete_where, select_first-append, Distinct-eq,
}
use reachmydevice.Rendezvous.Api.{Device, AppState, Config, Outside, Call}
use reachmydevice.Rendezvous.Api.Consistent.{IsConsistent, same_pk}
use reachmydevice.Rendezvous.Api.Devices.{
  RegisterDevice, has_device_id, is_owned, delete_devices, redescribed, claim_device,
}
use reachmydevice.Rendezvous.Api.Manage.{delete_owned, rename_owned, renamed, seen}

-- What a device's row says of it, but for the time at which it was last seen.
pub record Description : Type 0 where
  pub owner : ℕ
  pub name : String
  pub public_key : String
  pub role : String

abbrev pub description : Device → Description
description r = record {
  owner = r.user_id;
  name = r.name;
  public_key = r.public_key;
  role = r.role;
}

module _ (id : String) (v : Description) where
  -- The device's row, and that it says this.
  abbrev pub Recorded : List Device → Type 0
  Recorded devices =
      (row : Device) × (select_first (has_device_id id) devices ≡ some row) × (description row ≡ v)

  -- An update that leaves the ids, and does not touch the device's row but for its time.
  pub update-Recorded :
      (p : Device → Bool) (f : Device → Device) (devices : List Device)
      → ((r : Device) → (f r).device_id ≡ r.device_id)
      → ((r : Device)
          → select_first (has_device_id id) devices ≡ some r
          → p r ≡ true
          → description (f r) ≡ description r)
      → Recorded devices
      → Recorded (update_where p f devices)
  update-Recorded p f devices keeps spares (row, found, says) = (
    if p row then f row else row,
    select_first-update_where (has_device_id id) p f devices row
        (λ r. ap (λ k. str_eq k id) (keeps r)) found,
    elim (Bool-cases (p row)) [
      | inl hit ↦ rw hit (spares row found hit ∙ says)
      | inr miss ↦ rw miss says
    ],
  )

  pub seen-Recorded :
      (p : Device → Bool) (now : ℕ) (devices : List Device)
      → Recorded devices
      → Recorded (update_where p (seen now) devices)
  seen-Recorded p now devices h =
      update-Recorded p (seen now) devices (λ r. refl) (λ r found hit. refl) h

  -- The rows of another user do not include the device's.
  others_row :
      (user : ℕ) (device_id : String) (r : Device)
      → user ≢ v.owner
      → description r ≡ v
      → is_owned user device_id r ≡ false
  others_row user device_id r other says =
      let owner : r.user_id ≡ v.owner = ap (λ t. t.owner) says in ground (arith, other)

  -- The row that is found is the device's.
  says_found :
      (devices : List Device) (r : Device)
      → select_first (has_device_id id) devices ≡ some r
      → Recorded devices
      → description r ≡ v
  says_found devices r found (row, h, says) =
      let same : row ≡ r = cc in subst (λ t. description t ≡ v) same says

  pub delete_owned-Recorded :
      (device_id : String) (user : ℕ) (s : AppState)
      → user ≢ v.owner
      → Recorded s.db.devices
      → Recorded (delete_owned device_id user s).0.db.devices
  unfolding delete_owned delete_devices
  delete_owned-Recorded device_id user s other (row, found, says) =
      elim (Bool-cases (exists_row (is_owned user device_id) s.db.devices)) [
        | inr e ↦ rw e (row, found, says)
        | inl e ↦ rw e (
          row,
          select_first-delete_where (has_device_id id) (is_owned user device_id) s.db.devices row
              found (others_row user device_id row other says),
          says,
        )
      ]

  pub rename_owned-Recorded :
      (device_id raw : String) (user : ℕ) (s : AppState)
      → user ≢ v.owner
      → Recorded s.db.devices
      → Recorded (rename_owned device_id raw user s).0.db.devices
  unfolding rename_owned
  rename_owned-Recorded device_id raw user s other h = elim (Bool-cases (is_empty (trim raw))) [
    | inl e ↦ rw e h
    | inr e ↦ elim (Bool-cases (exists_row (is_owned user device_id) s.db.devices)) [
      | inr f ↦ rw (e, f) h
      | inl f ↦
          rw (e, f)
            (update-Recorded (is_owned user device_id) (renamed (trim raw)) s.db.devices (λ r. refl)
              (λ r found hit.
                let miss = others_row user device_id r other (says_found s.db.devices r found h) in
                absurd (cc))
              h)
    ]
  ]

  pub claim_device-Recorded :
      (o : Outside) (config : Config) (call : Call) (user : ℕ) (body : RegisterDevice)
      (found : Option Device) (s : AppState)
      → user ≢ v.owner
      → select_first (has_device_id body.device_id) s.db.devices ≡ found
      → IsConsistent s.db
      → Recorded s.db.devices
      → Recorded (claim_device o config call user body found s).0.db.devices
  unfolding claim_device
  claim_device-Recorded o config call user body none s other e c (row, found, says) =
      (row, select_first-append (has_device_id id) s.db.devices (_ ∷ []) row found, says)
  claim_device-Recorded o config call user body (some mine) s other e c h =
      elim (Bool-cases (mine.user_id == user)) [
        | inr f ↦ rw f h
        | inl f ↦ rw f (
            update-Recorded (λ (r : Device). r.id == mine.id) (redescribed body) s.db.devices
              (λ r. refl)
              (λ r found hit.
                let same : r ≡ mine =
                  Distinct-eq same_pk (has_device_id id) (has_device_id body.device_id) s.db.devices
                    r mine c.device_pks (λ a b. ground arith) found e hit in
                let owner : r.user_id ≡ v.owner =
                  ap (λ t. t.owner) (says_found s.db.devices r found h) in
                absurd (
                  other (
                    sym ((==_iff mine.user_id user).0 f) ∙ sym (ap (λ t. t.user_id) same) ∙ owner)))
              h)
      ]
