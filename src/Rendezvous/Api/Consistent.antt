-- ===== src/Rendezvous/Api/Consistent.antt =====
-- The constraints of the database that migrations/*.sql declare (UNIQUE, PRIMARY KEY, REFERENCES), and
-- that each statement keeps them.
use reachmydevice.Prelude.{
  ℕ, ◌≡◌, ap, sym, subst, ◌∙◌, Bool, true, false, ◌||◌, List, [], ◌∷◌, ◌++◌, ◌==◌, All, All-append,
  All-map, str_eq, Bool-cases, inl, inr,
}
use reachmydevice.Rendezvous.Api.Sql.{exists_row, update_where, delete_where, next_id}
use reachmydevice.Rendezvous.Api.Sql.Laws.{
  Distinct, Distinct-snoc, Distinct-delete_where, Distinct-update_where, exists_row-append,
  exists_row-next_id, exists_row-spared, exists_row-update_where, All-delete_where,
}
use reachmydevice.Rendezvous.Api.{User, Device, DeviceToken, UserSession, Database}
use reachmydevice.Rendezvous.Api.Devices.{delete_devices, tokens_dropped, insert_token}

abbrev pub same_username : User → User → Bool
same_username a b = str_eq a.username b.username

abbrev pub same_pk : Device → Device → Bool
same_pk a b = a.id == b.id

abbrev pub same_device_id : Device → Device → Bool
same_device_id a b = str_eq a.device_id b.device_id

abbrev pub same_hash : DeviceToken → DeviceToken → Bool
same_hash a b = str_eq a.token_hash b.token_hash

abbrev pub same_session : UserSession → UserSession → Bool
same_session a b = str_eq a.token_hash b.token_hash

-- The row that a token refers to is in the table.
abbrev pub HasDevice : List Device → DeviceToken → Type 0
HasDevice devices t = exists_row (λ (r : Device). r.id == t.device_pk) devices ≡ true

pub record IsConsistent (db : Database) : Type 0 where
  pub usernames : Distinct same_username db.users
  pub device_pks : Distinct same_pk db.devices
  pub device_ids : Distinct same_device_id db.devices
  pub token_hashes : Distinct same_hash db.device_tokens
  pub tokens_refer : All (HasDevice db.devices) db.device_tokens
  pub sessions : Distinct same_session db.user_sessions

-- An update of devices that leaves both keys.
pub update-IsConsistent :
    (db : Database) (p : Device → Bool) (f : Device → Device)
    → ((r : Device) → (f r).id ≡ r.id)
    → ((r : Device) → (f r).device_id ≡ r.device_id)
    → IsConsistent db
    → IsConsistent (record db { devices = update_where p f db.devices })
update-IsConsistent db p f keeps_pk keeps_id c = record {
  usernames = c.usernames;
  device_pks =
      Distinct-update_where same_pk p f db.devices (λ r s. ap (λ k. k == s.id) (keeps_pk r))
        (λ r s. ap (λ k. r.id == k) (keeps_pk s)) c.device_pks;
  device_ids =
      Distinct-update_where same_device_id p f db.devices
        (λ r s. ap (λ k. str_eq k s.device_id) (keeps_id r))
        (λ r s. ap (λ k. str_eq r.device_id k) (keeps_id s)) c.device_ids;
  token_hashes = c.token_hashes;
  tokens_refer =
      All-map (HasDevice db.devices) (HasDevice (update_where p f db.devices)) db.device_tokens
        (λ t h.
          exists_row-update_where (λ (r : Device). r.id == t.device_pk) p f db.devices
            (λ r. ap (λ k. k == t.device_pk) (keeps_pk r))
          ∙ h)
        c.tokens_refer;
  sessions = c.sessions;
}

pub delete_devices-IsConsistent :
    (p : Device → Bool) (db : Database) → IsConsistent db → IsConsistent (delete_devices p db)
unfolding delete_devices
delete_devices-IsConsistent p db c = record {
  usernames = c.usernames;
  device_pks = Distinct-delete_where same_pk p db.devices c.device_pks;
  device_ids = Distinct-delete_where same_device_id p db.devices c.device_ids;
  token_hashes = Distinct-delete_where same_hash _ db.device_tokens c.token_hashes;
  tokens_refer =
      All-delete_where (HasDevice db.devices) (HasDevice (delete_where p db.devices)) _
        db.device_tokens
        (λ t h spared.
          exists_row-spared (λ (r : Device). r.id == t.device_pk) p db.devices h spared)
        c.tokens_refer;
  sessions = c.sessions;
}

appended :
    {A : Type 0} (p : A → Bool) (xs ys : List A)
    → exists_row p xs ≡ true
    → exists_row p (xs ++ ys) ≡ true
appended p xs ys h = exists_row-append p xs ys ∙ ap (λ b. b || exists_row p ys) h

pub insert_device-IsConsistent :
    (db : Database) (row : Device)
    → row.id ≡ next_id (λ (r : Device). r.id) db.devices
    → exists_row (λ (r : Device). str_eq r.device_id row.device_id) db.devices ≡ false
    → IsConsistent db
    → IsConsistent (record db { devices = db.devices ++ row ∷ [] })
insert_device-IsConsistent db row key fresh c = record {
  usernames = c.usernames;
  device_pks = Distinct-snoc same_pk db.devices row c.device_pks (
      subst (λ k. exists_row (λ (r : Device). r.id == k) db.devices ≡ false) (sym key)
        (exists_row-next_id (λ (r : Device). r.id) db.devices));
  device_ids = Distinct-snoc same_device_id db.devices row c.device_ids fresh;
  token_hashes = c.token_hashes;
  tokens_refer =
      All-map (HasDevice db.devices) (HasDevice (db.devices ++ row ∷ [])) db.device_tokens
        (λ t h. appended (λ (r : Device). r.id == t.device_pk) db.devices (row ∷ []) h)
        c.tokens_refer;
  sessions = c.sessions;
}

pub tokens_dropped-IsConsistent :
    (pk : ℕ) (db : Database) → IsConsistent db → IsConsistent (tokens_dropped pk db)
tokens_dropped-IsConsistent pk db c = record {
  usernames = c.usernames;
  device_pks = c.device_pks;
  device_ids = c.device_ids;
  token_hashes = Distinct-delete_where same_hash _ db.device_tokens c.token_hashes;
  tokens_refer =
      All-delete_where (HasDevice db.devices) (HasDevice db.devices) _ db.device_tokens (λ t h e. h)
        c.tokens_refer;
  sessions = c.sessions;
}

insert_new_token :
    (row : DeviceToken) (db : Database)
    → HasDevice db.devices row
    → exists_row (λ (t : DeviceToken). str_eq t.token_hash row.token_hash) db.device_tokens ≡ false
    → IsConsistent db
    → IsConsistent (record db { device_tokens = db.device_tokens ++ row ∷ [] })
insert_new_token row db known fresh c = record {
  usernames = c.usernames;
  device_pks = c.device_pks;
  device_ids = c.device_ids;
  token_hashes = Distinct-snoc same_hash db.device_tokens row c.token_hashes fresh;
  tokens_refer =
      All-append (HasDevice db.devices) db.device_tokens (row ∷ []) c.tokens_refer (known, tt);
  sessions = c.sessions;
}

pub insert_token-IsConsistent :
    (row : DeviceToken) (db : Database)
    → HasDevice db.devices row
    → IsConsistent db
    → IsConsistent (insert_token row db).0
unfolding insert_token
insert_token-IsConsistent row db known c =
    elim (Bool-cases
      (exists_row (λ (t : DeviceToken). str_eq t.token_hash row.token_hash) db.device_tokens)) [
        | inl taken ↦ rw taken c
        | inr fresh ↦ rw fresh (insert_new_token row db known fresh c)
      ]

pub insert_user-IsConsistent :
    (db : Database) (row : User)
    → exists_row (λ (u : User). str_eq u.username row.username) db.users ≡ false
    → IsConsistent db
    → IsConsistent (record db { users = db.users ++ row ∷ [] })
insert_user-IsConsistent db row fresh c = record {
  usernames = Distinct-snoc same_username db.users row c.usernames fresh;
  device_pks = c.device_pks;
  device_ids = c.device_ids;
  token_hashes = c.token_hashes;
  tokens_refer = c.tokens_refer;
  sessions = c.sessions;
}

pub insert_session-IsConsistent :
    (db : Database) (row : UserSession)
    → exists_row (λ (r : UserSession). str_eq r.token_hash row.token_hash) db.user_sessions ≡ false
    → IsConsistent db
    → IsConsistent (record db { user_sessions = db.user_sessions ++ row ∷ [] })
insert_session-IsConsistent db row fresh c = record {
  usernames = c.usernames;
  device_pks = c.device_pks;
  device_ids = c.device_ids;
  token_hashes = c.token_hashes;
  tokens_refer = c.tokens_refer;
  sessions = Distinct-snoc same_session db.user_sessions row c.sessions fresh;
}

pub delete_session-IsConsistent :
    (db : Database) (p : UserSession → Bool)
    → IsConsistent db
    → IsConsistent (record db { user_sessions = delete_where p db.user_sessions })
delete_session-IsConsistent db p c = record {
  usernames = c.usernames;
  device_pks = c.device_pks;
  device_ids = c.device_ids;
  token_hashes = c.token_hashes;
  tokens_refer = c.tokens_refer;
  sessions = Distinct-delete_where same_session p db.user_sessions c.sessions;
}
