-- ===== src/Rendezvous/Api/Rotation.antt =====
-- A new token takes the place of all the device's old ones.
use reachmydevice.Prelude.{
  ℕ, ◌≡◌, ◌≢◌, refl, ap, sym, subst, ◌∙◌, Bool, true, false, ◌&&◌, ◌⊎◌, Option, none, some, List,
  [], ◌∷◌, ◌++◌, String, arith, ◌==◌, ==_iff, ==_refl, if◌then◌else◌, str_eq, eq_iff, eq_refl,
  Bool-cases, Option-cases, inl, inr, All, All-append, All-map,
}
use reachmydevice.Rendezvous.Api.Sql.{select_first, exists_row, delete_where}
use reachmydevice.Rendezvous.Api.Sql.Laws.{
  select_first-snoc, select_first-All, delete_where-All, Distinct-eq, exists_row-select_first,
  select_first_sound, exists_row-none,
}
use reachmydevice.Rendezvous.Api.{
  ok, Device, DeviceToken, Database, AppState, Config, Outside, Call,
}
use reachmydevice.Rendezvous.Api.Consistent.{IsConsistent, same_pk, same_device_id}
use reachmydevice.Rendezvous.Api.Devices.{
  has_device_id, new_token, insert_token, issued, issue_device_token, token_reply,
}
use reachmydevice.Rendezvous.Api.Manage.{
  is_unexpired, token_row, device_for_token, stamped, resolve_device_token, device_id_for_token,
}

module _ (o : Outside) (config : Config) (call : Call) (pk : ℕ) (s : AppState) where
  abbrev row : DeviceToken
  row = new_token o config call pk

  abbrev other_tokens : List DeviceToken
  other_tokens = delete_where (λ (t : DeviceToken). t.device_pk == pk) s.db.device_tokens

  -- What a successful reply leaves.
  abbrev Issued : AppState → Type 0
  Issued t =
      (t.db.devices ≡ s.db.devices)
      × (t.db.device_tokens ≡ other_tokens ++ row ∷ [])
      × (exists_row (λ (r : DeviceToken). str_eq r.token_hash (o.hash_token call.token))
            other_tokens
          ≡ false)

  token_reply-Issued :
      (id : String) (reply : String × String)
      → (token_reply o config call id pk s).1 ≡ ok reply
      → Issued (token_reply o config call id pk s).0 × (reply ≡ (call.token, id))
  unfolding token_reply issue_device_token issued insert_token
  token_reply-Issued id reply h =
      let devices : (token_reply o config call id pk s).0.db.devices ≡ s.db.devices =
        ground arith in
      let tokens : (token_reply o config call id pk s).0.db.device_tokens
          ≡ other_tokens ++ row ∷ [] =
        ground arith in
      let fresh : exists_row (λ (r : DeviceToken). str_eq r.token_hash (o.hash_token call.token))
            other_tokens
          ≡ false =
        ground arith in
      let answer : reply ≡ (call.token, id) = ground arith in ((devices, tokens, fresh), answer)

  -- The rows that a token which is not the new one can meet belong to other devices.
  Foreign : DeviceToken → Type 0
  Foreign t = ((t.device_pk == pk) ≡ false) ⊎ (t.token_hash ≡ o.hash_token call.token)

  all_Foreign : (t : AppState) → Issued t → All Foreign t.db.device_tokens
  unfolding Foreign
  all_Foreign t (devices, tokens, fresh) = subst (All Foreign) (sym tokens) (
      All-append Foreign other_tokens (row ∷ [])
        (All-map (λ (r : DeviceToken). (r.device_pk == pk) ≡ false) Foreign other_tokens
          (λ r e. inl e)
          (delete_where-All (λ (r : DeviceToken). r.device_pk == pk) s.db.device_tokens))
        (inr refl, tt))

  -- The rows that a token meets.
  abbrev meets : Call → String → Database → DeviceToken → Bool
  meets later x db r =
      str_eq r.token_hash (o.hash_token x)
      && is_unexpired later.now r.expires_at
      && exists_row (λ (d : Device). d.id == r.device_pk) db.devices

  module _ (later : Call) (t : AppState) (left : Issued t) where
    new_row :
        exists_row (λ (r : Device). r.id == pk) s.db.devices ≡ true
        → token_row o later call.token t.db
          ≡ (if is_unexpired later.now row.expires_at then some row else none)
    unfolding token_row
    new_row known =
        let present : exists_row (λ (d : Device). d.id == pk) t.db.devices ≡ true =
          ap (exists_row (λ (d : Device). d.id == pk)) left.0 ∙ known in
        let last : meets later call.token t.db row ≡ is_unexpired later.now row.expires_at =
          ground (arith, eq_refl (o.hash_token call.token), present) in
        subst
          (λ ts.
            select_first (meets later call.token t.db) ts
            ≡ (if is_unexpired later.now row.expires_at then some row else none))
          (sym left.1)
          (select_first-snoc (meets later call.token t.db)
              (λ (r : DeviceToken). str_eq r.token_hash (o.hash_token call.token)) other_tokens row
              (λ r e. rw e refl) left.2
            ∙ ap (λ b. if b then some row else none) last)

    old_row :
        (x : String) (r : DeviceToken)
        → o.hash_token x ≢ o.hash_token call.token
        → token_row o later x t.db ≡ some r
        → r.device_pk ≢ pk
    unfolding token_row Foreign
    old_row x r other found =
        let met = select_first_sound (meets later x t.db) t.db.device_tokens r found in
        let hash : r.token_hash ≡ o.hash_token x =
          (eq_iff r.token_hash (o.hash_token x)).0 (ground (arith, met)) in
        elim (select_first-All Foreign (meets later x t.db) t.db.device_tokens r
          (all_Foreign t left) found) [
            | inl e ↦ λ same. absurd (ground (arith, e, ==_iff r.device_pk pk))
            | inr e ↦ absurd (other (sym hash ∙ e))
          ]

device_id_of : Option Device → Option String
device_id_of none = none
device_id_of (some d) = some d.device_id

module _ (o : Outside) (call : Call) where
  -- The lookup for the WebSocket, by the device's row.
  device_id_for_token_lem :
      (x : String) (s : AppState)
      → (device_id_for_token o call x s).1 ≡ device_id_of (device_for_token o call x s.db)
  unfolding device_id_for_token resolve_device_token stamped device_id_of
  device_id_for_token_lem x s = ground arith

  -- A token without a row gives no device; one with a row gives the row's.
  device_of_none :
      (x : String) (db : Database)
      → token_row o call x db ≡ none
      → device_for_token o call x db ≡ none
  unfolding device_for_token
  device_of_none x db e = ground (arith, e)

  device_of_some :
      (x : String) (db : Database) (t : DeviceToken)
      → token_row o call x db ≡ some t
      → device_for_token o call x db ≡ select_first (λ (r : Device). r.id == t.device_pk) db.devices
  unfolding device_for_token
  device_of_some x db t e = ground (arith, e)

module _ (o : Outside) (config : Config) (call : Call) (id : String) (d : Device) (s : AppState)
    (reply : String × String) (c : IsConsistent s.db)
    (known : select_first (has_device_id id) s.db.devices ≡ some d)
    (issued : (token_reply o config call id d.id s).1 ≡ ok reply) where
  abbrev left : AppState
  left = (token_reply o config call id d.id s).0

  exact : Issued o config call d.id s left
  exact = (token_reply-Issued o config call d.id s id reply issued).0

  exists_d : exists_row (λ (r : Device). r.id == d.id) s.db.devices ≡ true
  exists_d =
      exists_row-select_first (has_device_id id) (λ (r : Device). r.id == d.id) s.db.devices d known
        (==_refl d.id)

  -- The device's key in the table finds the device.
  by_pk :
      (found : Option Device)
      → select_first (λ (r : Device). r.id == d.id) s.db.devices ≡ found
      → found ≡ some d
  by_pk none e =
      absurd (cc (exists_row-none (λ (r : Device). r.id == d.id) s.db.devices e, exists_d))
  by_pk (some e) f = ap some (
      Distinct-eq same_pk (λ (r : Device). r.id == d.id) (has_device_id id) s.db.devices e d
        c.device_pks (λ a b. ground arith) f known
        (select_first_sound (λ (r : Device). r.id == d.id) s.db.devices e f))

  pub new_device_id :
      (later : Call)
      → (device_id_for_token o later call.token left).1 ≡ (
          if is_unexpired later.now (new_token o config call d.id).expires_at
          then some id
          else none)
  unfolding device_id_of
  new_device_id later =
      let met = new_row o config call d.id s later left exact exists_d in
      let named : d.device_id ≡ id =
        (eq_iff d.device_id id).0 (select_first_sound (has_device_id id) s.db.devices d known) in
      device_id_for_token_lem o later call.token left
      ∙ elim (Bool-cases (is_unexpired later.now (new_token o config call d.id).expires_at)) [
        | inl e ↦
            let found : device_for_token o later call.token left.db ≡ some d =
              device_of_some o later call.token left.db (new_token o config call d.id)
                (met ∙ ap (λ b. if b then some (new_token o config call d.id) else none) e)
              ∙ ap (select_first (λ (r : Device). r.id == d.id)) exact.0
              ∙ by_pk (select_first (λ (r : Device). r.id == d.id) s.db.devices) refl in
            rw e (ap device_id_of found ∙ ap some named)
        | inr e ↦
            let found : device_for_token o later call.token left.db ≡ none =
              device_of_none o later call.token left.db
                (met ∙ ap (λ b. if b then some (new_token o config call d.id) else none) e) in
            rw e (ap device_id_of found)
      ]

  -- A row of another key is of another device.
  by_other_pk :
      (pk : ℕ) (found : Option Device)
      → pk ≢ d.id
      → select_first (λ (r : Device). r.id == pk) s.db.devices ≡ found
      → device_id_of found ≢ some id
  unfolding device_id_of
  by_other_pk pk none other e = λ h. cc
  by_other_pk pk (some r) other e = λ h.
      let named : r.device_id ≡ d.device_id = ground (
        arith,
        eq_iff d.device_id id,
        select_first_sound (has_device_id id) s.db.devices d known,
      ) in
      let same : r ≡ d =
        Distinct-eq same_device_id (λ (t : Device). t.id == pk) (has_device_id id) s.db.devices r d
          c.device_ids
          (λ a b. ground (arith, eq_iff a.device_id b.device_id, eq_iff b.device_id a.device_id)) e
          known ((eq_iff r.device_id d.device_id).1 named) in
      let key : r.id ≡ pk =
        (==_iff r.id pk).0 (select_first_sound (λ (t : Device). t.id == pk) s.db.devices r e) in
      other (sym key ∙ ap (λ t. t.id) same)

  pub old_device_id :
      (later : Call) (x : String)
      → o.hash_token x ≢ o.hash_token call.token
      → (device_id_for_token o later x left).1 ≢ some id
  unfolding device_id_of
  old_device_id later x other = elim (Option-cases (token_row o later x left.db)) [
    | inl e ↦ λ h.
        let nothing : (device_id_for_token o later x left).1 ≡ none =
          device_id_for_token_lem o later x left
          ∙ ap device_id_of (device_of_none o later x left.db e) in
        cc
    | inr (r, e) ↦ λ h.
        let key = old_row o config call d.id s later left exact x r other e in
        let found : device_for_token o later x left.db
            ≡ select_first (λ (t : Device). t.id == r.device_pk) s.db.devices =
          device_of_some o later x left.db r e
          ∙ ap (select_first (λ (t : Device). t.id == r.device_pk)) exact.0 in
        by_other_pk r.device_pk (select_first (λ (t : Device). t.id == r.device_pk) s.db.devices)
          key refl (sym (ap device_id_of found) ∙ sym (device_id_for_token_lem o later x left) ∙ h)
  ]
