-- ===== src/Rendezvous/Api/Ticket.antt =====
-- From a credential to the WebSocket: the ticket that `ws_ticket` hands out, and what it is redeemed for.
use Prim.Native.String
use mathlib.Core.List.{Memᴰ}
use reachmydevice.Prelude.{
  ℕ, ◌+◌, ◌<◌, ◌≡◌, ◌⊎◌, refl, ap, subst, inl, inr, true, ◌&&◌, Option, none, some, String, arith,
  ltb, ◌==◌, if◌then◌else◌, str_eq, eq_iff, Option-cases,
}
use reachmydevice.Rendezvous.Tickets.{ResolvedCredential, issue, redeem, ticket_ttl, redeem-issue}
use reachmydevice.Rendezvous.Api.{
  AppResult, ok, err, Device, DeviceToken, UserSession, Database, AppState, Outside, Call, after,
}
use reachmydevice.Rendezvous.Api.Sql.{select_first, exists_row}
use reachmydevice.Rendezvous.Api.Sql.Laws.{select_first-Mem}
use reachmydevice.Rendezvous.Api.Signin.{bearer_token, user_id_for_session}
use reachmydevice.Rendezvous.Api.Manage.{
  is_unexpired, token_row, device_for_token, stamped, resolve_device_token, resolve,
}
use reachmydevice.Rendezvous.Api.Relay.{
  string_take, first_16, session_user, request_token, resolved, ticket_for, issue_ticket,
  viewer_credential, ws_ticket,
}

unexpired :
    (now : ℕ) (expires : Option ℕ)
    → is_unexpired now expires ≡ true
    → (e : ℕ) → expires ≡ some e
    → now < e
unexpired now none h e q = absurd (cc)
unexpired now (some x) h e q = ground (arith, q)

module _ (o : Outside) (call : Call) where
  -- A live session whose token the request holds, and the viewer that its ticket stands for: the session's
  -- user, under a name made from the user and fresh digits.
  pub record OfSession (header : Option String) (db : Database) (cred : ResolvedCredential)
      : Type 0 where
    pub token : String
    pub session : UserSession
    pub sent : bearer_token header ≡ some token
    pub stored : Memᴰ session db.user_sessions
    pub matches : session.token_hash ≡ o.hash_token token
    pub is_live : call.now < session.expires_at
    pub user : cred.user_id ≡ session.user_id
    pub name :
        cred.signaling_id
        ≡ String.◌++◌ "v:"
            (String.◌++◌ (o.show session.user_id) (String.◌++◌ ":" (string_take 16 call.token)))

  -- A device token that the request holds, and its device.
  pub record OfDevice (header query : Option String) (db : Database) (cred : ResolvedCredential)
      : Type 0 where
    pub token : String
    pub row : DeviceToken
    pub owner : Device
    pub sent :
        (bearer_token header ≡ some token) ⊎ ((bearer_token header ≡ none) × (query ≡ some token))
    pub stored : Memᴰ row db.device_tokens
    pub matches : row.token_hash ≡ o.hash_token token
    pub is_live : (e : ℕ) → row.expires_at ≡ some e → call.now < e
    pub registered : Memᴰ owner db.devices
    pub issued_for : owner.id ≡ row.device_pk
    pub user : cred.user_id ≡ owner.user_id
    pub name : cred.signaling_id ≡ owner.device_id

  user_id_for_session_sound :
      (db : Database) (token : String) (user : ℕ)
      → user_id_for_session o call db token ≡ some user
      → (row : UserSession) × (select_first
            (λ (r : UserSession).
              str_eq r.token_hash (o.hash_token token) && ltb call.now r.expires_at)
            db.user_sessions
          ≡ some row)
        × (user ≡ row.user_id)
  unfolding user_id_for_session
  user_id_for_session_sound db token user h =
      elim (Option-cases (
        select_first
          (λ (r : UserSession).
            str_eq r.token_hash (o.hash_token token) && ltb call.now r.expires_at)
          db.user_sessions)) [
            | inl e ↦ absurd (ground (arith, e, h))
            | inr (row, e) ↦ (row, e, ground (arith, e, h))
          ]

  token_resolved :
      (header query : Option String) (s : AppState) (cred : ResolvedCredential)
      → (resolved o call (request_token header query) s).1 ≡ ok cred
      → (token : String) × ((bearer_token header ≡ some token)
          ⊎ ((bearer_token header ≡ none) × (query ≡ some token)))
        × ((resolve o call token s).1 ≡ some cred)
  unfolding resolved request_token
  token_resolved header query s cred h = elim (Option-cases (bearer_token header)) [
    | inr (token, e) ↦ (token, inl e, ground (arith, e, h))
    | inl e ↦ elim (Option-cases query) [
      | inr (token, q) ↦ (token, inr (e, q), ground (arith, e, q, h))
      | inl q ↦ absurd (ground (arith, e, q, h))
    ]
  ]

  redeem_issued :
      (r : AppState × AppResult ResolvedCredential) (k : String) (later : ℕ)
      → (after r (issue_ticket o call)).1 ≡ ok k
      → (cred : ResolvedCredential) × (r.1 ≡ ok cred)
        × ((redeem (after r (issue_ticket o call)).0.ws_tickets k later).1 ≡ (
            if ltb later (call.instant + ticket_ttl call.ticket_ttl_env) then some cred else none))
  unfolding issue_ticket
  redeem_issued (s, err e) k later h = absurd (cc)
  redeem_issued (s, ok cred) k later h =
      let same : call.ticket ≡ k = cc in
      (
        cred,
        refl,
        subst
            (λ t.
              (redeem
                (issue s.ws_tickets cred call.ticket call.instant (ticket_ttl call.ticket_ttl_env))
                t later).1
              ≡ (if ltb later (call.instant + ticket_ttl call.ticket_ttl_env)
                  then some cred
                  else none))
            same
            (redeem-issue s.ws_tickets cred call.ticket call.instant later call.ticket_ttl_env).0,
      )

  session_sound :
      (header : Option String) (s : AppState) (user : ℕ)
      → session_user o call header s ≡ some user
      → OfSession header s.db (viewer_credential o call user)
  unfolding session_user viewer_credential first_16
  session_sound header s user h = elim (Option-cases (bearer_token header)) [
    | inl e ↦ absurd (ground (arith, e, h))
    | inr (token, e) ↦
        let found : user_id_for_session o call s.db token ≡ some user = ground (arith, e, h) in
        let (row, at, owner) = user_id_for_session_sound s.db token user found in
        let (is_in, test) =
          select_first-Mem
            (λ (r : UserSession).
              str_eq r.token_hash (o.hash_token token) && ltb call.now r.expires_at)
            s.db.user_sessions row at in
        record {
          token = token;
          session = row;
          sent = e;
          stored = is_in;
          matches = (eq_iff row.token_hash (o.hash_token token)).0 (ground (arith, test));
          is_live = ground (arith, test);
          user = owner;
          name =
              ap
                (λ u.
                  String.◌++◌ "v:"
                    (String.◌++◌ (o.show u) (String.◌++◌ ":" (string_take 16 call.token))))
                owner;
        }
  ]

  device_sound :
      (token : String) (s : AppState) (cred : ResolvedCredential)
      → (resolve o call token s).1 ≡ some cred
      → (row : DeviceToken) × (owner : Device) × Memᴰ row s.db.device_tokens
        × Memᴰ owner s.db.devices
        × (row.token_hash ≡ o.hash_token token)
        × ((e : ℕ) → row.expires_at ≡ some e → call.now < e)
        × (owner.id ≡ row.device_pk)
        × (cred.user_id ≡ owner.user_id)
        × (cred.signaling_id ≡ owner.device_id)
  unfolding resolve resolve_device_token device_for_token stamped token_row
  device_sound token s cred h = elim (Option-cases (token_row o call token s.db)) [
    | inl e ↦ absurd (ground (arith, e, h))
    | inr (row, e) ↦
        elim (Option-cases (select_first (λ (r : Device). r.id == row.device_pk) s.db.devices)) [
          | inl e' ↦ absurd (ground (arith, e, e', h))
          | inr (owner, e') ↦
              let (row_in, test) =
                select_first-Mem
                  (λ (t : DeviceToken).
                    str_eq t.token_hash (o.hash_token token)
                    && is_unexpired call.now t.expires_at
                    && exists_row (λ (r : Device). r.id == t.device_pk) s.db.devices)
                  s.db.device_tokens row e in
              let (owner_in, same) =
                select_first-Mem (λ (r : Device). r.id == row.device_pk) s.db.devices owner e' in
              let live : is_unexpired call.now row.expires_at ≡ true = ground (arith, test) in
              (
                row,
                owner,
                row_in,
                owner_in,
                (eq_iff row.token_hash (o.hash_token token)).0 (ground (arith, test)),
                unexpired call.now row.expires_at live,
                ground (arith, same),
                ground (arith, e, e', h),
                ground (arith, e, e', h),
              )
        ]
  ]

  ticket_for_sound :
      (header query : Option String) (s : AppState) (cred : ResolvedCredential)
      → (ticket_for o call (session_user o call header s) (request_token header query) s).1
        ≡ ok cred
      → OfSession header s.db cred
        ⊎ ((session_user o call header s ≡ none) × OfDevice header query s.db cred)
  unfolding ticket_for
  ticket_for_sound header query s cred h = elim (Option-cases (session_user o call header s)) [
    | inr (user, e) ↦
        let same : viewer_credential o call user ≡ cred = ground (arith, e, h) in
        inl (subst (OfSession header s.db) same (session_sound header s user e))
    | inl e ↦
        let by_token : (resolved o call (request_token header query) s).1 ≡ ok cred =
          ground (arith, e, h) in
        let (token, sent, found) = token_resolved header query s cred by_token in
        let (row, owner, row_in, owner_in, hash, live, at, user, name) =
          device_sound token s cred found in
        inr (
          e,
          record {
            token = token;
            row = row;
            owner = owner;
            sent = sent;
            stored = row_in;
            matches = hash;
            is_live = live;
            registered = owner_in;
            issued_for = at;
            user = user;
            name = name;
          },
        )
  ]

  -- A ticket stands for a credential that the request held: redeemed before its time to live is over, it gives
  -- the user of a stored session whose token the request sent and which has not expired, under the name
  -- `v:<user>:<16 digits>`, or, where there is no such session, the owner and the id of a registered device
  -- for which the token that was sent is stored and has not expired; afterwards it gives nothing.
  pub redeem-ws_ticket :
      (header query : Option String) (s : AppState) (k : String) (later : ℕ)
      → (ws_ticket o call header query s).1 ≡ ok k
      → (cred : ResolvedCredential) × (OfSession header s.db cred
          ⊎ ((session_user o call header s ≡ none) × OfDevice header query s.db cred))
        × ((redeem (ws_ticket o call header query s).0.ws_tickets k later).1 ≡ (
            if ltb later (call.instant + ticket_ttl call.ticket_ttl_env) then some cred else none))
  unfolding ws_ticket
  redeem-ws_ticket header query s k later h =
      let user = session_user o call header s in
      let token = request_token header query in
      let (cred, found, gives) = redeem_issued (ticket_for o call user token s) k later h in
      (cred, ticket_for_sound header query s cred found, gives)
