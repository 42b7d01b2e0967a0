-- ===== src/Rendezvous/Api/Serve/Relaying.antt =====
-- The cache of TURN credentials over runs of the server, and what the policy makes of it.
use reachmydevice.Prelude.{
  ℕ, ◌+◌, ◌<◌, ◌≡◌, ◌⊎◌, refl, ap, sym, subst, ◌∙◌, Bool, Option, some, List, [], ◌∷◌, String,
  arith, Bool-cases, Option-cases, inl, inr, All,
}
use reachmydevice.Rendezvous.Api.{
  ok, TurnCredential, TurnConfig, AppState, Config, Outside, Call, is_allowed, RelayDecision,
}
use reachmydevice.Rendezvous.Api.Users.{
  RegisterUser, register_user, create_account, create_hashed, create_user_if_allowed,
  set_registration, signup_rights, registration_open,
}
use reachmydevice.Rendezvous.Api.Signin.{revoke_user_session}
use reachmydevice.Rendezvous.Api.Manage.{
  list_devices, devices_of, delete_device, delete_owned, rename_device, rename_owned,
  touch_last_seen,
}
use reachmydevice.Rendezvous.Api.Relay.{
  requester, ice_servers, ice_reply, relay_reply, turn_creds_for, session_user, request_token,
}
use reachmydevice.Rendezvous.Api.Serve.{
  Request, sign_up, set_signup, sign_in, sign_out, enrol, renew, list, delete, rename, heartbeat,
  present, ice, ticket, serve, serve_all,
}
use reachmydevice.Rendezvous.Api.Serve.Authentication.{after_keeps}
use reachmydevice.Rendezvous.Api.Serve.Steady.{
  IsSteady, login-IsSteady, resolve_device_token-IsSteady, requester-IsSteady, ws_ticket-IsSteady,
  for_user-IsSteady, delete_owned-IsSteady, rename_owned-IsSteady, register_device-IsSteady,
  refresh_token-IsSteady,
}
use reachmydevice.Rendezvous.Api.Serve.Signup.{steady}
use reachmydevice.Rendezvous.Api.Serve.Turn.{
  IsMinted, Good, turn_creds_for-Good, allowed_reply, expected_reply,
}

create_account_cache :
    (call : Call) (username : String) (rights : Bool × Bool) (s : AppState)
    → (create_account call username rights s).0.ice_cache ≡ s.ice_cache
unfolding create_account create_hashed create_user_if_allowed
create_account_cache call username rights s = elim (Option-cases call.password_hash) [
  | inl n ↦ ground (arith, n)
  | inr (h, n) ↦ ground (arith, n)
]

register_user_cache :
    (config : Config) (call : Call) (body : RegisterUser) (s : AppState)
    → (register_user config call body s).0.ice_cache ≡ s.ice_cache
unfolding register_user
register_user_cache config call body s =
    let rights = signup_rights config (registration_open config s.db) body.bootstrap in
    ground (arith, create_account_cache call body.username rights s)

set_registration_cache :
    (config : Config) (header : Option String) (enabled : Bool) (s : AppState)
    → (set_registration config header enabled s).0.ice_cache ≡ s.ice_cache
unfolding set_registration
set_registration_cache config header enabled s = ground arith

module _ (o : Outside) (config : Config) (t : TurnConfig) (set : config.turn ≡ some t) where
  abbrev Minted : AppState → Type 0
  Minted s = All (IsMinted o t) s.ice_cache

  kept :
      (old new : List TurnCredential) → new ≡ old → All (IsMinted o t) old → All (IsMinted o t) new
  kept old new e a = subst (All (IsMinted o t)) (sym e) a

  by_steady :
      (s u : AppState) → IsSteady s.db.users s.db.settings s.ice_cache u → Minted s → Minted u
  by_steady s u h a = kept s.ice_cache u.ice_cache h.same_cache a

  relay_reply-Minted :
      (call : Call) (user : ℕ) (d : RelayDecision) (s : AppState)
      → Minted s
      → Minted (relay_reply o call t user d s).0
  unfolding relay_reply Good
  relay_reply-Minted call user d s a = elim (Bool-cases (is_allowed d)) [
    | inl e ↦ rw e (turn_creds_for-Good o t call user s a).1
    | inr e ↦ rw e a
  ]

  ice_reply-Minted :
      (call : Call) (user : ℕ) (s : AppState) → Minted s → Minted (ice_reply o call config user s).0
  unfolding ice_reply
  ice_reply-Minted call user s a = rw set (relay_reply-Minted call user (call.allow_relay user) s a)

  serve-Minted :
      (s : AppState) (call : Call) (r : Request) → Minted s → Minted (serve o config s (call, r))
  unfolding serve list_devices devices_of delete_device rename_device touch_last_seen
      revoke_user_session ice_servers
  serve-Minted s call (sign_up body) a =
      kept s.ice_cache _ (register_user_cache config call body s) a
  serve-Minted s call (set_signup header enabled) a =
      kept s.ice_cache _ (set_registration_cache config header enabled s) a
  serve-Minted s call (sign_in username password) a =
      by_steady s _ (login-IsSteady _ _ _ o call username password s (steady o config s)) a
  serve-Minted s call (sign_out token) a = a
  serve-Minted s call (enrol header body) a =
      by_steady s _ (register_device-IsSteady _ _ _ o config call header body s (steady o config s))
        a
  serve-Minted s call (renew body) a =
      by_steady s _ (refresh_token-IsSteady _ _ _ o config call body s (steady o config s)) a
  serve-Minted s call (list header) a =
      by_steady s _
        (for_user-IsSteady _ _ _ o call header devices_of s (λ user u k. k) (steady o config s)) a
  serve-Minted s call (delete header device_id) a =
      by_steady s _
        (for_user-IsSteady _ _ s.ice_cache o call header (delete_owned device_id) s
          (delete_owned-IsSteady _ _ _ device_id) (steady o config s))
        a
  serve-Minted s call (rename header device_id name) a =
      by_steady s _
        (for_user-IsSteady _ _ s.ice_cache o call header (rename_owned device_id name) s
          (rename_owned-IsSteady _ _ _ device_id name) (steady o config s))
        a
  serve-Minted s call (heartbeat device_id) a = a
  serve-Minted s call (present token) a =
      by_steady s _ (resolve_device_token-IsSteady _ _ _ o call token s (steady o config s)) a
  serve-Minted s call (ice header query) a =
      let user = session_user o call header s in
      let token = request_token header query in
      after_keeps Minted (requester o call user token s) (ice_reply o call config)
        (by_steady s (requester o call user token s).0
          (requester-IsSteady _ _ s.ice_cache o call user token s (steady o config s)) a)
        (λ id u e k. ice_reply-Minted call id u k)
  serve-Minted s call (ticket header query) a =
      by_steady s _ (ws_ticket-IsSteady _ _ _ o call header query s (steady o config s)) a

  run-Minted :
      (s : AppState) (rs : List (Call × Request)) → Minted s → Minted (serve_all o config s rs)
  unfolding serve_all
  run-Minted s [] a = a
  run-Minted s (r ∷ rs) a = run-Minted (serve o config s r) rs (serve-Minted s r.0 r.1 a)

  by_relay :
      (call : Call) (user : ℕ) (s : AppState)
      → ice_reply o call config user s ≡ relay_reply o call t user (call.allow_relay user) s
  unfolding ice_reply
  by_relay call user s = rw set refl

  -- Relay credentials follow the policy. After any run of requests, a user whom the policy allows to relay
  -- gets a TURN entry whose name is an expiry and this user's id, whose secret part is the HMAC of that
  -- name, and which lasts for over a minute or is of the full time to live, reused or not; a user whom it
  -- refuses gets the STUN server alone, with the reason.
  pub ice_reply-serve_all :
      (s : AppState) (rs : List (Call × Request)) (call : Call) (user : ℕ)
      → All (IsMinted o t) s.ice_cache
      → (expiry : ℕ) × ((ice_reply o call config user (serve_all o config s rs)).1
          ≡ ok (expected_reply o t call user (call.allow_relay user) expiry))
        × ((call.now + 60 < expiry) ⊎ (expiry ≡ call.now + t.ttl_secs))
  ice_reply-serve_all s rs call user a =
      let after = serve_all o config s rs in
      let (expiry, reply, lasts) =
        allowed_reply o t call user (call.allow_relay user) after
          (turn_creds_for o call t user after) refl
          (turn_creds_for-Good o t call user after (run-Minted s rs a)) in
      (expiry, ap (λ r. r.1) (by_relay call user after) ∙ reply, lasts)
