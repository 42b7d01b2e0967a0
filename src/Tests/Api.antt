-- ===== src/Tests/Api.antt =====
-- The rendezvous server's HTTP interface: apps/rendezvous/src/api.rs.
use Prim.Native.String
use reachmydevice.Prelude.{
  eq_iff, inl, subst, sym, ℕ, ◌+◌, ◌<◌, ◌≡◌, ◌≢◌, ◌⊎◌, refl, false, Option, none, some, List, [],
  ◌∷◌, String, arith, str_eq, ltb, if◌then◌else◌, replicate,
}
use reachmydevice.Prelude.Store.{lookup}
use reachmydevice.Session.Identity.{DeviceIdentity, device_id_from_public_key}
use reachmydevice.Session.Viewer.Handshake.{Signs}
use reachmydevice.Session.Account.{device_id, hex_text, refresh_request, basic_auth}
use reachmydevice.Session.Account.Renewing.{refresh_token-refresh_request}
use reachmydevice.Session.Account.Addresses.{NoColon, authed_user-basic_auth}
use reachmydevice.Session.Identity.KeyFile.{hex_decode}
use reachmydevice.Rendezvous.Tickets.{ResolvedCredential, redeem, ticket_ttl}
use reachmydevice.Rendezvous.Throttle.{check}
use reachmydevice.Rendezvous.Api.Sql.{select_first, exists_row}
use reachmydevice.Rendezvous.Api.Sql.Laws.{Distinct}
use reachmydevice.Rendezvous.Api.{
  ok, allow, User, Device, DeviceToken, Database, AppState, Config, TurnConfig, Outside, Call,
}
use reachmydevice.Rendezvous.Api.Text.{is_empty, as_bytes, strip_prefix, split_once, trim}
use reachmydevice.Rendezvous.Api.Consistent.{IsConsistent, same_username}
use reachmydevice.Rendezvous.Api.Users.{registration_open}
use reachmydevice.Rendezvous.Api.Signin.{
  user_id_for_session, authed_user, bearer_token, session_or_basic, basic_user, authenticate_user,
  try_password, password_checked, stored_hash,
}
use reachmydevice.Rendezvous.Api.Signin.{basic_auth as read_basic_auth}
use reachmydevice.Rendezvous.Api.Devices.{has_device_id, RefreshToken, refresh_token, new_token}
use reachmydevice.Rendezvous.Api.Manage.{is_unexpired, device_id_for_token}
use reachmydevice.Rendezvous.Api.Relay.{
  ice_reply, ws_ticket, session_user, request_token, ticket_for, issue_ticket,
}
use reachmydevice.Rendezvous.Api.Refresh.{ProvesKey, refresh_token_sound}
use reachmydevice.Rendezvous.Api.Renewal.{refresh_token-device_id_for_token, refresh_token_complete}
use reachmydevice.Rendezvous.Api.Ticket.{OfSession, OfDevice, redeem-ws_ticket}
use reachmydevice.Rendezvous.Api.Serve.{Request, delete, heartbeat, serve, serve_all, sign_in}
use reachmydevice.Rendezvous.Api.Serve.Isolation.{
  description_of, acting_user, Foreign, description_of-serve_all,
}
use reachmydevice.Rendezvous.Api.Serve.Ownership.{Description}
use reachmydevice.Rendezvous.Api.Serve.Signup.{
  IsClosed, NoOperator, is_operator, serve_all-IsClosed,
}
use reachmydevice.Rendezvous.Api.Serve.Turn.{expected_reply}
use reachmydevice.Rendezvous.Api.Serve.Relaying.{ice_reply-serve_all}
use reachmydevice.Tests.Host.{crypto, public_key}

-- Hashes that are the texts themselves, and passwords that are their own hashes.
abbrev outside : Outside
outside = record {
  crypto = crypto;
  hash_token = λ token. token;
  verify_password = λ password hash. str_eq password hash;
  dummy_phc = "-";
  mint_turn_credential = λ secret username. secret;
  base64_text = λ text. some text;
  show = λ n. "7";
}

abbrev turn_config : TurnConfig
turn_config = record { secret = "s"; host = "turn"; port = 3478; ttl_secs = 43200 }

abbrev config : Config
config = record {
  allow_open_registration = false;
  admin_token = none;
  bootstrap_token = none;
  token_ttl_secs = some 3600;
  turn = some turn_config;
}

abbrev call : Call
call = record {
  now = 1000;
  instant = 50;
  token = "fresh";
  ticket = "ticket";
  password_hash = some "hash";
  ticket_ttl_env = none;
  allow_relay = λ user. allow;
}

abbrev desk_id : String
desk_id = "01010101010101010101010101010101"

-- Ann owns a device with a token; Bob has no device.
abbrev desk : Device
desk = record {
  id = 4;
  user_id = 1;
  device_id = desk_id;
  name = "desk";
  public_key = "k";
  role = "host";
  created_at = 10;
  last_seen = none;
}

abbrev bob : User
bob = record { id = 2; username = "bob"; password_hash = "b-password" }

abbrev database : Database
database = record {
  users = record { id = 1; username = "ann"; password_hash = "a-password" } ∷ bob ∷ [];
  devices = desk ∷ [];
  device_tokens = record { device_pk = 4; token_hash = "old"; expires_at = none } ∷ [];
  user_sessions = record { user_id = 1; token_hash = "session"; expires_at = 5000 } ∷ [];
  settings = [];
}

abbrev state : AppState
state = record { db = database; throttle = []; ws_tickets = []; ice_cache = [] }

bob-Distinct : Distinct same_username (bob ∷ [])
unfolding exists_row
bob-Distinct = (refl, tt)

database-IsConsistent : IsConsistent database
unfolding exists_row
database-IsConsistent = record {
  usernames = (refl, bob-Distinct);
  device_pks = (refl, tt);
  device_ids = (refl, tt);
  token_hashes = (refl, tt);
  tokens_refer = (refl, tt);
  sessions = (refl, tt);
}

abbrev as_bob : Option String
as_bob = some "Basic bob:b-password"

-- Bob tries to delete Ann's device, and a heartbeat comes for it.
abbrev attack : List (Call × Request)
attack = (call, delete as_bob desk_id) ∷ (call, heartbeat desk_id) ∷ []

bob_acts : acting_user outside config state (call, delete as_bob desk_id) ≡ some 2
unfolding acting_user authed_user bearer_token session_or_basic read_basic_auth basic_user
    authenticate_user try_password password_checked stored_hash strip_prefix split_once check lookup
    select_first
bob_acts = refl

attack-Foreign : Foreign outside config 1 state attack
unfolding acting_user
attack-Foreign =
    let late : Foreign outside config 1 (serve outside config state (call, delete as_bob desk_id))
        ((call, heartbeat desk_id) ∷ []) =
      (λ e. cc, tt) in
    (λ e. ground (arith, bob_acts, e), late)

abbrev ann_s : Description
ann_s = record { owner = 1; name = "desk"; public_key = "k"; role = "host" }

desk_known : description_of desk_id database ≡ some ann_s
unfolding description_of select_first
desk_known = refl

description_of-serve_all_example :
    description_of desk_id (serve_all outside config state attack).db ≡ some ann_s
description_of-serve_all_example =
    description_of-serve_all outside config desk_id ann_s state attack database-IsConsistent
      desk_known attack-Foreign

closed : IsClosed config database
unfolding registration_open lookup
closed = record { shut = refl; claimed = refl }

by_ann : NoOperator config ((call, sign_in "ann" "x") ∷ [])
unfolding is_operator
by_ann = (refl, tt)

serve_all-IsClosed_example :
    ((serve_all outside config state ((call, sign_in "ann" "x") ∷ [])).db.users ≡ database.users)
    × (registration_open config (serve_all outside config state ((call, sign_in "ann" "x") ∷ [])).db
        ≡ false)
serve_all-IsClosed_example =
    serve_all-IsClosed outside config state ((call, sign_in "ann" "x") ∷ []) closed by_ann

-- Ann's desk asks for a new token, signed ten seconds ago.
abbrev fives : String
fives = "0505050505050505050505050505050505050505050505050505050505050505"

abbrev sevens : String
sevens = "0707070707070707070707070707070707070707070707070707070707070707"

abbrev renewal : RefreshToken
renewal = record {
  device_id = desk_id;
  public_key = fives;
  timestamp = 990;
  signature = String.◌++◌ sevens sevens;
}

renewal-ProvesKey : ProvesKey outside call renewal
unfolding as_bytes hex_decode device_id_from_public_key
renewal-ProvesKey = record {
  key = public_key;
  signature = replicate 64 7;
  key_sent = refl;
  signature_sent = refl;
  key_length = refl;
  signature_length = refl;
  fingerprint = refl;
  fresh = inl (omega arith, omega arith);
  is_key = refl;
  signed = refl;
}

desk_found : select_first (has_device_id desk_id) database.devices ≡ some desk
unfolding select_first
desk_found = refl

hash_unused :
    exists_row (λ (t : DeviceToken). str_eq t.token_hash "fresh") database.device_tokens ≡ false
unfolding exists_row
hash_unused = refl

renewal_answered : (refresh_token outside config call renewal state).1 ≡ ok ("fresh", desk_id)
renewal_answered =
    refresh_token_complete outside config call renewal desk state renewal-ProvesKey desk_found
      hash_unused

refresh_token_sound_example :
    ProvesKey outside call renewal
    × ((row : Device) × (select_first (has_device_id desk_id) database.devices ≡ some row))
refresh_token_sound_example =
    refresh_token_sound outside config call renewal state (omega arith) (omega arith) (omega arith)
      ("fresh", desk_id) renewal_answered

old-ne-fresh : ◌≢◌ {A = String} "old" "fresh"
old-ne-fresh e = ground (arith, eq_iff "old" "fresh")

refresh_token-device_id_for_token_example :
    ((device_id_for_token outside call "fresh"
        (refresh_token outside config call renewal state).0).1
      ≡ (if is_unexpired call.now (new_token outside config call 0).expires_at
          then some desk_id
          else none))
    × ((device_id_for_token outside call "old"
          (refresh_token outside config call renewal state).0).1
        ≢ some desk_id)
refresh_token-device_id_for_token_example =
    refresh_token-device_id_for_token outside config call call "old" renewal state
      ("fresh", desk_id) database-IsConsistent old-ne-fresh renewal_answered

ice_reply-serve_all_example :
    (expiry : ℕ) × ((ice_reply outside call config 1 (serve_all outside config state attack)).1
      ≡ ok (expected_reply outside turn_config call 1 allow expiry))
    × ((1000 + 60 < expiry) ⊎ (expiry ≡ 1000 + 43200))
ice_reply-serve_all_example =
    ice_reply-serve_all outside config turn_config refl state attack call 1 tt

abbrev with_session : Option String
with_session = some "Bearer session"

ticket_given : (ws_ticket outside call with_session none state).1 ≡ ok "ticket"
unfolding ws_ticket session_user bearer_token user_id_for_session strip_prefix trim request_token
    ticket_for issue_ticket select_first is_empty
ticket_given = refl

redeem-ws_ticket_example :
    (cred : ResolvedCredential) × (OfSession outside call with_session database cred
      ⊎ ((session_user outside call with_session state ≡ none)
          × OfDevice outside call with_session none database cred))
    × ((redeem (ws_ticket outside call with_session none state).0.ws_tickets "ticket" 99).1
        ≡ (if ltb 99 (50 + ticket_ttl none) then some cred else none))
redeem-ws_ticket_example =
    redeem-ws_ticket outside call with_session none state "ticket" 99 ticket_given

-- The client's side: Ann's desk renews its token, and her viewer lists her devices.
abbrev desk_identity : DeviceIdentity
desk_identity = record { public_key_bytes = public_key; sign = λ message. replicate 64 7 }

desk-Signs : Signs crypto desk_identity
desk-Signs = record {
  key_size = refl;
  is_key = refl;
  signature_size = λ message. refl;
  verifies = λ message. refl;
}

desk_id_text : device_id crypto.sha256 desk_identity ≡ desk_id
unfolding device_id hex_text
desk_id_text = refl

desk_sends :
    select_first (has_device_id (device_id crypto.sha256 desk_identity)) database.devices
    ≡ some desk
desk_sends =
    subst (λ id. select_first (has_device_id id) database.devices ≡ some desk) (sym desk_id_text)
      desk_found

refresh_token-refresh_request_example :
    (refresh_token outside config call (refresh_request crypto.sha256 desk_identity 990) state).1
    ≡ ok ("fresh", device_id crypto.sha256 desk_identity)
refresh_token-refresh_request_example =
    refresh_token-refresh_request outside config call desk_identity 990 desk-Signs (omega arith)
      (omega arith) (omega arith) (omega arith) (omega arith) desk state desk_sends hash_unused

ann-NoColon : NoColon "ann"
ann-NoColon = (refl, (refl, (refl, tt)))

authed_user-basic_auth_example :
    authed_user outside call (some (basic_auth (λ text. text) "ann" "a-password")) state
    ≡ authenticate_user outside call "ann" "a-password" state
authed_user-basic_auth_example =
    authed_user-basic_auth outside call (λ text. text) "ann" "a-password" ann-NoColon refl state
