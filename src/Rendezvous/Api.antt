-- ===== src/Rendezvous/Api.antt =====
-- apps/rendezvous/src/api.rs with db.rs, error.rs and crates/entitlement/src/lib.rs: the HTTP
-- interface over the database. The tables are lists of rows (migrations/*.sql); of the database's own
-- errors, only a broken UNIQUE constraint is modelled. What a request finds outside (clocks, random
-- tokens, the entitlement policy) is an argument of its handler, `Call`; the third-party functions are
-- a parameter, `Outside`. A request is one step: each handler holds the state while it runs.
pub mod Text
pub mod Sql
pub mod Users
pub mod Signin
pub mod Devices
pub mod Manage
pub mod Relay
pub mod Consistent
pub mod Serve
pub mod Refresh
pub mod Rotation
pub mod Renewal
pub mod Ticket
use reachmydevice.Prelude.{ℕ, Bool, true, false, Option, none, some, List, String, if◌then◌else◌}
use reachmydevice.Prelude.Store.{Store}
use reachmydevice.Session.Identity.{Crypto}
use reachmydevice.Rendezvous.Throttle.{LoginThrottle}
use reachmydevice.Rendezvous.Tickets.{TicketStore}

pub data AppError : Type 0 where
  bad_request : String → AppError
  unauthorized not_found : AppError
  conflict : String → AppError
  registration_closed : AppError
  too_many_requests : ℕ → AppError
  unique_violation internal : AppError

pub data AppResult (A : Type 0) : Type 0 where
  ok : A → AppResult A
  err : AppError → AppResult A

-- The rows; times are seconds from 1970.
pub record User : Type 0 where
  pub id : ℕ
  pub username : String
  pub password_hash : String

pub record Device : Type 0 where
  pub id : ℕ
  pub user_id : ℕ
  pub device_id : String
  pub name : String
  pub public_key : String
  pub role : String
  pub created_at : ℕ
  pub last_seen : Option ℕ

pub record DeviceToken : Type 0 where
  pub device_pk : ℕ
  pub token_hash : String
  pub expires_at : Option ℕ

pub record UserSession : Type 0 where
  pub user_id : ℕ
  pub token_hash : String
  pub expires_at : ℕ

pub record Database : Type 0 where
  pub users : List User
  pub devices : List Device
  pub device_tokens : List DeviceToken
  pub user_sessions : List UserSession
  pub settings : Store String

-- A cached TURN credential: its user name, the secret part, and when it expires.
pub record TurnCredential : Type 0 where
  pub owner : ℕ
  pub username : String
  pub credential : String
  pub expiry : ℕ

pub record AppState : Type 0 where
  pub db : Database
  pub throttle : LoginThrottle
  pub ws_tickets : TicketStore
  pub ice_cache : List TurnCredential

pub record TurnConfig : Type 0 where
  pub secret : String
  pub host : String
  pub port : ℕ
  pub ttl_secs : ℕ

pub record Config : Type 0 where
  pub allow_open_registration : Bool
  pub admin_token : Option String
  pub bootstrap_token : Option String
  pub token_ttl_secs : Option ℕ
  pub turn : Option TurnConfig

-- crates/entitlement.
pub data RelayDecision : Type 0 where
  allow deny_no_subscription deny_fair_use deny_concurrency_limit : RelayDecision

unfoldable pub is_allowed : RelayDecision → Bool
is_allowed allow = true
is_allowed d = false

unfoldable pub reason : RelayDecision → Option String
reason allow = none
reason deny_no_subscription = some "no_subscription"
reason deny_fair_use = some "fair_use_exceeded"
reason deny_concurrency_limit = some "concurrency_limit"

-- The third-party functions: SHA-256 and Ed25519, the hash of a token, Argon2, HMAC-SHA1 in base64, and
-- base64 decoding into UTF-8 text.
pub record Outside : Type 0 where
  pub crypto : Crypto
  pub hash_token : String → String
  pub verify_password : String → String → Bool  -- the password, the stored hash
  pub dummy_phc : String
  pub mint_turn_credential : String → String → String
  pub base64_text : String → Option String
  pub show : ℕ → String

-- What one request finds: the time in seconds and in nanoseconds of the monotonic clock, what
-- `generate_token` and `hash_password` give, `RMD_WS_TICKET_TTL` and the relay policy.
pub record Call : Type 0 where
  pub now : ℕ
  pub instant : ℕ
  pub token : String
  pub ticket : String
  pub password_hash : Option String
  pub ticket_ttl_env : Option ℕ
  pub allow_relay : ℕ → RelayDecision

-- A handler's steps change the state and may fail; what was changed before a failure stays.
abbrev pub App : Type 0 → Type 0
App A = AppState → AppState × AppResult A

abbrev pub after : {A B : Type 0} → AppState × AppResult A → (A → App B) → AppState × AppResult B
after (s, ok a) f = f a s
after (s, err e) f = (s, err e)

infixl 5 ◌>>=◌
abbrev pub ◌>>=◌ : {A B : Type 0} → App A → (A → App B) → App B
◌>>=◌ m f s = after (m s) f

abbrev pub pure : {A : Type 0} → A → App A
pure a s = (s, ok a)

abbrev pub ok_or : {A : Type 0} → AppError → Option A → App A
ok_or e none s = (s, err e)
ok_or e (some a) s = (s, ok a)
