-- ===== src/Session/Account.antt =====
-- crates/session/src/account.rs: the client of the server's HTTP interface, as the requests that it
-- makes and the addresses that it derives. The HTTP library and JSON are third-party packages.
pub mod Renewing
pub mod Addresses
use Prim.Native.Char.{Char}
use Prim.Native.String
use reachmydevice.Prelude.{
  ℕ, zero, suc, ◌+◌, ◌/◌, ◌%◌, Option, none, some, List, [], ◌∷◌, String, Bool, ◌||◌, str_eq, ltb,
  ◌==◌, if◌then◌else◌,
}
use reachmydevice.Session.Identity.{DeviceIdentity, token_refresh_message}
use reachmydevice.Rendezvous.Api.Text.{◌<>◌, strip_prefix, strip_suffix, trim_end_matches}
use reachmydevice.Rendezvous.Api.Devices.{RefreshToken, RegisterDevice}
use reachmydevice.Rendezvous.Api.Relay.{string_take}

hex_char : ℕ → Char
hex_char n =
    if n == 0
    then "0"
    else if n == 1
    then "1"
    else if n == 2
    then "2"
    else if n == 3
    then "3"
    else if n == 4
    then "4"
    else if n == 5
    then "5"
    else if n == 6
    then "6"
    else if n == 7
    then "7"
    else if n == 8
    then "8"
    else if n == 9
    then "9"
    else if n == 10
    then "a"
    else if n == 11
    then "b"
    else if n == 12
    then "c"
    else if n == 13
    then "d"
    else if n == 14
    then "e"
    else "f"

-- `hex::encode`, as a text.
unfoldable pub hex_text : List ℕ → String
unfolding hex_char
hex_text [] = String.[]
hex_text (b ∷ bs) = String.◌∷◌ (hex_char (b / 16)) (String.◌∷◌ (hex_char (b % 16)) (hex_text bs))

-- `DeviceIdentity::device_id`, the first 32 digits of the key's hash.
unfoldable pub device_id : (List ℕ → List ℕ) → DeviceIdentity → String
unfolding hex_text
device_id sha256 identity = string_take 32 (hex_text (sha256 identity.public_key_bytes))

-- The body of `POST /api/token/refresh`.
unfoldable pub refresh_request : (List ℕ → List ℕ) → DeviceIdentity → ℕ → RefreshToken
unfolding device_id
refresh_request sha256 identity now_unix = record {
  device_id = device_id sha256 identity;
  public_key = hex_text identity.public_key_bytes;
  timestamp = now_unix;
  signature = hex_text (identity.sign (token_refresh_message identity.public_key_bytes now_unix));
}

-- The body of `POST /api/devices`.
unfoldable pub register_request :
    String → String → String → String → String → String → RegisterDevice
register_request user pass id name public_key role = record {
  username = some user;
  password = some pass;
  device_id = id;
  name = name;
  public_key = public_key;
  role = role;
}

-- The headers. The base64 encoding is a parameter.
unfoldable pub basic_auth : (String → String) → String → String → String
basic_auth base64 user pass = "Basic " <> base64 (user <> ":" <> pass)

unfoldable pub bearer_auth : String → String
bearer_auth token = "Bearer " <> token

-- Whether a device of this role can be connected to.
unfoldable pub is_connectable : String → Bool
is_connectable role = str_eq role "host" || str_eq role "both"

-- `AccountClient::new`: the base address without slashes at its end.
unfoldable pub new_base : String → String
new_base base_url = trim_end_matches b'/' base_url

unfoldable pub ws_origin : String → String
ws_origin base = elim (strip_prefix "https://" base) [
  | some rest ↦ "wss://" <> rest
  | none ↦ elim (strip_prefix "http://" base) [ some rest ↦ "ws://" <> rest | none ↦ base ]
]

unfoldable pub ws_url : String → String
unfolding ws_origin
ws_url base = ws_origin base <> "/ws"

unfoldable pub without_ws : String → String
without_ws s = elim (strip_suffix "/ws" s) [ none ↦ s | some rest ↦ rest ]

unfoldable pub rest_base : String → String
rest_base s = elim (strip_prefix "wss://" s) [
  | some rest ↦ "https://" <> rest
  | none ↦ elim (strip_prefix "ws://" s) [ some rest ↦ "http://" <> rest | none ↦ s ]
]

unfoldable pub rest_base_from_ws : String → String
unfolding without_ws rest_base
rest_base_from_ws url = rest_base (without_ws (trim_end_matches b'/' url))
