-- ===== src/Session/Account/Renewing.antt =====
-- The client's request for a new token meets the server's handler.
use Prim.Native.Char.{code}
use reachmydevice.Prelude.{
  ℕ, zero, suc, ◌+◌, ◌/◌, ◌%◌, ◌≤◌, ◌<◌, ◌≡◌, refl, inl, ap, sym, ◌∙◌, true, false, some, List, [],
  ◌∷◌, arith, ◌==◌, ==_iff, take, All, all_below, all_below_sound, str_eq,
}
use reachmydevice.Session.Identity.{
  DeviceIdentity, token_refresh_message, device_id_from_public_key, hex_encode, hex_digit,
}
use reachmydevice.Session.Identity.KeyFile.{hex_decode}
use reachmydevice.Session.Identity.KeyFile.Hex.{IsByte, hex_decode-hex_encode}
use reachmydevice.Session.Viewer.Handshake.{Signs}
use reachmydevice.Session.Account.{hex_char, hex_text, device_id, refresh_request}
use reachmydevice.Rendezvous.Api.Text.{as_bytes, utf8_char}
use reachmydevice.Rendezvous.Api.Sql.{select_first, exists_row}
use reachmydevice.Rendezvous.Api.{ok, Device, DeviceToken, AppState, Config, Outside, Call}
use reachmydevice.Rendezvous.Api.Devices.{has_device_id, refresh_token}
use reachmydevice.Rendezvous.Api.Relay.{string_take}
use reachmydevice.Rendezvous.Api.Refresh.{ProvesKey}
use reachmydevice.Rendezvous.Api.Renewal.{refresh_token_complete}

digit_table : all_below 16 (λ n. code (hex_char n) == hex_digit n) ≡ true
unfolding all_below hex_char
digit_table = refl

code-hex_char : (n : ℕ) → n < 16 → code (hex_char n) ≡ hex_digit n
code-hex_char n h =
    (==_iff (code (hex_char n)) (hex_digit n)).0
      (all_below_sound 16 (λ k. code (hex_char k) == hex_digit k) n digit_table h)

utf8-hex_char : (n : ℕ) → n < 16 → utf8_char (code (hex_char n)) ≡ hex_digit n ∷ []
unfolding utf8_char
utf8-hex_char n h = ground (arith, code-hex_char n h)

as_bytes-hex_text : (bs : List ℕ) → All IsByte bs → as_bytes (hex_text bs) ≡ hex_encode bs
unfolding as_bytes hex_text hex_encode
as_bytes-hex_text [] h = refl
as_bytes-hex_text (b ∷ bs) (h, hs) =
    rw
      (
        utf8-hex_char (b / 16) (omega arith),
        utf8-hex_char (b % 16) (omega arith),
        as_bytes-hex_text bs hs,
      )
      refl

as_bytes-string_take :
    (n : ℕ) (bs : List ℕ)
    → All IsByte bs
    → as_bytes (string_take n (hex_text bs)) ≡ take n (hex_encode bs)
unfolding as_bytes hex_text hex_encode
as_bytes-string_take zero bs h = refl
as_bytes-string_take (suc n) [] h = refl
as_bytes-string_take (suc zero) (b ∷ bs) (h, hs) = rw (utf8-hex_char (b / 16) (omega arith)) refl
as_bytes-string_take (suc (suc n)) (b ∷ bs) (h, hs) =
    rw
      (
        utf8-hex_char (b / 16) (omega arith),
        utf8-hex_char (b % 16) (omega arith),
        as_bytes-string_take n bs hs,
      )
      refl

hex_sent : (bs : List ℕ) → All IsByte bs → hex_decode (as_bytes (hex_text bs)) ≡ some bs
hex_sent bs h = ap hex_decode (as_bytes-hex_text bs h) ∙ hex_decode-hex_encode bs h

module _ (o : Outside) (config : Config) (call : Call) (identity : DeviceIdentity) (now_unix : ℕ)
    (signs : Signs o.crypto identity) (key_bytes : All IsByte identity.public_key_bytes)
    (signature_bytes : All IsByte
      (identity.sign (token_refresh_message identity.public_key_bytes now_unix)))
    (hash_bytes : All IsByte (o.crypto.sha256 identity.public_key_bytes))
    (fast : now_unix ≤ call.now + 120) (slow : call.now ≤ now_unix + 120) where
  request_proves : ProvesKey o call (refresh_request o.crypto.sha256 identity now_unix)
  unfolding refresh_request device_id device_id_from_public_key
  request_proves = record {
    key = identity.public_key_bytes;
    signature = identity.sign (token_refresh_message identity.public_key_bytes now_unix);
    key_sent = hex_sent identity.public_key_bytes key_bytes;
    signature_sent =
        hex_sent (identity.sign (token_refresh_message identity.public_key_bytes now_unix))
          signature_bytes;
    key_length = signs.key_size;
    signature_length =
        signs.signature_size (token_refresh_message identity.public_key_bytes now_unix);
    fingerprint =
        sym (as_bytes-string_take 32 (o.crypto.sha256 identity.public_key_bytes) hash_bytes);
    fresh = inl (slow, fast);
    is_key = signs.is_key;
    signed = signs.verifies (token_refresh_message identity.public_key_bytes now_unix);
  }

  -- A host recovers by itself: what its client sends to renew a token is accepted for a registered device
  -- whose clock is at most two minutes off the server's, whatever became of its old tokens, as long as the
  -- random token is new; the reply names the new token and the device.
  pub refresh_token-refresh_request :
      (d : Device) (s : AppState)
      → select_first (has_device_id (device_id o.crypto.sha256 identity)) s.db.devices ≡ some d
      → exists_row
          (λ (t : DeviceToken). str_eq t.token_hash (o.hash_token call.token))
          s.db.device_tokens
        ≡ false
      → (refresh_token o config call (refresh_request o.crypto.sha256 identity now_unix) s).1
        ≡ ok (call.token, device_id o.crypto.sha256 identity)
  unfolding refresh_request
  refresh_token-refresh_request d s known fresh =
      refresh_token_complete o config call (refresh_request o.crypto.sha256 identity now_unix) d s
        request_proves known fresh
