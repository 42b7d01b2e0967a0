-- ===== src/Rendezvous/Api/Refresh.antt =====
-- A token is renewed only for the holder of the device's key.
use reachmydevice.Prelude.{
  ℕ, ◌+◌, ◌^◌, ◌≤◌, ◌<◌, ◌≡◌, ◌⊎◌, refl, subst, true, false, not, Option, none, some, List, String,
  arith, if◌then◌else◌, length, Bool-cases, inl, inr,
}
use reachmydevice.Session.Identity.{token_refresh_message, device_id_from_public_key}
use reachmydevice.Session.Identity.KeyFile.{hex_decode}
use reachmydevice.Rendezvous.Api.Text.{as_bytes, same_bytes-eq, same_bytes_refl}
use reachmydevice.Rendezvous.Api.Sql.{select_first}
use reachmydevice.Rendezvous.Api.{ok, err, Device, AppState, Config, Outside, Call, unauthorized}
use reachmydevice.Rendezvous.Api.Devices.{
  RefreshToken, has_device_id, refresh_token, refresh_row, proves_key, check_key, check_signature,
  refresh_signature_valid, is_stale,
}

-- A signed time, by its 64 bits, that the server takes: at most two minutes off its clock either way, or
-- exactly 2^63 seconds before it, where the comparison overflows.
abbrev pub IsFresh : ℕ → ℕ → Type 0
IsFresh now timestamp =
    ((now ≤ timestamp + 120) × (timestamp ≤ now + 120)) ⊎ (timestamp ≡ now + 2 ^ 63)

-- What makes a request for a new token a proof: the key and the signature that it carries, the key's
-- fingerprint, the time of the signature, and its verification.
pub record ProvesKey (o : Outside) (call : Call) (body : RefreshToken) : Type 0 where
  pub key : List ℕ
  pub signature : List ℕ
  pub key_sent : hex_decode (as_bytes body.public_key) ≡ some key
  pub signature_sent : hex_decode (as_bytes body.signature) ≡ some signature
  pub key_length : length key ≡ 32
  pub signature_length : length signature ≡ 64
  pub fingerprint : device_id_from_public_key o.crypto key ≡ as_bytes body.device_id
  pub fresh : IsFresh call.now body.timestamp
  pub is_key : o.crypto.is_key key ≡ true
  pub signed : o.crypto.verify key (token_refresh_message key body.timestamp) signature ≡ true

pub not_stale :
    (now timestamp : ℕ)
    → 120 ≤ now
    → now < 2 ^ 63
    → timestamp < 2 ^ 64
    → is_stale now timestamp ≡ false
    → IsFresh now timestamp
unfolding is_stale
not_stale now timestamp late early bits h = ground arith

stays_fresh : (now timestamp : ℕ) → IsFresh now timestamp → is_stale now timestamp ≡ false
unfolding is_stale
stays_fresh now timestamp (inl (a, b)) = ground arith
stays_fresh now timestamp (inr e) = ground arith

module _ (o : Outside) (call : Call) (body : RefreshToken) (late : 120 ≤ call.now)
    (early : call.now < 2 ^ 63) (bits : body.timestamp < 2 ^ 64) where
  check_signature_sound :
      (key : List ℕ) (sent : Option (List ℕ))
      → check_signature o call body key sent ≡ true
      → (signature : List ℕ) × (sent ≡ some signature)
        × (length signature ≡ 64)
        × (o.crypto.is_key key ≡ true)
        × (o.crypto.verify key (token_refresh_message key body.timestamp) signature ≡ true)
  unfolding check_signature refresh_signature_valid
  check_signature_sound key none h = cc
  check_signature_sound key (some signature) h =
      (signature, refl, ground arith, ground arith, ground arith)

  check_key_sound :
      (sent : Option (List ℕ))
      → hex_decode (as_bytes body.public_key) ≡ sent
      → check_key o call body sent ≡ true
      → ProvesKey o call body
  unfolding check_key
  check_key_sound none e h = cc
  check_key_sound (some key) e h =
      let by_signature : check_signature o call body key (hex_decode (as_bytes body.signature))
          ≡ true =
        ground arith in
      let (signature, sent, size, valid, signed) =
        check_signature_sound key (hex_decode (as_bytes body.signature)) by_signature in
      record {
        key = key;
        signature = signature;
        key_sent = e;
        signature_sent = sent;
        key_length = ground arith;
        signature_length = size;
        fingerprint =
            same_bytes-eq (device_id_from_public_key o.crypto key) (as_bytes body.device_id)
              (ground arith);
        fresh = not_stale call.now body.timestamp late early bits (ground arith);
        is_key = valid;
        signed = signed;
      }

  proves_key_sound : proves_key o call body ≡ true → ProvesKey o call body
  unfolding proves_key
  proves_key_sound h = check_key_sound (hex_decode (as_bytes body.public_key)) refl h

pub proves_key_complete :
    (o : Outside) (call : Call) (body : RefreshToken)
    → ProvesKey o call body
    → proves_key o call body ≡ true
unfolding proves_key check_key check_signature refresh_signature_valid
proves_key_complete o call body p =
    rw
      (
        p.key_sent,
        p.signature_sent,
        p.fingerprint,
        same_bytes_refl (as_bytes body.device_id),
        stays_fresh call.now body.timestamp p.fresh,
      )
      (ground arith)

module _ (o : Outside) (config : Config) (call : Call) (body : RefreshToken) (s : AppState)
    (late : 120 ≤ call.now) (early : call.now < 2 ^ 63) (bits : body.timestamp < 2 ^ 64) where
  refresh_row_sound :
      (found : Option Device) (reply : String × String)
      → (refresh_row o config call body found s).1 ≡ ok reply
      → (row : Device) × (found ≡ some row)
  unfolding refresh_row
  refresh_row_sound none reply h = cc
  refresh_row_sound (some row) reply h = (row, refl)

  -- A token is renewed only for a registered device, on a proof by its own key: the key sent is the one
  -- whose fingerprint is the device's id, and the signature is one by this key of this request's time, which
  -- is at most two minutes off the server's clock, or exactly 2^63 seconds before it. The clock is two minutes
  -- after 1970 or later, and it and the time sent are of 64 bits.
  pub refresh_token_sound :
      (reply : String × String)
      → (refresh_token o config call body s).1 ≡ ok reply
      → ProvesKey o call body
        × ((row : Device) × (select_first (has_device_id body.device_id) s.db.devices ≡ some row))
  unfolding refresh_token
  refresh_token_sound reply h = elim (Bool-cases (proves_key o call body)) [
    | inl e ↦ (
      proves_key_sound o call body late early bits e,
      refresh_row_sound (select_first (has_device_id body.device_id) s.db.devices) reply (
          subst
            (λ b.
              (if not b
                then (s, err unauthorized)
                else refresh_row o config call body
                    (select_first (has_device_id body.device_id) s.db.devices) s).1
              ≡ ok reply)
            e h),
    )
    | inr e ↦ absurd (ground (arith, h))
  ]
