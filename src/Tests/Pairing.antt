-- ===== src/Tests/Pairing.antt =====
-- Pairing: crates/session/src/pairing.rs and the constant-time comparison.
use reachmydevice.Prelude.{
  ℕ, ◌≡◌, ◌↔◌, refl, Bool, true, List, [], ◌∷◌, arith, length, replicate, length-replicate,
}
use reachmydevice.Session.Constant.{ct_eq, ct_eq_iff}
use reachmydevice.Session.Pairing.{PairingTicket, ok, encode, decode, generate_pairing_code}
use reachmydevice.Session.Pairing.Ticket.{IsTicket, decode-encode}

ct_eq_iff_example : (ct_eq (116 ∷ []) (116 ∷ []) ≡ true) ↔ ◌≡◌ {A = List ℕ} (116 ∷ []) (116 ∷ [])
ct_eq_iff_example = ct_eq_iff (116 ∷ []) (116 ∷ []) (omega arith) (omega arith)

abbrev ticket : PairingTicket
ticket = record {
  identity_pubkey = replicate 32 7;
  seed = replicate 32 42;
  relay = 119 ∷ 115 ∷ 115 ∷ [];
  expiry_unix = 1000;
}

abbrev any_text : List ℕ → Bool
any_text bytes = true

ticket-IsTicket : IsTicket ticket
ticket-IsTicket = record { key_size = refl; seed_size = refl; expiry_range = omega arith }

decode-encode_example : decode any_text (encode ticket) ≡ ok ticket
decode-encode_example = decode-encode any_text ticket ticket-IsTicket refl (omega arith)

-- The 65536 bytes of a locator that is too long.
long_relay : List ℕ
long_relay = replicate 65536 97

length-long_relay : length long_relay ≡ 65536
unfolding long_relay
length-long_relay = length-replicate {A = ℕ} 65536 97

abbrev long_ticket : PairingTicket
long_ticket = record ticket { relay = long_relay }

-- "300-b".
generated : generate_pairing_code 1 44 (31 ∷ []) ≡ 51 ∷ 48 ∷ 48 ∷ 45 ∷ 98 ∷ []
unfolding generate_pairing_code
generated = refl
