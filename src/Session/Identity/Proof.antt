-- ===== src/Session/Identity/Proof.antt =====
-- What an access proof binds.
use reachmydevice.Prelude.{ℕ, ◌≡◌, refl, true, List, [], ◌∷◌, ◌++◌, arith, length}
use reachmydevice.Session.Identity.{
  Crypto, device, access_proof_message, auth_proof_tag, verify_access_proof,
  device_id_from_public_key,
}

same_parts : (a b c d : List ℕ) → length a ≡ length b → a ++ c ≡ b ++ d → (a ≡ b) × (c ≡ d)
same_parts [] [] c d l e = (refl, e)
same_parts [] (y ∷ b) c d l e = absurd (omega (arith, l))
same_parts (x ∷ a) [] c d l e = absurd (omega (arith, l))
same_parts (x ∷ a) (y ∷ b) c d l e =
    let head : x ≡ y = cc in
    let (front, back) = same_parts a b c d (omega (arith, l)) cc in (cc, back)

-- The message that is signed tells the key and the session apart: from two equal messages of keys of one
-- length, both the keys and the channel bindings are equal. So a proof for one session is not one for
-- another.
pub access_proof_message-injective :
    (key key' binding binding' : List ℕ)
    → length key ≡ length key'
    → access_proof_message key binding ≡ access_proof_message key' binding'
    → (key ≡ key') × (binding ≡ binding')
unfolding access_proof_message
access_proof_message-injective key key' binding binding' l e =
    let (_, after_tag) =
      same_parts auth_proof_tag auth_proof_tag (key ++ (0 ∷ [] ++ binding))
        (key' ++ (0 ∷ [] ++ binding')) refl e in
    let (keys, after_key) =
      same_parts key key' (0 ∷ [] ++ binding) (0 ∷ [] ++ binding') l after_tag in
    (keys, (same_parts (0 ∷ []) (0 ∷ []) binding binding' refl after_key).1)

-- A proof is accepted only from a key of 32 bytes under which the 64 bytes of the signature are one of the
-- message for exactly this key and this session, and then it gives the id of that key.
pub verify_access_proof_sound :
    (k : Crypto) (key signature binding id : List ℕ)
    → verify_access_proof k key signature binding ≡ device id
    → (length key ≡ 32)
      × (length signature ≡ 64)
      × (k.verify key (access_proof_message key binding) signature ≡ true)
      × (id ≡ device_id_from_public_key k key)
unfolding verify_access_proof
verify_access_proof_sound k key signature binding id h =
    (ground arith, ground arith, ground arith, ground arith)
