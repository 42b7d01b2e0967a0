-- ===== src/Session/Pairing/Keys.antt =====
-- Both parties derive the same key and opposite roles.
use reachmydevice.Prelude.{ℕ, ◌≡◌, ◌≢◌, refl, true, false, List, [], ◌∷◌, arith}
use reachmydevice.Session.Pairing.{lex_lt, Hkdf, derive_key_from_seed, role_labels}

lex_lt_asymm : (a b : List ℕ) → lex_lt a b ≡ true → lex_lt b a ≡ false
unfolding lex_lt
lex_lt_asymm [] [] h = refl
lex_lt_asymm [] (y ∷ ys) h = refl
lex_lt_asymm (x ∷ xs) [] h = cc
lex_lt_asymm (x ∷ xs) (y ∷ ys) h = ground (arith, lex_lt_asymm xs ys)

lex_lt_connex : (a b : List ℕ) → lex_lt a b ≡ false → lex_lt b a ≡ false → a ≡ b
unfolding lex_lt
lex_lt_connex [] [] h k = refl
lex_lt_connex [] (y ∷ ys) h k = cc
lex_lt_connex (x ∷ xs) [] h k = cc
lex_lt_connex (x ∷ xs) (y ∷ ys) h k = ground (arith, lex_lt_connex xs ys)

-- The pairing key does not depend on who scanned whom.
pub derive_key_from_seed_comm :
    (hkdf : Hkdf) (seed a b : List ℕ)
    → derive_key_from_seed hkdf seed a b ≡ derive_key_from_seed hkdf seed b a
unfolding derive_key_from_seed
derive_key_from_seed_comm hkdf seed a b =
    ground (arith, lex_lt_asymm a b, lex_lt_asymm b a, lex_lt_connex a b)

-- Two parties with different keys take opposite roles, so the tag that one sends is the one that the
-- other expects and never the one that it sends itself.
pub role_labels_opposite :
    (a b : List ℕ)
    → a ≢ b
    → ((role_labels a b).0 ≡ (role_labels b a).1)
      × ((role_labels a b).1 ≡ (role_labels b a).0)
      × ((role_labels a b).0 ≢ (role_labels a b).1)
unfolding role_labels
role_labels_opposite a b ne = ground (arith, lex_lt_asymm a b, lex_lt_asymm b a, lex_lt_connex a b)
