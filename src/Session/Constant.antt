-- ===== src/Session/Constant.antt =====
-- The constant-time comparison, which crates/session/src/pairing.rs has as `tags_equal` and
-- crates/session/src/host.rs as `ct_eq`, with the same body.
use native.Mathlib.Decide.{ℕ_discrete}
use reachmydevice.Prelude.{
  ℕ, ◌<◌, ◌≡◌, ◌↔◌, ◌≢◌, ◌⊎◌, inl, inr, refl, ap, Bool, true, false, not, ◌&&◌, List, [], ◌∷◌,
  arith, ltb, ◌==◌, if◌then◌else◌, length, All, bit_xor, bit_or, all_below, all_below_sound,
}

-- `diff |= x ^ y` along the shorter list.
unfoldable pub difference : ℕ → List ℕ → List ℕ → ℕ
difference diff [] ys = diff
difference diff (x ∷ xs) [] = diff
difference diff (x ∷ xs) (y ∷ ys) = difference (bit_or diff (bit_xor x y)) xs ys

unfoldable pub tags_equal : List ℕ → List ℕ → Bool
unfolding difference
tags_equal a b = if not (length a == length b) then false else difference 0 a b == 0

unfoldable pub ct_eq : List ℕ → List ℕ → Bool
unfolding difference
ct_eq a b = if not (length a == length b) then false else difference 0 a b == 0

-- On bytes, `|` is zero for two zeros only, `^` for two equal bytes only, and both stay bytes.
or_fact : ℕ → ℕ → Bool
or_fact x y =
    ltb (bit_or x y) 256 && (if bit_or x y == 0 then x == 0 && y == 0 else not (x == 0 && y == 0))

xor_fact : ℕ → ℕ → Bool
xor_fact x y = ltb (bit_xor x y) 256 && (if bit_xor x y == 0 then x == y else not (x == y))

or_table : all_below 256 (λ x. all_below 256 (or_fact x)) ≡ true
unfolding all_below or_fact
or_table = refl

xor_table : all_below 256 (λ x. all_below 256 (xor_fact x)) ≡ true
unfolding all_below xor_fact
xor_table = refl

or_byte : (x y : ℕ) → x < 256 → y < 256 → or_fact x y ≡ true
or_byte x y h k =
    all_below_sound 256 (or_fact x) y
      (all_below_sound 256 (λ z. all_below 256 (or_fact z)) x or_table h) k

xor_byte : (x y : ℕ) → x < 256 → y < 256 → xor_fact x y ≡ true
xor_byte x y h k =
    all_below_sound 256 (xor_fact x) y
      (all_below_sound 256 (λ z. all_below 256 (xor_fact z)) x xor_table h) k

abbrev pub Bytes : List ℕ → Type 0
Bytes = All (λ b. b < 256)

-- The accumulated difference is zero exactly when it was and the rest of the bytes agree.
difference_iff :
    (diff : ℕ) (xs ys : List ℕ)
    → diff < 256
    → Bytes xs
    → Bytes ys
    → length xs ≡ length ys
    → (difference diff xs ys ≡ 0) ↔ ((diff ≡ 0) × (xs ≡ ys))
unfolding difference or_fact xor_fact
difference_iff diff [] [] d p q l = (λ e. (e, refl), λ e. e.0)
difference_iff diff [] (y ∷ ys) d p q l = absurd (omega arith)
difference_iff diff (x ∷ xs) [] d p q l = absurd (omega arith)
difference_iff diff (x ∷ xs) (y ∷ ys) d p q l =
    let fx = xor_byte x y p.0 q.0 in
    let small : bit_xor x y < 256 = ground arith in
    let fo = or_byte diff (bit_xor x y) d small in
    let smaller : bit_or diff (bit_xor x y) < 256 = ground arith in
    let ih = difference_iff (bit_or diff (bit_xor x y)) xs ys smaller p.1 q.1 (omega arith) in
    (λ e. let r = ih.0 e in (ground arith, ground arith), λ e. ih.1 (ground arith, ground arith))

compare_lengths : (a b : List ℕ) → (length a ≡ length b) ⊎ (length a ≢ length b)
compare_lengths a b = elim (ℕ_discrete (length a) (length b)) [ yes e ↦ inl e | no ne ↦ inr ne ]

-- The comparison of pairing tags says yes exactly when the two byte strings are equal.
pub tags_equal_iff : (a b : List ℕ) → Bytes a → Bytes b → (tags_equal a b ≡ true) ↔ (a ≡ b)
unfolding tags_equal
tags_equal_iff a b p q = elim (compare_lengths a b) [
  | inl e ↦
      let d = difference_iff 0 a b (omega arith) p q e in
      (λ h. (d.0 (ground arith)).1, λ h. let z = d.1 (refl, h) in ground arith)
  | inr ne ↦ (λ h. ground arith, λ h. absurd (ne (ap length h)))
]

-- The comparison of a connection password with the one that was sent says yes exactly when the two byte
-- strings are equal, whatever their lengths; every element is a byte, less than 256.
pub ct_eq_iff : (a b : List ℕ) → Bytes a → Bytes b → (ct_eq a b ≡ true) ↔ (a ≡ b)
unfolding ct_eq tags_equal
ct_eq_iff a b p q = tags_equal_iff a b p q
