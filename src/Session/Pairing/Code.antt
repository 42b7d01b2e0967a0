-- ===== src/Session/Pairing/Code.antt =====
-- Pairing codes: what is generated is split again into its channel and its secret.
use native.Mathlib.Nat.{pow-suc}
use reachmydevice.Prelude.{
  ℕ, zero, suc, ◌+◌, ◌-◌, ◌*◌, ◌/◌, ◌%◌, ◌^◌, ◌<◌, ◌≡◌, refl, inl, inr, Bool, true, false, not,
  ◌&&◌, some, List, [], ◌∷◌, ◌++◌, map, arith, ltb, ◌==◌, length, All, bit_or, all_below,
  all_below_sound, Bool-cases, ltb→lt,
}
use reachmydevice.Session.Pairing.{
  code_alphabet, get_or, decimal, generate_pairing_code, is_whitespace, trim_start, trim_end,
  split_once, parts, split_code, is_empty,
}

-- Neither a space nor a dash.
abbrev pub plain : ℕ → Bool
plain c = not (is_whitespace c) && not (c == 45)

abbrev Plain : List ℕ → Type 0
Plain = All (λ c. plain c ≡ true)

abbrev Solid : List ℕ → Type 0
Solid = All (λ c. is_whitespace c ≡ false)

trim_start-Solid : (cs : List ℕ) → Solid cs → trim_start cs ≡ cs
unfolding trim_start
trim_start-Solid [] p = refl
trim_start-Solid (c ∷ cs) p = ground arith

trim_end-Solid : (cs : List ℕ) → Solid cs → trim_end cs ≡ cs
unfolding trim_end
trim_end-Solid [] p = refl
trim_end-Solid (c ∷ []) p = rw p.0
trim_end-Solid (c ∷ d ∷ ds) p = rw (trim_end-Solid (d ∷ ds) p.1, trim_end)

split_once-Plain : (cs rest : List ℕ) → Plain cs → split_once (cs ++ 45 ∷ rest) ≡ some (cs, rest)
unfolding split_once
split_once-Plain [] rest p = refl
split_once-Plain (c ∷ cs) rest p = ground (arith, split_once-Plain cs rest p.1)

digit_plain : (d : ℕ) → d < 10 → plain (48 + d) ≡ true
unfolding is_whitespace
digit_plain d h = ground arith

Plain-append : (xs ys : List ℕ) → Plain xs → Plain ys → Plain (xs ++ ys)
Plain-append [] ys p q = q
Plain-append (x ∷ xs) ys p q = (p.0, Plain-append xs ys p.1 q)

Plain-Solid : (cs : List ℕ) → Plain cs → Solid cs
Plain-Solid [] p = tt
Plain-Solid (c ∷ cs) p = (ground arith, Plain-Solid cs p.1)

Solid-append : (xs ys : List ℕ) → Solid xs → Solid ys → Solid (xs ++ ys)
Solid-append [] ys p q = q
Solid-append (x ∷ xs) ys p q = (p.0, Solid-append xs ys p.1 q)

decimal-Plain : (fuel n : ℕ) → Plain (decimal fuel n)
unfolding decimal
decimal-Plain zero n = tt
decimal-Plain (suc fuel) n = elim (Bool-cases (ltb n 10)) [
  | inl one ↦ rw one (digit_plain n (ltb→lt n 10 one), tt)
  | inr more ↦ rw more (
      Plain-append (decimal fuel (n / 10)) ((48 + n % 10) ∷ []) (decimal-Plain fuel (n / 10))
        (digit_plain (n % 10) (omega arith), tt))
]

letters_plain : all_below 30 (λ i. plain (get_or code_alphabet i)) ≡ true
unfolding all_below is_whitespace
letters_plain = refl

secret_of : List ℕ → List ℕ
secret_of raw = map (λ b. get_or code_alphabet (b % length code_alphabet)) raw

secret_of-Plain : (raw : List ℕ) → Plain (secret_of raw)
unfolding secret_of
secret_of-Plain [] = tt
secret_of-Plain (b ∷ raw) = (
  all_below_sound 30 (λ i. plain (get_or code_alphabet i)) (b % 30) letters_plain (omega arith),
  secret_of-Plain raw,
)

-- The number that a row of decimal digits stands for.
abbrev pub value_from : ℕ → List ℕ → ℕ
value_from acc [] = acc
value_from acc (c ∷ cs) = value_from (acc * 10 + (c - 48)) cs

value_from-append :
    (acc : ℕ) (xs ys : List ℕ) → value_from acc (xs ++ ys) ≡ value_from (value_from acc xs) ys
value_from-append acc [] ys = refl
value_from-append acc (x ∷ xs) ys = value_from-append (acc * 10 + (x - 48)) xs ys

value_from-decimal : (fuel n : ℕ) → n < 10 ^ fuel → 0 < fuel → value_from 0 (decimal fuel n) ≡ n
unfolding decimal
value_from-decimal zero n h k = absurd (omega arith)
value_from-decimal (suc zero) n h k = ground arith
value_from-decimal (suc (suc f)) n h k = elim (Bool-cases (ltb n 10)) [
  | inl one ↦ rw one (omega arith)
  | inr more ↦
      rw
        (
          more,
          value_from-append 0 (decimal (suc f) (n / 10)) ((48 + n % 10) ∷ []),
          value_from-decimal (suc f) (n / 10) (omega (arith, pow-suc 10 (suc f))) (omega arith),
        )
        (omega arith)
]

is_empty-snoc : (xs : List ℕ) (y : ℕ) → is_empty (xs ++ y ∷ []) ≡ false
is_empty-snoc [] y = refl
is_empty-snoc (x ∷ xs) y = refl

decimal_ne : (fuel n : ℕ) → is_empty (decimal (suc fuel) n) ≡ false
unfolding decimal
decimal_ne fuel n = elim (Bool-cases (ltb n 10)) [
  | inl one ↦ rw one
  | inr more ↦ rw (more, is_empty-snoc (decimal fuel (n / 10)) (48 + n % 10))
]

split_code_lem :
    (cs ds : List ℕ)
    → Plain cs
    → Plain ds
    → is_empty cs ≡ false
    → is_empty ds ≡ false
    → split_code (cs ++ 45 ∷ ds) ≡ parts cs ds
unfolding split_code
split_code_lem cs ds p q e f =
    let solid : Solid (cs ++ 45 ∷ ds) =
      Solid-append cs (45 ∷ ds) (Plain-Solid cs p) (refl, Plain-Solid ds q) in
    rw (
      trim_start-Solid (cs ++ 45 ∷ ds) solid,
      trim_end-Solid (cs ++ 45 ∷ ds) solid,
      split_once-Plain cs ds p,
      e,
      f,
      split_code,
    )

-- A generated code splits into its channel, the decimal digits of a number below 1000, and its secret,
-- one letter of the alphabet for each random byte; no letter is a space or a dash.
pub split_code-generate_pairing_code :
    (r0 r1 b : ℕ) (raw : List ℕ)
    → let secret = map (λ x. get_or code_alphabet (x % length code_alphabet)) (b ∷ raw) in
      (channel : List ℕ) × (split_code (generate_pairing_code r0 r1 (b ∷ raw))
        ≡ parts channel secret)
      × (value_from 0 channel ≡ bit_or (r0 * 2 ^ 8) r1 % 1000)
      × All (λ c. plain c ≡ true) secret
unfolding generate_pairing_code secret_of
split_code-generate_pairing_code r0 r1 b raw =
    let n : ℕ = bit_or (r0 * 2 ^ 8) r1 % 1000 in
    (
      decimal 3 n,
      split_code_lem (decimal 3 n) (secret_of (b ∷ raw)) (decimal-Plain 3 n)
          (secret_of-Plain (b ∷ raw)) (decimal_ne 2 n) refl,
      value_from-decimal 3 n (omega arith) (omega arith),
      secret_of-Plain (b ∷ raw),
    )
