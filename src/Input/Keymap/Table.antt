-- ===== src/Input/Keymap/Table.antt =====
-- A `match` over numeric literals with a final `_ => None`, and checks over all its arms.
use reachmydevice.Prelude.{
  ℕ, ◌≡◌, ◌≢◌, Bool, true, false, ◌&&◌, ◌||◌, not, Option, none, some, List, [], ◌∷◌, arith, ◌==◌,
  if◌then◌else◌,
}

abbrev pub Arms : Type 0
Arms = List (ℕ × ℕ)

unfoldable pub select : Arms → ℕ → Option ℕ
select [] hid = none
select ((k, v) ∷ arms) hid = if hid == k then some v else select arms hid

-- Every arm's code passes the test.
unfoldable pub every : (ℕ → Bool) → Arms → Bool
every p [] = true
every p ((k, v) ∷ arms) = p v && every p arms

-- The arms' codes are pairwise different, those that pass `skip` aside.
unfoldable pub distinct : (ℕ → Bool) → Arms → Bool
unfolding every
distinct skip [] = true
distinct skip ((k, v) ∷ arms) = (skip v || every (λ w. not (v == w)) arms) && distinct skip arms

-- Every usage of the first list has an arm in the second.
unfoldable pub covers : Arms → Arms → Bool
unfolding select
covers [] arms = true
covers ((k, v) ∷ rest) arms = elim (select arms k) [ none ↦ false | some w ↦ covers rest arms ]

pub select-every :
    (p : ℕ → Bool) (arms : Arms) (hid v : ℕ)
    → every p arms ≡ true
    → select arms hid ≡ some v
    → p v ≡ true
unfolding select every
select-every p [] hid v h e = cc
select-every p ((k, w) ∷ arms) hid v h e = ground (arith, select-every p arms hid v)

select-distinct_step :
    (w : ℕ) (arms : Arms) (hid : ℕ)
    → every (λ x. not (w == x)) arms ≡ true
    → select arms hid ≢ some w
select-distinct_step w arms hid h e =
    ground (arith, select-every (λ x. not (w == x)) arms hid w h e)

-- Two usages with one code are one usage, unless the code is skipped.
pub select-distinct :
    (skip : ℕ → Bool) (arms : Arms) (a b v : ℕ)
    → distinct skip arms ≡ true
    → skip v ≡ false
    → select arms a ≡ some v
    → select arms b ≡ some v
    → a ≡ b
unfolding select distinct
select-distinct skip [] a b v h s p q = cc
select-distinct skip ((k, w) ∷ arms) a b v h s p q = ground (
  arith,
  select-distinct skip arms a b v,
  select-distinct_step w arms a,
  select-distinct_step w arms b,
)

pub select-covers :
    (rest arms : Arms) (hid v : ℕ)
    → covers rest arms ≡ true
    → select rest hid ≡ some v
    → select arms hid ≢ none
unfolding select covers
select-covers [] arms hid v h p n = cc
select-covers ((k, w) ∷ rest) arms hid v h p n = ground (arith, select-covers rest arms hid v)
