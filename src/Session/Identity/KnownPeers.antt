-- ===== src/Session/Identity/KnownPeers.antt =====
-- crates/session/src/identity.rs, `known_peers`: the file that remembers the key of every peer. The file is a
-- text, if there is one, and can be read.
pub mod Lines
pub mod Pinned
use reachmydevice.Prelude.{
  ℕ, Bool, true, false, not, Option, none, some, List, [], ◌∷◌, ◌++◌, ◌==◌, if◌then◌else◌, take,
}
use reachmydevice.Session.Pairing.{bytes_eq}
use reachmydevice.Session.Identity.Sdp.{lines_from, trim}

-- `split_once(' ')`.
unfoldable pub split_space : List ℕ → Option (List ℕ × List ℕ)
split_space [] = none
split_space (c ∷ cs) =
    if c == 32
    then some ([], cs)
    else elim (split_space cs) [ none ↦ none | some (a, b) ↦ some (c ∷ a, b) ]

unfoldable pub find_key : List (List ℕ) → List ℕ → Option (List ℕ)
unfolding split_space
find_key [] device_id = none
find_key (line ∷ lines) device_id =
    let rest = find_key lines device_id in
    elim (split_space line) [
      | none ↦ rest
      | some (id, key) ↦ if bytes_eq id device_id then some (trim key) else rest
    ]

unfoldable pub get : Option (List ℕ) → List ℕ → Option (List ℕ)
unfolding find_key lines_from
get none device_id = none
get (some content) device_id = find_key (lines_from [] content) device_id

abbrev pub or_new : Option (List ℕ) → List ℕ
or_new none = []
or_new (some content) = content

-- `Ok(new)`, or an error.
pub data Trust : Type 0 where
  trusted : Bool → Trust
  different_key write_failed : Trust

-- What the operating system does with a line that is appended: it writes the line, or does not open the file,
-- or fails after some of its bytes, which then stay in the file.
pub data Append : Type 0 where
  whole unopened : Append
  cut : ℕ → Append

unfoldable pub append_line : Append → Option (List ℕ) → List ℕ → Option (List ℕ) × Trust
append_line whole file line = (some (or_new file ++ line), trusted true)
append_line unopened file line = (file, write_failed)
append_line (cut n) file line = (some (or_new file ++ take n line), write_failed)

unfoldable pub add : Append → Option (List ℕ) → List ℕ → List ℕ → Option (List ℕ) × Trust
unfolding get append_line
add os file device_id public_key_hex = elim (get file device_id) [
  | some key ↦ (file, trusted false)
  | none ↦ append_line os file (device_id ++ 32 ∷ (public_key_hex ++ 10 ∷ []))
]

unfoldable pub trust_on_first_use :
    Append → Option (List ℕ) → List ℕ → List ℕ → Option (List ℕ) × Trust
unfolding get add
trust_on_first_use os file device_id public_key_hex = elim (get file device_id) [
  | some known ↦ (file, (if bytes_eq known public_key_hex then trusted false else different_key))
  | none ↦ add os file device_id public_key_hex
]
