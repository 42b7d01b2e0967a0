-- ===== src/Session/Identity/Sdp.antt =====
-- crates/session/src/identity.rs: the DTLS fingerprint of an SDP text, over characters, and of a signaling
-- message of crates/transport/src/lib.rs, whose JSON parser is a parameter.
use reachmydevice.Prelude.{
  ℕ, ◌-◌, ◌&&◌, Option, none, some, List, [], ◌∷◌, ◌++◌, map, leb, ◌==◌, if◌then◌else◌,
}
use reachmydevice.Session.Pairing.{trim_start, trim_end}

pub data SignalMsg : Type 0 where
  offer answer candidate : List ℕ → SignalMsg

-- The `\r` of a line's end is no part of it.
unfoldable pub strip_return : List ℕ → List ℕ
strip_return [] = []
strip_return (c ∷ []) = if c == 13 then [] else c ∷ []
strip_return (c ∷ d ∷ cs) = c ∷ strip_return (d ∷ cs)

-- `str::lines`; `seen` is the line so far.
unfoldable pub lines_from : List ℕ → List ℕ → List (List ℕ)
unfolding strip_return
lines_from [] [] = []
lines_from (s ∷ seen) [] = (s ∷ seen) ∷ []
lines_from seen (c ∷ cs) =
    let rest = lines_from [] cs in
    let more = lines_from (seen ++ c ∷ []) cs in if c == 10 then strip_return seen ∷ rest else more

unfoldable pub strip_prefix : List ℕ → List ℕ → Option (List ℕ)
strip_prefix [] text = some text
strip_prefix (p ∷ ps) [] = none
strip_prefix (p ∷ ps) (c ∷ cs) = if p == c then strip_prefix ps cs else none

abbrev pub upper : ℕ → ℕ
upper c = if leb 97 c && leb c 122 then c - 32 else c

-- "a=fingerprint:".
abbrev pub fingerprint_attribute : List ℕ
fingerprint_attribute =
    97 ∷ 61 ∷ 102 ∷ 105 ∷ 110 ∷ 103 ∷ 101 ∷ 114 ∷ 112 ∷ 114 ∷ 105 ∷ 110 ∷ 116 ∷ 58 ∷ []

abbrev pub trim : List ℕ → List ℕ
trim text = trim_end (trim_start text)

unfoldable pub first_fingerprint : List (List ℕ) → Option (List ℕ)
unfolding strip_prefix
first_fingerprint [] = none
first_fingerprint (line ∷ lines) = elim (strip_prefix fingerprint_attribute (trim line)) [
  | none ↦ first_fingerprint lines
  | some rest ↦ some (map upper (trim rest))
]

unfoldable pub dtls_fingerprint_from_sdp : List ℕ → Option (List ℕ)
unfolding lines_from first_fingerprint
dtls_fingerprint_from_sdp sdp = first_fingerprint (lines_from [] sdp)

-- `sdp_of` is the text in the field `sdp` of a JSON text, if there is one.
unfoldable pub fingerprint_from_session_json : (List ℕ → Option (List ℕ)) → List ℕ → Option (List ℕ)
fingerprint_from_session_json sdp_of json = elim (sdp_of json) [
  | none ↦ none
  | some sdp ↦ dtls_fingerprint_from_sdp sdp
]
