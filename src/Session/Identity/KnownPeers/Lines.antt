-- ===== src/Session/Identity/KnownPeers/Lines.antt =====
-- The lines of the file of known peers: crates/session/src/identity.rs, `known_peers`.
use reachmydevice.Prelude.{
  ℕ, ◌≡◌, refl, sym, ap, ◌∙◌, inl, inr, true, false, Option, none, some, List, [], ◌∷◌, ◌++◌,
  append_assoc, append-nil, All-append, All-map, arith, All, ◌==◌, if◌then◌else◌, Bool-cases,
}
use reachmydevice.Session.Pairing.{bytes_eq, is_whitespace}
use reachmydevice.Session.Identity.Sdp.{lines_from, strip_return}
use reachmydevice.Session.Identity.KeyFile.Hex.{NoBlank, trim_unblanked}
use reachmydevice.Session.Identity.KnownPeers.{or_new, split_space, find_key, get}

abbrev pub Entry : Type 0
Entry = List ℕ × List ℕ  -- device_id, public_key_hex

-- The texts have no blank, like the hexadecimal ones of the program.
abbrev pub IsEntry : Entry → Type 0
IsEntry (id, key) = All NoBlank id × All NoBlank key

abbrev pub render : List Entry → List ℕ
render [] = []
render ((id, key) ∷ es) = id ++ 32 ∷ (key ++ 10 ∷ render es)

abbrev pub first_key : List Entry → List ℕ → Option (List ℕ)
first_key [] device_id = none
first_key ((id, key) ∷ es) device_id =
    if bytes_eq id device_id then some key else first_key es device_id

abbrev Solid : ℕ → Type 0
Solid c = (c == 10 ≡ false) × (c == 13 ≡ false)

NoBlank-Solid : (c : ℕ) → NoBlank c → Solid c × (c == 32 ≡ false)
unfolding is_whitespace
NoBlank-Solid c h = ground arith

strip_return-Solid : (line : List ℕ) → All Solid line → strip_return line ≡ line
unfolding strip_return
strip_return-Solid [] h = refl
strip_return-Solid (c ∷ []) (h, hs) = ground (arith, h)
strip_return-Solid (c ∷ d ∷ cs) (h, hs) = ap (◌∷◌ c) (strip_return-Solid (d ∷ cs) hs)

lines_from_line :
    (seen line rest : List ℕ)
    → All Solid seen
    → All Solid line
    → lines_from seen (line ++ 10 ∷ rest) ≡ (seen ++ line) ∷ lines_from [] rest
unfolding lines_from
lines_from_line seen [] rest s h = rw (strip_return-Solid seen s, append-nil seen) refl
lines_from_line seen (c ∷ cs) rest s (h, hs) =
    let rest_read =
      lines_from_line (seen ++ c ∷ []) cs rest (All-append Solid seen (c ∷ []) s (h, tt)) hs in
    ground (arith, h, rest_read ∙ ap (λ l. l ∷ lines_from [] rest) (append_assoc seen (c ∷ []) cs))

split_space_line :
    (id key : List ℕ) → All NoBlank id → split_space (id ++ 32 ∷ key) ≡ some (id, key)
unfolding split_space
split_space_line [] key h = refl
split_space_line (c ∷ cs) key (h, hs) =
    let (_, other) = NoBlank-Solid c h in rw (other, split_space_line cs key hs) refl

line-Solid : (id key : List ℕ) → IsEntry (id, key) → All Solid (id ++ 32 ∷ key)
line-Solid id key (a, b) =
    let solid = λ (c : ℕ) (h : NoBlank c). (NoBlank-Solid c h).0 in
    All-append Solid id (32 ∷ key) (All-map NoBlank Solid id solid a)
      ((refl, refl), All-map NoBlank Solid key solid b)

lines-render :
    (id key : List ℕ) (es : List Entry) (more : List ℕ)
    → IsEntry (id, key)
    → lines_from [] (render ((id, key) ∷ es) ++ more)
      ≡ (id ++ 32 ∷ key) ∷ lines_from [] (render es ++ more)
lines-render id key es more h =
    ap (lines_from []) (
      append_assoc id (32 ∷ (key ++ 10 ∷ render es)) more
      ∙ ap (λ l. id ++ 32 ∷ l) (append_assoc key (10 ∷ render es) more)
      ∙ sym (append_assoc id (32 ∷ key) (10 ∷ (render es ++ more))))
    ∙ lines_from_line [] (id ++ 32 ∷ key) (render es ++ more) tt (line-Solid id key h)

-- A file that `add` has written is read as the list of its entries.
pub get-render :
    (es : List Entry) (device_id : List ℕ)
    → All IsEntry es
    → get (some (render es)) device_id ≡ first_key es device_id
unfolding get find_key lines_from
get-render [] device_id h = refl
get-render ((id, key) ∷ es) device_id (h, hs) =
    let rest : find_key (lines_from [] (render es)) device_id ≡ first_key es device_id =
      get-render es device_id hs in
    ap (λ l. find_key (lines_from [] l) device_id) (sym (append-nil (render ((id, key) ∷ es))))
    ∙ ap (λ l. find_key l device_id) (lines-render id key es [] h)
    ∙ ap (λ l. find_key ((id ++ 32 ∷ key) ∷ lines_from [] l) device_id) (append-nil (render es))
    ∙ ground (arith, split_space_line id key h.0, trim_unblanked key h.1, rest)

-- An entry is found also if anything stands behind the entries.
pub get-render_found :
    (es : List Entry) (more device_id key : List ℕ)
    → All IsEntry es
    → first_key es device_id ≡ some key
    → get (some (render es ++ more)) device_id ≡ some key
unfolding get find_key
get-render_found [] more device_id key h found = absurd (ground (arith, found))
get-render_found ((i, k) ∷ es) more device_id key (h, hs) found =
    ap (λ l. find_key l device_id) (lines-render i k es more h)
    ∙ elim (Bool-cases (bytes_eq i device_id)) [
      | inl same ↦ ground (arith, split_space_line i k h.0, trim_unblanked k h.1, same, found)
      | inr other ↦
          let rest : find_key (lines_from [] (render es ++ more)) device_id ≡ some key =
            get-render_found es more device_id key hs (ground (arith, other, found)) in
          ground (arith, split_space_line i k h.0, trim_unblanked k h.1, other, rest)
    ]

bytes_eq_refl : (text : List ℕ) → bytes_eq text text ≡ true
bytes_eq_refl [] = refl
bytes_eq_refl (c ∷ cs) = ground (arith, bytes_eq_refl cs)

pub bytes_eq_sound : (a b : List ℕ) → bytes_eq a b ≡ true → a ≡ b
bytes_eq_sound [] [] h = refl
bytes_eq_sound [] (y ∷ ys) h = absurd (ground arith)
bytes_eq_sound (x ∷ xs) [] h = absurd (ground arith)
bytes_eq_sound (x ∷ xs) (y ∷ ys) h =
    let head : x ≡ y = ground (arith, h) in
    let rest = bytes_eq_sound xs ys (ground (arith, h)) in cc

pub first_key_added :
    (es : List Entry) (id key : List ℕ)
    → first_key es id ≡ none
    → first_key (es ++ (id, key) ∷ []) id ≡ some key
first_key_added [] id key h = ground (arith, bytes_eq_refl id)
first_key_added ((i, k) ∷ es) id key h = elim (Bool-cases (bytes_eq i id)) [
  | inl same ↦ absurd (ground (arith, same, h))
  | inr other ↦
      let rest = first_key_added es id key (ground (arith, other, h)) in ground (arith, other, rest)
]

pub render-append :
    (es : List Entry) (e : Entry) → render (es ++ e ∷ []) ≡ render es ++ render (e ∷ [])
render-append [] e = refl
render-append ((id, key) ∷ es) e = rw (render-append es e) (
    ap (λ l. id ++ 32 ∷ l) (sym (append_assoc key (10 ∷ render es) (render (e ∷ []))))
    ∙ sym (append_assoc id (32 ∷ (key ++ 10 ∷ render es)) (render (e ∷ []))))

-- The file, which may be missing, holds these entries.
abbrev pub Reads : Option (List ℕ) → List Entry → Type 0
Reads file es = (or_new file ≡ render es) × All IsEntry es

pub get-Reads :
    (file : Option (List ℕ)) (es : List Entry) (id : List ℕ)
    → Reads file es
    → get file id ≡ first_key es id
unfolding get find_key lines_from
get-Reads none es id (e, h) = ap (λ t. find_key (lines_from [] t) id) e ∙ get-render es id h
get-Reads (some content) es id (e, h) =
    ap (λ t. find_key (lines_from [] t) id) e ∙ get-render es id h
