-- ===== src/Session/FileTransfer/Names.antt =====
-- The names of received files: `sanitize` and `with_ext` of crates/session/src/filexfer.rs, over
-- characters. `/` is 47, `\` is 92 and `.` is 46.
use reachmydevice.Prelude.{
  ℕ, ◌≡◌, ◌≢◌, refl, inl, inr, Bool, false, ◌||◌, List, [], ◌∷◌, ◌++◌, arith, ◌==◌, if◌then◌else◌,
  All, Bool-cases,
}

abbrev pub is_separator : ℕ → Bool
is_separator c = c == 47 || c == 92

-- `rsplit(['/', '\\']).next()`: what stands behind the last separator.
unfoldable pub last_part : List ℕ → List ℕ → List ℕ
last_part seen [] = seen
last_part seen (c ∷ cs) = last_part (if is_separator c then [] else seen ++ c ∷ []) cs

unfoldable pub trim_dots_start : List ℕ → List ℕ
trim_dots_start [] = []
trim_dots_start (c ∷ cs) = if c == 46 then trim_dots_start cs else c ∷ cs

unfoldable pub trim_dots_end : List ℕ → List ℕ
trim_dots_end [] = []
trim_dots_end (c ∷ cs) = elim (trim_dots_end cs) [
  | [] ↦ if c == 46 then [] else c ∷ []
  | d ∷ ds ↦ c ∷ d ∷ ds
]

-- "file".
abbrev pub fallback : List ℕ
fallback = 102 ∷ 105 ∷ 108 ∷ 101 ∷ []

or_fallback : List ℕ → List ℕ
or_fallback [] = fallback
or_fallback (c ∷ cs) = c ∷ cs

unfoldable pub sanitize : List ℕ → List ℕ
unfolding last_part trim_dots_start trim_dots_end or_fallback
sanitize name = or_fallback (trim_dots_end (trim_dots_start (last_part [] name)))

-- `download_dir.join(name)` for a name with no separator.
unfoldable pub path_of : List ℕ → List ℕ → List ℕ
path_of dir name = dir ++ 47 ∷ name

-- `with_ext(path, "part")`.
unfoldable pub part_of : List ℕ → List ℕ
part_of path = path ++ 46 ∷ 112 ∷ 97 ∷ 114 ∷ 116 ∷ []

abbrev pub NoSeparator : List ℕ → Type 0
NoSeparator = All (λ c. is_separator c ≡ false)

-- The first and the last character, 0 for no text.
abbrev pub first_char : List ℕ → ℕ
first_char [] = 0
first_char (c ∷ cs) = c

abbrev pub last_char : List ℕ → ℕ
last_char [] = 0
last_char (c ∷ []) = c
last_char (c ∷ d ∷ ds) = last_char (d ∷ ds)

All-snoc :
    (xs : List ℕ) (c : ℕ) → NoSeparator xs → is_separator c ≡ false → NoSeparator (xs ++ c ∷ [])
All-snoc [] c p q = (q, tt)
All-snoc (x ∷ xs) c p q = (p.0, All-snoc xs c p.1 q)

last_part-NoSeparator : (seen cs : List ℕ) → NoSeparator seen → NoSeparator (last_part seen cs)
unfolding last_part
last_part-NoSeparator seen [] p = p
last_part-NoSeparator seen (c ∷ cs) p = elim (Bool-cases (is_separator c)) [
  | inl sep ↦ rw sep (last_part-NoSeparator [] cs tt)
  | inr other ↦ rw other (last_part-NoSeparator (seen ++ c ∷ []) cs (All-snoc seen c p other))
]

trim_start-NoSeparator : (cs : List ℕ) → NoSeparator cs → NoSeparator (trim_dots_start cs)
unfolding trim_dots_start
trim_start-NoSeparator [] p = tt
trim_start-NoSeparator (c ∷ cs) p = ground (arith, trim_start-NoSeparator cs p.1)

trim_start-first : (cs : List ℕ) → first_char (trim_dots_start cs) ≢ 46
unfolding trim_dots_start
trim_start-first [] = omega arith
trim_start-first (c ∷ cs) = ground (arith, trim_start-first cs)

trim_end-NoSeparator : (cs : List ℕ) → NoSeparator cs → NoSeparator (trim_dots_end cs)
unfolding trim_dots_end
trim_end-NoSeparator [] p = tt
trim_end-NoSeparator (c ∷ cs) p = ground (arith, trim_end-NoSeparator cs p.1)

trim_end-last : (cs : List ℕ) → last_char (trim_dots_end cs) ≢ 46
unfolding trim_dots_end
trim_end-last [] = omega arith
trim_end-last (c ∷ cs) = ground (arith, trim_end-last cs)

trim_end-first : (cs : List ℕ) → first_char cs ≢ 46 → first_char (trim_dots_end cs) ≢ 46
unfolding trim_dots_end
trim_end-first [] h = h
trim_end-first (c ∷ cs) h = ground arith

-- The file name made from an offered name is not empty, has no path separator and neither begins nor
-- ends with a dot, whatever the name was; so it names a file in the download directory itself.
pub sanitize_safe :
    (name : List ℕ)
    → (sanitize name ≢ [])
      × NoSeparator (sanitize name)
      × (first_char (sanitize name) ≢ 46)
      × (last_char (sanitize name) ≢ 46)
unfolding sanitize
sanitize_safe name =
    let base : List ℕ = last_part [] name in
    safe_or (trim_dots_end (trim_dots_start base))
      (trim_end-NoSeparator (trim_dots_start base)
        (trim_start-NoSeparator base (last_part-NoSeparator [] name tt)))
      (trim_end-first (trim_dots_start base) (trim_start-first base))
      (trim_end-last (trim_dots_start base))
  where
    safe_or :
        (cs : List ℕ)
        → NoSeparator cs
        → first_char cs ≢ 46
        → last_char cs ≢ 46
        → (or_fallback cs ≢ [])
          × NoSeparator (or_fallback cs)
          × (first_char (or_fallback cs) ≢ 46)
          × (last_char (or_fallback cs) ≢ 46)
    safe_or [] p f l = (λ e. cc, (refl, (refl, (refl, (refl, tt)))), omega arith, omega arith)
    safe_or (c ∷ cs) p f l = (λ e. cc, p, f, l)
