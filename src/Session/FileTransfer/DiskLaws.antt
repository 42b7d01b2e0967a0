-- ===== src/Session/FileTransfer/DiskLaws.antt =====
-- What the file operations behind crates/session/src/filexfer.rs do to the file of a path.
use reachmydevice.Prelude.{
  ℕ, zero, suc, ◌+◌, ◌-◌, min, ◌≤◌, ◌<◌, ◌≡◌, ◌≢◌, refl, sym, ap, ◌∙◌, inl, inr, true, some, List,
  [], ◌∷◌, ◌++◌, arith, ◌==◌, length, take, drop, replicate, length-take, take_all, drop_all,
  take_split, take-length-take, append_assoc, append-nil, Bool-cases, ==_refl,
}
use reachmydevice.Session.FileTransfer.Storage.{
  Disk, path_eq, find, size_at, read_at, open_or_create, set_len, write_at, rename,
}
use reachmydevice.Session.FileTransfer.{rehash, chunk}

pub path_eq_refl : (p : List ℕ) → path_eq p p ≡ true
path_eq_refl [] = refl
path_eq_refl (x ∷ xs) = ground (arith, path_eq_refl xs)

pub path_eq_sound : (p q : List ℕ) → path_eq p q ≡ true → p ≡ q
path_eq_sound [] [] h = refl
path_eq_sound [] (y ∷ ys) h = cc
path_eq_sound (x ∷ xs) [] h = cc
path_eq_sound (x ∷ xs) (y ∷ ys) h = ground (arith, path_eq_sound xs ys)

pub write_at_end :
    (d : Disk) (i pos : ℕ) (bytes : List ℕ)
    → length (d.content i) ≡ pos
    → (write_at d i pos bytes).content i ≡ d.content i ++ bytes
unfolding write_at
write_at_end d i pos bytes e =
    rw
      (
        ==_refl i,
        take_all pos (d.content i) (omega arith),
        drop_all (pos + length bytes) (d.content i) (omega arith),
        append-nil bytes,
      )
      (ap (λ k. d.content i ++ (replicate k 0 ++ bytes)) {x = pos - length (d.content i)} {y = 0}
        (omega arith))

pub write_at_names :
    (d : Disk) (i pos : ℕ) (bytes : List ℕ) → (write_at d i pos bytes).names ≡ d.names
unfolding write_at
write_at_names d i pos bytes = refl

pub read_at-rename :
    (d : Disk) (from to : List ℕ) (i : ℕ)
    → find from d.names ≡ some i
    → read_at (rename d from to) to ≡ d.content i
unfolding read_at rename
read_at-rename d from to i e = ground (arith, path_eq_refl to)

pub opened_find :
    (d : Disk) (p : List ℕ) (n : ℕ)
    → find p (set_len (open_or_create d p).0 (open_or_create d p).1 n).names
      ≡ some (open_or_create d p).1
unfolding set_len open_or_create find
opened_find d p n = ground (arith, path_eq_refl p)

pub opened_content :
    (d : Disk) (p : List ℕ) → (open_or_create d p).0.content (open_or_create d p).1 ≡ read_at d p
unfolding open_or_create read_at find
opened_content d p = ground (arith, ==_refl d.fresh)

pub size_at-read_at : (d : Disk) (p : List ℕ) → size_at d p ≡ length (read_at d p)
unfolding size_at read_at find
size_at-read_at d p = ground arith

pub set_len_within :
    (d : Disk) (i n : ℕ)
    → n ≤ length (d.content i)
    → (set_len d i n).content i ≡ take n (d.content i)
unfolding set_len
set_len_within d i n h = rw (==_refl i) (
    ap (λ k. take n (d.content i) ++ replicate k 0) {x = n - length (d.content i)} {y = 0}
      (omega arith)
    ∙ append-nil (take n (d.content i)))

pub rehash-nil : (w : ℕ) (rest : List ℕ) → length (take w rest) ≡ 0 → take w rest ≡ []
rehash-nil zero rest h = refl
rehash-nil (suc w) [] h = refl
rehash-nil (suc w) (x ∷ rest) h = absurd (omega arith)

-- The hashing loop reads the prefix that it was asked for, as far as the disk lets it.
pub rehash_lem :
    (fuel : ℕ) (rest : List ℕ) (left readable : ℕ) (hasher : List ℕ)
    → left < fuel
    → rehash fuel rest left readable hasher ≡ hasher ++ take (min left readable) rest
unfolding rehash
rehash_lem zero rest left readable hasher h = absurd (omega arith)
rehash_lem (suc fuel) rest left readable hasher h =
    let w : ℕ = min (min left chunk) readable in
    let bytes : List ℕ = take w rest in
    let n : ℕ = length bytes in
    let size : n ≡ min w (length rest) = length-take w rest in
    elim (Bool-cases (left == 0)) [
      | inl done ↦
          let none_left : min left readable ≡ 0 = ground arith in
          rw (done, none_left) (sym (append-nil hasher))
      | inr more ↦ elim (Bool-cases (n == 0)) [
        | inl stop ↦
            let nothing : take (min left readable) rest ≡ [] =
              rehash-nil (min left readable) rest
                (ground (arith, length-take (min left readable) rest)) in
            rw (more, stop, nothing) (sym (append-nil hasher))
        | inr go ↦
            let positive : left ≢ 0 = ground arith in
            let read : n ≢ 0 = ground arith in
            let part : bytes ≡ take n rest = sym (take-length-take w rest) in
            let whole : take (min left readable) rest
                ≡ bytes ++ take (min (left - n) (readable - n)) (drop n rest) =
              take_split n (min left readable) rest (omega arith)
              ∙ ap (λ k. take n rest ++ take k (drop n rest)) {x = min left readable - n}
                  {y = min (left - n) (readable - n)} (omega arith)
              ∙ ap (λ b. b ++ take (min (left - n) (readable - n)) (drop n rest)) (sym part) in
            rw (more, go, whole)
              (rehash_lem fuel (drop n rest) (left - n) (readable - n) (hasher ++ bytes)
                  (omega arith)
                ∙ append_assoc hasher bytes (take (min (left - n) (readable - n)) (drop n rest)))
      ]
    ]
