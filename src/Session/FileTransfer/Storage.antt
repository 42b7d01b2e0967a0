-- ===== src/Session/FileTransfer/Storage.antt =====
-- The file system that crates/session/src/filexfer.rs writes to, as far as it uses it.
use reachmydevice.Prelude.{
  ℕ, suc, ◌+◌, ◌-◌, Bool, true, false, ◌&&◌, Option, none, some, List, [], ◌∷◌, ◌++◌, ◌==◌,
  if◌then◌else◌, length, take, drop, replicate,
}

abbrev pub path_eq : List ℕ → List ℕ → Bool
path_eq [] [] = true
path_eq [] (y ∷ ys) = false
path_eq (x ∷ xs) [] = false
path_eq (x ∷ xs) (y ∷ ys) = x == y && path_eq xs ys

-- Paths to file numbers, the bytes of each file, and a number that is not in use.
pub record Disk : Type 0 where
  pub names : List (List ℕ × ℕ)
  pub content : ℕ → List ℕ
  pub fresh : ℕ

pub record FileHandle : Type 0 where
  pub inode : ℕ
  pub pos : ℕ

unfoldable pub find : List ℕ → List (List ℕ × ℕ) → Option ℕ
find p [] = none
find p ((q, i) ∷ names) = if path_eq q p then some i else find p names

unfoldable pub unlink : List ℕ → List (List ℕ × ℕ) → List (List ℕ × ℕ)
unlink p [] = []
unlink p ((q, i) ∷ names) = if path_eq q p then unlink p names else (q, i) ∷ unlink p names

abbrev pub put : ℕ → List ℕ → (ℕ → List ℕ) → ℕ → List ℕ
put i bytes content j = if j == i then bytes else content j

-- `metadata(path).len()`, 0 where there is no file.
unfoldable pub size_at : Disk → List ℕ → ℕ
unfolding find
size_at d p = elim (find p d.names) [ none ↦ 0 | some i ↦ length (d.content i) ]

-- The bytes that reading a path from its start gives.
unfoldable pub read_at : Disk → List ℕ → List ℕ
unfolding find
read_at d p = elim (find p d.names) [ none ↦ [] | some i ↦ d.content i ]

-- `OpenOptions` with `create` and without `truncate`.
unfoldable pub open_or_create : Disk → List ℕ → Disk × ℕ
unfolding find
open_or_create d p = elim (find p d.names) [
  | none ↦ (
    record {
      names = (p, d.fresh) ∷ d.names;
      content = put d.fresh [] d.content;
      fresh = suc d.fresh;
    },
    d.fresh,
  )
  | some i ↦ (d, i)
]

-- `set_len`: a longer file is cut, a shorter one filled with zeros.
unfoldable pub set_len : Disk → ℕ → ℕ → Disk
set_len d i n = record d {
  content = put i (take n (d.content i) ++ replicate (n - length (d.content i)) 0) d.content;
}

-- `write_all` at a position: the bytes before it, zeros up to it, the new bytes, and what was behind.
unfoldable pub write_at : Disk → ℕ → ℕ → List ℕ → Disk
write_at d i pos bytes =
    let old = d.content i in
    record d {
      content =
          put i
            (take pos old
              ++ (replicate (pos - length old) 0 ++ (bytes ++ drop (pos + length bytes) old)))
            d.content;
    }

-- `rename`, which replaces a file of the new name.
unfoldable pub rename : Disk → List ℕ → List ℕ → Disk
unfolding find unlink
rename d from to = elim (find from d.names) [
  | none ↦ d
  | some i ↦ record d { names = (to, i) ∷ unlink to (unlink from d.names) }
]

unfoldable pub delete : Disk → List ℕ → Disk
unfolding unlink
delete d p = record d { names = unlink p d.names }
