-- ===== src/Tests/Ipc.antt =====
-- The agent socket: crates/ipc/src/lib.rs. Messages here are single bytes.
use reachmydevice.Prelude.{ℕ, ◌≡◌, refl, some, none, Option, List, [], ◌∷◌}
use reachmydevice.Prelude.Bytes.{to_le_bytes}
use reachmydevice.Ipc.{Postcard, write_msg, read_all}
use reachmydevice.Ipc.Stream.{write_all, read_all-write_all}

abbrev first_byte : List ℕ → Option ℕ
first_byte [] = none
first_byte (b ∷ bs) = some b

abbrev one_byte : Postcard ℕ
one_byte = record {
  to_stdvec = λ m. m ∷ [];
  from_bytes = first_byte;
  from_bytes-to_stdvec = λ m. refl;
}

read_all-write_all_example :
    read_all one_byte 2 (1 ∷ 0 ∷ 0 ∷ 0 ∷ 7 ∷ 1 ∷ 0 ∷ 0 ∷ 0 ∷ 8 ∷ []) ≡ 7 ∷ 8 ∷ []
unfolding write_all write_msg to_le_bytes
read_all-write_all_example =
    read_all-write_all one_byte (7 ∷ 8 ∷ []) (1 ∷ 0 ∷ 0 ∷ 0 ∷ 7 ∷ 1 ∷ 0 ∷ 0 ∷ 0 ∷ 8 ∷ []) refl
