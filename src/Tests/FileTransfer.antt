-- ===== src/Tests/FileTransfer.antt =====
-- File transfer: crates/session/src/filexfer.rs. The digest here is the text itself, and an input event
-- carries nothing.
use reachmydevice.Prelude.{
  ℕ, ◌≡◌, ◌≢◌, refl, true, false, Option, none, some, List, [], ◌∷◌, ◌++◌, arith, min, take, length,
}
use reachmydevice.Prelude.Store.{lookup, insert}
use reachmydevice.Protocol.{FileOffer, FileChunk, FileComplete}
use reachmydevice.Session.FileTransfer.Storage.{Disk, size_at, read_at, find, open_or_create}
use reachmydevice.Session.FileTransfer.Names.{
  sanitize, path_of, part_of, NoSeparator, first_char, last_char, sanitize_safe,
}
use reachmydevice.Session.FileTransfer.{
  FileTransfers, RecvState, Os, event, completed, on_offer, on_chunk, on_complete, rehash,
}
use reachmydevice.Session.FileTransfer.Receive.{Synced, joined, feed}
use reachmydevice.Prelude.{inr}
use reachmydevice.Session.FileTransfer.{SendShared}
use reachmydevice.Session.FileTransfer.Send.{Sender, streaming, Turn}
use reachmydevice.Session.FileTransfer.Send.Exchange.{Linked}
use reachmydevice.Prelude.{inr, ◌++◌}
use reachmydevice.Session.FileTransfer.{SendShared, Output}
use reachmydevice.Session.FileTransfer.Send.{Sender, streaming, ended, Turn}
use reachmydevice.Session.FileTransfer.Send.Exchange.{Linked, exchange}
use reachmydevice.Session.FileTransfer.Send.Whole.{exchange-completes}
use reachmydevice.Session.FileTransfer.Completion.{transfer-completes}
use reachmydevice.Session.FileTransfer.Integrity.{receive, receive-completed}

-- `../a`
abbrev upward : List ℕ
upward = 46 ∷ 46 ∷ 47 ∷ 97 ∷ []

sanitize_safe_example :
    (sanitize upward ≢ [])
    × NoSeparator (sanitize upward)
    × (first_char (sanitize upward) ≢ 46)
    × (last_char (sanitize upward) ≢ 46)
sanitize_safe_example = sanitize_safe upward

-- The directory `d` holds `a.part` with two bytes.
abbrev disk : Disk
disk = record {
  names = (100 ∷ 47 ∷ 97 ∷ 46 ∷ 112 ∷ 97 ∷ 114 ∷ 116 ∷ [], 0) ∷ [];
  content = λ i. 1 ∷ 2 ∷ [];
  fresh = 1;
}

abbrev willing : Os
willing = record {
  mkdir_ok = true;
  readable = 9;
  open_ok = true;
  write_fails = none;
  rename_ok = true;
}

abbrev idle : FileTransfers
idle = record {
  disk = disk;
  download_dir = 100 ∷ [];
  recvs = [];
  sends = [];
  shared = λ i. record { acked = 0; started = false; cancel = false };
  seq = 0;
}

abbrev the_offer : FileOffer
the_offer = record { transfer_id = "x"; name = upward; size = 5; mime = "" }

abbrev source : List ℕ
source = 1 ∷ 2 ∷ 3 ∷ 4 ∷ 5 ∷ []

abbrev chunks : List (List ℕ)
chunks = (3 ∷ 4 ∷ []) ∷ (5 ∷ []) ∷ []

abbrev digest : List ℕ → List ℕ
digest bytes = bytes

abbrev place : List ℕ
place = path_of (100 ∷ []) (sanitize upward)

abbrev resume : ℕ
resume = min (size_at disk (part_of place)) 5

abbrev sent : FileTransfers
sent = feed ℕ (on_offer {A = ℕ} idle willing the_offer).0 willing "x" resume chunks

abbrev complete : FileComplete
complete = record { transfer_id = "x"; sha256 = source }

held : take resume (read_at disk (part_of place)) ++ joined chunks ≡ source
unfolding size_at read_at sanitize part_of path_of
held = refl

transfer-completes_example :
    ((on_complete {A = ℕ} digest sent willing complete).1 ≡ event (completed "x" (some place)) ∷ [])
    × (read_at (on_complete {A = ℕ} digest sent willing complete).0.disk place ≡ source)
transfer-completes_example =
    transfer-completes ℕ digest idle willing the_offer chunks source refl refl (omega arith) refl
      refl refl held

-- The chunks of the rest, one of them twice.
abbrev arriving : List FileChunk
arriving =
    record { transfer_id = "x"; offset = 2; content = 3 ∷ 4 ∷ [] }
    ∷ record { transfer_id = "x"; offset = 2; content = 3 ∷ 4 ∷ [] }
    ∷ record { transfer_id = "x"; offset = 4; content = 5 ∷ [] }
    ∷ []

abbrev ended_state : FileTransfers
ended_state =
    (on_complete {A = ℕ} digest
      (receive ℕ (on_offer {A = ℕ} idle willing the_offer).0 willing arriving) willing complete).0

ended_reported :
    (on_complete {A = ℕ} digest
      (receive ℕ (on_offer {A = ℕ} idle willing the_offer).0 willing arriving)
      willing
      complete).1
    ≡ event (completed "x" (some place)) ∷ []
unfolding receive on_offer on_chunk on_complete lookup insert size_at read_at sanitize part_of
    path_of rehash open_or_create
ended_reported = refl

receive-completed_example :
    (◌≡◌ {A = Option (List ℕ)} (some place) (some place))
    × (length (read_at ended_state.disk place) ≡ 5)
    × (digest (read_at ended_state.disk place) ≡ source)
receive-completed_example =
    receive-completed ℕ digest idle willing the_offer arriving complete (some place) [] refl refl
      (omega arith) refl (refl, (refl, (refl, tt))) refl ended_reported

-- `d/a.part`
abbrev part : List ℕ
part = 100 ∷ 47 ∷ 97 ∷ 46 ∷ 112 ∷ 97 ∷ 114 ∷ 116 ∷ []

-- `d/a`
abbrev final : List ℕ
final = 100 ∷ 47 ∷ 97 ∷ []

abbrev receiving : RecvState
receiving = record {
  file = record { inode = 0; pos = 2 };
  part_path = part;
  final_path = final;
  written = 2;
  size = 2;
  last_ack = 2;
  hasher = 1 ∷ 2 ∷ [];
}

abbrev busy : FileTransfers
busy = record idle { recvs = ("x", receiving) ∷ [] }

receiving-Synced : Synced disk receiving
unfolding find
receiving-Synced = record { named = refl; hashed = refl; cursor = refl; counted = refl }

found : lookup "x" busy.recvs ≡ some receiving
unfolding lookup
found = refl

abbrev late : FileChunk
late = record { transfer_id = "x"; offset = 7; content = 3 ∷ [] }

abbrev done : FileComplete
done = record { transfer_id = "x"; sha256 = 1 ∷ 2 ∷ [] }

reported :
    (on_complete {A = ℕ} digest busy willing done).1 ≡ event (completed "x" (some final)) ∷ []
unfolding on_complete lookup
reported = refl

-- Five bytes to send, of which the receiver has two.
abbrev the_sender : Sender
the_sender = record {
  transfer_id = "x";
  size = 5;
  content = source;
  digest = source;
  next = 2;
  phase = streaming;
}

abbrev cell : SendShared
cell = record { acked = 2; started = true; cancel = false }

abbrev turn : Turn
turn = record { seek_ok = true; read = some 2 }

abbrev halfway : RecvState
halfway = record receiving { size = 5 }

abbrev linked_files : FileTransfers
linked_files = record idle { recvs = ("x", halfway) ∷ [] }

halfway-Linked : Linked ℕ digest willing the_sender linked_files cell halfway
unfolding find lookup
halfway-Linked = record {
  active = refl;
  live = refl;
  found = refl;
  at = refl;
  size = refl;
  whole = refl;
  inside = omega arith;
  acked = refl;
  acks = record { behind = omega arith; near = omega arith; all = inr refl };
  synced = record { named = refl; hashed = refl; cursor = refl; counted = refl };
  hashed = refl;
  digest = refl;
}

exchange-completes_example :
    ((exchange ℕ digest willing (λ k. 1) 4 the_sender linked_files cell).0.phase ≡ ended)
    × (read_at (exchange ℕ digest willing (λ k. 1) 4 the_sender linked_files cell).1.disk final
        ≡ source)
    × ((front : List (Output ℕ)) × ((exchange ℕ digest willing
            (λ k. 1)
            4
            the_sender
            linked_files
            cell).2
          ≡ front ++ event (completed "x" (some final)) ∷ []))
exchange-completes_example =
    exchange-completes ℕ digest willing (λ k. 1) 4 the_sender linked_files cell halfway
      halfway-Linked refl refl (omega arith)
