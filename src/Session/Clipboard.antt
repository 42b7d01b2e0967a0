-- ===== src/Session/Clipboard.antt =====
-- crates/session/src/clipboard.rs, `run`: one turn of the loop, and two peers that run it. Texts are their
-- UTF-8 bytes; whether a call of the operating system succeeds is an argument, and the updates that have
-- arrived by a turn are taken all at once.
pub mod Settled
use reachmydevice.Prelude.{
  ℕ, ◌+◌, ◌%◌, ◌^◌, Bool, true, false, not, ◌&&◌, ◌||◌, Option, none, some, List, [], ◌∷◌, ◌++◌,
  ◌==◌, if◌then◌else◌,
}
use reachmydevice.Protocol.{Payload, Envelope, ClipboardUpdate, clipboard_text, fnv1a}
use reachmydevice.Session.Host.{is_empty}

-- `ClipboardKind::Text as i32`.
abbrev pub text_kind : ℕ
text_kind = 1

-- The clipboard of the operating system, and the variables of the loop.
pub record Board : Type 0 where
  pub content : List ℕ
  pub last_hash : ℕ
  pub seq : ℕ

unfoldable pub new : List ℕ → Board
new content = record { content = content; last_hash = 0; seq = 0 }

-- In one turn: whether `set_text` and `get_text` succeed.
pub record Calls : Type 0 where
  pub set_ok : Bool
  pub get_ok : Bool

module _ (utf8 : List ℕ → Bool) where
  unfoldable pub apply_update : Calls → Board → ClipboardUpdate → Board
  apply_update os b u =
      if u.kind == text_kind && (utf8 u.content && os.set_ok)
      then record b { content = u.content; last_hash = u.origin_hash }
      else b

  unfoldable pub apply_all : Calls → Board → List ClipboardUpdate → Board
  apply_all os b [] = b
  apply_all os b (u ∷ us) = apply_all os (apply_update os b u) us

module _ {A : Type 0} where
  unfoldable pub poll : Calls → Board → Board × List (Envelope A)
  poll os b =
      let h = fnv1a b.content in
      if not os.get_ok || (is_empty b.content || h == b.last_hash) then (b, []) else (
        record b { last_hash = h; seq = (b.seq + 1) % 2 ^ 64 },
        clipboard_text b.content ((b.seq + 1) % 2 ^ 64) ∷ [],
      )

  unfoldable pub turn :
      (List ℕ → Bool) → Calls → Board → List ClipboardUpdate → Board × List (Envelope A)
  turn utf8 os b updates = poll os (apply_all utf8 os b updates)
