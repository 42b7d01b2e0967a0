-- ===== src/Session/Clipboard/Settled.antt =====
-- Two peers that run the loop of crates/session/src/clipboard.rs: a copied text reaches the other side and
-- does not come back.
use reachmydevice.Prelude.{
  ℕ, ◌+◌, ◌≡◌, ◌≢◌, refl, sym, ap, ◌∙◌, Bool, true, false, some, List, [], ◌∷◌, ◌++◌, append-nil,
  ◌%◌, ◌^◌, arith,
}
use reachmydevice.Protocol.{Payload, Envelope, ClipboardUpdate, clipboard_text, fnv1a, envelope}
use reachmydevice.Session.Host.{is_empty}
use reachmydevice.Session.Clipboard.{Board, Calls, text_kind, apply_update, apply_all, poll, turn}

-- The updates among the messages.
abbrev pub updates_of : {A : Type 0} → List (Envelope A) → List ClipboardUpdate
updates_of [] = []
updates_of (env ∷ envs) = elim env.payload [
  | some (Payload.clipboard u) ↦ u ∷ updates_of envs
  | p ↦ updates_of envs
]

-- Two boards, and the updates that are on their way to each.
pub record Peers : Type 0 where
  pub left : Board
  pub right : Board
  pub to_left : List ClipboardUpdate
  pub to_right : List ClipboardUpdate

-- A turn of one side, which takes everything that is on its way to it.
pub data Turn : Type 0 where
  left_turn right_turn : Calls → Turn

-- A turn in which nothing fails.
abbrev pub all_well : Calls
all_well = record { set_ok = true; get_ok = true }

module _ (A : Type 0) (utf8 : List ℕ → Bool) where
  unfoldable pub peers_step : Peers → Turn → Peers × List (Envelope A)
  peers_step p (left_turn os) =
      let (b, sent) = turn utf8 os p.left p.to_left in
      (record p { left = b; to_left = []; to_right = p.to_right ++ updates_of sent }, sent)
  peers_step p (right_turn os) =
      let (b, sent) = turn utf8 os p.right p.to_right in
      (record p { right = b; to_right = []; to_left = p.to_left ++ updates_of sent }, sent)

  unfoldable pub peers_run : Peers → List Turn → Peers × List (Envelope A)
  peers_run p [] = (p, [])
  peers_run p (t ∷ ts) =
      let (p', sent) = peers_step p t in let (end, rest) = peers_run p' ts in (end, sent ++ rest)

abbrev pub Holds : List ℕ → Board → Type 0
Holds text b = (b.content ≡ text) × (b.last_hash ≡ fnv1a text)

-- Both sides hold the text and know that they do, and nothing is on its way.
pub record IsSettled (text : List ℕ) (p : Peers) : Type 0 where
  pub left_holds : Holds text p.left
  pub right_holds : Holds text p.right
  pub left_quiet : p.to_left ≡ []
  pub right_quiet : p.to_right ≡ []

module _ {A : Type 0} (utf8 : List ℕ → Bool) (text : List ℕ) where
  poll-Holds : (os : Calls) (b : Board) → Holds text b → poll {A = A} os b ≡ (b, [])
  unfolding poll
  poll-Holds os b (e, h) =
      let same : fnv1a b.content ≡ b.last_hash = ap fnv1a e ∙ sym h in ground (arith, same)

  turn-Holds :
      (os : Calls) (b : Board) (updates : List ClipboardUpdate)
      → updates ≡ []
      → Holds text b
      → turn {A = A} utf8 os b updates ≡ (b, [])
  unfolding turn apply_all
  turn-Holds os b updates e h = rw e (poll-Holds os b h)

  step-IsSettled :
      (p : Peers) (t : Turn)
      → IsSettled text p
      → ((peers_step A utf8 p t).1 ≡ []) × IsSettled text (peers_step A utf8 p t).0
  unfolding peers_step
  step-IsSettled p (left_turn os) s =
      rw (turn-Holds os p.left p.to_left s.left_quiet s.left_holds, append-nil p.to_right)
        (
          refl,
          record {
            left_holds = s.left_holds;
            right_holds = s.right_holds;
            left_quiet = refl;
            right_quiet = s.right_quiet;
          },
        )
  step-IsSettled p (right_turn os) s =
      rw (turn-Holds os p.right p.to_right s.right_quiet s.right_holds, append-nil p.to_left)
        (
          refl,
          record {
            left_holds = s.left_holds;
            right_holds = s.right_holds;
            left_quiet = s.left_quiet;
            right_quiet = refl;
          },
        )

  run-IsSettled :
      (p : Peers) (ts : List Turn)
      → IsSettled text p
      → ((peers_run A utf8 p ts).1 ≡ []) × IsSettled text (peers_run A utf8 p ts).0
  unfolding peers_run
  run-IsSettled p [] s = (refl, s)
  run-IsSettled p (t ∷ ts) s =
      let (silent, s') = step-IsSettled p t s in
      let (rest, end) = run-IsSettled (peers_step A utf8 p t).0 ts s' in
      (ap (λ l. l ++ (peers_run A utf8 (peers_step A utf8 p t).0 ts).1) silent ∙ rest, end)

  module _ (valid : utf8 text ≡ true) (full : is_empty text ≡ false) where
    sends :
        (b : Board) (updates : List ClipboardUpdate)
        → updates ≡ []
        → b.content ≡ text
        → b.last_hash ≢ fnv1a text
        → turn {A = A} utf8 all_well b updates ≡ (
          record { content = text; last_hash = fnv1a text; seq = (b.seq + 1) % 2 ^ 64 },
          clipboard_text text ((b.seq + 1) % 2 ^ 64) ∷ [],
        )
    unfolding turn apply_all poll
    sends b updates q e n = rw (q, e) (ground (arith, full, n))

    takes :
        (b : Board) (seq : ℕ)
        → turn {A = A} utf8 all_well b
            (record { kind = text_kind; content = text; seq = seq; origin_hash = fnv1a text } ∷ [])
          ≡ (record b { content = text; last_hash = fnv1a text }, [])
    unfolding turn apply_all apply_update
    takes b seq =
        rw valid
          (poll-Holds all_well (record b { content = text; last_hash = fnv1a text }) (refl, refl))

    delivered :
        (p : Peers)
        → p.left.content ≡ text
        → p.left.last_hash ≢ fnv1a text
        → p.to_left ≡ []
        → p.to_right ≡ []
        → (peers_step A utf8 p (left_turn all_well)).1
            ≡ clipboard_text text ((p.left.seq + 1) % 2 ^ 64) ∷ []
          × (peers_step A utf8 (peers_step A utf8 p (left_turn all_well)).0 (right_turn all_well)).1
            ≡ []
          × IsSettled text
              (peers_step A utf8
                (peers_step A utf8 p (left_turn all_well)).0
                (right_turn all_well)).0
    unfolding peers_step clipboard_text envelope
    delivered p e n q r =
        rw (sends p.left p.to_left q e n, r, takes p.right ((p.left.seq + 1) % 2 ^ 64))
          (
            refl,
            refl,
            record {
              left_holds = (refl, refl);
              right_holds = (refl, refl);
              left_quiet = refl;
              right_quiet = refl;
            },
          )

-- A text that one side copied, when its calls of the clipboard succeed: it is sent once, the other side takes it
-- over, and however many turns follow, in any order and whatever fails in them, nothing is sent again and
-- both sides hold the text.
pub copied_settles :
    (A : Type 0) (utf8 : List ℕ → Bool) (text : List ℕ) (p : Peers) (ts : List Turn)
    → is_empty text ≡ false
    → utf8 text ≡ true
    → p.left.content ≡ text
    → p.left.last_hash ≢ fnv1a text
    → p.to_left ≡ []
    → p.to_right ≡ []
    → (peers_run A utf8 p (left_turn all_well ∷ right_turn all_well ∷ ts)).1
        ≡ clipboard_text text ((p.left.seq + 1) % 2 ^ 64) ∷ []
      × IsSettled text (peers_run A utf8 p (left_turn all_well ∷ right_turn all_well ∷ ts)).0
unfolding peers_run
copied_settles A utf8 text p ts full valid e n q r =
    let p1 : Peers = (peers_step A utf8 p (left_turn all_well)).0 in
    let p2 : Peers = (peers_step A utf8 p1 (right_turn all_well)).0 in
    let (sent, silent, s) = delivered {A = A} utf8 text valid full p e n q r in
    let (rest, end) = run-IsSettled utf8 text p2 ts s in (rw (sent, silent, rest) refl, end)
