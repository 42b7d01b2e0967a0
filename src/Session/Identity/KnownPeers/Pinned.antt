-- ===== src/Session/Identity/KnownPeers/Pinned.antt =====
-- What is known of a peer stays: crates/session/src/identity.rs, `known_peers`, on a file that starts with
-- lines that `add` has written.
use reachmydevice.Prelude.{ℕ, ◌≡◌, Option, some, List, [], ◌∷◌, ◌++◌, All}
use reachmydevice.Session.Identity.KnownPeers.{or_new, Append, Trust, trust_on_first_use}
use reachmydevice.Session.Identity.KnownPeers.Lines.{Entry, IsEntry, render, first_key}

-- A call of `trust_on_first_use`: what becomes of the line, and the peer.
pub record Call : Type 0 where
  pub os : Append
  pub device_id : List ℕ
  pub public_key_hex : List ℕ

abbrev pub entry : Call → Entry
entry c = (c.device_id, c.public_key_hex)

abbrev pub trust : Option (List ℕ) → Call → Option (List ℕ) × Trust
trust file c = trust_on_first_use c.os file c.device_id c.public_key_hex

unfoldable pub trust_run : Option (List ℕ) → List Call → Option (List ℕ)
trust_run file [] = file
trust_run file (c ∷ cs) = trust_run (trust file c).0 cs

-- The file starts with lines of entries, of which one gives the key of the peer.
record Holds (file : Option (List ℕ)) (id key : List ℕ) : Type 0 where
  entries : List Entry
  more : List ℕ
  content : or_new file ≡ render entries ++ more
  clean : All IsEntry entries
  found : first_key entries id ≡ some key
