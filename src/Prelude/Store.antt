-- ===== src/Prelude/Store.antt =====
-- Rust's `HashMap<String, V>` as an association list with each key once.
use Prim.Native.String.{String}
use text.Mathlib.Text.{◌==◌}
use text.Mathlib.TextEquality.{eq_iff}
use mathlib.Core.Path.{◌≡◌, refl}
use mathlib.Core.Bool.{Bool}
use mathlib.Core.Option.{Option, none, some}
use mathlib.Core.List.{List, [], ◌∷◌}
use native.Mathlib.Omega.{arith}
use reachmydevice.Prelude.Tests.{if◌then◌else◌}

abbrev pub Store {ℓ} : Type ℓ → Type ℓ
Store V = List (String × V)

module _ {ℓ} {V : Type ℓ} where
  unfoldable pub lookup : String → Store V → Option V
  lookup k [] = none
  lookup k ((j, v) ∷ m) = if j == k then some v else lookup k m

  -- `HashMap::insert`: the old value of the key is replaced.
  unfoldable pub insert : String → V → Store V → Store V
  insert k v [] = (k, v) ∷ []
  insert k v ((j, w) ∷ m) = if j == k then (k, v) ∷ m else (j, w) ∷ insert k v m

  unfoldable pub remove : String → Store V → Store V
  remove k [] = []
  remove k ((j, w) ∷ m) = if j == k then remove k m else (j, w) ∷ remove k m

  -- `HashMap::retain` by a test of the value.
  unfoldable pub retain : (V → Bool) → Store V → Store V
  retain p [] = []
  retain p ((j, w) ∷ m) = if p w then (j, w) ∷ retain p m else retain p m

  abbrev pub keep_if : (V → Bool) → Option V → Option V
  keep_if p none = none
  keep_if p (some v) = if p v then some v else none

  pub lookup-insert :
      (put got : String) (new : V) (store : Store V)
      → lookup got (insert put new store) ≡ (if put == got then some new else lookup got store)
  unfolding insert lookup
  lookup-insert put got new [] = refl
  lookup-insert put got new ((first, old) ∷ others) =
      let after = lookup-insert put got new others in
      ground (arith, after, eq_iff first put, eq_iff first got, eq_iff put got)

  pub lookup-remove :
      (k j : String) (m : Store V) → lookup j (remove k m) ≡ (if k == j then none else lookup j m)
  unfolding lookup remove
  lookup-remove k j [] = ground arith
  lookup-remove k j ((i, w) ∷ m) =
      ground (arith, eq_iff k j, eq_iff i k, eq_iff i j, lookup-remove k j m)

  -- Each key stands once.
  abbrev pub Unique : Store V → Type ℓ
  Unique [] = Unit
  Unique ((k, v) ∷ m) = (lookup k m ≡ none) × Unique m

  pub insert-Unique : (k : String) (v : V) (m : Store V) → Unique m → Unique (insert k v m)
  unfolding insert lookup
  insert-Unique k v [] u = (refl, tt)
  insert-Unique k v ((j, w) ∷ m) u =
      ground (arith, eq_iff j k, eq_iff k j, lookup-insert k j v m, insert-Unique k v m u.1)

  pub remove-Unique : (k : String) (m : Store V) → Unique m → Unique (remove k m)
  unfolding remove
  remove-Unique k [] u = tt
  remove-Unique k ((j, w) ∷ m) u =
      ground (arith, eq_iff j k, eq_iff k j, lookup-remove k j m, remove-Unique k m u.1)

  pub lookup-retain :
      (p : V → Bool) (j : String) (m : Store V)
      → Unique m
      → lookup j (retain p m) ≡ keep_if p (lookup j m)
  unfolding lookup retain
  lookup-retain p j [] u = refl
  lookup-retain p j ((i, w) ∷ m) u = ground (arith, eq_iff i j, lookup-retain p j m u.1)

  pub retain-Unique : (p : V → Bool) (m : Store V) → Unique m → Unique (retain p m)
  unfolding retain
  retain-Unique p [] u = tt
  retain-Unique p ((j, w) ∷ m) u = ground (arith, lookup-retain p j m u.1, retain-Unique p m u.1)
