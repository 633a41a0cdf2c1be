-- ===== src/Prelude/Dict.antt =====
-- Go maps with text keys, as association lists whose order is the order of iteration.
use Prim.Native.String.{String}
use mathlib.Core.Path.{◌≡◌, refl}
use mathlib.Core.Bool.{Bool, true, false}
use mathlib.Core.List.{List, [], ◌∷◌}
use mathlib.Core.Option.{Option, none, some}
use native.Mathlib.Omega.{arith}
use text.Mathlib.Text.{◌==◌}
use text.Mathlib.TextEquality.{eq_iff}
use gbalancer.Prelude.Tests.{if◌then◌else◌}

abbrev pub Dict {ℓ} : Type ℓ → Type ℓ
Dict V = List (String × V)

-- whether a key was found
abbrev pub has {ℓ} : {V : Type ℓ} → Option V → Bool
has none = false
has (some v) = true

module _ {ℓ} {V : Type ℓ} where
  -- `delete(m, key)`
  unfoldable pub delete : String → Dict V → Dict V
  delete key [] = []
  delete key ((a, x) ∷ rest) = if a == key then delete key rest else (a, x) ∷ delete key rest

  -- `m[key]` with its second result
  unfoldable pub lookup : String → Dict V → Option V
  lookup key [] = none
  lookup key ((a, x) ∷ rest) = if a == key then some x else lookup key rest

  pub lookup-delete :
      (gone key : String) (m : Dict V)
      → lookup key (delete gone m) ≡ (if gone == key then none else lookup key m)
  unfolding lookup delete
  lookup-delete gone key [] = ground arith
  lookup-delete gone key ((a, x) ∷ rest) =
      ground (arith, lookup-delete gone key rest, eq_iff gone key, eq_iff a gone, eq_iff a key)

  -- `m[key] = x`: a known key keeps its place
  unfoldable pub insert : String → V → Dict V → Dict V
  insert key x [] = (key, x) ∷ []
  insert key x ((a, y) ∷ rest) = if a == key then (key, x) ∷ rest else (a, y) ∷ insert key x rest

  pub lookup-insert :
      (new key : String) (x : V) (m : Dict V)
      → lookup key (insert new x m) ≡ (if new == key then some x else lookup key m)
  unfolding lookup insert
  lookup-insert new key x [] = refl
  lookup-insert new key x ((a, y) ∷ rest) =
      ground (arith, lookup-insert new key x rest, eq_iff new key, eq_iff a new, eq_iff a key)

  -- a real map has no key twice
  abbrev pub Distinct : Dict V → Type ℓ
  Distinct [] = Unit
  Distinct ((k, v) ∷ m) = (lookup k m ≡ none) × Distinct m

  pub insert-Distinct : (k : String) (v : V) (m : Dict V) → Distinct m → Distinct (insert k v m)
  unfolding insert lookup
  insert-Distinct k v [] d = (refl, tt)
  insert-Distinct k v ((j, w) ∷ m) d =
      ground (arith, lookup-insert k j v m, insert-Distinct k v m d.1, eq_iff k j, eq_iff j k)

  pub delete-Distinct : (k : String) (m : Dict V) → Distinct m → Distinct (delete k m)
  unfolding delete lookup
  delete-Distinct k [] d = tt
  delete-Distinct k ((j, w) ∷ m) d =
      ground (arith, lookup-delete k j m, delete-Distinct k m d.1, eq_iff k j)
