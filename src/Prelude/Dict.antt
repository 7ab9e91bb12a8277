-- ===== src/Prelude/Dict.antt =====
-- A Go map with string keys as an association list: the first pair of a key is its value.
use Prim.Native.String.{String}
use mathlib.Core.Path.{◌≡◌, refl}
use mathlib.Core.Logic.{◌≢◌}
use dependency_guardian.Prelude.Elems.{Elem}
use mathlib.Core.Option.{Option, none, some}
use mathlib.Core.List.{List, [], ◌∷◌}
use native.Mathlib.Omega.{arith}
use text.Mathlib.Text.{◌==◌}
use text.Mathlib.TextEquality.{eq_iff}
use dependency_guardian.Prelude.Tests.{if◌then◌else◌}

abbrev pub Dict {ℓ} : Type ℓ → Type ℓ
Dict V = List (String × V)

module _ {ℓ} {V : Type ℓ} where
  -- m[k]
  unfoldable pub lookup : String → Dict V → Option V
  lookup k [] = none
  lookup k ((key, v) ∷ rest) = if key == k then some v else lookup k rest

  -- m[k] = v
  unfoldable pub insert : String → V → Dict V → Dict V
  insert k v [] = (k, v) ∷ []
  insert k v ((key, old) ∷ rest) = if key == k then (k, v) ∷ rest else (key, old) ∷ insert k v rest

  pub lookup-insert :
      (k key : String) (v : V) (rest : Dict V)
      → lookup key (insert k v rest) ≡ (if k == key then some v else lookup key rest)
  unfolding lookup insert
  lookup-insert k key v [] = refl
  lookup-insert k key v ((at, old) ∷ rest) =
      ground (arith, eq_iff k key, eq_iff at k, eq_iff at key, lookup-insert k key v rest)

  -- delete(m, k)
  unfoldable pub remove : String → Dict V → Dict V
  remove k [] = []
  remove k ((key, v) ∷ rest) =
      let rest' = remove k rest in if key == k then rest' else (key, v) ∷ rest'

  pub lookup-remove :
      (k key : String) (m : Dict V)
      → lookup key (remove k m) ≡ (if k == key then none else lookup key m)
  unfolding lookup remove
  lookup-remove k key [] = ground arith
  lookup-remove k key ((at, old) ∷ rest) =
      ground (arith, eq_iff k key, eq_iff at k, eq_iff at key, lookup-remove k key rest)

  abbrev pub keys : Dict V → List String
  keys [] = []
  keys ((k, v) ∷ m) = k ∷ keys m

  pub Elem-keys : (k : String) (m : Dict V) → lookup k m ≢ none → Elem k (keys m)
  unfolding lookup
  Elem-keys k [] there = absurd (there refl)
  Elem-keys k ((key, v) ∷ m) there = ground (arith, eq_iff key k, Elem-keys k m)
