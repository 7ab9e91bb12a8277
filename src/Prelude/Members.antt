-- ===== src/Prelude/Members.antt =====
-- The test `mem` on a list of texts, against the predicate `Elem`.
use mathlib.Core.Path.{◌≡◌, refl}
use mathlib.Core.Logic.{inl, inr}
use mathlib.Core.Bool.{Bool, true, false}
use mathlib.Core.List.{List, [], ◌∷◌}
use Prim.Native.String.{String}
use native.Mathlib.Omega.{arith}
use text.Mathlib.TextEquality.{eq_iff}
use dependency_guardian.Prelude.Tests.{Bool-cases}
use dependency_guardian.Prelude.Lists.{filter}
use dependency_guardian.Prelude.Elems.{Elem, Elem-filter, Elem-filter_of}
use dependency_guardian.Prelude.Text.{mem}

pub mem-Elem : (s : String) (xs : List String) → mem s xs ≡ true → Elem s xs
unfolding mem
mem-Elem s [] h = cc
mem-Elem s (x ∷ xs) h = ground (arith, eq_iff x s, mem-Elem s xs)

pub mem-Elem_of : (s : String) (xs : List String) → Elem s xs → mem s xs ≡ true
unfolding mem
mem-Elem_of s [] h = absurd h
mem-Elem_of s (x ∷ xs) h = ground (arith, eq_iff x s, mem-Elem_of s xs)

pub mem-filter :
    (p : String → Bool) (s : String) (xs : List String) → Elem s xs → mem s (filter p xs) ≡ p s
mem-filter p s xs m = elim (Bool-cases (p s)) [
  | inl pass ↦ rw pass (mem-Elem_of s (filter p xs) (Elem-filter_of p s xs m pass))
  | inr out ↦ elim (Bool-cases (mem s (filter p xs))) [
    | inr gone ↦ rw (out, gone) refl
    | inl kept ↦ absurd (clash out (Elem-filter p s xs (mem-Elem s (filter p xs) kept)).1)
  ]
]
  where
    clash : p s ≡ false → p s ≡ true → ⊥
    clash e f = cc
