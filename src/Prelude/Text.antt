-- ===== src/Prelude/Text.antt =====
-- Texts: the functions of Go's package strings that the program calls, by recursion on the
-- characters. A Go string is the native `String`; the program searches and cuts at ASCII characters
-- only, where bytes and characters agree.
use Prim.Native.Nat.{ℕ, zero, suc}
use Prim.Native.Char.{Char, code}
use Prim.Native.String.{String, [], ◌∷◌, count}
use mathlib.Core.Bool.{Bool, true, false, ◌&&◌, ◌||◌}
use mathlib.Core.Option.{Option, none, some}
use mathlib.Core.Path.{◌≡◌, refl}
use mathlib.Core.List.{List}
use text.Mathlib.Text.{◌==◌}
use dependency_guardian.Prelude.Tests.{eqb, ltb, if◌then◌else◌}

-- strings.HasPrefix(s, p)
unfoldable pub has_prefix : String → String → Bool
has_prefix s [] = true
has_prefix [] (d ∷ p) = false
has_prefix (c ∷ s) (d ∷ p) = eqb (code c) (code d) && has_prefix s p

-- strings.HasSuffix(s, p)
unfoldable pub has_suffix : String → String → Bool
has_suffix [] p = p == ""
has_suffix (c ∷ s) p = (c ∷ s) == p || has_suffix s p

-- strings.Contains(s, p)
unfoldable pub contains : String → String → Bool
unfolding has_prefix
contains [] p = has_prefix [] p
contains (c ∷ s) p = has_prefix (c ∷ s) p || contains s p

-- The text without its first n characters, s[n:].
unfoldable pub skip : ℕ → String → String
skip zero s = s
skip (suc n) [] = []
skip (suc n) (c ∷ s) = skip n s

-- strings.TrimPrefix(s, p)
unfoldable pub trim_prefix : String → String → String
trim_prefix s [] = s
trim_prefix [] (d ∷ p) = []
trim_prefix (c ∷ s) (d ∷ p) =
    let rest = trim_prefix s p in if has_prefix (c ∷ s) (d ∷ p) then rest else c ∷ s

-- strings.TrimSuffix(s, p)
unfoldable pub trim_suffix : String → String → String
trim_suffix [] p = []
trim_suffix (c ∷ s) p = let rest = trim_suffix s p in if (c ∷ s) == p then [] else c ∷ rest

-- The character at the place in the second text where the first text holds `c`; else `c`.
unfoldable pub translate : String → String → Char → Char
translate [] to c = c
translate (a ∷ from) [] c = c
translate (a ∷ from) (b ∷ to) c = if eqb (code a) (code c) then b else translate from to c

-- strings.ToLower, on the characters whose lower case is an ASCII letter: those of ASCII, the dotted
-- capital I and the Kelvin sign. Other characters stay, which is no matter where the result is compared
-- with ASCII words or searched for them, as in all of the program.
unfoldable pub to_lower : String → String
unfolding translate
to_lower [] = []
to_lower (c ∷ s) =
    translate "ABCDEFGHIJKLMNOPQRSTUVWXYZİK" "abcdefghijklmnopqrstuvwxyzik" c ∷ to_lower s

-- The characters that Unicode folds to an ASCII letter: capitals, the Kelvin sign and the long s.
unfoldable pub fold_case : String → String
unfolding translate
fold_case [] = []
fold_case (c ∷ s) =
    translate "ABCDEFGHIJKLMNOPQRSTUVWXYZKſ" "abcdefghijklmnopqrstuvwxyzks" c ∷ fold_case s

-- strings.EqualFold, where one of the texts is ASCII.
unfoldable pub equal_fold : String → String → Bool
unfolding fold_case
equal_fold s t = fold_case s == fold_case t

fold_tests :
    (to_lower "Kai" ≡ "kai") × (equal_fold "PYPI" "pypi" ≡ true) × (equal_fold "İ" "i" ≡ false)
unfolding to_lower equal_fold
fold_tests = (refl, refl, refl)

-- Is the text in the list, as a Go set of strings answers.
unfoldable pub mem : String → List String → Bool
mem s List.[] = false
mem s (List.◌∷◌ t ts) = t == s || mem s ts

-- strings.LastIndex(s, p), as the part before the last occurrence of p and the part behind it.
unfoldable pub cut_last : String → String → Option (String × String)
unfolding has_prefix skip
cut_last [] p = none
cut_last (c ∷ s) p = elim (cut_last s p) [
  | some (a, b) ↦ some (c ∷ a, b)
  | none ↦ if has_prefix (c ∷ s) p then some ([], skip (count p) (c ∷ s)) else none
]

-- The parts of a text before and behind the first character with a given number.
unfoldable pub cut_char : ℕ → String → Option (String × String)
cut_char d [] = none
cut_char d (c ∷ s) =
    let rest = cut_char d s in
    if eqb (code c) d
    then some ([], s)
    else elim rest [ none ↦ none | some (a, b) ↦ some (c ∷ a, b) ]

-- strings.SplitN(s, sep, n) for a separator of one character.
unfoldable pub split_n : ℕ → ℕ → String → List String
unfolding cut_char
split_n d zero s = List.[]
split_n d (suc zero) s = List.◌∷◌ s List.[]
split_n d (suc (suc n)) s = elim (cut_char d s) [
  | none ↦ List.◌∷◌ s List.[]
  | some (a, b) ↦ List.◌∷◌ a (split_n d (suc n) b)
]

-- s < t, the order of Go's texts, by characters.
unfoldable pub less : String → String → Bool
less s [] = false
less [] (d ∷ t) = true
less (c ∷ s) (d ∷ t) = ltb (code c) (code d) || (eqb (code c) (code d) && less s t)
