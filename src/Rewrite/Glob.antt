-- ===== src/Rewrite/Glob.antt =====
-- filepath.Match of Go's standard library, on a system whose separator is "/": `*` and `?` do not
-- match the separator, a class may, and a malformed pattern matches nothing (the program drops the
-- error). The pattern is read into tokens first, and matched chunk by chunk, as Go does it.
use Prim.Native.String.{[], ◌∷◌}
use dependency_guardian.Prelude.{
  ℕ, code, Char, String, Bool, true, false, not, ◌&&◌, ◌||◌, Option, none, some, leb, eqb,
  if◌then◌else◌, ◌==◌, ◌≡◌, refl,
}
use mathlib.Core.List.{List}

pub data Token : Type 0 where
  lit : Char → Token
  any_char : Token
  star : Token
  char_class : (negated : Bool) → (ranges : List (ℕ × ℕ)) → Token

-- Where in the pattern the reader stands: outside a class; behind a backslash; behind the `[` of a
-- class; in a class that has read some ranges; behind the first end of a range; behind its dash; and
-- behind a backslash for the low or the high end of a range.
pub data Mode : Type 0 where
  plain escaped class_open : Mode
  in_class esc_low : (negated : Bool) → (ranges : List (ℕ × ℕ)) → Mode
  low_read behind_dash esc_high : (negated : Bool) → (low : ℕ) → (ranges : List (ℕ × ℕ)) → Mode

abbrev add : Token → Option (List Token) → Option (List Token)
add t none = none
add t (some ts) = some (List.◌∷◌ t ts)

-- The ends of a class range may not be a bare dash or bracket.
abbrev is_bare : Char → Bool
is_bare c = eqb (code c) b'-' || eqb (code c) b']'

abbrev is_backslash : Char → Bool
is_backslash c = eqb (code c) 92

tokens_from : Mode → String → Option (List Token)
tokens_from plain [] = some List.[]
tokens_from _ [] = none
tokens_from plain (c ∷ p) = elim (eqb (code c) b'*') [
  | true ↦ add star (tokens_from plain p)
  | false ↦ elim (eqb (code c) b'?') [
    | true ↦ add any_char (tokens_from plain p)
    | false ↦ elim (eqb (code c) b'[') [
      | true ↦ tokens_from class_open p
      | false ↦ elim (is_backslash c) [
        | true ↦ tokens_from escaped p
        | false ↦ add (lit c) (tokens_from plain p)
      ]
    ]
  ]
]
tokens_from escaped (c ∷ p) = add (lit c) (tokens_from plain p)
tokens_from class_open (c ∷ p) = elim (eqb (code c) b'^') [
  | true ↦ tokens_from (in_class true List.[]) p
  | false ↦ elim (is_bare c) [
    | true ↦ none
    | false ↦ elim (is_backslash c) [
      | true ↦ tokens_from (esc_low false List.[]) p
      | false ↦ tokens_from (low_read false (code c) List.[]) p
    ]
  ]
]
tokens_from (in_class neg List.[]) (c ∷ p) = elim (is_bare c) [
  | true ↦ none
  | false ↦ elim (is_backslash c) [
    | true ↦ tokens_from (esc_low neg List.[]) p
    | false ↦ tokens_from (low_read neg (code c) List.[]) p
  ]
]
tokens_from (in_class neg (List.◌∷◌ r rs)) (c ∷ p) = elim (eqb (code c) b']') [
  | true ↦ add (char_class neg (List.◌∷◌ r rs)) (tokens_from plain p)
  | false ↦ elim (is_bare c) [
    | true ↦ none
    | false ↦ elim (is_backslash c) [
      | true ↦ tokens_from (esc_low neg (List.◌∷◌ r rs)) p
      | false ↦ tokens_from (low_read neg (code c) (List.◌∷◌ r rs)) p
    ]
  ]
]
tokens_from (esc_low neg rs) (c ∷ p) = tokens_from (low_read neg (code c) rs) p
tokens_from (low_read neg lo rs) (c ∷ p) = elim (eqb (code c) b'-') [
  | true ↦ tokens_from (behind_dash neg lo rs) p
  | false ↦ elim (eqb (code c) b']') [
    | true ↦ add (char_class neg (List.◌∷◌ (lo, lo) rs)) (tokens_from plain p)
    | false ↦ elim (is_backslash c) [
      | true ↦ tokens_from (esc_low neg (List.◌∷◌ (lo, lo) rs)) p
      | false ↦ tokens_from (low_read neg (code c) (List.◌∷◌ (lo, lo) rs)) p
    ]
  ]
]
tokens_from (behind_dash neg lo rs) (c ∷ p) = elim (is_bare c) [
  | true ↦ none
  | false ↦ elim (is_backslash c) [
    | true ↦ tokens_from (esc_high neg lo rs) p
    | false ↦ tokens_from (in_class neg (List.◌∷◌ (lo, code c) rs)) p
  ]
]
tokens_from (esc_high neg lo rs) (c ∷ p) = tokens_from (in_class neg (List.◌∷◌ (lo, code c) rs)) p

in_ranges : ℕ → List (ℕ × ℕ) → Bool
in_ranges n List.[] = false
in_ranges n (List.◌∷◌ (lo, hi) rs) = (leb lo n && leb n hi) || in_ranges n rs

abbrev is_separator : Char → Bool
is_separator c = eqb (code c) b'/'

-- scanChunk: the tokens in front of the first star, and the chunks that each stand behind stars.
chunks : List Token → List Token × List (List Token)
chunks List.[] = (List.[], List.[])
chunks (List.◌∷◌ star ts) = behind_star (chunks ts)
  where
    -- Stars in a row are one.
    behind_star : List Token × List (List Token) → List Token × List (List Token)
    behind_star (List.[], List.◌∷◌ c cs) = (List.[], List.◌∷◌ c cs)
    behind_star (c, cs) = (List.[], List.◌∷◌ c cs)
chunks (List.◌∷◌ t ts) = let (c, cs) = chunks ts in (List.◌∷◌ t c, cs)

-- matchChunk: the rest of the text behind a chunk at its start.
match_chunk : List Token → String → Option String
unfolding in_ranges
match_chunk List.[] s = some s
match_chunk (List.◌∷◌ t ts) [] = none
match_chunk (List.◌∷◌ star ts) (c ∷ s) = none
match_chunk (List.◌∷◌ (lit d) ts) (c ∷ s) =
    let rest = match_chunk ts s in if eqb (code c) (code d) then rest else none
match_chunk (List.◌∷◌ any_char ts) (c ∷ s) =
    let rest = match_chunk ts s in if is_separator c then none else rest
match_chunk (List.◌∷◌ (char_class neg rs) ts) (c ∷ s) =
    let rest = match_chunk ts s in
    if (if neg then not (in_ranges (code c) rs) else in_ranges (code c) rs) then rest else none

-- The last chunk has to exhaust the text.
abbrev accept : (is_last : Bool) → Option String → Option String
accept is_last none = none
accept is_last (some t) = if is_last && not (t == "") then none else some t

-- The first place where a chunk behind a star matches; the star does not skip a separator.
match_star : List Token → (is_last : Bool) → String → Option String
unfolding match_chunk
match_star ts is_last [] = accept is_last (match_chunk ts [])
match_star ts is_last (c ∷ s) =
    let later = match_star ts is_last s in
    elim (accept is_last (match_chunk ts (c ∷ s))) [
      | some t ↦ some t
      | none ↦ if is_separator c then none else later
    ]

has_separator : String → Bool
has_separator [] = false
has_separator (c ∷ s) = is_separator c || has_separator s

abbrev is_end : List (List Token) → Bool
is_end List.[] = true
is_end (List.◌∷◌ c cs) = false

-- The loop: the place of a chunk, once found, is not given up for a later one.
unfoldable match_chunks : List (List Token) → String → Bool
unfolding match_star has_separator
match_chunks List.[] s = s == ""
match_chunks (List.◌∷◌ List.[] cs) s = not (has_separator s)
match_chunks (List.◌∷◌ (List.◌∷◌ t ts) cs) s = elim (match_star (List.◌∷◌ t ts) (is_end cs) s) [
  | none ↦ false
  | some rest ↦ match_chunks cs rest
]

abbrev behind_first : List (List Token) → Option String → Bool
behind_first cs none = false
behind_first cs (some rest) = match_chunks cs rest

abbrev with_tokens : Option (List Token) → String → Bool
with_tokens none s = false
with_tokens (some ts) s = let (first, cs) = chunks ts in behind_first cs (match_chunk first s)

-- filepath.Match(pattern, name), with its error read as no match.
unfoldable pub glob_match : String → String → Bool
unfolding tokens_from chunks match_chunk match_chunks
glob_match pattern name = with_tokens (tokens_from plain pattern) name

glob_tests :
    (glob_match "lodash*" "lodash.merge" ≡ true)
    × (glob_match "1.0.*" "1.0.7" ≡ true)
    × (glob_match "*" "@scope/pkg" ≡ false)
    × (glob_match "@scope/*" "@scope/pkg" ≡ true)
    × (glob_match "[a-c]?" "bx" ≡ true)
    × (glob_match "[^a-c]?" "bx" ≡ false)
    × (glob_match "a[" "a" ≡ false)
    × (glob_match "a\\*" "a*" ≡ true)
    × (glob_match "a*b*c" "axxbyybc" ≡ true)
    × (glob_match "*ab" "aab" ≡ true)
    × (glob_match "**" "ab" ≡ true)
    × (glob_match "" "" ≡ true)
    × (glob_match "*[^a]*b" "x/yb" ≡ false)
    × (glob_match "*[^a]yb" "x/yb" ≡ true)
unfolding glob_match
glob_tests = (refl, refl, refl, refl, refl, refl, refl, refl, refl, refl, refl, refl, refl, refl)
