-- ===== src/Prelude/Lines.antt =====
-- Texts as lines: bufio.ScanLines, strings.TrimSpace and strings.TrimRight.
use Prim.Native.String.{[], ◌∷◌}
use Prim.Native.Char.{code}
use mathlib.Core.Bool.{Bool, false, not, ◌&&◌, ◌||◌}
use mathlib.Core.List.{List, map}
use Prim.Native.Nat.{ℕ, ◌+◌}
use Prim.Native.String.{String}
use text.Mathlib.Text.{◌==◌}
use dependency_guardian.Prelude.Tests.{eqb, leb, ltb, if◌then◌else◌}
use dependency_guardian.Prelude.Text.{trim_suffix}

-- unicode.IsSpace, by the number of the character.
abbrev pub is_space : ℕ → Bool
is_space n =
    (leb 9 n && leb n 13)
    || eqb n 32
    || eqb n 133
    || eqb n 160
    || eqb n 5760
    || (leb 8192 n && leb n 8202)
    || eqb n 8232
    || eqb n 8233
    || eqb n 8239
    || eqb n 8287
    || eqb n 12288

unfoldable pub trim_left_space : String → String
trim_left_space [] = []
trim_left_space (c ∷ s) = let rest = trim_left_space s in if is_space (code c) then rest else c ∷ s

unfoldable pub trim_right_space : String → String
trim_right_space [] = []
trim_right_space (c ∷ s) =
    let rest = trim_right_space s in if rest == "" && is_space (code c) then [] else c ∷ rest

-- strings.TrimSpace
unfoldable pub trim_space : String → String
unfolding trim_left_space trim_right_space
trim_space s = trim_right_space (trim_left_space s)

-- strings.TrimRight(s, p) for a set of one character.
unfoldable pub trim_right_char : ℕ → String → String
trim_right_char d [] = []
trim_right_char d (c ∷ s) =
    let rest = trim_right_char d s in if rest == "" && eqb (code c) d then [] else c ∷ rest

-- The text cut at each newline; a newline at the end opens no line.
unfoldable pub cut_lines : String → List String
cut_lines [] = List.[]
cut_lines (c ∷ s) =
    let rest = cut_lines s in
    if eqb (code c) 10
    then List.◌∷◌ [] rest
    else elim rest [ List.[] ↦ List.◌∷◌ (c ∷ []) List.[] | List.◌∷◌ l ls ↦ List.◌∷◌ (c ∷ l) ls ]

-- The bytes that the character of a number takes in UTF-8.
abbrev pub utf8_width : ℕ → ℕ
utf8_width n = if ltb n 128 then 1 else if ltb n 2048 then 2 else if ltb n 65536 then 3 else 4

-- len(s)
unfoldable pub byte_length : String → ℕ
byte_length [] = 0
byte_length (c ∷ s) = utf8_width (code c) + byte_length s

-- bufio.MaxScanTokenSize: the buffer of a bufio.Scanner holds a line and its newline.
abbrev pub max_scan_token_size : ℕ
max_scan_token_size = 65536

abbrev pub fits_scanner : String → Bool
fits_scanner l = ltb (byte_length l) max_scan_token_size

-- The lines before the first one that is too long: there the scanner stops.
unfoldable pub fitting : List String → List String
unfolding byte_length
fitting List.[] = List.[]
fitting (List.◌∷◌ l ls) =
    let rest = fitting ls in if fits_scanner l then List.◌∷◌ l rest else List.[]

-- The lines that a bufio.Scanner gives.
unfoldable pub scan_lines : String → List String
unfolding cut_lines fitting trim_suffix
scan_lines s = map (λ l. trim_suffix l "\r") (fitting (cut_lines s))

-- Is a line too long?
unfoldable pub has_too_long : List String → Bool
unfolding byte_length
has_too_long List.[] = false
has_too_long (List.◌∷◌ l ls) = not (fits_scanner l) || has_too_long ls

-- scanner.Err() behind the loop: is it an error?
unfoldable pub scan_fails : String → Bool
unfolding cut_lines has_too_long
scan_fails s = has_too_long (cut_lines s)
