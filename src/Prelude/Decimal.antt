-- ===== src/Prelude/Decimal.antt =====
-- Decimal texts: the verb %d of package fmt, and strconv.Atoi.
pub mod RoundTrip
use Prim.Native.Nat.{ℕ, zero, suc, ◌+◌, ◌-◌, ◌*◌, ◌/◌, ◌%◌, ◌^◌, ◌<◌}
use Prim.Native.Char.{Char, code}
use Prim.Native.String.{String, [], ◌∷◌, ◌++◌}
use mathlib.Core.Path.{◌≡◌, refl}
use mathlib.Core.Bool.{Bool, ◌&&◌}
use mathlib.Core.Option.{Option, none, some}
use mathlib.Core.Logic.{dite}
use mathlib.Core.WellFounded.{Acc, WellFounded}
use native.Mathlib.Omega.{arith}
use native.Mathlib.Decide.{dec_lt}
use dependency_guardian.Prelude.Tests.{leb, eqb, if◌then◌else◌, ◌>>=◌}
use dependency_guardian.Prelude.Int.{ℤ, pos, negsuc}

Acc-below : (k n : ℕ) → n < k → Acc ◌<◌ n
Acc-below zero n h = elim h [ ]
Acc-below (suc k) n h = Acc.intro n (λ m hm. Acc-below k m (omega arith))

unfoldable pub lt_wf : WellFounded ◌<◌
unfolding Acc-below
lt_wf = record { apply = λ n. Acc-below (suc n) n (omega arith) }

-- A character of a text by its place, "0" behind its end.
unfoldable pub char_at : ℕ → String → Char
char_at n [] = "0"
char_at zero (c ∷ s) = c
char_at (suc n) (c ∷ s) = char_at n s

-- The digit of a number below ten.
unfoldable pub digit : ℕ → Char
unfolding char_at
digit n = char_at n "0123456789"

pub tenth_lt : {n : ℕ} → 0 < n → n / 10 < n
tenth_lt h = omega arith

-- The digits of n in front of `out`.
unfoldable pub emit : (n : ℕ) → Acc ◌<◌ n → String → String
emit n (Acc.intro _ smaller) out =
    dite (dec_lt 0 n) (λ h. emit (n / 10) (smaller (n / 10) (tenth_lt h)) (digit (n % 10) ∷ out))
      (λ _. out)

unfoldable pub print_nat : ℕ → String
unfolding emit lt_wf dec_lt digit
print_nat n = if eqb n 0 then "0" else emit n (lt_wf.apply n) ""

-- %d
unfoldable pub print_int : ℤ → String
unfolding print_nat
print_int (pos n) = print_nat n
print_int (negsuc n) = "-" ++ print_nat (n + 1)

abbrev pub is_digit : Char → Bool
is_digit c = leb b'0' (code c) && leb (code c) b'9'

unfoldable pub scan : String → ℕ → Option ℕ
scan [] n = some n
scan (c ∷ s) n = let rest = scan s (n * 10 + (code c - b'0')) in if is_digit c then rest else none

unfoldable pub magnitude : String → Option ℕ
unfolding scan
magnitude [] = none
magnitude (c ∷ s) = scan (c ∷ s) 0

abbrev pub in_range : ℕ → Option ℤ
in_range n = if leb n (2 ^ 63 - 1) then some (pos n) else none

abbrev pub in_negative_range : ℕ → Option ℤ
in_negative_range zero = some (pos 0)
in_negative_range (suc n) = if leb (suc n) (2 ^ 63) then some (negsuc n) else none

-- strconv.Atoi on a 64-bit platform; `none` is an error.
unfoldable pub atoi : String → Option ℤ
unfolding magnitude
atoi [] = none
atoi (c ∷ s) =
    if eqb (code c) b'-'
    then magnitude s >>= in_negative_range
    else if eqb (code c) b'+'
    then magnitude s >>= in_range
    else (magnitude (c ∷ s) >>= in_range)

print_tests :
    (print_int (pos 1020) ≡ "1020") × (print_int (negsuc 41) ≡ "-42") × (print_int (pos 0) ≡ "0")
unfolding print_int
print_tests = (refl, refl, refl)

atoi_tests :
    (atoi "007" ≡ some (pos 7))
    × (atoi "-3" ≡ some (negsuc 2))
    × (atoi "1x" ≡ none)
    × (atoi "9223372036854775808" ≡ none)
unfolding atoi
atoi_tests = (refl, refl, refl, refl)

pub print_int-pos : (n : ℕ) → print_int (pos n) ≡ print_nat n
unfolding print_int
print_int-pos n = refl
