-- ===== src/Prelude/Decimal/RoundTrip.antt =====
-- A printed number is a text of digits that reads back as the number.
use Prim.Native.String.{[], ◌∷◌, ◌++◌}
use dependency_guardian.Prelude.{
  ℕ, zero, suc, ◌+◌, ◌-◌, ◌*◌, ◌/◌, ◌%◌, ◌^◌, ◌≤◌, ◌<◌, Char, code, String, ◌≡◌, refl, sym, ap, ◌∙◌,
  Bool, true, ◌&&◌, none, some, arith, eqb, eqb_iff, Bool-cases, inl, inr, ◌>>=◌,
}
use text.Mathlib.TextLemmas.{nil-append, cons-append}
use mathlib.Core.Logic.{dite}
use mathlib.Core.WellFounded.{Acc}
use native.Mathlib.Decide.{dec_lt}
use dependency_guardian.Prelude.Int.{pos}
use dependency_guardian.Prelude.Decimal.{
  lt_wf, digit, tenth_lt, emit, print_nat, is_digit, scan, magnitude, in_range, atoi,
}

abbrev pub AllDigits : String → Type 0
AllDigits [] = Unit
AllDigits (c ∷ s) = (is_digit c ≡ true) × AllDigits s

abbrev pub NonEmpty : String → Type 0
NonEmpty [] = ⊥
NonEmpty (c ∷ s) = Unit

-- The test holds of all numbers below a bound.
holds_below : (ℕ → Bool) → ℕ → Bool
holds_below test zero = true
holds_below test (suc bound) = holds_below test bound && test bound

holds_below_at :
    (test : ℕ → Bool) (bound i : ℕ) → i < bound → holds_below test bound ≡ true → test i ≡ true
unfolding holds_below
holds_below_at test zero i inside h = elim inside [ ]
holds_below_at test (suc bound) i inside h = ground (arith, holds_below_at test bound i)

shows_itself : ℕ → Bool
shows_itself m = eqb (code (digit m)) (48 + m)

digits_shown : holds_below shows_itself 10 ≡ true
unfolding holds_below shows_itself digit
digits_shown = refl

code-digit : (m : ℕ) → m < 10 → code (digit m) ≡ 48 + m
unfolding shows_itself
code-digit m h =
    (eqb_iff (code (digit m)) (48 + m)).0 (holds_below_at shows_itself 10 m h digits_shown)

is_digit-digit : (m : ℕ) → m < 10 → is_digit (digit m) ≡ true
is_digit-digit m h = rw (code-digit m h) (ground arith)

emit-AllDigits : (n : ℕ) (w : Acc ◌<◌ n) (out : String) → AllDigits out → AllDigits (emit n w out)
unfolding emit
emit-AllDigits n (Acc.intro _ smaller) out h =
    elim (dec_lt 0 n)
      as (λ d. AllDigits (
        dite d (λ p. emit (n / 10) (smaller (n / 10) (tenth_lt p)) (digit (n % 10) ∷ out))
          (λ _. out))) [
            | yes p ↦
                emit-AllDigits (n / 10) (smaller (n / 10) (tenth_lt p)) (digit (n % 10) ∷ out)
                  (is_digit-digit (n % 10) (omega arith), h)
            | no _ ↦ h
          ]

emit-NonEmpty : (n : ℕ) (w : Acc ◌<◌ n) (out : String) → NonEmpty out → NonEmpty (emit n w out)
unfolding emit
emit-NonEmpty n (Acc.intro _ smaller) out h =
    elim (dec_lt 0 n)
      as (λ d. NonEmpty (
        dite d (λ p. emit (n / 10) (smaller (n / 10) (tenth_lt p)) (digit (n % 10) ∷ out))
          (λ _. out))) [
            | yes p ↦
                emit-NonEmpty (n / 10) (smaller (n / 10) (tenth_lt p)) (digit (n % 10) ∷ out) tt
            | no _ ↦ h
          ]

scan-digit : (n : ℕ) (out : String) → scan (digit (n % 10) ∷ out) (n / 10) ≡ scan out n
unfolding scan
scan-digit n out =
    let c : code (digit (n % 10)) ≡ 48 + n % 10 = code-digit (n % 10) (omega arith) in
    rw (is_digit-digit (n % 10) (omega arith)) (ap (scan out) (omega arith))

scan-emit : (n : ℕ) (w : Acc ◌<◌ n) (out : String) → scan (emit n w out) 0 ≡ scan out n
unfolding emit
scan-emit n (Acc.intro _ smaller) out =
    elim (dec_lt 0 n)
      as (λ d.
        scan
          (dite d (λ p. emit (n / 10) (smaller (n / 10) (tenth_lt p)) (digit (n % 10) ∷ out))
            (λ _. out))
          0
        ≡ scan out n) [
          | yes p ↦
              scan-emit (n / 10) (smaller (n / 10) (tenth_lt p)) (digit (n % 10) ∷ out)
              ∙ scan-digit n out
          | no p ↦ ap (scan out) (omega arith)
        ]

emit_nonempty : (n : ℕ) (w : Acc ◌<◌ n) → 0 < n → NonEmpty (emit n w "")
unfolding emit
emit_nonempty n (Acc.intro _ smaller) h =
    elim (dec_lt 0 n)
      as (λ d. NonEmpty (
        dite d (λ p. emit (n / 10) (smaller (n / 10) (tenth_lt p)) (digit (n % 10) ∷ ""))
          (λ _. ""))) [
            | yes p ↦
                emit-NonEmpty (n / 10) (smaller (n / 10) (tenth_lt p)) (digit (n % 10) ∷ "") tt
            | no p ↦ absurd (p h)
          ]

pub print_nat-AllDigits : (n : ℕ) → AllDigits (print_nat n)
print_nat-AllDigits n = elim (Bool-cases (eqb n 0)) [
  | inl z ↦ unfold print_nat in rw z (refl, tt)
  | inr p ↦ unfold print_nat in rw p (emit-AllDigits n (lt_wf.apply n) "" tt)
]

pub print_nat-NonEmpty : (n : ℕ) → NonEmpty (print_nat n)
print_nat-NonEmpty n = elim (Bool-cases (eqb n 0)) [
  | inl z ↦ unfold print_nat in rw z tt
  | inr p ↦ unfold print_nat in rw p (emit_nonempty n (lt_wf.apply n) (ground arith))
]

scan-print_nat : (n : ℕ) → scan (print_nat n) 0 ≡ some n
scan-print_nat n = elim (Bool-cases (eqb n 0)) [
  | inl z ↦ unfold print_nat scan in rw z (ap some (ground arith))
  | inr p ↦ unfold print_nat in rw p (scan-emit n (lt_wf.apply n) "" ∙ nil_scan n)
]
  where
    nil_scan : (m : ℕ) → scan "" m ≡ some m
    nil_scan m = unfold scan in refl

magnitude-scan : (s : String) → NonEmpty s → magnitude s ≡ scan s 0
unfolding magnitude
magnitude-scan [] h = absurd h
magnitude-scan (c ∷ s) h = refl

-- On a text that begins with a digit no sign is read.
atoi_of_digit :
    (c : Char) (s : String) → is_digit c ≡ true → atoi (c ∷ s) ≡ (magnitude (c ∷ s) >>= in_range)
unfolding atoi
atoi_of_digit c s d = ground arith

atoi_of_digits : (s : String) → NonEmpty s → AllDigits s → atoi s ≡ (magnitude s >>= in_range)
atoi_of_digits [] h d = absurd h
atoi_of_digits (c ∷ s) h (d, _) = atoi_of_digit c s d

pub atoi-print_nat : (n : ℕ) → n ≤ 2 ^ 63 - 1 → atoi (print_nat n) ≡ some (pos n)
atoi-print_nat n h =
    rw
      (
        atoi_of_digits (print_nat n) (print_nat-NonEmpty n) (print_nat-AllDigits n),
        magnitude-scan (print_nat n) (print_nat-NonEmpty n),
        scan-print_nat n,
      )
      (ground arith)

scan-dotted : (s t : String) (n : ℕ) → AllDigits s → scan (s ++ ("." ++ t)) n ≡ none
unfolding scan
scan-dotted [] t n h = rw (nil-append, cons-append) refl
scan-dotted (c ∷ s) t n (d, h) =
    rw (cons-append c s ("." ++ t), d) (scan-dotted s t (n * 10 + (code c - b'0')) h)

-- Digits with a dot behind them are no integer.
pub atoi-dotted : (s t : String) → NonEmpty s → AllDigits s → atoi (s ++ ("." ++ t)) ≡ none
atoi-dotted [] t h d = absurd h
atoi-dotted (c ∷ s) t h (d, ds) =
    let stuck : magnitude (c ∷ (s ++ ("." ++ t))) ≡ none =
      magnitude-scan (c ∷ (s ++ ("." ++ t))) tt
      ∙ ap (λ x. scan x 0) (sym (cons-append c s ("." ++ t)))
      ∙ scan-dotted (c ∷ s) t 0 (d, ds) in
    rw (cons-append c s ("." ++ t))
      (atoi_of_digit c (s ++ ("." ++ t)) d ∙ ap (λ m. m >>= in_range) stuck)
