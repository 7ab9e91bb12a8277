-- ===== src/Vercmp/Segments.antt =====
-- Reading back what `Format` prints (extractSegments and Format of internal/vercmp/vercmp.go).
use Prim.Native.String.{◌++◌}
use text.Mathlib.TextLemmas.{append_assoc as text_append_assoc, append-nil as text_append-nil}
use dependency_guardian.Prelude.{ℕ, ◌-◌, ◌^◌, ◌≤◌, String, ◌≡◌, refl, sym, ap, ◌∙◌, split_n}
use dependency_guardian.Prelude.Int.{pos}
use dependency_guardian.Prelude.Decimal.{print_nat, print_int-pos}
use dependency_guardian.Prelude.Decimal.RoundTrip.{
  print_nat-AllDigits, print_nat-NonEmpty, atoi-print_nat,
}
use dependency_guardian.Vercmp.{ParsedVersion, read_parts, split_and_read, extract_segments, format}
use dependency_guardian.Vercmp.Flows.{
  EndsNumbers, Flows, digits-Flows, Flows-append, Flows-dot, split_one, split_two, split_three,
  start, split_and_read-append, IsPrefixMark, extract_segments_mark,
}

abbrev pub max_int : ℕ
max_int = 2 ^ 63 - 1

-- The versions that a text of one, two or three numbers stands for.
pub data IsCanonical : ParsedVersion → Type 0 where
  one :
      (p : String) (a : ℕ) (rest : String)
      → IsPrefixMark p
      → a ≤ max_int
      → EndsNumbers rest
      → IsCanonical (record {
        prefix = p;
        major = pos a;
        minor = pos 0;
        patch = pos 0;
        pre_release = rest;
        segments = 1;
      })
  two :
      (p : String) (a b : ℕ) (rest : String)
      → IsPrefixMark p
      → a ≤ max_int
      → b ≤ max_int
      → EndsNumbers rest
      → IsCanonical (record {
        prefix = p;
        major = pos a;
        minor = pos b;
        patch = pos 0;
        pre_release = rest;
        segments = 2;
      })
  three :
      (p : String) (a b c : ℕ) (rest : String)
      → IsPrefixMark p
      → a ≤ max_int
      → b ≤ max_int
      → c ≤ max_int
      → EndsNumbers rest
      → IsCanonical (record {
        prefix = p;
        major = pos a;
        minor = pos b;
        patch = pos c;
        pre_release = rest;
        segments = 3;
      })

num-Flows : (n : ℕ) → Flows (print_nat n)
num-Flows n = digits-Flows (print_nat n) (print_nat-AllDigits n)

nums-Flows : (a : ℕ) (t : String) → Flows t → Flows (print_nat a ++ ("." ++ t))
nums-Flows a t h = Flows-append (print_nat a) ("." ++ t) (num-Flows a) (Flows-dot t h)

-- A mark, a number and more digits and dots: the numbers are read from the parts.
read_numbers :
    (p : String) (a : ℕ) (num t rest : String)
    → IsPrefixMark p
    → num ≡ print_nat a ++ t
    → Flows num
    → EndsNumbers rest
    → extract_segments (p ++ (num ++ rest)) ≡ read_parts (split_n b'.' 3 num) (start p rest)
read_numbers p a num t rest mark shape flows ends =
    ap (λ s. extract_segments (p ++ s)) regroup
    ∙ extract_segments_mark p (print_nat a) (t ++ rest) mark (print_nat-NonEmpty a)
        (print_nat-AllDigits a)
    ∙ ap (split_and_read p) (sym regroup)
    ∙ split_and_read-append p num rest flows ends
  where
    regroup : num ++ rest ≡ print_nat a ++ (t ++ rest)
    regroup = rw shape (text_append_assoc (print_nat a) t rest)

-- Reading back what Format prints gives the version: for one, two or three numbers of Go's int
-- range, with or without the mark "v", and a rest that does not go on with digits or dots.
pub extract_segments-format :
    {pv : ParsedVersion} → IsCanonical pv → extract_segments (format pv) ≡ pv
extract_segments-format (one p a rest mark fits ends) =
    unfold format in
    rw (print_int-pos a) (
      read_numbers p a (print_nat a) "" rest mark (sym (text_append-nil (print_nat a)))
        (num-Flows a) ends
      ∙ rw (split_one (print_nat a) "" "" (print_nat-AllDigits a) tt)
          (unfold read_parts in rw (atoi-print_nat a fits) refl))
extract_segments-format (two p a b rest mark fits_a fits_b ends) =
    unfold format in
    let num = print_nat a ++ ("." ++ print_nat b) in
    rw (print_int-pos a, print_int-pos b)
      (ap (λ s. extract_segments (p ++ s)) (sym (simp text_append_assoc))
        ∙ read_numbers p a num ("." ++ print_nat b) rest mark refl
            (nums-Flows a (print_nat b) (num-Flows b)) ends
        ∙ rw
            (split_two (print_nat a) (print_nat b) "" (print_nat-AllDigits a)
              (print_nat-AllDigits b))
            (unfold read_parts in rw (atoi-print_nat a fits_a, atoi-print_nat b fits_b) refl))
extract_segments-format (three p a b c rest mark fits_a fits_b fits_c ends) =
    unfold format in
    let tail = print_nat b ++ ("." ++ print_nat c) in
    rw (print_int-pos a, print_int-pos b, print_int-pos c)
      (ap (λ s. extract_segments (p ++ s)) (sym (simp text_append_assoc))
        ∙ read_numbers p a (print_nat a ++ ("." ++ tail)) ("." ++ tail) rest mark refl
            (nums-Flows a tail (nums-Flows b (print_nat c) (num-Flows c))) ends
        ∙ rw
            (split_three (print_nat a) (print_nat b) (print_nat c) (print_nat-AllDigits a)
              (print_nat-AllDigits b))
            (unfold read_parts in
              rw (atoi-print_nat a fits_a, atoi-print_nat b fits_b, atoi-print_nat c fits_c) refl))
