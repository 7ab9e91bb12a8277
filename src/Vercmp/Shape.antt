-- ===== src/Vercmp/Shape.antt =====
-- Whatever the text, extractSegments reads numbers of Go's int range that are not negative.
use Prim.Native.String.{[], ◌∷◌}
use dependency_guardian.Prelude.{
  ℕ, zero, suc, ◌≤◌, Char, code, String, ◌≡◌, refl, inl, inr, false, Option, none, some, arith,
  has_prefix, skip, cut_char, split_n, eqb, Bool-cases, ◌>>=◌,
}
use mathlib.Core.List.{List}
use dependency_guardian.Prelude.Int.{ℤ, pos}
use dependency_guardian.Prelude.Decimal.{magnitude, atoi, in_range}
use dependency_guardian.Vercmp.{
  ParsedVersion, stops, split_suffix, read_parts, split_and_read, extract_segments, with_major,
  with_minor, with_patch,
}
use dependency_guardian.Vercmp.Flows.{Flows, IsPrefixMark}
use dependency_guardian.Vercmp.Segments.{max_int}

abbrev pub IsNatural : ℤ → Type 0
IsNatural z = (n : ℕ) × (z ≡ pos n) × (n ≤ max_int)

in_range-IsNatural : (o : Option ℕ) (z : ℤ) → (o >>= in_range) ≡ some z → IsNatural z
in_range-IsNatural none z h = cc
in_range-IsNatural (some n) z h = (n, ground arith, ground arith)

atoi_of_flow :
    (c : Char) (s : String) → stops c ≡ false → atoi (c ∷ s) ≡ (magnitude (c ∷ s) >>= in_range)
unfolding atoi
atoi_of_flow c s h = ground arith

atoi_empty : atoi "" ≡ none
unfolding atoi
atoi_empty = refl

atoi-IsNatural : (s : String) (z : ℤ) → Flows s → atoi s ≡ some z → IsNatural z
atoi-IsNatural [] z h e = cc atoi_empty
atoi-IsNatural (c ∷ s) z (p, h) e =
    in_range-IsNatural (magnitude (c ∷ s)) z (rw (atoi_of_flow c s p) at e)

-- What holds of every version that `read_parts` gives.
pub record IsRead (pv : ParsedVersion) : Type 0 where
  pub mark : IsPrefixMark pv.prefix
  pub major : IsNatural pv.major
  pub minor : IsNatural pv.minor
  pub patch : IsNatural pv.patch
  pub segments : pv.segments ≤ 3

module _ (pv : ParsedVersion) (r : IsRead pv) where
  with_major-IsRead :
      (o : Option ℤ) → ((z : ℤ) → o ≡ some z → IsNatural z) → IsRead (with_major o pv)
  with_major-IsRead none h = r
  with_major-IsRead (some z) h = record {
    mark = r.mark;
    major = h z refl;
    minor = r.minor;
    patch = r.patch;
    segments = omega arith;
  }

  with_minor-IsRead :
      (o : Option ℤ) → ((z : ℤ) → o ≡ some z → IsNatural z) → IsRead (with_minor o pv)
  with_minor-IsRead none h = r
  with_minor-IsRead (some z) h = record {
    mark = r.mark;
    major = r.major;
    minor = h z refl;
    patch = r.patch;
    segments = omega arith;
  }

  with_patch-IsRead :
      (o : Option ℤ) → ((z : ℤ) → o ≡ some z → IsNatural z) → IsRead (with_patch o pv)
  with_patch-IsRead none h = r
  with_patch-IsRead (some z) h = record {
    mark = r.mark;
    major = r.major;
    minor = r.minor;
    patch = h z refl;
    segments = omega arith;
  }

abbrev AllFlow : List String → Type 0
AllFlow List.[] = Unit
AllFlow (List.◌∷◌ s ss) = Flows s × AllFlow ss

read_parts-IsRead :
    (parts : List String) (pv : ParsedVersion)
    → AllFlow parts
    → IsRead pv
    → IsRead (read_parts parts pv)
unfolding read_parts
read_parts-IsRead List.[] pv h r = r
read_parts-IsRead (List.◌∷◌ a List.[]) pv h r =
    with_major-IsRead pv r (atoi a) (λ z. atoi-IsNatural a z h.0)
read_parts-IsRead (List.◌∷◌ a (List.◌∷◌ b List.[])) pv h r =
    with_minor-IsRead _ (with_major-IsRead pv r (atoi a) (λ z. atoi-IsNatural a z h.0)) (atoi b)
      (λ z. atoi-IsNatural b z h.1.0)
read_parts-IsRead (List.◌∷◌ a (List.◌∷◌ b (List.◌∷◌ c d))) pv h r =
    with_patch-IsRead _
      (with_minor-IsRead _ (with_major-IsRead pv r (atoi a) (λ z. atoi-IsNatural a z h.0)) (atoi b)
        (λ z. atoi-IsNatural b z h.1.0))
      (atoi c) (λ z. atoi-IsNatural c z h.1.1.0)

abbrev BothFlow : Option (String × String) → Type 0
BothFlow none = Unit
BothFlow (some p) = Flows p.0 × Flows p.1

BothFlow-cons :
    (c : Char) (o : Option (String × String))
    → stops c ≡ false
    → BothFlow o
    → BothFlow (elim o [ none ↦ none | some (a, b) ↦ some (c ∷ a, b) ])
BothFlow-cons c none p h = tt
BothFlow-cons c (some (a, b)) p (fa, fb) = ((p, fa), fb)

cut_char-BothFlow : (d : ℕ) (s : String) → Flows s → BothFlow (cut_char d s)
unfolding cut_char
cut_char-BothFlow d [] h = tt
cut_char-BothFlow d (c ∷ s) (p, h) = elim (Bool-cases (eqb (code c) d)) [
  | inl here ↦ rw here (tt, h)
  | inr later ↦ rw later (BothFlow-cons c (cut_char d s) p (cut_char-BothFlow d s h))
]

split_n-AllFlow : (d n : ℕ) (s : String) → Flows s → AllFlow (split_n d n s)
unfolding split_n
split_n-AllFlow d zero s h = tt
split_n-AllFlow d (suc zero) s h = (h, tt)
split_n-AllFlow d (suc (suc n)) s h =
    go (cut_char d s) (cut_char-BothFlow d s h) (split_n-AllFlow d (suc n))
  where
    go :
        (o : Option (String × String))
        → BothFlow o
        → ((t : String) → Flows t → AllFlow (split_n d (suc n) t))
        → AllFlow
            (elim o [ none ↦ List.◌∷◌ s List.[] | some (a, b) ↦ List.◌∷◌ a (split_n d (suc n) b) ])
    go none f ih = (h, tt)
    go (some (a, b)) (fa, fb) ih = (fa, ih b fb)

split_suffix-Flows : (s : String) → Flows (split_suffix s).0
unfolding split_suffix
split_suffix-Flows [] = tt
split_suffix-Flows (c ∷ s) = elim (Bool-cases (stops c)) [
  | inl stop ↦ rw stop tt
  | inr flow ↦ rw flow (flow, split_suffix-Flows s)
]

split_and_read-IsRead : (p v : String) → IsPrefixMark p → IsRead (split_and_read p v)
unfolding split_and_read
split_and_read-IsRead p v mark =
    read_parts-IsRead (split_n b'.' 3 (split_suffix v).0) _
      (split_n-AllFlow b'.' 3 (split_suffix v).0 (split_suffix-Flows v))
      (record {
        mark = mark;
        major = (0, refl, omega arith);
        minor = (0, refl, omega arith);
        patch = (0, refl, omega arith);
        segments = omega arith;
      })

-- Of any text, what extractSegments reads has no prefix or the prefix "v", at most three segments,
-- and three numbers that are not negative and fit Go's int.
pub extract_segments-IsRead : (v : String) → IsRead (extract_segments v)
unfolding extract_segments
extract_segments-IsRead v = elim (Bool-cases (has_prefix v "v")) [
  | inl marked ↦ rw marked (split_and_read-IsRead "v" (skip 1 v) (inr refl))
  | inr bare ↦ rw bare (split_and_read-IsRead "" v (inl refl))
]
