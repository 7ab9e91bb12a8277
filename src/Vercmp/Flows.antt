-- ===== src/Vercmp/Flows.antt =====
-- Texts of digits and dots, and where splitSuffix and SplitN of internal/vercmp/vercmp.go cut them.
use Prim.Native.String.{[], ◌∷◌, ◌++◌}
use text.Mathlib.TextLemmas.{cons-append, nil-append}
use dependency_guardian.Prelude.{
  ℕ, suc, String, ◌≡◌, refl, ap, ◌∙◌, ◌⊎◌, inl, inr, true, false, none, some, arith, has_prefix,
  cut_char, split_n,
}
use mathlib.Core.List.{List}
use dependency_guardian.Prelude.Decimal.RoundTrip.{AllDigits, NonEmpty}
use dependency_guardian.Vercmp.{
  ParsedVersion, empty_version, stops, split_suffix, read_parts, split_and_read, extract_segments,
}

-- A text at which the numeric part of a version ends.
abbrev pub EndsNumbers : String → Type 0
EndsNumbers [] = Unit
EndsNumbers (c ∷ s) = stops c ≡ true

-- A text of digits and dots.
abbrev pub Flows : String → Type 0
Flows [] = Unit
Flows (c ∷ s) = (stops c ≡ false) × Flows s

pub digits-Flows : (s : String) → AllDigits s → Flows s
digits-Flows [] h = tt
digits-Flows (c ∷ s) (d, h) = (ground arith, digits-Flows s h)

pub Flows-append : (s t : String) → Flows s → Flows t → Flows (s ++ t)
Flows-append [] t h k = rw nil-append k
Flows-append (c ∷ s) t (p, h) k = rw cons-append (p, Flows-append s t h k)

dot-append : (t : String) → "." ++ t ≡ ◌∷◌ "." t
dot-append t = cons-append "." "" t ∙ ap (λ s. ◌∷◌ "." s) (nil-append t)

pub Flows-dot : (t : String) → Flows t → Flows ("." ++ t)
Flows-dot t h = rw dot-append (refl, h)

split_suffix-append :
    (s rest : String) → Flows s → EndsNumbers rest → split_suffix (s ++ rest) ≡ (s, rest)
unfolding split_suffix
split_suffix-append [] [] h e = refl
split_suffix-append [] (c ∷ rest) h e = rw (nil-append, e) refl
split_suffix-append (c ∷ s) rest (p, h) e = rw (cons-append, p, split_suffix-append s rest h e) refl

cut_char-digits : (s : String) → AllDigits s → cut_char b'.' s ≡ none
unfolding cut_char
cut_char-digits [] h = refl
cut_char-digits (c ∷ s) (d, h) = ground (arith, cut_char-digits s h)

cut_char-append : (s t : String) → AllDigits s → cut_char b'.' (s ++ ("." ++ t)) ≡ some (s, t)
unfolding cut_char
cut_char-append [] t h = rw (nil-append, dot-append) refl
cut_char-append (c ∷ s) t (d, h) =
    rw (cons-append c s ("." ++ t)) (ground (arith, cut_char-append s t h))

split_n_last :
    (d n : ℕ) (s : String) → cut_char d s ≡ none → split_n d (suc (suc n)) s ≡ List.◌∷◌ s List.[]
unfolding split_n
split_n_last d n s e = rw (e, split_n) refl

split_n_cut :
    (d n : ℕ) (s : String) {a b : String}
    → cut_char d s ≡ some (a, b)
    → split_n d (suc (suc n)) s ≡ List.◌∷◌ a (split_n d (suc n) b)
unfolding split_n
split_n_cut d n s e = rw (e, split_n) refl

module _ (a b c : String) (da : AllDigits a) (db : AllDigits b) where
  pub split_one : split_n b'.' 3 a ≡ List.◌∷◌ a List.[]
  split_one = split_n_last b'.' 1 a (cut_char-digits a da)

  pub split_two : split_n b'.' 3 (a ++ ("." ++ b)) ≡ List.◌∷◌ a (List.◌∷◌ b List.[])
  split_two =
      split_n_cut b'.' 1 (a ++ ("." ++ b)) (cut_char-append a b da)
      ∙ ap (List.◌∷◌ a) (split_n_last b'.' 0 b (cut_char-digits b db))

  -- The third part is all that is left, dots included.
  pub split_three :
      split_n b'.' 3 (a ++ ("." ++ (b ++ ("." ++ c))))
      ≡ List.◌∷◌ a (List.◌∷◌ b (List.◌∷◌ c List.[]))
  split_three =
      split_n_cut b'.' 1 (a ++ ("." ++ (b ++ ("." ++ c)))) (cut_char-append a (b ++ ("." ++ c)) da)
      ∙ ap (List.◌∷◌ a)
          (split_n_cut b'.' 0 (b ++ ("." ++ c)) (cut_char-append b c db) ∙ ap (List.◌∷◌ b) (last c))
    where
      last : (s : String) → split_n b'.' 1 s ≡ List.◌∷◌ s List.[]
      last s = unfold split_n in refl

abbrev pub start : String → String → ParsedVersion
start prefix rest = record empty_version { prefix = prefix; pre_release = rest }

pub split_and_read-append :
    (prefix num rest : String)
    → Flows num
    → EndsNumbers rest
    → split_and_read prefix (num ++ rest) ≡ read_parts (split_n b'.' 3 num) (start prefix rest)
unfolding split_and_read
split_and_read-append prefix num rest h e = rw (split_suffix-append num rest h e) refl

abbrev pub IsPrefixMark : String → Type 0
IsPrefixMark p = (p ≡ "") ⊎ (p ≡ "v")

starts_with_digit : (s t : String) → NonEmpty s → AllDigits s → has_prefix (s ++ t) "v" ≡ false
unfolding has_prefix
starts_with_digit [] t h d = absurd h
starts_with_digit (c ∷ s) t h (d, ds) = rw cons-append (ground arith)

pub extract_segments_mark :
    (p s t : String)
    → IsPrefixMark p
    → NonEmpty s
    → AllDigits s
    → extract_segments (p ++ (s ++ t)) ≡ split_and_read p (s ++ t)
extract_segments_mark p s t (inl e) h d =
    rw (e, nil-append) (unfold extract_segments in rw (starts_with_digit s t h d) refl)
extract_segments_mark p s t (inr e) h d =
    rw (e, cons-append, nil-append) (unfold extract_segments in refl)
