-- ===== src/Policy/Reasons.antt =====
-- Evaluate and extractReasons of internal/policy/engine.go: what the verdict says of the policy's value.
use dependency_guardian.Prelude.{
  ℕ, String, ◌≡◌, refl, ap, subst, ◌↔◌, ◌⊎◌, inl, inr, true, none, some, List, [], ◌∷◌, length, eqb,
  arith, Elem, Elem-append, Elem-append_left, Elem-append_right, Option-cases,
}
use dependency_guardian.Json.{Json, null, bool, num, str, arr, obj}
use dependency_guardian.Registry.{PolicyInput, PolicyResult}
use dependency_guardian.Policy.{
  Opa, Engine, ResultSet, to_map, strings_of, values_of, expression_reasons, extract_reasons,
  evaluate,
}

-- The text is a string of the list or of the values of the map that one of the expressions gives.
abbrev pub IsReason : String → ResultSet → Type 0
IsReason s rs =
    (expressions : List Json) × (v : Json) × Elem expressions rs
    × Elem v expressions
    × Elem (str s) (values_of v)

strings_of-Elem : (s : String) (vs : List Json) → Elem s (strings_of vs) → Elem (str s) vs
strings_of-Elem s [] m = absurd m
strings_of-Elem s (str t ∷ vs) (inl e) = inl (ap str e)
strings_of-Elem s (str t ∷ vs) (inr m) = inr (strings_of-Elem s vs m)
strings_of-Elem s (null ∷ vs) m = inr (strings_of-Elem s vs m)
strings_of-Elem s (bool b ∷ vs) m = inr (strings_of-Elem s vs m)
strings_of-Elem s (num n ∷ vs) m = inr (strings_of-Elem s vs m)
strings_of-Elem s (arr a ∷ vs) m = inr (strings_of-Elem s vs m)
strings_of-Elem s (obj o ∷ vs) m = inr (strings_of-Elem s vs m)

strings_of-Elem_of : (s : String) (vs : List Json) → Elem (str s) vs → Elem s (strings_of vs)
strings_of-Elem_of s [] m = absurd m
strings_of-Elem_of s (str t ∷ vs) (inl e) = inl (cc)
strings_of-Elem_of s (str t ∷ vs) (inr m) = inr (strings_of-Elem_of s vs m)
strings_of-Elem_of s (null ∷ vs) (inr m) = strings_of-Elem_of s vs m
strings_of-Elem_of s (null ∷ vs) (inl e) = absurd (cc)
strings_of-Elem_of s (bool b ∷ vs) (inr m) = strings_of-Elem_of s vs m
strings_of-Elem_of s (bool b ∷ vs) (inl e) = absurd (cc)
strings_of-Elem_of s (num n ∷ vs) (inr m) = strings_of-Elem_of s vs m
strings_of-Elem_of s (num n ∷ vs) (inl e) = absurd (cc)
strings_of-Elem_of s (arr a ∷ vs) (inr m) = strings_of-Elem_of s vs m
strings_of-Elem_of s (arr a ∷ vs) (inl e) = absurd (cc)
strings_of-Elem_of s (obj o ∷ vs) (inr m) = strings_of-Elem_of s vs m
strings_of-Elem_of s (obj o ∷ vs) (inl e) = absurd (cc)

expression_reasons-Elem :
    (s : String) (vs : List Json)
    → Elem s (expression_reasons vs)
    → (v : Json) × Elem v vs × Elem (str s) (values_of v)
expression_reasons-Elem s [] m = absurd m
expression_reasons-Elem s (v ∷ vs) m =
    elim (Elem-append s (strings_of (values_of v)) (expression_reasons vs) m) [
      | inl l ↦ (v, inl refl, strings_of-Elem s (values_of v) l)
      | inr r ↦ let (w, n, e) = expression_reasons-Elem s vs r in (w, inr n, e)
    ]

expression_reasons-Elem_of :
    (s : String) (vs : List Json) (v : Json)
    → Elem v vs
    → Elem (str s) (values_of v)
    → Elem s (expression_reasons vs)
expression_reasons-Elem_of s [] v n m = absurd n
expression_reasons-Elem_of s (w ∷ vs) v (inl e) m =
    Elem-append_left s (strings_of (values_of w)) (expression_reasons vs)
      (strings_of-Elem_of s (values_of w) (subst (λ x. Elem (str s) (values_of x)) e m))
expression_reasons-Elem_of s (w ∷ vs) v (inr n) m =
    Elem-append_right s (strings_of (values_of w)) (expression_reasons vs)
      (expression_reasons-Elem_of s vs v n m)

extract_reasons-to : (s : String) (rs : ResultSet) → Elem s (extract_reasons rs) → IsReason s rs
unfolding extract_reasons
extract_reasons-to s [] m = absurd m
extract_reasons-to s (expressions ∷ rs) m =
    elim (Elem-append s (expression_reasons expressions) (extract_reasons rs) m) [
      | inl l ↦
          let (v, n, e) = expression_reasons-Elem s expressions l in
          (expressions, v, inl refl, n, e)
      | inr r ↦ let (es, v, k, n, e) = extract_reasons-to s rs r in (es, v, inr k, n, e)
    ]

extract_reasons-of :
    (s : String) (rs : ResultSet) (expressions : List Json) (v : Json)
    → Elem expressions rs
    → Elem v expressions
    → Elem (str s) (values_of v)
    → Elem s (extract_reasons rs)
unfolding extract_reasons
extract_reasons-of s [] expressions v k n m = absurd k
extract_reasons-of s (es ∷ rs) expressions v (inl e) n m =
    Elem-append_left s (expression_reasons es) (extract_reasons rs)
      (expression_reasons-Elem_of s es v (subst (λ x. Elem v x) e n) m)
extract_reasons-of s (es ∷ rs) expressions v (inr k) n m =
    Elem-append_right s (expression_reasons es) (extract_reasons rs)
      (extract_reasons-of s rs expressions v k n m)

-- The reasons that extractReasons returns are the strings that stand in a list, or as a value of a
-- map, which an expression of the policy's result set gives: all of them and no others.
pub extract_reasons_iff :
    (s : String) (rs : ResultSet) → Elem s (extract_reasons rs) ↔ IsReason s rs
extract_reasons_iff s rs = (
  extract_reasons-to s rs,
  λ (expressions, v, k, n, m). extract_reasons-of s rs expressions v k n m,
)

empty_iff : (xs : List String) → (eqb (length xs) 0 ≡ true) ↔ ((s : String) → ¬ Elem s xs)
empty_iff [] = (λ e s m. absurd m, λ none_left. refl)
empty_iff (x ∷ xs) = (λ e. absurd (ground arith), λ none_left. absurd (none_left x (inl refl)))

-- Evaluate fails exactly when OPA's evaluation fails; otherwise the version is allowed exactly when no
-- reason stands in the result set, and the reasons returned are those of the result set.
pub evaluate_verdict :
    (opa : Opa) (format_time : ℕ → String) (e : Engine opa) (input : PolicyInput)
    → ((opa.eval e.prepared (to_map format_time input) ≡ none)
        × (evaluate opa format_time e input ≡ none))
      ⊎ ((rs : ResultSet) × (r : PolicyResult) × (opa.eval e.prepared (to_map format_time input)
            ≡ some rs)
          × (evaluate opa format_time e input ≡ some r)
          × ((r.allowed ≡ true) ↔ ((s : String) → ¬ IsReason s rs))
          × ((s : String) → Elem s r.reasons ↔ IsReason s rs))
unfolding evaluate
evaluate_verdict opa format_time e input =
    elim (Option-cases (opa.eval e.prepared (to_map format_time input))) [
      | inl f ↦ inl (f, rw f refl)
      | inr (rs, f) ↦ inr (
        rs,
        record { allowed = eqb (length (extract_reasons rs)) 0; reasons = extract_reasons rs },
        f,
        rw f refl,
        (
          λ a s m. (empty_iff (extract_reasons rs)).0 a s ((extract_reasons_iff s rs).1 m),
          λ no_reason.
              (empty_iff (extract_reasons rs)).1
                (λ s m. no_reason s ((extract_reasons_iff s rs).0 m)),
        ),
        λ s. extract_reasons_iff s rs,
      )
    ]
