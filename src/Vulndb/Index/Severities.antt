-- ===== src/Vulndb/Index/Severities.antt =====
-- The severity that the index caches (computeMaxSeverity of internal/vulndb/dal/store.go).
use dependency_guardian.Prelude.{
  ℕ, String, ◌≡◌, refl, ap, ◌∙◌, inl, inr, Bool, true, false, ◌||◌, List, [], ◌∷◌, arith,
  Bool-cases, if◌then◌else◌, ◌==◌, eq_iff,
}
use dependency_guardian.Vulndb.Models.{Severity}
use dependency_guardian.Vulndb.Index.{
  cvss_to_severity_level, severity_order, better, max_severity_loop, compute_max_severity,
}

-- Is a score of the list this word?
abbrev pub names : String → List Severity → Bool
names word [] = false
names word (s ∷ ss) = s.score == word || names word ss

-- The greatest level of those that are named, with its rank in the loop.
abbrev level : (critical high medium low : Bool) → ℕ × String
level critical high medium low =
    if critical
    then (4, "critical")
    else if high
    then (3, "high")
    else if medium
    then (2, "medium")
    else if low
    then (1, "low")
    else (0, "")

-- What a score is worth in the loop, by the word that it is.
abbrev worth : String → ℕ × String → ℕ × String
worth label best = better (severity_order label) label best

worth-level :
    (critical high medium low c h m l : Bool)
    → worth (level critical high medium low).1 (level c h m l)
      ≡ level (c || critical) (h || high) (m || medium) (l || low)
unfolding severity_order
worth-level true high medium low c h m l = ground arith
worth-level false true medium low c h m l = ground arith
worth-level false false true low c h m l = ground arith
worth-level false false false true c h m l = ground arith
worth-level false false false false c h m l = ground arith

-- The level of a score.
cvss_to_severity_level_lem :
    (score : String)
    → cvss_to_severity_level score
      ≡ (level
          (score == "critical")
          (score == "high")
          (score == "medium")
          (score == "low" || score == "negligible")).1
unfolding cvss_to_severity_level
cvss_to_severity_level_lem score = elim (Bool-cases (score == "")) [
  | inl e ↦ rw ((eq_iff score "").0 e) refl
  | inr e ↦ rw e (ground arith)
]

max_severity_loop-level :
    (ss : List Severity) (c h m l : Bool)
    → max_severity_loop ss (level c h m l)
      ≡ level
          (c || names "critical" ss)
          (h || names "high" ss)
          (m || names "medium" ss)
          (l || (names "low" ss || names "negligible" ss))
unfolding max_severity_loop
max_severity_loop-level [] c h m l = ground arith
max_severity_loop-level (s ∷ ss) c h m l =
    ap (λ label. max_severity_loop ss (worth label (level c h m l)))
      (cvss_to_severity_level_lem s.score)
    ∙ ap (max_severity_loop ss) (worth-level _ _ _ _ c h m l)
    ∙ max_severity_loop-level ss (c || s.score == "critical") (h || s.score == "high")
        (m || s.score == "medium") (l || (s.score == "low" || s.score == "negligible"))
    ∙ ground arith

-- The cached severity, for all severities in any order: "critical" when one of the scores is this
-- word, else "high", else "medium", else "low" when one is "low" or "negligible", and "" when there is
-- none of these words. A score that is a CVSS vector or a number does not count.
pub compute_max_severity_lem :
    (ss : List Severity)
    → compute_max_severity ss ≡ (
        if names "critical" ss
        then "critical"
        else if names "high" ss
        then "high"
        else if names "medium" ss
        then "medium"
        else if names "low" ss || names "negligible" ss
        then "low"
        else "")
unfolding compute_max_severity
compute_max_severity_lem ss =
    ap (λ best. best.1) (max_severity_loop-level ss false false false false) ∙ ground arith
