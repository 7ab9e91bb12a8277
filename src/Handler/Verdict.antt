-- ===== src/Handler/Verdict.antt =====
-- EvaluateVersion of internal/handler/handler.go: the verdict on a version, and what the log keeps of it.
use dependency_guardian.Prelude.{
  ℕ, String, ◌≡◌, ◌≢◌, refl, sym, ◌∙◌, ◌↔◌, ◌⊎◌, inl, inr, true, Option, none, some, List, [], ◌∷◌,
  ◌++◌, length, Option-cases,
}
use dependency_guardian.Registry.{PackageVersion, PolicyResult}
use dependency_guardian.Policy.{ResultSet, to_map, evaluate}
use dependency_guardian.Policy.Reasons.{IsReason, evaluate_verdict}
use dependency_guardian.Decisions.{Log, Entry, record_decision}
use dependency_guardian.Decisions.History.{Represents, next_entry, record_decision-Represents}
use dependency_guardian.Handler.{
  Services, Base, input_of, call_of, evaluated, is_allowed, evaluate_version,
}

no_result : (rs : ResultSet) → none ≢ some rs
no_result rs e = cc

inner : (rs rs' : ResultSet) → some rs ≡ some rs' → rs ≡ rs'
inner rs rs' e = cc

same_results :
    (rs rs' : ResultSet)
    → some rs ≡ some rs'
    → ((s : String) → ¬ IsReason s rs')
    → (s : String) → ¬ IsReason s rs
same_results rs rs' e no_reason s = rw (inner rs rs' e) (no_reason s)

module _ (services : Services) where
  -- The policy says nothing against the version: OPA evaluates its input, and the result set holds no
  -- reason.
  abbrev pub Permits : Base services → PackageVersion → Type 0
  Permits b pv =
      (rs : ResultSet) × (services.opa.eval b.engine.prepared
          (to_map services.format_time (input_of services b pv))
        ≡ some rs)
      × ((s : String) → ¬ IsReason s rs)

  abbrev verdict : Base services → PackageVersion → Option PolicyResult
  verdict b pv = evaluate services.opa services.format_time b.engine (input_of services b pv)

  evaluated_result :
      (log : Option Log) (pv : PackageVersion) (n : ℕ) (o : Option PolicyResult)
      → (evaluated services log pv n o).0 ≡ o
  evaluated_result log pv n none = refl
  evaluated_result log pv n (some r) = refl

  pub evaluate_version_result :
      (b : Base services) (log : Option Log) (pv : PackageVersion)
      → (evaluate_version services b log pv).0 ≡ verdict b pv
  unfolding evaluate_version
  evaluate_version_result b log pv = evaluated_result log pv _ (verdict b pv)

  verdict-Permits :
      (b : Base services) (pv : PackageVersion) → (is_allowed (verdict b pv) ≡ true) ↔ Permits b pv
  verdict-Permits b pv =
      elim (evaluate_verdict services.opa services.format_time b.engine (input_of services b pv)) [
        | inl (f, v) ↦ rw v (λ a. absurd (cc), λ (rs, g, _). absurd (no_result rs (sym f ∙ g)))
        | inr (rs, r, f, v, verdict_iff, _) ↦ rw v (
          (λ a. (rs, f, verdict_iff.0 a)),
          λ (rs', g, no_reason). verdict_iff.1 (same_results rs rs' (sym f ∙ g) no_reason),
        )
      ]

  -- EvaluateVersion allows a version exactly when OPA evaluates its input to a result set without a
  -- reason, whatever the log holds.
  pub evaluate_version_iff :
      (b : Base services) (log : Option Log) (pv : PackageVersion)
      → (is_allowed (evaluate_version services b log pv).0 ≡ true) ↔ Permits b pv
  evaluate_version_iff b log pv = rw (evaluate_version_result b log pv) (verdict-Permits b pv)

  pub evaluate_version-Represents :
      (b : Base services) (max : ℕ) (h : List Entry) (l : Log) (pv : PackageVersion)
      → Represents max h l
      → (((evaluate_version services b (some l) pv).0 ≡ none)
          × ((evaluate_version services b (some l) pv).1 ≡ some l))
        ⊎ ((r : PolicyResult) × (l' : Log) × (evaluate_version services b (some l) pv
              ≡ (some r, some l'))
            × Represents max
                (h
                  ++ next_entry h
                      (services.clock l)
                      (call_of services pv r (length (input_of services b pv).vulnerabilities))
                    ∷ [])
                l')
  unfolding evaluate_version
  evaluate_version-Represents b max h l pv repr = elim (Option-cases (verdict b pv)) [
    | inl e ↦ rw e (inl (refl, refl))
    | inr (r, e) ↦
        let c = call_of services pv r (length (input_of services b pv).vulnerabilities) in
        inr (
          r,
          record_decision l (services.clock l) c,
          rw e refl,
          record_decision-Represents repr (services.clock l) c,
        )
  ]
