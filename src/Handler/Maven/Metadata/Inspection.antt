-- ===== src/Handler/Maven/Metadata/Inspection.antt =====
-- handlePom of internal/handler/maven/handler.go: what a POM that is served leaves in the log.
use dependency_guardian.Prelude.{
  ℕ, String, ◌≡◌, refl, ap, sym, subst, ◌∙◌, ◌↔◌, inl, inr, true, Option, none, some, List, [], ◌∷◌,
  ◌++◌, append_assoc, append-nil, length, Elem,
}
use dependency_guardian.Registry.{PackageVersion, PolicyResult, ecosystem_maven}
use dependency_guardian.Policy.{ResultSet, to_map, evaluate}
use dependency_guardian.Policy.Reasons.{IsReason, evaluate_verdict}
use dependency_guardian.Decisions.{Log, Entry}
use dependency_guardian.Decisions.History.{Represents, next_entry}
use dependency_guardian.Http.{Request, respond, fetch}
use dependency_guardian.Handler.{Services, Base, input_of, call_of, evaluate_version}
use dependency_guardian.Handler.Verdict.{evaluate_version_result, evaluate_version-Represents}
use dependency_guardian.Handler.Maven.{
  PomProject, PomDependency, parse_pom, collect_properties, resolved_dependencies,
}
use dependency_guardian.Handler.Maven.Metadata.{
  XmlCodec, maven_coordinate, maven_version, inspect_dependencies, inspect_parsed, handle_pom,
}

module _ (services : Services) (b : Base services) where
  -- What OPA answers for a version.
  abbrev pub answer_on : PackageVersion → Option ResultSet
  answer_on pv =
      services.opa.eval b.engine.prepared (to_map services.format_time (input_of services b pv))

  abbrev pub version_of : PomDependency → PackageVersion
  version_of d = maven_version (maven_coordinate d.group_id d.artifact_id) d.version

  -- The entry is the decision on the dependency: it names it, and its verdict and its reasons are those
  -- of OPA's answer.
  pub record Judges (e : Entry) (d : PomDependency) : Type 0 where
    pub ecosystem : e.ecosystem ≡ ecosystem_maven
    pub package_name : e.package_name ≡ maven_coordinate d.group_id d.artifact_id
    pub version : e.version ≡ d.version
    pub verdict :
        (rs : ResultSet) × (answer_on (version_of d) ≡ some rs)
        × ((e.allowed ≡ true) ↔ ((s : String) → ¬ IsReason s rs))
        × ((s : String) → Elem s e.reasons ↔ IsReason s rs)

  -- Dependencies and the entries on them, in order: one for each dependency that OPA answers for, and
  -- none for one that it fails on.
  pub data AreJudged : List PomDependency → List Entry → Type 0 where
    no_more : AreJudged [] []
    failed :
        {d : PomDependency} {ds : List PomDependency} {es : List Entry}
        → answer_on (version_of d) ≡ none
        → AreJudged ds es
        → AreJudged (d ∷ ds) es
    judged :
        {d : PomDependency} {e : Entry} {ds : List PomDependency} {es : List Entry}
        → Judges e d
        → AreJudged ds es
        → AreJudged (d ∷ ds) (e ∷ es)

  -- A result of the evaluation, against OPA's answer.
  abbrev Tells : PackageVersion → Option PolicyResult → Type 0
  Tells pv none = answer_on pv ≡ none
  Tells pv (some r) =
      (rs : ResultSet) × (answer_on pv ≡ some rs)
      × ((r.allowed ≡ true) ↔ ((s : String) → ¬ IsReason s rs))
      × ((s : String) → Elem s r.reasons ↔ IsReason s rs)

  evaluate-Tells :
      (pv : PackageVersion)
      → Tells pv (evaluate services.opa services.format_time b.engine (input_of services b pv))
  evaluate-Tells pv =
      elim (evaluate_verdict services.opa services.format_time b.engine (input_of services b pv)) [
        | inl (fails, e) ↦ subst (Tells pv) (sym e) fails
        | inr (rs, r, answers, e, allowed, reasons) ↦
            subst (Tells pv) (sym e) (rs, answers, allowed, reasons)
      ]

  result-Tells :
      (log : Option Log) (pv : PackageVersion) (o : Option PolicyResult)
      → (evaluate_version services b log pv).0 ≡ o
      → Tells pv o
  result-Tells log pv o e =
      subst (Tells pv) (sym (evaluate_version_result services b log pv) ∙ e) (evaluate-Tells pv)

module _ (services : Services) (codec : XmlCodec) (b : Base services) (max : ℕ) where
  -- What the loop over the dependencies adds to a log.
  abbrev Adds : List Entry → List PomDependency → Option Log → Type 0
  Adds h deps log =
      (added : List Entry) × (l : Log) × (log ≡ some l)
      × Represents max (h ++ added) l
      × AreJudged services b deps added

  inspect_dependencies-Adds :
      (deps : List PomDependency) (h : List Entry) (l : Log)
      → Represents max h l
      → Adds h deps (inspect_dependencies services codec b deps (some l))
  unfolding inspect_dependencies
  inspect_dependencies-Adds [] h l repr =
      ([], l, refl, subst (λ x. Represents max x l) (sym (append-nil h)) repr, no_more)
  inspect_dependencies-Adds (dep ∷ deps) h l repr =
      let pv = version_of services b dep in
      elim (evaluate_version-Represents services b max h l pv repr) [
        | inl (fails, same) ↦
            let (added, l', e, repr', rest) = inspect_dependencies-Adds deps h l repr in
            rw same
              (added, l', e, repr', failed (result-Tells services b (some l) pv none fails) rest)
        | inr (r, l1, step, repr1) ↦
            let e =
              next_entry h (services.clock l)
                (call_of services pv r (length (input_of services b pv).vulnerabilities)) in
            let (added, l', same, repr', rest) =
              inspect_dependencies-Adds deps (h ++ e ∷ []) l1 repr1 in
            rw step (
              e ∷ added,
              l',
              same,
              subst (λ x. Represents max x l') (append_assoc h (e ∷ []) added) repr',
              judged
                  (record {
                    ecosystem = refl;
                    package_name = refl;
                    version = refl;
                    verdict = result-Tells services b (some l) pv (some r) (ap (λ x. x.0) step);
                  })
                  rest,
            )
      ]

  -- The resolved dependencies of a POM; of a text that is none there are none.
  abbrev pub dependencies_in : Option PomProject → List PomDependency
  dependencies_in none = []
  dependencies_in (some pom) =
      resolved_dependencies pom
        (collect_properties services.network codec.decode_pom b.upstream pom)

  inspect_parsed-Adds :
      (o : Option PomProject) (h : List Entry) (l : Log)
      → Represents max h l
      → Adds h (dependencies_in o) (inspect_parsed services codec b o (some l))
  unfolding inspect_dependencies
  inspect_parsed-Adds none h l repr = inspect_dependencies-Adds [] h l repr
  inspect_parsed-Adds (some pom) h l repr =
      inspect_dependencies-Adds (dependencies_in (some pom)) h l repr

  -- A POM that the upstream answers with status 200 is served as it is, whatever the policy says of
  -- its dependencies; the log, if it represented a history, represents the history with decisions
  -- added: in the order of the POM's resolved dependencies, one for each that OPA answers for, which
  -- names it and holds OPA's verdict and reasons, and none for one on which OPA fails.
  pub handle_pom_serves :
      (r : Request) (body : String) (h : List Entry) (l : Log)
      → fetch services.network b.upstream r.path ≡ some (body, 200)
      → Represents max h l
      → (let deps = dependencies_in (parse_pom services.network codec.decode_pom body) in
          (added : List Entry) × (l' : Log) × (handle_pom services codec b r (some l)
            ≡ (respond 200 (("Content-Type", "application/xml") ∷ []) body, some l'))
          × Represents max (h ++ added) l'
          × AreJudged services b deps added)
  unfolding handle_pom
  handle_pom_serves r body h l fetched repr =
      let (added, l', same, repr', judgements) =
        inspect_parsed-Adds (parse_pom services.network codec.decode_pom body) h l repr in
      (
        added,
        l',
        rw fetched
            (ap (λ log. (respond 200 (("Content-Type", "application/xml") ∷ []) body, log)) same),
        repr',
        judgements,
      )
