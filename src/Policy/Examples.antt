-- ===== src/Policy/Examples.antt =====
-- Examples of policies loaded and evaluated.
use dependency_guardian.Prelude.{ℕ, String, ◌≡◌, ◌↔◌, ◌⊎◌, true, false, none, some, [], ◌∷◌, Elem}
use dependency_guardian.Prelude.Dict.{Dict}
use dependency_guardian.Registry.{PolicyInput, PolicyResult}
use dependency_guardian.Policy.{ResultSet, to_map, evaluate}
use dependency_guardian.Policy.Reasons.{IsReason, evaluate_verdict}
use dependency_guardian.Samples.{sample_opa, sample_engine}

abbrev input : PolicyInput
input = record {
  package_version = record {
    name = "p";
    version = "1.0.0";
    ecosystem = "npm";
    published_at = 0;
    deprecated = false;
    yanked = false;
  };
  vulnerabilities = [];
  metadata = none;
}

abbrev no_time : ℕ → String
no_time t = ""

evaluate_verdict_example :
    ((sample_opa.eval sample_engine.prepared (to_map no_time input) ≡ none)
      × (evaluate sample_opa no_time sample_engine input ≡ none))
    ⊎ ((rs : ResultSet) × (r : PolicyResult) × (sample_opa.eval sample_engine.prepared
            (to_map no_time input)
          ≡ some rs)
        × (evaluate sample_opa no_time sample_engine input ≡ some r)
        × ((r.allowed ≡ true) ↔ ((s : String) → ¬ IsReason s rs))
        × ((s : String) → Elem s r.reasons ↔ IsReason s rs))
evaluate_verdict_example = evaluate_verdict sample_opa no_time sample_engine input

abbrev modules : Dict String
modules = ("p/a.rego", "deny") ∷ []
