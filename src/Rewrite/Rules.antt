-- ===== src/Rewrite/Rules.antt =====
-- Engine.Apply against its documentation: the first matching rule wins.
use dependency_guardian.Prelude.{
  String, ◌≡◌, refl, ap, ◌⊎◌, inl, inr, true, false, List, [], ◌∷◌, ◌++◌, All, Bool-cases,
}
use dependency_guardian.Vercmp.{VersionLibs}
use dependency_guardian.Rewrite.{RewriteRule, Result, matches_rule, apply_action, apply}

abbrev pub unchanged : String → String → Result
unchanged name version = record {
  matched = false;
  name = name;
  version = version;
  mode = "transparent";
}

module _ (libs : VersionLibs) (ecosystem name version : String) where
  abbrev pub Skips : RewriteRule → Type 0
  Skips r = matches_rule r.matching ecosystem name version ≡ false

  -- The rules split at their first match, and the result is that rule's action.
  pub record FirstMatch (rules : List RewriteRule) (result : Result) : Type 0 where
    pub before : List RewriteRule
    pub rule : RewriteRule
    pub after : List RewriteRule
    pub split : rules ≡ before ++ rule ∷ after
    pub skipped : All Skips before
    pub matches : matches_rule rule.matching ecosystem name version ≡ true
    pub applied : result ≡ apply_action libs rule.rewrite ecosystem name version

  FirstMatch-cons :
      (r : RewriteRule) {rules : List RewriteRule} {result : Result}
      → Skips r
      → FirstMatch rules result
      → FirstMatch (r ∷ rules) result
  FirstMatch-cons r skip f = record {
    before = r ∷ f.before;
    rule = f.rule;
    after = f.after;
    split = ap (λ rs. r ∷ rs) f.split;
    skipped = (skip, f.skipped);
    matches = f.matches;
    applied = f.applied;
  }

-- Apply either finds no matching rule and returns the name and the version as they were, unmatched,
-- or carries out the action of the first rule that matches, every rule before it being skipped.
pub apply-FirstMatch :
    (libs : VersionLibs) (ecosystem name version : String) (rules : List RewriteRule)
    → (All (Skips libs ecosystem name version) rules
        × (apply libs rules ecosystem name version ≡ unchanged name version))
      ⊎ FirstMatch libs ecosystem name version rules (apply libs rules ecosystem name version)
unfolding apply
apply-FirstMatch libs ecosystem name version [] = inl (tt, refl)
apply-FirstMatch libs ecosystem name version (r ∷ rules) =
    elim (Bool-cases (matches_rule r.matching ecosystem name version)) [
      | inl hit ↦ rw hit (
          inr (record {
            before = [];
            rule = r;
            after = rules;
            split = refl;
            skipped = tt;
            matches = hit;
            applied = refl;
          }))
      | inr miss ↦ rw miss (elim (apply-FirstMatch libs ecosystem name version rules) [
        | inl (skips, same) ↦ inl ((refl, skips), same)
        | inr found ↦ inr (FirstMatch-cons libs ecosystem name version r miss found)
      ])
    ]
