-- ===== src/Rewrite/Examples.antt =====
-- Examples of rewrite rules at work.
use dependency_guardian.Prelude.{
  ℕ, String, ◌≡◌, refl, ◌⊎◌, false, some, List, [], ◌∷◌, arith, All, eq_iff,
}
use dependency_guardian.Prelude.Int.{ℤ, pos, ltb_ℤ}
use dependency_guardian.Vercmp.{ParsedVersion, parse_version, compare_versions, extract_segments}
use dependency_guardian.Rewrite.{
  RewriteRule, apply, apply_version_strategy, snap_to_minor, snap_to_major,
}
use dependency_guardian.Rewrite.Rules.{Skips, FirstMatch, unchanged, apply-FirstMatch}
use dependency_guardian.Rewrite.Bounds.{strategy, strategy_bounds}
use dependency_guardian.Rewrite.Snapping.{release, snap_maven}
use dependency_guardian.Rewrite.Tracking.{dist}
use dependency_guardian.Samples.{sample_libs, sample_libs-IsReflexive}

abbrev rules : List RewriteRule
rules =
    record {
      matching = record { ecosystem = "npm"; name = "left-pad"; version = "*" };
      rewrite = record {
        name = "";
        version = some (record { strategy = "min"; target = "1.3.0" });
        mode = "redirect";
      };
    }
    ∷ []

abbrev available : List String
available = "1.0.0" ∷ "1.2.0" ∷ []

apply-FirstMatch_example :
    (All (Skips sample_libs "npm" "left-pad" "1.0.0") rules
      × (apply sample_libs rules "npm" "left-pad" "1.0.0" ≡ unchanged "left-pad" "1.0.0"))
    ⊎ FirstMatch sample_libs "npm" "left-pad" "1.0.0" rules
        (apply sample_libs rules "npm" "left-pad" "1.0.0")
apply-FirstMatch_example = apply-FirstMatch sample_libs "npm" "left-pad" "1.0.0" rules

strategy_bounds_example :
    (let low = apply_version_strategy sample_libs "1.0.0" (strategy "min" "1.3.0") "npm" in
      (ltb_ℤ (compare_versions sample_libs low "1.3.0" "npm") (pos 0) ≡ false)
      × ((low ≡ "1.0.0") ⊎ (low ≡ "1.3.0")))
    × (let high = apply_version_strategy sample_libs "1.0.0" (strategy "max" "1.3.0") "npm" in
        (ltb_ℤ (pos 0) (compare_versions sample_libs high "1.3.0" "npm") ≡ false)
        × ((high ≡ "1.0.0") ⊎ (high ≡ "1.3.0")))
strategy_bounds_example = strategy_bounds sample_libs sample_libs-IsReflexive "1.0.0" "1.3.0" "npm"

some_version : ¬ (◌≡◌ {A = String} "1.2.3" "")
some_version same = ground (arith, eq_iff "1.2.3" "")

snap_maven_example :
    (extract_segments (snap_to_minor sample_libs "1.2.3" "maven")
      ≡ release (extract_segments "1.2.3"))
    × (extract_segments (snap_to_major sample_libs "1.2.3" "maven")
        ≡ record (release (extract_segments "1.2.3")) { minor = pos 0 })
snap_maven_example = snap_maven sample_libs "1.2.3" some_version refl

abbrev parsed : ℕ → ParsedVersion
parsed minor = record {
  prefix = "";
  major = pos 1;
  minor = pos minor;
  patch = pos 0;
  pre_release = "";
  segments = 3;
}

abbrev ReadsAs : String → ParsedVersion → Type 0
ReadsAs v pv = parse_version sample_libs v "npm" ≡ some pv

abbrev far : String → ParsedVersion → ℤ
far v pv = dist sample_libs "1.3.0" (parsed 3) "npm" v pv
