-- ===== src/Vulndb/Examples/Matching.antt =====
-- Examples of the vulnerabilities found with the index.
use dependency_guardian.Prelude.{
  String, ◌≡◌, refl, ap, inl, inr, ◌↔◌, true, false, not, ◌&&◌, ◌||◌, some, List, [], ◌∷◌, ◌==◌,
  eq_iff, arith, Elem,
}
use dependency_guardian.Registry.{VulnerabilityRecord}
use dependency_guardian.Vercmp.{comparer_for}
use dependency_guardian.Vercmp.Compare.{osv_names}
use dependency_guardian.Vulndb.Models.{AffectedPackageIndex}
use dependency_guardian.Vulndb.Index.{range_to_constraint}
use dependency_guardian.Vulndb.Index.Tables.{ranged}
use dependency_guardian.Vulndb.Index.Found.{Concerns}
use dependency_guardian.Vulndb.Matching.{
  applies, at_least_zero, version_matches_constraint, map_ecosystem, get_vulnerabilities,
}
use dependency_guardian.Vulndb.Matching.Ranges.{
  Affects, version_matches_constraint_iff, range_to_constraint_half_open,
}
use dependency_guardian.Vulndb.Matching.Answers.{
  Reports, record_ids, get_vulnerabilities_sound, get_vulnerabilities_complete,
  get_vulnerabilities-maven,
}
use dependency_guardian.Samples.{
  sample_libs, sample_codec, sample_constraint, sample_database, sample_database-IsTable,
}
use dependency_guardian.Vulndb.Examples.{event, range, row, after}

no_git : ¬ (◌≡◌ {A = String} "ECOSYSTEM" "GIT")
no_git same = ground (arith, eq_iff "ECOSYSTEM" "GIT")

version_matches_constraint_iff_example :
    (version_matches_constraint sample_libs sample_codec "1.1.0" "range" "npm" ≡ true)
    ↔ Affects (comparer_for sample_libs "ECOSYSTEM" "npm") "1.1.0" sample_constraint.events
version_matches_constraint_iff_example =
    version_matches_constraint_iff sample_libs sample_codec "1.1.0" "range" "npm" sample_constraint
      refl no_git

from_1 : ¬ (◌≡◌ {A = String} "1.0.0" "")
from_1 same = ground (arith, eq_iff "1.0.0" "")

to_2 : ¬ (◌≡◌ {A = String} "1.2.0" "")
to_2 same = ground (arith, eq_iff "1.2.0" "")

range_to_constraint_half_open_example :
    version_matches_constraint sample_libs sample_codec "1.1.0"
      (range_to_constraint sample_codec range)
      "npm"
    ≡ (("1.0.0" == "0"
          || at_least_zero (comparer_for sample_libs "ECOSYSTEM" "npm" "1.1.0" "1.0.0"))
        && not (at_least_zero (comparer_for sample_libs "ECOSYSTEM" "npm" "1.1.0" "1.2.0")))
range_to_constraint_half_open_example =
    range_to_constraint_half_open sample_libs sample_codec "1.1.0" "npm" "1.0.0" "1.2.0" range
      (event "1.0.0" "") (event "" "1.2.0") refl no_git refl (refl, refl, refl) (refl, refl, refl)
      from_1 to_2

abbrev answer : List VulnerabilityRecord
answer =
    record {
      id = "GHSA-1";
      severity = "high";
      summary = "a summary";
      fixed_in = "1.2.0";
      is_malicious = false;
    }
    ∷ []

answers :
    get_vulnerabilities sample_libs sample_codec sample_database after "npm" "p" "1.1.0"
    ≡ some answer
unfolding get_vulnerabilities
answers = refl

get_vulnerabilities_sound_example :
    (r : AffectedPackageIndex) × Elem r (sample_database.rows after)
    × Concerns (map_ecosystem "npm") "p" "1.1.0" r
    × (applies sample_libs sample_codec "1.1.0" (map_ecosystem "npm") r ≡ true)
    × Reports
        (record {
          id = "GHSA-1";
          severity = "high";
          summary = "a summary";
          fixed_in = "1.2.0";
          is_malicious = false;
        })
        r
get_vulnerabilities_sound_example =
    get_vulnerabilities_sound sample_libs sample_codec sample_database sample_database-IsTable after
      "npm" "p" "1.1.0" answer _ answers (inl refl)

is_ranged : ranged (map_ecosystem "npm") "p" (row "GHSA-1" "" "range") ≡ true
unfolding map_ecosystem
is_ranged = refl

is_applied :
    applies sample_libs sample_codec "1.1.0" (map_ecosystem "npm") (row "GHSA-1" "" "range") ≡ true
unfolding map_ecosystem version_matches_constraint
is_applied = refl

get_vulnerabilities_complete_example : Elem "GHSA-1" (record_ids answer)
get_vulnerabilities_complete_example =
    get_vulnerabilities_complete sample_libs sample_codec sample_database sample_database-IsTable
      after "npm" "p" "1.1.0" answer (row "GHSA-1" "" "range") answers (inr (inl refl))
      (inr is_ranged) is_applied

-- A row of a Maven package, as the database stores it.
abbrev maven : sample_database.Db
maven = (record (row "GHSA-3" "1.1.0" "") { ecosystem = "Maven" } ∷ [], [])

maven_answers :
    get_vulnerabilities sample_libs sample_codec sample_database maven "maven" "p" "1.1.0" ≡ some []
unfolding get_vulnerabilities
maven_answers = refl

maven_stored :
    (r : AffectedPackageIndex) → Elem r (sample_database.rows maven) → Elem r.ecosystem osv_names
maven_stored r (inl e) = inr (inr (inr (inl (ap (λ x. x.ecosystem) e))))
maven_stored r (inr none_left) = absurd none_left

get_vulnerabilities-maven_example : ◌≡◌ {A = List VulnerabilityRecord} [] []
get_vulnerabilities-maven_example =
    get_vulnerabilities-maven sample_libs sample_codec sample_database sample_database-IsTable maven
      "p" "1.1.0" [] maven_stored maven_answers
