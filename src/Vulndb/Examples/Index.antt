-- ===== src/Vulndb/Examples/Index.antt =====
-- Examples of the package index: severities, the rebuild and the queries.
use dependency_guardian.Prelude.{
  String, ◌≡◌, ◌≢◌, refl, inl, false, not, ◌||◌, some, List, [], if◌then◌else◌, ◌∷◌, ◌++◌, map,
  filter, eq_iff, arith, Elem, has_prefix,
}
use dependency_guardian.Vulndb.Models.{Severity, AffectedPackageIndex}
use dependency_guardian.Vulndb.Index.{
  index_row, affected_severity, range_to_constraint, build_entries, affected_entries,
  compute_max_severity,
}
use dependency_guardian.Vulndb.Index.Severities.{names, compute_max_severity_lem}
use dependency_guardian.Vulndb.Index.Tables.{
  unkeyed, of_vulns, find_by_package_version, bulk_rebuild_package_index,
}
use dependency_guardian.Vulndb.Index.Lookup.{bulk_rebuild_package_index-rows}
use dependency_guardian.Vulndb.Index.Found.{
  find_by_package_version_listed, find_by_package_version_ranged,
}
use dependency_guardian.Samples.{sample_codec, sample_database, sample_database-IsTable}
use dependency_guardian.Vulndb.Examples.{
  range, affected, severity, vulnerability, row, before, after,
}

abbrev severities : List Severity
severities = severity "low" ∷ severity "high" ∷ severity "CVSS:3.1/AV:N" ∷ []

compute_max_severity_lem_example : compute_max_severity severities ≡ (
    if names "critical" severities
    then "critical"
    else if names "high" severities
    then "high"
    else if names "medium" severities
    then "medium"
    else if names "low" severities || names "negligible" severities
    then "low"
    else "")
compute_max_severity_lem_example = compute_max_severity_lem severities

rebuilds :
    bulk_rebuild_package_index sample_database sample_codec (vulnerability ∷ []) before ≡ some after
unfolding bulk_rebuild_package_index affected_entries has_prefix
rebuilds = refl

bulk_rebuild_package_index-rows_example :
    map unkeyed (sample_database.rows after)
    ≡ map unkeyed
        (filter (λ r. not (of_vulns (vulnerability ∷ []) r)) (sample_database.rows before))
      ++ map unkeyed (build_entries sample_codec (vulnerability ∷ []))
bulk_rebuild_package_index-rows_example =
    bulk_rebuild_package_index-rows sample_database sample_database-IsTable sample_codec
      (vulnerability ∷ []) before after rebuilds

succeeds :
    (version : String)
    → (find_by_package_version sample_database "npm" "p" version after).failed ≡ false
unfolding find_by_package_version
succeeds version = refl

find_by_package_version_listed_example :
    (r : AffectedPackageIndex) × Elem r
      (find_by_package_version sample_database "npm" "p" "0.9.0" after).results
    × (unkeyed r
        ≡ index_row sample_codec vulnerability affected "" "0.9.0"
            (affected_severity sample_codec vulnerability affected))
find_by_package_version_listed_example =
    find_by_package_version_listed sample_database sample_database-IsTable sample_codec
      (vulnerability ∷ []) before after vulnerability affected "0.9.0" rebuilds (inl refl)
      (inl refl) (inl refl) (succeeds "0.9.0")

shown : ¬ (◌≡◌ {A = String} "range" "")
shown same = ground (arith, eq_iff "range" "")

range_shown : range_to_constraint sample_codec range ≢ ""
unfolding range_to_constraint
range_shown = shown

find_by_package_version_ranged_example :
    (r : AffectedPackageIndex) × Elem r
      (find_by_package_version sample_database "npm" "p" "1.1.0" after).results
    × (unkeyed r
        ≡ index_row sample_codec vulnerability affected
            (range_to_constraint sample_codec range)
            ""
            (affected_severity sample_codec vulnerability affected))
find_by_package_version_ranged_example =
    find_by_package_version_ranged sample_database sample_database-IsTable sample_codec
      (vulnerability ∷ []) before after vulnerability affected range "1.1.0" rebuilds (inl refl)
      (inl refl) (inl refl) range_shown (succeeds "1.1.0")

found_row :
    Elem
      (row "GHSA-1" "" "range")
      (find_by_package_version sample_database "npm" "p" "1.1.0" after).results
unfolding find_by_package_version
found_row = inl refl

some_version : ¬ (◌≡◌ {A = String} "1.1.0" "")
some_version same = ground (arith, eq_iff "1.1.0" "")

abbrev whole : sample_database.Db
whole = (row "GHSA-2" "" "" ∷ [], [])
