-- ===== src/Vulndb/Index/Found.antt =====
-- FindVulnerabilitiesByPackageVersion of internal/vulndb/dal/store.go: which rows it finds.
use dependency_guardian.Prelude.{
  String, ◌≡◌, ◌≢◌, ap, sym, ◌∙◌, ◌⊎◌, inl, inr, true, false, some, List, eq_iff, eq_refl, arith,
  Elem,
}
use dependency_guardian.Vulndb.Models.{Vulnerability, Affected, AffectedRange, AffectedPackageIndex}
use dependency_guardian.Vulndb.Index.{
  ConstraintCodec, index_row, affected_severity, range_to_constraint,
}
use dependency_guardian.Vulndb.Index.Tables.{
  Database, IsTable, exact, ranged, unkeyed, find_by_package_version, bulk_rebuild_package_index,
}
use dependency_guardian.Vulndb.Index.Lookup.{
  rebuilt-Elem, find_by_package_version-Elem, find_by_package_version-Elem_of, build_entries-Elem,
  vulnerability_entries-Elem, version_entry, range_entry,
}

-- The row is about the package, and lists the version or has a range.
abbrev pub Concerns : String → String → String → AffectedPackageIndex → Type 0
Concerns ecosystem name version r =
    (r.ecosystem ≡ ecosystem)
    × (r.package_name ≡ name)
    × ((r.exact_version ≡ version) ⊎ (r.exact_version ≡ "") × (r.version_constraint ≢ ""))

exact-Concerns :
    (ecosystem name version : String) (r : AffectedPackageIndex)
    → exact ecosystem name version r ≡ true
    → Concerns ecosystem name version r
exact-Concerns ecosystem name version r h = ground (
  arith,
  eq_iff r.ecosystem ecosystem,
  eq_iff r.package_name name,
  eq_iff r.exact_version version,
)

ranged-Concerns :
    (ecosystem name version : String) (r : AffectedPackageIndex)
    → ranged ecosystem name r ≡ true
    → Concerns ecosystem name version r
ranged-Concerns ecosystem name version r h = ground (
  arith,
  eq_iff r.ecosystem ecosystem,
  eq_iff r.package_name name,
  eq_iff r.exact_version "",
  eq_iff r.version_constraint "",
)

module _ (database : Database) (table : IsTable database) where
  -- Every row that the query returns, also next to an error, is a row of the table about the package,
  -- and lists the version exactly or has a range and no exact version.
  pub find_by_package_version_sound :
      (ecosystem name version : String) (db : database.Db) (r : AffectedPackageIndex)
      → Elem r (find_by_package_version database ecosystem name version db).results
      → Elem r (database.rows db) × Concerns ecosystem name version r
  find_by_package_version_sound ecosystem name version db r m =
      let (n, t) = find_by_package_version-Elem database table ecosystem name version db r m in
      (
        n,
        elim t [
          | inl x ↦ exact-Concerns ecosystem name version r x
          | inr x ↦ ranged-Concerns ecosystem name version r x
        ],
      )

  -- After a rebuild that succeeds, the query for a version that an affected package of one of the
  -- vulnerabilities lists, when it succeeds, returns a row of that vulnerability with its malicious flag and the
  -- severity of the affected package.
  pub find_by_package_version_listed :
      (codec : ConstraintCodec) (vulns : List Vulnerability) (db db' : database.Db)
      (v : Vulnerability) (aff : Affected) (version : String)
      → bulk_rebuild_package_index database codec vulns db ≡ some db'
      → Elem v vulns
      → Elem aff v.affected
      → Elem version aff.versions
      → (let answer =
            find_by_package_version database aff.package_ecosystem aff.package_name version db' in
          answer.failed ≡ false
          → (r : AffectedPackageIndex) × Elem r answer.results
            × (unkeyed r ≡ index_row codec v aff "" version (affected_severity codec v aff)))
  find_by_package_version_listed codec vulns db db' v aff version h mv ma mr ok =
      let built = index_row codec v aff "" version (affected_severity codec v aff) in
      let (r, m, e) = rebuilt-Elem database table codec vulns db db' built h (
        build_entries-Elem codec vulns v built mv (
          vulnerability_entries-Elem codec v v.affected aff built ma
            (version_entry codec v aff version mr))) in
      (
        r,
        find_by_package_version-Elem_of database table aff.package_ecosystem aff.package_name
            version db' r ok m
            (inl (ap (exact aff.package_ecosystem aff.package_name version) (sym e) ∙ fits)),
        sym e,
      )
    where
      fits :
          exact aff.package_ecosystem aff.package_name version
            (index_row codec v aff "" version (affected_severity codec v aff))
          ≡ true
      fits =
          ground (arith, eq_refl aff.package_ecosystem, eq_refl aff.package_name, eq_refl version)

  -- After a rebuild that succeeds, the query for any version of an affected package with a range, when it
  -- succeeds, returns the row of that range, whose text is not empty.
  pub find_by_package_version_ranged :
      (codec : ConstraintCodec) (vulns : List Vulnerability) (db db' : database.Db)
      (v : Vulnerability) (aff : Affected) (range : AffectedRange) (version : String)
      → bulk_rebuild_package_index database codec vulns db ≡ some db'
      → Elem v vulns
      → Elem aff v.affected
      → Elem range aff.ranges
      → range_to_constraint codec range ≢ ""
      → (let answer =
            find_by_package_version database aff.package_ecosystem aff.package_name version db' in
          answer.failed ≡ false
          → (r : AffectedPackageIndex) × Elem r answer.results
            × (unkeyed r
                ≡ index_row codec v aff
                    (range_to_constraint codec range)
                    ""
                    (affected_severity codec v aff)))
  find_by_package_version_ranged codec vulns db db' v aff range version h mv ma mr shown ok =
      let built =
        index_row codec v aff (range_to_constraint codec range) ""
          (affected_severity codec v aff) in
      let (r, m, e) = rebuilt-Elem database table codec vulns db db' built h (
        build_entries-Elem codec vulns v built mv (
          vulnerability_entries-Elem codec v v.affected aff built ma
            (range_entry codec v aff range mr))) in
      (
        r,
        find_by_package_version-Elem_of database table aff.package_ecosystem aff.package_name
            version db' r ok m
            (inr (ap (ranged aff.package_ecosystem aff.package_name) (sym e) ∙ fits)),
        sym e,
      )
    where
      fits :
          ranged aff.package_ecosystem aff.package_name (
            index_row codec v aff
              (range_to_constraint codec range)
              ""
              (affected_severity codec v aff))
          ≡ true
      fits = ground (
        arith,
        eq_iff (range_to_constraint codec range) "",
        eq_refl aff.package_ecosystem,
        eq_refl aff.package_name,
      )
