-- ===== src/Vulndb/Matching.antt =====
-- internal/vulndb/osvdb.go: the vulnerabilities of a version, from the package index.
pub mod Ranges
pub mod Selection
pub mod Answers
use dependency_guardian.Prelude.{
  zero, suc, String, Bool, true, false, not, ◌&&◌, ◌||◌, Option, none, some, List, [], ◌∷◌, map,
  if◌then◌else◌, ◌==◌, mem, ◌>>=◌,
}
use dependency_guardian.Prelude.Dict.{Dict, lookup, insert}
use dependency_guardian.Prelude.Int.{ℤ, pos, negsuc}
use dependency_guardian.Vercmp.{VersionLibs, comparer_for}
use dependency_guardian.Registry.{
  VulnerabilityRecord, VulnerabilityDb, ecosystem_npm, ecosystem_pypi, ecosystem_go,
}
use dependency_guardian.Vulndb.Models.{
  Vulnerability, Affected, AffectedRange, RangeEvent, AffectedPackageIndex,
}
use dependency_guardian.Vulndb.Index.{ConstraintCodec, Constraint, ConstraintEvent}
use dependency_guardian.Vulndb.Index.Tables.{Database, find_by_package_version}

-- mapEcosystem
unfoldable pub map_ecosystem : String → String
map_ecosystem eco =
    if eco == ecosystem_npm
    then "npm"
    else if eco == ecosystem_pypi
    then "PyPI"
    else if eco == ecosystem_go
    then "Go"
    else eco

-- The loops of `findFixedVersion`, from the innermost; the empty text is what it returns at the end.
unfoldable pub first_fixed : List RangeEvent → Option String
first_fixed [] = none
first_fixed (e ∷ es) = let rest = first_fixed es in if e.fixed == "" then rest else some e.fixed

abbrev or_else : Option String → Option String → Option String
or_else none other = other
or_else (some s) other = some s

unfoldable pub fixed_of_ranges : List AffectedRange → Option String
unfolding first_fixed
fixed_of_ranges [] = none
fixed_of_ranges (r ∷ rs) = or_else (first_fixed r.events) (fixed_of_ranges rs)

abbrev or_empty : Option String → String
or_empty none = ""
or_empty (some s) = s

unfoldable pub fixed_of_affected : String → String → List Affected → Option String
unfolding fixed_of_ranges
fixed_of_affected ecosystem name [] = none
fixed_of_affected ecosystem name (aff ∷ affs) =
    let rest = fixed_of_affected ecosystem name affs in
    if not (aff.package_ecosystem == ecosystem) || not (aff.package_name == name)
    then rest
    else or_else (fixed_of_ranges aff.ranges) rest

-- findFixedVersion
unfoldable pub find_fixed_version : Vulnerability → String → String → String
unfolding fixed_of_affected
find_fixed_version vuln ecosystem name = or_empty (fixed_of_affected ecosystem name vuln.affected)

-- The results of a comparison: cmp(...) >= 0 and cmp(...) > 0.
abbrev pub at_least_zero : ℤ → Bool
at_least_zero (pos n) = true
at_least_zero (negsuc n) = false

abbrev pub above_zero : ℤ → Bool
above_zero (pos zero) = false
above_zero (pos (suc n)) = true
above_zero (negsuc n) = false

-- The tests of one event: does it open the range for the version, does it close it.
abbrev pub opens : (String → String → ℤ) → String → ConstraintEvent → Bool
opens cmp version e =
    if e.introduced == ""
    then false
    else if e.introduced == "0"
    then true
    else at_least_zero (cmp version e.introduced)

abbrev pub closes : (String → String → ℤ) → String → ConstraintEvent → Bool
closes cmp version e =
    (not (e.fixed == "") && at_least_zero (cmp version e.fixed))
    || (not (e.last_affected == "") && above_zero (cmp version e.last_affected))

-- The loop of `VersionMatchesConstraint` over `introduced`.
unfoldable pub events_loop : (String → String → ℤ) → String → List ConstraintEvent → Bool → Bool
events_loop cmp version [] introduced = introduced
events_loop cmp version (e ∷ es) introduced =
    let opened = if opens cmp version e then true else introduced in
    events_loop cmp version es (if closes cmp version e then false else opened)

-- result[vulns[i].OsvID] = &vulns[i] of `GetVulnerabilitiesByOsvIDs`
unfoldable pub by_osv_id : List Vulnerability → Dict Vulnerability → Dict Vulnerability
unfolding insert
by_osv_id [] m = m
by_osv_id (v ∷ vs) m = by_osv_id vs (insert v.osv_id v m)

abbrev details : Option Vulnerability → String → String → String × String
details none ecosystem name = ("", "")
details (some vuln) ecosystem name = (vuln.summary, find_fixed_version vuln ecosystem name)

-- The body of the loop that makes the results.
abbrev pub record_of :
    String → String → Dict Vulnerability → AffectedPackageIndex → VulnerabilityRecord
record_of ecosystem name vulns idx =
    let (summary, fixed_in) = details (lookup idx.osv_id vulns) ecosystem name in
    record {
      id = idx.osv_id;
      severity = (if idx.max_severity == "" then "unknown" else idx.max_severity);
      summary = summary;
      fixed_in = fixed_in;
      is_malicious = idx.is_malicious;
    }

module _ (libs : VersionLibs) (codec : ConstraintCodec) where
  abbrev matches_parsed : String → String → Option Constraint → Bool
  matches_parsed version ecosystem none = false
  matches_parsed version ecosystem (some c) =
      if c.kind == "GIT"
      then false
      else events_loop (comparer_for libs c.kind ecosystem) version c.events false

  -- VersionMatchesConstraint
  unfoldable pub version_matches_constraint : String → String → String → Bool
  unfolding events_loop comparer_for
  version_matches_constraint version constraint_json ecosystem =
      matches_parsed version ecosystem (codec.unmarshal constraint_json)

  -- The rows that the filter keeps: an exact row, or a range that holds the version.
  abbrev pub applies : String → String → AffectedPackageIndex → Bool
  applies version ecosystem idx =
      if (idx.exact_version == "") && not (idx.version_constraint == "")
      then version_matches_constraint version idx.version_constraint ecosystem
      else true

  -- The loop that fills `seen` and `matched`: at most one row for each OSV id.
  unfoldable pub select_rows :
      String → String → List AffectedPackageIndex → (seen : List String) → List AffectedPackageIndex
  unfolding version_matches_constraint mem
  select_rows version ecosystem [] seen = []
  select_rows version ecosystem (idx ∷ rows) seen =
      let skipped = select_rows version ecosystem rows seen in
      let kept = select_rows version ecosystem rows (idx.osv_id ∷ seen) in
      if mem idx.osv_id seen
      then skipped
      else if applies version ecosystem idx
      then idx ∷ kept
      else skipped

module _ (database : Database) where
  -- GetVulnerabilitiesByOsvIDs
  unfoldable pub get_by_osv_ids : List String → database.Db → Option (Dict Vulnerability)
  unfolding by_osv_id
  get_by_osv_ids [] db = some []
  get_by_osv_ids (i ∷ ids) db = do
    vulns ← database.find_vulns (i ∷ ids) db
    some (by_osv_id vulns [])

  -- A failed batch lookup falls through with an empty map.
  abbrev pub or_no_map : Option (Dict Vulnerability) → Dict Vulnerability
  or_no_map none = []
  or_no_map (some m) = m

  abbrev pub records :
      String → String → List AffectedPackageIndex → database.Db → List VulnerabilityRecord
  records ecosystem name [] db = []
  records ecosystem name (m ∷ ms) db =
      let vulns = or_no_map (get_by_osv_ids (map (λ idx. idx.osv_id) (m ∷ ms)) db) in
      map (record_of ecosystem name vulns) (m ∷ ms)

module _ (libs : VersionLibs) (codec : ConstraintCodec) (database : Database) where
  -- OSVDatabase.GetVulnerabilities
  unfoldable pub get_vulnerabilities : database.Db → VulnerabilityDb
  unfolding map_ecosystem find_by_package_version select_rows get_by_osv_ids find_fixed_version
      lookup
  get_vulnerabilities db ecosystem name version =
      let osv_ecosystem = map_ecosystem ecosystem in
      let answer = find_by_package_version database osv_ecosystem name version db in
      if answer.failed
      then none
      else some (
          records database osv_ecosystem name
            (select_rows libs codec version osv_ecosystem answer.results []) db)
