-- ===== src/Vulndb/Index.antt =====
-- The package index of internal/vulndb/dal/store.go: severities, the malicious flag, the entries of a
-- vulnerability, and the queries and the rebuild over the index table. The database is the argument
-- `Database`: a query may fail, and a transaction that fails leaves the state as it was.
pub mod Severities
pub mod Tables
pub mod Lookup
pub mod Found
use dependency_guardian.Prelude.{
  ℕ, String, Bool, true, false, ◌&&◌, Option, none, some, List, [], ◌∷◌, ◌++◌, map, any, length,
  ltb, eqb, if◌then◌else◌, ◌==◌, has_prefix,
}
use Prim.Native.String.{len}
use dependency_guardian.Prelude.Dict.{lookup}
use dependency_guardian.Json.{as_bool}
use dependency_guardian.Vulndb.Models.{
  JsonMap, Severity, RangeEvent, AffectedRange, Affected, Vulnerability, AffectedPackageIndex,
}

-- cvssToSeverityLevel
unfoldable pub cvss_to_severity_level : String → String
cvss_to_severity_level score =
    if score == ""
    then ""
    else if score == "critical"
    then "critical"
    else if score == "high"
    then "high"
    else if score == "medium"
    then "medium"
    else if score == "low"
    then "low"
    else if score == "negligible"
    then "low"
    else ""

-- severityOrder of `computeMaxSeverity`; `none` is a missing key.
unfoldable pub severity_order : String → Option ℕ
severity_order level =
    if level == "critical"
    then some 4
    else if level == "high"
    then some 3
    else if level == "medium"
    then some 2
    else if level == "low"
    then some 1
    else none

abbrev better : Option ℕ → String → ℕ × String → ℕ × String
better none level best = best
better (some rank) level (max_level, max_str) =
    if ltb max_level rank then (rank, level) else (max_level, max_str)

-- The loop of `computeMaxSeverity` over maxLevel and maxStr.
unfoldable pub max_severity_loop : List Severity → ℕ × String → ℕ × String
unfolding cvss_to_severity_level severity_order
max_severity_loop [] best = best
max_severity_loop (s ∷ ss) best =
    let level = cvss_to_severity_level s.score in
    max_severity_loop ss (better (severity_order level) level best)

-- computeMaxSeverity
unfoldable pub compute_max_severity : List Severity → String
unfolding max_severity_loop
compute_max_severity ss = (max_severity_loop ss (0, "")).1

-- len(s) > 4 && s[:4] == "MAL-"
abbrev pub is_mal : String → Bool
is_mal s = ltb 4 (len s) && has_prefix s "MAL-"

abbrev is_true : Option Bool → Bool
is_true (some true) = true
is_true _ = false

abbrev flagged : JsonMap → Bool
flagged none = false
flagged (some m) = is_true (as_bool (lookup "is_malicious" m))

-- checkMalicious
unfoldable pub check_malicious : Vulnerability → Bool
check_malicious vuln =
    if any (λ a. is_mal a.alias_name) vuln.aliases
    then true
    else if flagged vuln.database_specific
    then true
    else if is_mal vuln.osv_id
    then true
    else false

pub record ConstraintEvent : Type 0 where
  pub introduced : String
  pub fixed : String
  pub last_affected : String
  pub limit : String

pub record Constraint : Type 0 where
  pub kind : String
  pub events : List ConstraintEvent

-- encoding/json at the constraint type of the program.
pub record ConstraintCodec : Type 0 where
  pub marshal : Constraint → String
  pub unmarshal : String → Option Constraint

abbrev pub constraint_event : RangeEvent → ConstraintEvent
constraint_event e = record {
  introduced = e.introduced;
  fixed = e.fixed;
  last_affected = e.last_affected;
  limit = e.limit;
}

abbrev pub constraint_of : AffectedRange → Constraint
constraint_of r = record { kind = r.kind; events = map constraint_event r.events }

module _ (codec : ConstraintCodec) where
  -- rangeToConstraint
  unfoldable pub range_to_constraint : AffectedRange → String
  range_to_constraint r = codec.marshal (constraint_of r)

  abbrev pub index_row :
      Vulnerability → Affected → (constraint exact severity : String) → AffectedPackageIndex
  index_row vuln aff constraint exact severity = record {
    id = 0;
    vulnerability_id = vuln.id;
    osv_id = vuln.osv_id;
    ecosystem = aff.package_ecosystem;
    package_name = aff.package_name;
    version_constraint = constraint;
    exact_version = exact;
    max_severity = severity;
    is_malicious = check_malicious vuln;
  }

  abbrev pub affected_severity : Vulnerability → Affected → String
  affected_severity vuln aff =
      if ltb 0 (length aff.severities)
      then compute_max_severity aff.severities
      else compute_max_severity vuln.severities

  abbrev whole_package : Vulnerability → Affected → List AffectedPackageIndex
  whole_package vuln aff =
      if eqb (length aff.versions) 0 && eqb (length aff.ranges) 0
      then index_row vuln aff "" "" (affected_severity vuln aff) ∷ []
      else []

  -- The entries of one affected package.
  unfoldable pub affected_entries : Vulnerability → Affected → List AffectedPackageIndex
  unfolding compute_max_severity check_malicious range_to_constraint
  affected_entries vuln aff =
      map (λ ver. index_row vuln aff "" ver (affected_severity vuln aff)) aff.versions
      ++ (map (λ r. index_row vuln aff (range_to_constraint r) "" (affected_severity vuln aff))
            aff.ranges
          ++ whole_package vuln aff)

  unfoldable pub vulnerability_entries : Vulnerability → List Affected → List AffectedPackageIndex
  vulnerability_entries vuln [] = []
  vulnerability_entries vuln (aff ∷ affs) =
      affected_entries vuln aff ++ vulnerability_entries vuln affs

  -- The entries that `BulkRebuildPackageIndex` builds in memory.
  unfoldable pub build_entries : List Vulnerability → List AffectedPackageIndex
  unfolding vulnerability_entries
  build_entries [] = []
  build_entries (vuln ∷ vulns) = vulnerability_entries vuln vuln.affected ++ build_entries vulns
