-- ===== src/Vulndb/Examples.antt =====
-- Rows of the database that the examples of the index and of the matching share.
mod Index
mod Matching
use dependency_guardian.Prelude.{String, false, none, [], ◌∷◌}
use dependency_guardian.Vulndb.Models.{
  Vulnerability, Affected, AffectedRange, RangeEvent, Severity, AffectedPackageIndex,
}
use dependency_guardian.Vulndb.Index.Tables.{exact}
use dependency_guardian.Samples.{sample_database}

abbrev pub event : (introduced fixed : String) → RangeEvent
event introduced fixed = record {
  id = 0;
  affected_range_id = 0;
  introduced = introduced;
  fixed = fixed;
  last_affected = "";
  limit = "";
}

abbrev pub range : AffectedRange
range = record {
  id = 0;
  affected_id = 0;
  kind = "ECOSYSTEM";
  repo = "";
  database_specific = none;
  events = event "1.0.0" "" ∷ event "" "1.2.0" ∷ [];
}

abbrev pub affected : Affected
affected = record {
  id = 0;
  vulnerability_id = 0;
  package_ecosystem = "npm";
  package_name = "p";
  package_purl = "";
  versions = "0.9.0" ∷ [];
  ecosystem_specific = none;
  database_specific = none;
  ranges = range ∷ [];
  severities = [];
}

abbrev pub severity : String → Severity
severity score = record {
  id = 0;
  vulnerability_id = 0;
  affected_id = none;
  kind = "CVSS_V3";
  score = score;
}

abbrev pub vulnerability : Vulnerability
vulnerability = record {
  id = 1;
  osv_id = "GHSA-1";
  schema_version = "";
  modified = 0;
  published = none;
  withdrawn = none;
  summary = "a summary";
  details = "";
  database_specific = none;
  aliases = [];
  related = [];
  severities = severity "high" ∷ [];
  affected = affected ∷ [];
  references = [];
  credits = [];
  source_ecosystem = "npm";
  synced_at = 0;
  created_at = 0;
  updated_at = 0;
  deleted_at = none;
}

abbrev pub row : (osv_id exact range : String) → AffectedPackageIndex
row osv_id exact range = record {
  id = 0;
  vulnerability_id = 1;
  osv_id = osv_id;
  ecosystem = "npm";
  package_name = "p";
  version_constraint = range;
  exact_version = exact;
  max_severity = "high";
  is_malicious = false;
}

abbrev pub before : sample_database.Db
before = ([], vulnerability ∷ [])

-- The tables behind a rebuild of the index.
abbrev pub after : sample_database.Db
after = (row "GHSA-1" "0.9.0" "" ∷ row "GHSA-1" "" "range" ∷ [], vulnerability ∷ [])
