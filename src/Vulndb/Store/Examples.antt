-- ===== src/Vulndb/Store/Examples.antt =====
-- The deletion below a vulnerability, on tables in memory.
use dependency_guardian.Prelude.{ℕ, refl, ◌↔◌, Option, none, some, [], ◌∷◌, Elem}
use dependency_guardian.Vulndb.Models.{VulnerabilityAlias, Affected, AffectedRange, RangeEvent}
use dependency_guardian.Vulndb.Gorm.{alias_table, affected_table, range_table, event_table}
use dependency_guardian.Vulndb.Store.{delete_vuln_children_batch}
use dependency_guardian.Vulndb.Store.Children.{delete_vuln_children_batch_lem}
use dependency_guardian.Vulndb.Store.Hanging.{HangsOn}
use dependency_guardian.Samples.Memory.{Memory, sample_gorm, sample_gorm-IsSql}

abbrev alias_row : (id vulnerability_id : ℕ) → VulnerabilityAlias
alias_row id vulnerability_id = record {
  id = id;
  vulnerability_id = vulnerability_id;
  alias_name = "CVE";
}

abbrev affected_row : (id vulnerability_id : ℕ) → Affected
affected_row id vulnerability_id = record {
  id = id;
  vulnerability_id = vulnerability_id;
  package_ecosystem = "npm";
  package_name = "p";
  package_purl = "";
  versions = [];
  ecosystem_specific = none;
  database_specific = none;
  ranges = [];
  severities = [];
}

abbrev range_row : (id affected_id : ℕ) → AffectedRange
range_row id affected_id = record {
  id = id;
  affected_id = affected_id;
  kind = "SEMVER";
  repo = "";
  database_specific = none;
  events = [];
}

abbrev event_row : (id affected_range_id : ℕ) → RangeEvent
event_row id affected_range_id = record {
  id = id;
  affected_range_id = affected_range_id;
  introduced = "1.0.0";
  fixed = "";
  last_affected = "";
  limit = "";
}

-- Of the vulnerability 7: an alias, an affected package, its range and its event; the rest is of the
-- vulnerability 8.
abbrev sample_memory : Memory
sample_memory alias_table = alias_row 1 7 ∷ alias_row 2 8 ∷ []
sample_memory affected_table = affected_row 3 7 ∷ affected_row 4 8 ∷ []
sample_memory range_table = range_row 5 3 ∷ range_row 6 4 ∷ []
sample_memory event_table = event_row 1 5 ∷ event_row 2 6 ∷ []
sample_memory u = []

abbrev deleted : Option Memory
deleted = delete_vuln_children_batch sample_gorm (7 ∷ []) sample_memory

abbrev left : Option Memory → Memory
left none = λ u. []
left (some db) = db

delete_vuln_children_batch_lem_example : Elem (event_row 1 5) (left deleted event_table) ↔ (
    Elem (event_row 1 5) (sample_memory event_table)
    × (¬ HangsOn sample_gorm (7 ∷ []) sample_memory event_table (event_row 1 5)))
unfolding delete_vuln_children_batch
delete_vuln_children_batch_lem_example =
    delete_vuln_children_batch_lem sample_gorm sample_gorm-IsSql 7 [] sample_memory (left deleted)
      refl event_table (event_row 1 5)
