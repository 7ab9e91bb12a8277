-- ===== src/Vulndb/Models.antt =====
-- internal/vulndb/models/models.go: the rows of the database. Times are numbers, and a nil map or
-- pointer is `none`.
use dependency_guardian.Prelude.{ℕ, String, Bool, Option, List}
use dependency_guardian.Prelude.Int.{ℤ}
use dependency_guardian.Prelude.Dict.{Dict}
use dependency_guardian.Json.{Json}

abbrev pub JsonMap : Type 0
JsonMap = Option (Dict Json)

pub record VulnerabilityAlias : Type 0 where
  pub id : ℕ
  pub vulnerability_id : ℕ
  pub alias_name : String

pub record VulnerabilityRelated : Type 0 where
  pub id : ℕ
  pub vulnerability_id : ℕ
  pub related_id : String

pub record Severity : Type 0 where
  pub id : ℕ
  pub vulnerability_id : ℕ
  pub affected_id : Option ℕ
  pub kind : String
  pub score : String

pub record RangeEvent : Type 0 where
  pub id : ℕ
  pub affected_range_id : ℕ
  pub introduced : String
  pub fixed : String
  pub last_affected : String
  pub limit : String

pub record AffectedRange : Type 0 where
  pub id : ℕ
  pub affected_id : ℕ
  pub kind : String
  pub repo : String
  pub database_specific : JsonMap
  pub events : List RangeEvent

pub record Affected : Type 0 where
  pub id : ℕ
  pub vulnerability_id : ℕ
  pub package_ecosystem : String
  pub package_name : String
  pub package_purl : String
  pub versions : List String
  pub ecosystem_specific : JsonMap
  pub database_specific : JsonMap
  pub ranges : List AffectedRange
  pub severities : List Severity

pub record Reference : Type 0 where
  pub id : ℕ
  pub vulnerability_id : ℕ
  pub kind : String
  pub url : String

pub record Credit : Type 0 where
  pub id : ℕ
  pub vulnerability_id : ℕ
  pub name : String
  pub kind : String
  pub contact : List String

pub record Vulnerability : Type 0 where
  pub id : ℕ
  pub osv_id : String
  pub schema_version : String
  pub modified : ℕ
  pub published : Option ℕ
  pub withdrawn : Option ℕ
  pub summary : String
  pub details : String
  pub database_specific : JsonMap
  pub aliases : List VulnerabilityAlias
  pub related : List VulnerabilityRelated
  pub severities : List Severity
  pub affected : List Affected
  pub references : List Reference
  pub credits : List Credit
  pub source_ecosystem : String
  pub synced_at : ℕ
  pub created_at : ℕ
  pub updated_at : ℕ
  pub deleted_at : Option ℕ

pub record AffectedPackageIndex : Type 0 where
  pub id : ℕ
  pub vulnerability_id : ℕ
  pub osv_id : String
  pub ecosystem : String
  pub package_name : String
  pub version_constraint : String
  pub exact_version : String
  pub max_severity : String
  pub is_malicious : Bool

pub record EcosystemSyncState : Type 0 where
  pub id : ℕ
  pub ecosystem : String
  pub status : String
  pub last_full_sync : Option ℕ
  pub last_delta_sync : Option ℕ
  pub last_delta_cursor : String
  pub last_error : String
  pub last_error_at : Option ℕ
  pub total_vulnerabilities : ℕ
  pub total_affected_entries : ℕ
  pub created_at : ℕ
  pub updated_at : ℕ

pub record SyncLog : Type 0 where
  pub id : ℕ
  pub ecosystem : String
  pub sync_type : String
  pub status : String
  pub started_at : ℕ
  pub completed_at : Option ℕ
  pub records_processed : ℤ
  pub records_inserted : ℤ
  pub records_updated : ℤ
  pub records_deleted : ℤ
  pub error_message : String
