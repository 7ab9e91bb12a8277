-- ===== src/Registry.antt =====
-- internal/registry: the types that the handlers, the policy engine and the database share.
use dependency_guardian.Prelude.{ℕ, String, Bool, Option, some, List, []}
use dependency_guardian.Prelude.Dict.{Dict}
use dependency_guardian.Json.{Json}

abbrev pub ecosystem_npm : String
ecosystem_npm = "npm"

abbrev pub ecosystem_pypi : String
ecosystem_pypi = "pypi"

abbrev pub ecosystem_go : String
ecosystem_go = "go"

abbrev pub ecosystem_maven : String
ecosystem_maven = "maven"

-- The time of publication is a number; zero is Go's zero time.
pub record PackageVersion : Type 0 where
  pub name : String
  pub version : String
  pub ecosystem : String
  pub published_at : ℕ
  pub deprecated : Bool
  pub yanked : Bool

pub record VulnerabilityRecord : Type 0 where
  pub id : String
  pub severity : String
  pub summary : String
  pub fixed_in : String
  pub is_malicious : Bool

pub record PolicyInput : Type 0 where
  pub package_version : PackageVersion
  pub vulnerabilities : List VulnerabilityRecord
  pub metadata : Option (Dict Json)

pub record PolicyResult : Type 0 where
  pub allowed : Bool
  pub reasons : List String

-- The interface VulnerabilityDB: `none` is an error.
abbrev pub VulnerabilityDb : Type 0
VulnerabilityDb = String → String → String → Option (List VulnerabilityRecord)

-- NoOpVulnerabilityDB
unfoldable pub no_op_db : VulnerabilityDb
no_op_db ecosystem name version = some []
