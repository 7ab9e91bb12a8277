-- ===== src/Vulndb/Parser.antt =====
-- internal/vulndb/osvparser/parser.go: OSV records become rows. The decoding of the JSON text and
-- time.Parse for one layout are arguments.
use dependency_guardian.Prelude.{
  ℕ, String, Option, none, some, List, [], ◌∷◌, map, if◌then◌else◌, ◌==◌, ◌>>=◌,
}
use dependency_guardian.Vulndb.Models.{
  JsonMap, Severity, RangeEvent, AffectedRange, Affected, Vulnerability,
}

pub record RawSeverity : Type 0 where
  pub kind : String
  pub score : String

pub record RawPackage : Type 0 where
  pub ecosystem : String
  pub name : String
  pub purl : String

pub record RawEvent : Type 0 where
  pub introduced : String
  pub fixed : String
  pub last_affected : String
  pub limit : String

pub record RawRange : Type 0 where
  pub kind : String
  pub repo : String
  pub events : List RawEvent
  pub database_specific : JsonMap

pub record RawAffected : Type 0 where
  pub package_info : Option RawPackage
  pub severity : List RawSeverity
  pub ranges : List RawRange
  pub versions : List String
  pub ecosystem_specific : JsonMap
  pub database_specific : JsonMap

pub record RawReference : Type 0 where
  pub kind : String
  pub url : String

pub record RawCredit : Type 0 where
  pub name : String
  pub contact : List String
  pub kind : String

pub record RawVulnerability : Type 0 where
  pub schema_version : String
  pub id : String
  pub modified : String
  pub published : String
  pub withdrawn : String
  pub aliases : List String
  pub related : List String
  pub summary : String
  pub details : String
  pub severity : List RawSeverity
  pub affected : List RawAffected
  pub references : List RawReference
  pub credits : List RawCredit
  pub database_specific : JsonMap

-- The layouts that `parseTime` tries, in order.
abbrev pub layouts : List String
layouts =
    "2006-01-02T15:04:05.999999999Z07:00" ∷ "2006-01-02T15:04:05Z07:00" ∷ "2006-01-02T15:04:05Z"
    ∷ "2006-01-02T15:04:05" ∷ []

module _ (time_parse : String → String → Option ℕ) where
  unfoldable pub first_layout : List String → String → Option ℕ
  first_layout [] s = none
  first_layout (layout ∷ rest) s = elim (time_parse layout s) [
    | some t ↦ some t
    | none ↦ first_layout rest s
  ]

  -- parseTime
  unfoldable pub parse_time : String → Option ℕ
  unfolding first_layout
  parse_time s = if s == "" then none else first_layout layouts s

  -- parseOptionalTime
  unfoldable pub parse_optional_time : String → Option ℕ
  unfolding parse_time
  parse_optional_time s = if s == "" then none else parse_time s

abbrev pub convert_severity : RawSeverity → Severity
convert_severity s = record {
  id = 0;
  vulnerability_id = 0;
  affected_id = none;
  kind = s.kind;
  score = s.score;
}

abbrev pub convert_event : RawEvent → RangeEvent
convert_event e = record {
  id = 0;
  affected_range_id = 0;
  introduced = e.introduced;
  fixed = e.fixed;
  last_affected = e.last_affected;
  limit = e.limit;
}

abbrev pub convert_range : RawRange → AffectedRange
convert_range r = record {
  id = 0;
  affected_id = 0;
  kind = r.kind;
  repo = r.repo;
  database_specific = r.database_specific;
  events = map convert_event r.events;
}

abbrev of_package : (RawPackage → String) → Option RawPackage → String
of_package f none = ""
of_package f (some p) = f p

abbrev pub convert_affected : RawAffected → Affected
convert_affected a = record {
  id = 0;
  vulnerability_id = 0;
  package_ecosystem = of_package (λ p. p.ecosystem) a.package_info;
  package_name = of_package (λ p. p.name) a.package_info;
  package_purl = of_package (λ p. p.purl) a.package_info;
  versions = a.versions;
  ecosystem_specific = a.ecosystem_specific;
  database_specific = a.database_specific;
  ranges = map convert_range a.ranges;
  severities = map convert_severity a.severity;
}

-- The ecosystem of the first affected package.
abbrev first_ecosystem : List RawAffected → String
first_ecosystem [] = ""
first_ecosystem (a ∷ _) = of_package (λ p. p.ecosystem) a.package_info

module _ (time_parse : String → String → Option ℕ) where
  -- Convert
  unfoldable pub convert : RawVulnerability → Option Vulnerability
  unfolding parse_time parse_optional_time
  convert raw = do
    modified ← parse_time time_parse raw.modified
    some (record {
      id = 0;
      osv_id = raw.id;
      schema_version = raw.schema_version;
      modified = modified;
      published = parse_optional_time time_parse raw.published;
      withdrawn = parse_optional_time time_parse raw.withdrawn;
      summary = raw.summary;
      details = raw.details;
      database_specific = raw.database_specific;
      aliases = map (λ a. record { id = 0; vulnerability_id = 0; alias_name = a }) raw.aliases;
      related = map (λ r. record { id = 0; vulnerability_id = 0; related_id = r }) raw.related;
      severities = map convert_severity raw.severity;
      affected = map convert_affected raw.affected;
      references =
          map (λ r. record { id = 0; vulnerability_id = 0; kind = r.kind; url = r.url })
            raw.references;
      credits =
          map
            (λ c. record {
              id = 0;
              vulnerability_id = 0;
              name = c.name;
              kind = c.kind;
              contact = c.contact;
            })
            raw.credits;
      source_ecosystem = first_ecosystem raw.affected;
      synced_at = 0;
      created_at = 0;
      updated_at = 0;
      deleted_at = none;
    })

  -- ParseJSON, over the decoder of encoding/json.
  unfoldable pub parse_json : (String → Option RawVulnerability) → String → Option Vulnerability
  unfolding convert
  parse_json unmarshal text = do raw ← unmarshal text; convert raw
