-- ===== src/Proxy/Lookup.antt =====
-- internal/proxy/server.go: the lookup of vulnerabilities.
use dependency_guardian.Prelude.{
  ℕ, String, Bool, not, ◌&&◌, ◌||◌, List, [], ◌∷◌, length, if◌then◌else◌, ◌==◌, mem,
}
use dependency_guardian.Vercmp.{VersionLibs}
use dependency_guardian.Http.{Request, get}
use dependency_guardian.Vulndb.Models.{AffectedPackageIndex}
use dependency_guardian.Vulndb.Index.{ConstraintCodec}
use dependency_guardian.Vulndb.Index.Tables.{Database, find_by_package, find_by_package_version}
use dependency_guardian.Vulndb.Matching.{version_matches_constraint}
use dependency_guardian.Proxy.{map_lookup_ecosystem}

-- vulnEntry
pub record VulnEntry : Type 0 where
  pub osv_id : String
  pub max_severity : String
  pub is_malicious : Bool
  pub version : String

pub data LookupReply : Type 0 where
  bad_request : LookupReply
  internal_error : LookupReply
  found : (ecosystem name : String) → (vulnerabilities : List VulnEntry) → (total : ℕ) → LookupReply

module _ (libs : VersionLibs) (codec : ConstraintCodec) where
  -- The records that a lookup of a version leaves out.
  abbrev pub is_filtered_out : (version ecosystem : String) → AffectedPackageIndex → Bool
  is_filtered_out version ecosystem rec =
      not (version == "")
      && (rec.exact_version == "")
      && not (rec.version_constraint == "")
      && not (version_matches_constraint libs codec version rec.version_constraint ecosystem)

  abbrev pub entry_of : AffectedPackageIndex → VulnEntry
  entry_of rec = record {
    osv_id = rec.osv_id;
    max_severity = rec.max_severity;
    is_malicious = rec.is_malicious;
    version = rec.exact_version;
  }

  -- The loop of `handleLookup` over `seen` and `entries`.
  unfoldable pub lookup_entries :
      (version ecosystem : String)
      → List AffectedPackageIndex
      → (seen : List String) → List VulnEntry
  unfolding mem version_matches_constraint
  lookup_entries version ecosystem [] seen = []
  lookup_entries version ecosystem (rec ∷ records) seen =
      let skipped = lookup_entries version ecosystem records seen in
      let rest = lookup_entries version ecosystem records (rec.osv_id ∷ seen) in
      if mem rec.osv_id seen
      then skipped
      else if is_filtered_out version ecosystem rec
      then skipped
      else entry_of rec ∷ rest

module _ (libs : VersionLibs) (codec : ConstraintCodec) (database : Database) where
  -- handleLookup
  unfoldable pub handle_lookup : Request → database.Db → LookupReply
  unfolding get map_lookup_ecosystem find_by_package find_by_package_version lookup_entries
  handle_lookup r db =
      let ecosystem = get "ecosystem" r.query in
      let name = get "name" r.query in
      let version = get "version" r.query in
      let osv_ecosystem = map_lookup_ecosystem ecosystem in
      let answer =
        if not (version == "")
        then find_by_package_version database osv_ecosystem name version db
        else find_by_package database osv_ecosystem name db in
      let entries = lookup_entries libs codec version osv_ecosystem answer.results [] in
      if (ecosystem == "") || (name == "")
      then bad_request
      else if answer.failed
      then internal_error
      else found ecosystem name entries (length entries)
