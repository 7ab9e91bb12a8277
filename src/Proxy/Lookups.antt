-- ===== src/Proxy/Lookups.antt =====
-- handleLookup of internal/proxy/server.go and GetVulnerabilities of internal/vulndb/osvdb.go ask the same
-- question in two places.
use dependency_guardian.Prelude.{
  String, ◌≡◌, ◌≢◌, refl, ap, sym, ◌∙◌, inl, inr, false, some, List, [], ◌∷◌, map, length, ◌==◌,
  eq_iff, arith, Elem, to_lower,
}
use dependency_guardian.Vercmp.{VersionLibs}
use dependency_guardian.Http.{Request, get}
use dependency_guardian.Registry.{VulnerabilityRecord}
use dependency_guardian.Vulndb.Models.{AffectedPackageIndex}
use dependency_guardian.Vulndb.Index.{ConstraintCodec}
use dependency_guardian.Vulndb.Index.Tables.{Database}
use dependency_guardian.Vulndb.Matching.{select_rows, map_ecosystem, get_vulnerabilities}
use dependency_guardian.Vulndb.Matching.Selection.{ids_of}
use dependency_guardian.Vulndb.Matching.Answers.{record_ids, answer_of, record_ids-map, chosen}
use dependency_guardian.Proxy.{map_lookup_ecosystem}
use dependency_guardian.Proxy.Lookup.{VulnEntry, found, entry_of, lookup_entries, handle_lookup}

module _ (libs : VersionLibs) (codec : ConstraintCodec) where
  -- The two loops choose the same rows for a version.
  lookup_entries-select_rows :
      (version ecosystem : String) (rows : List AffectedPackageIndex) (seen : List String)
      → version ≢ ""
      → lookup_entries libs codec version ecosystem rows seen
        ≡ map (entry_of libs codec) (select_rows libs codec version ecosystem rows seen)
  unfolding lookup_entries select_rows
  lookup_entries-select_rows version ecosystem [] seen h = refl
  lookup_entries-select_rows version ecosystem (r ∷ rows) seen h =
      let shown : (version == "") ≡ false = ground (arith, eq_iff version "") in
      ground (
        arith,
        shown,
        lookup_entries-select_rows version ecosystem rows seen h,
        lookup_entries-select_rows version ecosystem rows (r.osv_id ∷ seen) h,
      )

  entry_ids-map :
      (rows : List AffectedPackageIndex)
      → map (λ e. e.osv_id) (map (entry_of libs codec) rows) ≡ ids_of rows
  entry_ids-map [] = refl
  entry_ids-map (r ∷ rows) = ap (λ is. r.osv_id ∷ is) (entry_ids-map rows)

-- The ecosystems that the two maps send to the same name.
abbrev pub shared_ecosystems : List String
shared_ecosystems = "npm" ∷ "pypi" ∷ "go" ∷ []

same_name :
    (eco : String) → Elem eco shared_ecosystems → map_lookup_ecosystem eco ≡ map_ecosystem eco
unfolding map_lookup_ecosystem map_ecosystem to_lower
same_name eco (inl e) = rw e refl
same_name eco (inr (inl e)) = rw e refl
same_name eco (inr (inr (inl e))) = rw e refl
same_name eco (inr (inr (inr none_left))) = absurd none_left

-- For a version of an npm, PyPI or Go package, /api/lookup and the handlers' database agree: where
-- GetVulnerabilities answers, the lookup lists entries with the same ids in the same order.
pub handle_lookup_agrees :
    (libs : VersionLibs) (codec : ConstraintCodec) (database : Database) (r : Request)
    (db : database.Db) (rs : List VulnerabilityRecord)
    → Elem (get "ecosystem" r.query) shared_ecosystems
    → get "name" r.query ≢ ""
    → get "version" r.query ≢ ""
    → get_vulnerabilities libs codec database db
        (get "ecosystem" r.query)
        (get "name" r.query)
        (get "version" r.query)
      ≡ some rs
    → (entries : List VulnEntry) × (handle_lookup libs codec database r db
        ≡ found (get "ecosystem" r.query) (get "name" r.query) entries (length entries))
      × (map (λ e. e.osv_id) entries ≡ record_ids rs)
unfolding handle_lookup
handle_lookup_agrees libs codec database r db rs shared some_name some_version h =
    let eco = get "ecosystem" r.query in
    let name = get "name" r.query in
    let version = get "version" r.query in
    let (ok, vulns, same) = answer_of libs codec database db eco name version rs h in
    let rows = chosen libs codec database eco name version db in
    let version_shown : (version == "") ≡ false = ground (arith, eq_iff version "") in
    let name_shown : (name == "") ≡ false = ground (arith, eq_iff name "") in
    let eco_shown : (eco == "") ≡ false = known eco shared in
    (
      map (entry_of libs codec) rows,
      rw
          (
            version_shown,
            name_shown,
            eco_shown,
            same_name eco shared,
            ok,
            lookup_entries-select_rows libs codec version (map_ecosystem eco) _ [] some_version,
          )
          refl,
      entry_ids-map libs codec rows
          ∙ sym (
              ap record_ids same
              ∙ record_ids-map libs codec database (map_ecosystem eco) name vulns rows),
    )
  where
    known : (eco : String) → Elem eco shared_ecosystems → (eco == "") ≡ false
    known eco (inl e) = rw e refl
    known eco (inr (inl e)) = rw e refl
    known eco (inr (inr (inl e))) = rw e refl
    known eco (inr (inr (inr none_left))) = absurd none_left
