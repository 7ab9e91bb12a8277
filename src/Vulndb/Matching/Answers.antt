-- ===== src/Vulndb/Matching/Answers.antt =====
-- GetVulnerabilities of internal/vulndb/osvdb.go, from the rows of the index to the records.
use dependency_guardian.Prelude.{
  String, ◌≡◌, ◌≢◌, refl, ap, sym, ◌∙◌, ◌⊎◌, inl, inr, true, false, none, some, List, [], ◌∷◌, map,
  if◌then◌else◌, ◌==◌, eq_iff, arith, Elem, Elem-map, Bool-cases, mem,
}
use dependency_guardian.Prelude.Dict.{Dict}
use dependency_guardian.Vercmp.{VersionLibs}
use dependency_guardian.Registry.{VulnerabilityRecord}
use dependency_guardian.Vercmp.Compare.{osv_names}
use dependency_guardian.Vulndb.Models.{Vulnerability, AffectedPackageIndex}
use dependency_guardian.Vulndb.Index.{ConstraintCodec}
use dependency_guardian.Vulndb.Index.Tables.{
  Database, IsTable, exact, ranged, find_by_package_version,
}
use dependency_guardian.Vulndb.Index.Found.{Concerns, find_by_package_version_sound}
use dependency_guardian.Vulndb.Index.Lookup.{find_by_package_version-Elem_of}
use dependency_guardian.Vulndb.Matching.{
  applies, select_rows, record_of, records, or_no_map, get_by_osv_ids, map_ecosystem,
  get_vulnerabilities,
}
use dependency_guardian.Vulndb.Matching.Selection.{ids_of, select-Elem, select_complete}

abbrev pub record_ids : List VulnerabilityRecord → List String
record_ids rs = map (λ r. r.id) rs

-- What a record says of the row that it was made from.
abbrev pub Reports : VulnerabilityRecord → AffectedPackageIndex → Type 0
Reports r row =
    (r.id ≡ row.osv_id)
    × (r.is_malicious ≡ row.is_malicious)
    × (r.severity ≡ (if row.max_severity == "" then "unknown" else row.max_severity))

apart : (a b : String) → (a == b) ≡ false → a ≢ b
apart a b differ same = ground (arith, eq_iff a b)

module _ (libs : VersionLibs) (codec : ConstraintCodec) (database : Database) where
  records_lem :
      (ecosystem name : String) (rows : List AffectedPackageIndex) (db : database.Db)
      → (vulns : Dict Vulnerability) × (records database ecosystem name rows db
          ≡ map (record_of ecosystem name vulns) rows)
  records_lem ecosystem name [] db = ([], refl)
  records_lem ecosystem name (m ∷ ms) db =
      (or_no_map database (get_by_osv_ids database (map (λ idx. idx.osv_id) (m ∷ ms)) db), refl)

  pub record_ids-map :
      (ecosystem name : String) (vulns : Dict Vulnerability) (rows : List AffectedPackageIndex)
      → record_ids (map (record_of ecosystem name vulns) rows) ≡ ids_of rows
  record_ids-map ecosystem name vulns [] = refl
  record_ids-map ecosystem name vulns (r ∷ rows) =
      ap (λ is. r.osv_id ∷ is) (record_ids-map ecosystem name vulns rows)

  abbrev pub chosen : String → String → String → database.Db → List AffectedPackageIndex
  chosen ecosystem name version db =
      select_rows libs codec version (map_ecosystem ecosystem)
        (find_by_package_version database (map_ecosystem ecosystem) name version db).results []

  -- An answer comes from the query without an error, and has a record for each chosen row.
  pub answer_of :
      (db : database.Db) (ecosystem name version : String) (rs : List VulnerabilityRecord)
      → get_vulnerabilities libs codec database db ecosystem name version ≡ some rs
      → ((find_by_package_version database (map_ecosystem ecosystem) name version db).failed
          ≡ false)
        × (vulns : Dict Vulnerability) × (rs
            ≡ map
                (record_of (map_ecosystem ecosystem) name vulns)
                (chosen ecosystem name version db))
  unfolding get_vulnerabilities
  answer_of db ecosystem name version rs h =
      elim (Bool-cases
        (find_by_package_version database (map_ecosystem ecosystem) name version db).failed) [
          | inl bad ↦ absurd (no_answer (rw bad at h))
          | inr ok ↦
              let (vulns, e) =
                records_lem (map_ecosystem ecosystem) name (chosen ecosystem name version db) db in
              (ok, vulns, got (rw ok at h) ∙ e)
        ]
    where
      no_answer : none ≡ some rs → ⊥
      no_answer e = cc

      got :
          some (
              records database (map_ecosystem ecosystem) name (chosen ecosystem name version db) db)
            ≡ some rs
          → rs
            ≡ records database (map_ecosystem ecosystem) name (chosen ecosystem name version db) db
      got e = cc

  module _ (table : IsTable database) where
    -- Every record of an answer reports a row of the index about the package, which lists the version or
    -- has a range that VersionMatchesConstraint finds to hold the version.
    pub get_vulnerabilities_sound :
        (db : database.Db) (ecosystem name version : String) (rs : List VulnerabilityRecord)
        (r : VulnerabilityRecord)
        → get_vulnerabilities libs codec database db ecosystem name version ≡ some rs
        → Elem r rs
        → (row : AffectedPackageIndex) × Elem row (database.rows db)
          × Concerns (map_ecosystem ecosystem) name version row
          × (applies libs codec version (map_ecosystem ecosystem) row ≡ true)
          × Reports r row
    get_vulnerabilities_sound db ecosystem name version rs r h m =
        let (_, vulns, e) = answer_of db ecosystem name version rs h in
        let (row, chosen_row, same) =
          Elem-map (record_of (map_ecosystem ecosystem) name vulns) r
            (chosen ecosystem name version db) (rw e at m) in
        let (found, fits, _) =
          select-Elem libs codec version (map_ecosystem ecosystem) _ [] row chosen_row in
        let (stored, about) =
          find_by_package_version_sound database table (map_ecosystem ecosystem) name version db row
            found in
        (
          row,
          stored,
          about,
          fits,
          (ap (λ x. x.id) same, ap (λ x. x.is_malicious) same, ap (λ x. x.severity) same),
        )

    -- An answer misses nothing: a row of the index about the package that lists the version, or that has
    -- a range which VersionMatchesConstraint finds to hold the version, gives a record with its id.
    pub get_vulnerabilities_complete :
        (db : database.Db) (ecosystem name version : String) (rs : List VulnerabilityRecord)
        (row : AffectedPackageIndex)
        → get_vulnerabilities libs codec database db ecosystem name version ≡ some rs
        → Elem row (database.rows db)
        → (exact (map_ecosystem ecosystem) name version row ≡ true)
          ⊎ (ranged (map_ecosystem ecosystem) name row ≡ true)
        → applies libs codec version (map_ecosystem ecosystem) row ≡ true
        → Elem row.osv_id (record_ids rs)
    get_vulnerabilities_complete db ecosystem name version rs row h m about fits =
        let (ok, vulns, e) = answer_of db ecosystem name version rs h in
        let found =
          find_by_package_version-Elem_of database table (map_ecosystem ecosystem) name version db
            row ok m about in
        rw
          (
            e,
            record_ids-map (map_ecosystem ecosystem) name vulns (chosen ecosystem name version db),
          )
          (elim (select_complete libs codec version (map_ecosystem ecosystem) _ [] row found fits) [
            | inl seen ↦ absurd (nothing_seen row.osv_id seen)
            | inr there ↦ there
          ])
      where
        nothing_seen : (i : String) → mem i [] ≡ true → ⊥
        nothing_seen i s = no (unfold mem in s)
          where
            no : false ≡ true → ⊥
            no e = cc

    -- While the index stores the packages under the ecosystem names of the database, an answer about a
    -- package of the proxy's Maven ecosystem has no record.
    pub get_vulnerabilities-maven :
        (db : database.Db) (name version : String) (rs : List VulnerabilityRecord)
        → ((row : AffectedPackageIndex)
            → Elem row (database.rows db)
            → Elem row.ecosystem osv_names)
        → get_vulnerabilities libs codec database db "maven" name version ≡ some rs
        → rs ≡ []
    get_vulnerabilities-maven db name version [] stored h = refl
    get_vulnerabilities-maven db name version (r ∷ rs) stored h =
        let (row, m, about, _, _) =
          get_vulnerabilities_sound db "maven" name version (r ∷ rs) r h (inl refl) in
        let (e, _, _) = about in
        absurd (no_name row.ecosystem (unfold map_ecosystem in e) (stored row m))
      where
        no_name : (e : String) → e ≡ "maven" → Elem e osv_names → ⊥
        no_name e lower (inl n) = apart "maven" "npm" refl (sym lower ∙ n)
        no_name e lower (inr (inl n)) = apart "maven" "PyPI" refl (sym lower ∙ n)
        no_name e lower (inr (inr (inl n))) = apart "maven" "Go" refl (sym lower ∙ n)
        no_name e lower (inr (inr (inr (inl n)))) = apart "maven" "Maven" refl (sym lower ∙ n)
        no_name e lower (inr (inr (inr (inr n)))) = n
