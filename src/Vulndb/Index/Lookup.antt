-- ===== src/Vulndb/Index/Lookup.antt =====
-- The queries of internal/vulndb/dal/store.go over an index that BulkRebuildPackageIndex has built.
use dependency_guardian.Prelude.{
  String, ◌≡◌, refl, ap, sym, subst, ◌∙◌, ◌⊎◌, inl, inr, true, false, not, Option, none, some, List,
  [], ◌∷◌, ◌++◌, map, filter, Elem, Elem-append, Elem-append_left, Elem-append_right, Elem-map,
  Elem-map_of, Option-cases, ◌>>=◌, append-nil,
}
use dependency_guardian.Vulndb.Models.{Vulnerability, Affected, AffectedRange, AffectedPackageIndex}
use dependency_guardian.Vulndb.Index.{
  ConstraintCodec, index_row, affected_severity, affected_entries, vulnerability_entries,
  build_entries, range_to_constraint,
}
use dependency_guardian.Vulndb.Index.Tables.{
  Database, IsTable, exact, ranged, unkeyed, find_by_package_version, bulk_rebuild_package_index,
  of_vulns, create_some,
}

module _ (codec : ConstraintCodec) where
  pub vulnerability_entries-Elem :
      (v : Vulnerability) (affs : List Affected) (aff : Affected) (r : AffectedPackageIndex)
      → Elem aff affs
      → Elem r (affected_entries codec v aff)
      → Elem r (vulnerability_entries codec v affs)
  unfolding vulnerability_entries
  vulnerability_entries-Elem v [] aff r n h = absurd n
  vulnerability_entries-Elem v (a ∷ affs) aff r (inl e) h =
      Elem-append_left r (affected_entries codec v a) (vulnerability_entries codec v affs)
        (subst (λ x. Elem r (affected_entries codec v x)) e h)
  vulnerability_entries-Elem v (a ∷ affs) aff r (inr n) h =
      Elem-append_right r (affected_entries codec v a) (vulnerability_entries codec v affs)
        (vulnerability_entries-Elem v affs aff r n h)

  pub build_entries-Elem :
      (vulns : List Vulnerability) (v : Vulnerability) (r : AffectedPackageIndex)
      → Elem v vulns
      → Elem r (vulnerability_entries codec v v.affected)
      → Elem r (build_entries codec vulns)
  unfolding build_entries
  build_entries-Elem [] v r m h = absurd m
  build_entries-Elem (w ∷ vulns) v r (inl e) h =
      Elem-append_left r (vulnerability_entries codec w w.affected) (build_entries codec vulns)
        (subst (λ u. Elem r (vulnerability_entries codec u u.affected)) e h)
  build_entries-Elem (w ∷ vulns) v r (inr m) h =
      Elem-append_right r (vulnerability_entries codec w w.affected) (build_entries codec vulns)
        (build_entries-Elem vulns v r m h)

  pub version_entry :
      (v : Vulnerability) (aff : Affected) (version : String)
      → Elem version aff.versions
      → Elem
          (index_row codec v aff "" version (affected_severity codec v aff))
          (affected_entries codec v aff)
  unfolding affected_entries
  version_entry v aff version m =
      Elem-append_left _ (map row aff.versions) _ (Elem-map_of row version aff.versions m)
    where
      row : String → AffectedPackageIndex
      row ver = index_row codec v aff "" ver (affected_severity codec v aff)

  pub range_entry :
      (v : Vulnerability) (aff : Affected) (r : AffectedRange)
      → Elem r aff.ranges
      → Elem
          (index_row codec v aff (range_to_constraint codec r) "" (affected_severity codec v aff))
          (affected_entries codec v aff)
  unfolding affected_entries
  range_entry v aff r m =
      Elem-append_right _
        (map (λ ver. index_row codec v aff "" ver (affected_severity codec v aff)) aff.versions) _
        (Elem-append_left _ (map row aff.ranges) _ (Elem-map_of row r aff.ranges m))
    where
      row : AffectedRange → AffectedPackageIndex
      row r = index_row codec v aff (range_to_constraint codec r) "" (affected_severity codec v aff)

keeps_all : (rows : List AffectedPackageIndex) → rows ≡ filter (λ r. not (of_vulns [] r)) rows
keeps_all [] = refl
keeps_all (r ∷ rows) = ap (λ rs. r ∷ rs) (keeps_all rows)

module _ (database : Database) (table : IsTable database) where
  create_some_lem :
      (rs : List AffectedPackageIndex) (db db' : database.Db)
      → create_some database rs db ≡ some db'
      → map unkeyed (database.rows db') ≡ map unkeyed (database.rows db) ++ map unkeyed rs
  create_some_lem [] db db' h = rw append-nil (ap (λ d. map unkeyed (database.rows d)) (same h))
    where
      same : some db ≡ some db' → db' ≡ db
      same e = cc
  create_some_lem (r ∷ rs) db db' h = table.create_index_lem (r ∷ rs) db db' h

  rebuilt :
      (codec : ConstraintCodec) (v : Vulnerability) (vs : List Vulnerability) (db db' : database.Db)
      → bulk_rebuild_package_index database codec (v ∷ vs) db ≡ some db'
      → (cleared : database.Db) × (database.delete_index (of_vulns (v ∷ vs)) db ≡ some cleared)
        × (create_some database (build_entries codec (v ∷ vs)) cleared ≡ some db')
  unfolding bulk_rebuild_package_index
  rebuilt codec v vs db db' h = split (database.delete_index (of_vulns (v ∷ vs)) db) refl h
    where
      split :
          (o : Option database.Db)
          → database.delete_index (of_vulns (v ∷ vs)) db ≡ o
          → (o >>= create_some database (build_entries codec (v ∷ vs))) ≡ some db'
          → (cleared : database.Db) × (database.delete_index (of_vulns (v ∷ vs)) db ≡ some cleared)
            × (create_some database (build_entries codec (v ∷ vs)) cleared ≡ some db')
      split none e h = absurd (cc)
      split (some cleared) e h = (cleared, e, h)

  -- A rebuild that succeeds leaves exactly the rows of the other vulnerabilities, in their order, and
  -- behind them the entries that it built for the given ones, up to the keys that the database gives.
  pub bulk_rebuild_package_index-rows :
      (codec : ConstraintCodec) (vulns : List Vulnerability) (db db' : database.Db)
      → bulk_rebuild_package_index database codec vulns db ≡ some db'
      → map unkeyed (database.rows db')
        ≡ map unkeyed (filter (λ r. not (of_vulns vulns r)) (database.rows db))
          ++ map unkeyed (build_entries codec vulns)
  bulk_rebuild_package_index-rows codec [] db db' h = rw (← keeps_all (database.rows db)) (
      unfold build_entries in
      rw append-nil
        (ap (λ d. map unkeyed (database.rows d)) (same (unfold bulk_rebuild_package_index in h))))
    where
      same : some db ≡ some db' → db' ≡ db
      same e = cc
  bulk_rebuild_package_index-rows codec (v ∷ vs) db db' h =
      let (cleared, deleted, created) = rebuilt codec v vs db db' h in
      create_some_lem (build_entries codec (v ∷ vs)) cleared db' created
      ∙ ap (λ rs. map unkeyed rs ++ map unkeyed (build_entries codec (v ∷ vs)))
          (table.delete_index_lem (of_vulns (v ∷ vs)) db cleared deleted)

  pub rebuilt-Elem :
      (codec : ConstraintCodec) (vulns : List Vulnerability) (db db' : database.Db)
      (r : AffectedPackageIndex)
      → bulk_rebuild_package_index database codec vulns db ≡ some db'
      → Elem r (build_entries codec vulns)
      → (r' : AffectedPackageIndex) × Elem r' (database.rows db') × (unkeyed r ≡ unkeyed r')
  rebuilt-Elem codec vulns db db' r h m = Elem-map unkeyed (unkeyed r) (database.rows db') (
      subst (Elem (unkeyed r)) (sym (bulk_rebuild_package_index-rows codec vulns db db' h)) (
        Elem-append_right (unkeyed r)
          (map unkeyed (filter (λ r. not (of_vulns vulns r)) (database.rows db))) _
          (Elem-map_of unkeyed r (build_entries codec vulns) m)))

  pub find_by_package_version-Elem :
      (ecosystem name version : String) (db : database.Db) (r : AffectedPackageIndex)
      → Elem r (find_by_package_version database ecosystem name version db).results
      → Elem r (database.rows db)
        × ((exact ecosystem name version r ≡ true) ⊎ (ranged ecosystem name r ≡ true))
  unfolding find_by_package_version
  find_by_package_version-Elem ecosystem name version db r m =
      elim (Option-cases (database.find_index (exact ecosystem name version) db)) [
        | inl e ↦ absurd (rw e at m)
        | inr (rs, e) ↦ elim (Option-cases (database.find_index (ranged ecosystem name) db)) [
          | inl g ↦ by_version rs e (rw (e, g) at m)
          | inr (ranges, g) ↦ elim (Elem-append r rs ranges (rw (e, g) at m)) [
            | inl l ↦ by_version rs e l
            | inr l ↦ let (n, t) = (table.find_index_lem _ db ranges g r).0 l in (n, inr t)
          ]
        ]
      ]
    where
      by_version :
          (rs : List AffectedPackageIndex)
          → database.find_index (exact ecosystem name version) db ≡ some rs
          → Elem r rs
          → Elem r (database.rows db)
            × ((exact ecosystem name version r ≡ true) ⊎ (ranged ecosystem name r ≡ true))
      by_version rs e l = let (n, t) = (table.find_index_lem _ db rs e r).0 l in (n, inl t)

  pub find_by_package_version-Elem_of :
      (ecosystem name version : String) (db : database.Db) (r : AffectedPackageIndex)
      → (find_by_package_version database ecosystem name version db).failed ≡ false
      → Elem r (database.rows db)
      → (exact ecosystem name version r ≡ true) ⊎ (ranged ecosystem name r ≡ true)
      → Elem r (find_by_package_version database ecosystem name version db).results
  unfolding find_by_package_version
  find_by_package_version-Elem_of ecosystem name version db r ok m t =
      elim (Option-cases (database.find_index (exact ecosystem name version) db)) [
        | inl e ↦ absurd (clash (rw e at ok))
        | inr (rs, e) ↦ elim (Option-cases (database.find_index (ranged ecosystem name) db)) [
          | inl g ↦ absurd (clash (rw (e, g) at ok))
          | inr (ranges, g) ↦
              rw (e, g)
                (elim t [
                  | inl x ↦
                      Elem-append_left r rs ranges ((table.find_index_lem _ db rs e r).1 (m, x))
                  | inr x ↦
                      Elem-append_right r rs ranges
                        ((table.find_index_lem _ db ranges g r).1 (m, x))
                ])
        ]
      ]
    where
      clash : true ≡ false → ⊥
      clash e = cc
