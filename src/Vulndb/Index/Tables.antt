-- ===== src/Vulndb/Index/Tables.antt =====
-- The index table of the database, and the queries of internal/vulndb/dal/store.go over it.
use dependency_guardian.Prelude.{
  String, ◌≡◌, ◌↔◌, Elem, Bool, true, false, not, ◌&&◌, Option, none, some, List, [], ◌∷◌, ◌++◌,
  map, filter, eqb, ◌==◌, any, ◌>>=◌,
}
use dependency_guardian.Vulndb.Models.{Vulnerability, AffectedPackageIndex}
use dependency_guardian.Vulndb.Index.{ConstraintCodec, build_entries}

-- What the program uses of the database: the queries of the index table by a condition, of the
-- vulnerabilities by their OSV ids, and the two statements of the rebuild's transaction. `none` is an
-- error. `rows` and `vulns` are the contents, which only statements look at.
pub record Database : Type 1 where
  pub Db : Type 0
  pub rows : Db → List AffectedPackageIndex
  pub vulns : Db → List Vulnerability
  pub find_index : (AffectedPackageIndex → Bool) → Db → Option (List AffectedPackageIndex)
  pub find_vulns : List String → Db → Option (List Vulnerability)
  pub delete_index : (AffectedPackageIndex → Bool) → Db → Option Db
  pub create_index : List AffectedPackageIndex → Db → Option Db

-- A row as it is created, without the key that the database gives it.
abbrev pub unkeyed : AffectedPackageIndex → AffectedPackageIndex
unkeyed r = record r { id = 0 }

-- What the program relies on: a query that succeeds returns the rows that meet its condition, in any
-- order; and the rows seen in the order of their creation, a deletion keeps the other rows and a
-- creation adds its rows behind, up to their keys.
pub record IsTable (database : Database) : Type 0 where
  pub find_index_lem :
      (p : AffectedPackageIndex → Bool) (db : database.Db) (rs : List AffectedPackageIndex)
      → database.find_index p db ≡ some rs
      → (r : AffectedPackageIndex) → Elem r rs ↔ (Elem r (database.rows db) × (p r ≡ true))
  pub delete_index_lem :
      (p : AffectedPackageIndex → Bool) (db db' : database.Db)
      → database.delete_index p db ≡ some db'
      → database.rows db' ≡ filter (λ r. not (p r)) (database.rows db)
  pub create_index_lem :
      (rs : List AffectedPackageIndex) (db db' : database.Db)
      → database.create_index rs db ≡ some db'
      → map unkeyed (database.rows db') ≡ map unkeyed (database.rows db) ++ map unkeyed rs

-- What a method returns with its error: Go returns both, and the rows may be a part of the answer.
pub record Answer : Type 0 where
  pub results : List AffectedPackageIndex
  pub failed : Bool

-- The conditions of the queries.
abbrev pub of_package : String → String → AffectedPackageIndex → Bool
of_package ecosystem name r = r.ecosystem == ecosystem && r.package_name == name

abbrev pub exact : String → String → String → AffectedPackageIndex → Bool
exact ecosystem name version r = of_package ecosystem name r && r.exact_version == version

abbrev pub ranged : String → String → AffectedPackageIndex → Bool
ranged ecosystem name r =
    of_package ecosystem name r && (r.exact_version == "" && not (r.version_constraint == ""))

-- vulnerability_id IN (the ids)
abbrev pub of_vulns : List Vulnerability → AffectedPackageIndex → Bool
of_vulns vulns r = any (λ v. eqb r.vulnerability_id v.id) vulns

module _ (database : Database) where
  abbrev answer : Option (List AffectedPackageIndex) → Answer
  answer none = record { results = []; failed = true }
  answer (some rs) = record { results = rs; failed = false }

  -- FindVulnerabilitiesByPackage
  unfoldable pub find_by_package : String → String → database.Db → Answer
  find_by_package ecosystem name db = answer (database.find_index (of_package ecosystem name) db)

  abbrev with_ranges : Option (List AffectedPackageIndex) → List AffectedPackageIndex → Answer
  with_ranges none rs = record { results = rs; failed = true }
  with_ranges (some ranges) rs = record { results = rs ++ ranges; failed = false }

  abbrev then_ranges :
      Option (List AffectedPackageIndex) → Option (List AffectedPackageIndex) → Answer
  then_ranges none ranges = record { results = []; failed = true }
  then_ranges (some rs) ranges = with_ranges ranges rs

  -- FindVulnerabilitiesByPackageVersion
  unfoldable pub find_by_package_version : String → String → String → database.Db → Answer
  find_by_package_version ecosystem name version db =
      then_ranges (database.find_index (exact ecosystem name version) db)
        (database.find_index (ranged ecosystem name) db)

  abbrev pub create_some : List AffectedPackageIndex → database.Db → Option database.Db
  create_some [] db = some db
  create_some (r ∷ rs) db = database.create_index (r ∷ rs) db

  -- BulkRebuildPackageIndex: one transaction, so `none` stands for the state before it.
  unfoldable pub bulk_rebuild_package_index :
      ConstraintCodec → List Vulnerability → database.Db → Option database.Db
  unfolding build_entries
  bulk_rebuild_package_index codec [] db = some db
  bulk_rebuild_package_index codec (v ∷ vs) db = do
    cleared ← database.delete_index (of_vulns (v ∷ vs)) db
    create_some (build_entries codec (v ∷ vs)) cleared

  -- RebuildPackageIndex
  unfoldable pub rebuild_package_index :
      ConstraintCodec → Vulnerability → database.Db → Option database.Db
  unfolding bulk_rebuild_package_index
  rebuild_package_index codec vuln db = bulk_rebuild_package_index codec (vuln ∷ []) db
