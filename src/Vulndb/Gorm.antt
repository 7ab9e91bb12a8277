-- ===== src/Vulndb/Gorm.antt =====
-- The database of internal/vulndb/dal/store.go as GORM gives it: the statements that the store uses,
-- by table, and what the program relies on.
use dependency_guardian.Prelude.{
  ℕ, ◌≡◌, ◌≢◌, ◌↔◌, Bool, true, false, ◌&&◌, mem, Option, none, some, List, Elem,
}
use dependency_guardian.Vulndb.Models.{
  Vulnerability, VulnerabilityAlias, VulnerabilityRelated, Severity, Affected, AffectedRange,
  RangeEvent, Reference, Credit, AffectedPackageIndex, EcosystemSyncState, SyncLog,
}
use dependency_guardian.Vulndb.Index.Tables.{Database}

-- The tables, one for each model.
pub data Table : Type 0 where
  vulnerability_table : Table
  alias_table : Table
  related_table : Table
  severity_table : Table
  affected_table : Table
  range_table : Table
  event_table : Table
  reference_table : Table
  credit_table : Table
  index_table : Table
  state_table : Table
  log_table : Table

abbrev pub Row : Table → Type 0
Row vulnerability_table = Vulnerability
Row alias_table = VulnerabilityAlias
Row related_table = VulnerabilityRelated
Row severity_table = Severity
Row affected_table = Affected
Row range_table = AffectedRange
Row event_table = RangeEvent
Row reference_table = Reference
Row credit_table = Credit
Row index_table = AffectedPackageIndex
Row state_table = EcosystemSyncState
Row log_table = SyncLog

-- The answer of a query for one row: gorm.ErrRecordNotFound is told from other errors.
pub data Found (A : Type 0) : Type 0 where
  row : A → Found A
  not_found : Found A
  failed : Found A

-- The statements, by a condition on the rows of a table. `none` is an error, and leaves the state of a
-- transaction as it was. `rows` is the contents, also of soft-deleted vulnerabilities, which only
-- statements look at. `create_nested` creates vulnerabilities with the rows nested in them, and
-- returns them as it leaves them, with the keys that the database gives; `save` writes a row by its key.
pub record Gorm : Type 1 where
  pub Db : Type 0
  pub rows : (t : Table) → Db → List (Row t)
  pub find : (t : Table) → (Row t → Bool) → Db → Option (List (Row t))
  pub first : (t : Table) → (Row t → Bool) → Db → Found (Row t)
  pub count : (t : Table) → (Row t → Bool) → Db → Option ℕ
  pub delete : (t : Table) → (Row t → Bool) → Db → Option Db
  pub soft_delete : Vulnerability → Db → Option Db
  pub create : (t : Table) → List (Row t) → Db → Option (List (Row t) × Db)
  pub create_nested : List Vulnerability → Db → List Vulnerability × Option Db
  pub save : (t : Table) → Row t → Db → Option (Row t × Db)

-- The condition on the rows of all tables that a condition on the rows of one table is.
abbrev pub on : (t : Table) → (Row t → Bool) → (u : Table) → Row u → Bool
on vulnerability_table p vulnerability_table r = p r
on alias_table p alias_table r = p r
on related_table p related_table r = p r
on severity_table p severity_table r = p r
on affected_table p affected_table r = p r
on range_table p range_table r = p r
on event_table p event_table r = p r
on reference_table p reference_table r = p r
on credit_table p credit_table r = p r
on index_table p index_table r = p r
on state_table p state_table r = p r
on log_table p log_table r = p r
on _ p _ r = false

-- The foreign keys that internal/vulndb/models/models.go declares with OnDelete:CASCADE: the second
-- row refers to the first.
pub data RefersTo : (s u : Table) → Row s → Row u → Type 0 where
  alias_of :
      {v : Vulnerability} {r : VulnerabilityAlias}
      → r.vulnerability_id ≡ v.id
      → RefersTo vulnerability_table alias_table v r
  related_of :
      {v : Vulnerability} {r : VulnerabilityRelated}
      → r.vulnerability_id ≡ v.id
      → RefersTo vulnerability_table related_table v r
  severity_of :
      {v : Vulnerability} {r : Severity}
      → r.vulnerability_id ≡ v.id
      → RefersTo vulnerability_table severity_table v r
  affected_of :
      {v : Vulnerability} {r : Affected}
      → r.vulnerability_id ≡ v.id
      → RefersTo vulnerability_table affected_table v r
  reference_of :
      {v : Vulnerability} {r : Reference}
      → r.vulnerability_id ≡ v.id
      → RefersTo vulnerability_table reference_table v r
  credit_of :
      {v : Vulnerability} {r : Credit}
      → r.vulnerability_id ≡ v.id
      → RefersTo vulnerability_table credit_table v r
  range_of :
      {a : Affected} {r : AffectedRange}
      → r.affected_id ≡ a.id
      → RefersTo affected_table range_table a r
  affected_severity_of :
      {a : Affected} {r : Severity}
      → r.affected_id ≡ some a.id
      → RefersTo affected_table severity_table a r
  event_of :
      {g : AffectedRange} {r : RangeEvent}
      → r.affected_range_id ≡ g.id
      → RefersTo range_table event_table g r

module _ (gorm : Gorm) (db : gorm.Db) (t : Table) (p : Row t → Bool) where
  -- A row that the deletion of the rows of a table under a condition may take: one of them, or, by a
  -- cascade, one that refers to a row that it may take.
  pub data MayGo : (u : Table) → Row u → Type 0 where
    direct : {u : Table} {r : Row u} → Elem r (gorm.rows u db) → on t p u r ≡ true → MayGo u r
    cascade :
        {s u : Table} {x : Row s} {r : Row u}
        → Elem x (gorm.rows s db)
        → MayGo s x
        → RefersTo s u x r
        → MayGo u r

-- What the program relies on of queries and deletions: a query that succeeds returns the rows that
-- meet its condition, in any order; a deletion adds no row, takes the rows of its table that meet its
-- condition, and takes no other row but by a cascade, which a database may or may not enforce; a soft
-- deletion changes the table of the vulnerabilities only.
pub record IsSql (gorm : Gorm) : Type 0 where
  pub find_lem :
      (t : Table) (p : Row t → Bool) (db : gorm.Db) (rs : List (Row t))
      → gorm.find t p db ≡ some rs
      → (r : Row t) → Elem r rs ↔ (Elem r (gorm.rows t db) × (p r ≡ true))
  pub delete_adds_nothing :
      (t : Table) (p : Row t → Bool) (db db' : gorm.Db)
      → gorm.delete t p db ≡ some db'
      → (u : Table) (r : Row u) → Elem r (gorm.rows u db')
      → Elem r (gorm.rows u db)
  pub delete_takes :
      (t : Table) (p : Row t → Bool) (db db' : gorm.Db)
      → gorm.delete t p db ≡ some db'
      → (u : Table) (r : Row u) → Elem r (gorm.rows u db')
      → on t p u r ≡ false
  pub delete_leaves :
      (t : Table) (p : Row t → Bool) (db db' : gorm.Db)
      → gorm.delete t p db ≡ some db'
      → (u : Table) (r : Row u) → Elem r (gorm.rows u db)
      → ¬ MayGo gorm db t p u r
      → Elem r (gorm.rows u db')
  pub soft_delete_lem :
      (v : Vulnerability) (db db' : gorm.Db)
      → gorm.soft_delete v db ≡ some db'
      → (u : Table) → u ≢ vulnerability_table
      → gorm.rows u db' ≡ gorm.rows u db

-- A vulnerability that is not soft-deleted, as the queries of GORM see it.
abbrev pub is_live : Vulnerability → Bool
is_live v = elim v.deleted_at [ none ↦ true | some t ↦ false ]

-- The index table as the package index uses it.
abbrev created : {A D : Type 0} → Option (A × D) → Option D
created none = none
created (some (rows, db)) = some db

abbrev pub index_database : Gorm → Database
index_database gorm = record {
  Db = gorm.Db;
  rows = gorm.rows index_table;
  vulns = gorm.rows vulnerability_table;
  find_index = gorm.find index_table;
  find_vulns = λ ids db. gorm.find vulnerability_table (λ v. is_live v && mem v.osv_id ids) db;
  delete_index = gorm.delete index_table;
  create_index = λ rs db. created (gorm.create index_table rs db);
}
