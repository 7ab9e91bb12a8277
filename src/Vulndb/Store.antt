-- ===== src/Vulndb/Store.antt =====
-- internal/vulndb/dal/store.go: the statements that write vulnerabilities, and the deletion of all
-- that hangs on them. The rebuild and the queries of the package index are in Index/Tables.
pub mod States
mod Batches
pub mod Keeping
pub mod Hanging
pub mod Below
pub mod Children
mod Examples
use dependency_guardian.Prelude.{
  ℕ, zero, suc, String, Bool, true, false, ◌&&◌, Option, none, some, List, [], ◌∷◌, ◌++◌, map, any,
  eqb, mem, length, take, drop, if◌then◌else◌, ◌==◌, ◌>>=◌,
}
use dependency_guardian.Prelude.Int.{ℤ, pos, pos_part, leb_ℤ, wrap64, ◌+ℤ◌, ◌-ℤ◌}
use dependency_guardian.Vulndb.Models.{
  Vulnerability, VulnerabilityAlias, VulnerabilityRelated, Severity, Affected, AffectedRange,
  RangeEvent, Reference, Credit,
}
use dependency_guardian.Vulndb.Gorm.{
  Gorm, vulnerability_table, alias_table, related_table, severity_table, affected_table,
  range_table, event_table, reference_table, credit_table, index_table, row, not_found, failed,
  is_live,
}

-- id IN (the ids), for a key and for a key that may be nil.
abbrev pub has_id : List ℕ → ℕ → Bool
has_id ids id = any (λ i. eqb id i) ids

abbrev pub has_some_id : List ℕ → Option ℕ → Bool
has_some_id ids none = false
has_some_id ids (some id) = has_id ids id

-- A size that is not positive stands for the default.
abbrev pub size_or : ℕ → ℤ → ℕ
size_or default size = if leb_ℤ size (pos 0) then default else pos_part size

-- vulns[i:end] for i from 0 by steps of the size, with the rounds that are left.
unfoldable pub batches {ℓ} : {A : Type ℓ} → ℕ → ℕ → List A → List (List A)
batches zero size vulns = []
batches (suc rounds) size [] = []
batches (suc rounds) size (v ∷ vs) = take size (v ∷ vs) ∷ batches rounds size (drop size (v ∷ vs))

-- clearVulnIDs, by the parts of a vulnerability.
abbrev clear_event : RangeEvent → RangeEvent
clear_event e = record e { id = 0; affected_range_id = 0 }

abbrev clear_range : AffectedRange → AffectedRange
clear_range r = record r { id = 0; affected_id = 0; events = map clear_event r.events }

abbrev clear_affected : Affected → Affected
clear_affected a = record a {
  id = 0;
  vulnerability_id = 0;
  severities = map (λ (s : Severity). record s { id = 0; affected_id = none }) a.severities;
  ranges = map clear_range a.ranges;
}

unfoldable pub clear_vuln_ids : Vulnerability → Vulnerability
clear_vuln_ids v = record v {
  id = 0;
  aliases = map (λ (a : VulnerabilityAlias). record a { id = 0; vulnerability_id = 0 }) v.aliases;
  related = map (λ (r : VulnerabilityRelated). record r { id = 0; vulnerability_id = 0 }) v.related;
  severities = map (λ (s : Severity). record s { id = 0; vulnerability_id = 0 }) v.severities;
  references = map (λ (r : Reference). record r { id = 0; vulnerability_id = 0 }) v.references;
  credits = map (λ (c : Credit). record c { id = 0; vulnerability_id = 0 }) v.credits;
  affected = map clear_affected v.affected;
}

module _ (gorm : Gorm) where
  -- if len(rangeIDs) > 0 { delete the events }
  abbrev pub delete_events : List ℕ → gorm.Db → Option gorm.Db
  delete_events [] db = some db
  delete_events (id ∷ ids) db =
      gorm.delete event_table (λ e. has_id (id ∷ ids) e.affected_range_id) db

  -- if len(affectedIDs) > 0 { delete what hangs on the affected packages }
  abbrev pub delete_below : List ℕ → gorm.Db → Option gorm.Db
  delete_below [] db = some db
  delete_below (id ∷ ids) db = do
    let affected_ids = id ∷ ids
    ranges ← gorm.find range_table (λ r. has_id affected_ids r.affected_id) db
    d1 ← delete_events (map (λ r. r.id) ranges) db
    d2 ← gorm.delete range_table (λ r. has_id affected_ids r.affected_id) d1
    gorm.delete severity_table (λ s. has_some_id affected_ids s.affected_id) d2

  -- The deletions by vulnerability_id.
  abbrev pub delete_direct : List ℕ → gorm.Db → Option gorm.Db
  delete_direct ids db = do
    d1 ← gorm.delete affected_table (λ r. has_id ids r.vulnerability_id) db
    d2 ← gorm.delete alias_table (λ r. has_id ids r.vulnerability_id) d1
    d3 ← gorm.delete related_table (λ r. has_id ids r.vulnerability_id) d2
    d4 ← gorm.delete severity_table (λ r. has_id ids r.vulnerability_id) d3
    d5 ← gorm.delete reference_table (λ r. has_id ids r.vulnerability_id) d4
    d6 ← gorm.delete credit_table (λ r. has_id ids r.vulnerability_id) d5
    gorm.delete index_table (λ r. has_id ids r.vulnerability_id) d6

  -- deleteVulnChildrenBatch
  unfoldable pub delete_vuln_children_batch : List ℕ → gorm.Db → Option gorm.Db
  delete_vuln_children_batch [] db = some db
  delete_vuln_children_batch (id ∷ ids) db = do
    affected ← gorm.find affected_table (λ a. has_id (id ∷ ids) a.vulnerability_id) db
    d1 ← delete_below (map (λ a. a.id) affected) db
    delete_direct (id ∷ ids) d1

  -- deleteVulnChildren
  unfoldable pub delete_vuln_children : ℕ → gorm.Db → Option gorm.Db
  unfolding delete_vuln_children_batch
  delete_vuln_children id db = delete_vuln_children_batch (id ∷ []) db

  -- DeleteVulnerabilityByOsvID: one transaction, so `none` stands for the state before it.
  unfoldable pub delete_vulnerability_by_osv_id : String → gorm.Db → Option gorm.Db
  unfolding delete_vuln_children
  delete_vulnerability_by_osv_id osv_id db =
      elim (gorm.first vulnerability_table (λ v. is_live v && v.osv_id == osv_id) db) [
        | row vuln ↦ delete_vuln_children vuln.id db >>= λ d. gorm.soft_delete vuln d
        | not_found ↦ none
        | failed ↦ none
      ]

  -- Delete existing records: children first, then the vulnerabilities.
  abbrev delete_existing : List ℕ → gorm.Db → Option gorm.Db
  delete_existing [] db = some db
  delete_existing (id ∷ ids) db = do
    d ← delete_vuln_children_batch (id ∷ ids) db
    gorm.delete vulnerability_table (λ v. has_id (id ∷ ids) v.id) d

  -- What a batch leaves: the vulnerabilities, which it changes in place, how many existed, and the
  -- state, `none` for an error, behind which the transaction leaves the state before it.
  pub record Batch : Type 0 where
    pub vulns : List Vulnerability
    pub existing : ℕ
    pub db : Option gorm.Db

  abbrev create_batch : List Vulnerability → ℕ → gorm.Db → Batch
  create_batch batch existing db =
      let (vulns, db') = gorm.create_nested (map clear_vuln_ids batch) db in
      record { vulns = vulns; existing = existing; db = db' }

  abbrev replace_existing : List Vulnerability → Option (List Vulnerability) → gorm.Db → Batch
  replace_existing batch none db = record { vulns = batch; existing = 0; db = none }
  replace_existing batch (some existing) db = elim (delete_existing (map (λ v. v.id) existing) db) [
    | none ↦ record { vulns = batch; existing = length existing; db = none }
    | some d ↦ create_batch batch (length existing) d
  ]

  -- The transaction of BulkUpsertVulnerabilities.
  unfoldable pub upsert_batch : List Vulnerability → gorm.Db → Batch
  unfolding delete_vuln_children_batch clear_vuln_ids mem
  upsert_batch batch db =
      let osv_ids = map (λ v. v.osv_id) batch in
      replace_existing batch (gorm.find vulnerability_table (λ v. mem v.osv_id osv_ids) db) db

  -- What BulkUpsertVulnerabilities returns and leaves.
  pub record Upserted : Type 0 where
    pub inserted : ℤ
    pub updated : ℤ
    pub vulns : List Vulnerability
    pub db : gorm.Db
    pub is_failed : Bool

  abbrev concat : List (List Vulnerability) → List Vulnerability
  concat [] = []
  concat (vs ∷ rest) = vs ++ concat rest

  abbrev counted : Upserted → (size : ℕ) → Batch → gorm.Db → Upserted
  counted u size b db = record {
    inserted = wrap64 (u.inserted +ℤ (pos size -ℤ pos b.existing));
    updated = wrap64 (u.updated +ℤ pos b.existing);
    vulns = u.vulns ++ b.vulns;
    db = db;
    is_failed = false;
  }

  -- The loop of BulkUpsertVulnerabilities over the batches that are left.
  unfoldable pub upsert_batches : List (List Vulnerability) → Upserted → Upserted
  unfolding upsert_batch wrap64 ◌+ℤ◌ ◌-ℤ◌
  upsert_batches [] u = u
  upsert_batches (batch ∷ rest) u =
      let b = upsert_batch batch u.db in
      elim b.db [
        | none ↦ record u { vulns = u.vulns ++ (b.vulns ++ concat rest); is_failed = true }
        | some db ↦ upsert_batches rest (counted u (length batch) b db)
      ]

  -- BulkUpsertVulnerabilities
  unfoldable pub bulk_upsert_vulnerabilities : List Vulnerability → ℤ → gorm.Db → Upserted
  unfolding upsert_batches batches
  bulk_upsert_vulnerabilities vulns batch_size db =
      upsert_batches (batches (length vulns) (size_or 100 batch_size) vulns)
        (record { inserted = pos 0; updated = pos 0; vulns = []; db = db; is_failed = false })

  -- UpsertVulnerability: `none` for an error.
  unfoldable pub upsert_vulnerability : Vulnerability → gorm.Db → Option gorm.Db
  unfolding bulk_upsert_vulnerabilities
  upsert_vulnerability vuln db =
      let u = bulk_upsert_vulnerabilities (vuln ∷ []) (pos 1) db in
      if u.is_failed then none else some u.db

  -- GetVulnerabilityByOsvID
  unfoldable pub get_vulnerability_by_osv_id : String → gorm.Db → Option Vulnerability
  get_vulnerability_by_osv_id osv_id db =
      elim (gorm.first vulnerability_table (λ v. is_live v && v.osv_id == osv_id) db) [
        | row vuln ↦ some vuln
        | not_found ↦ none
        | failed ↦ none
      ]
