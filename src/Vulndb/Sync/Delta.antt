-- ===== src/Vulndb/Sync/Delta.antt =====
-- internal/vulndb/sync/syncer.go: the delta of one ecosystem, and of all that are synchronised.
use dependency_guardian.Prelude.{
  ℕ, String, Bool, true, false, not, ◌&&◌, ◌||◌, Option, none, some, List, [], ◌∷◌, ◌++◌, filter,
  length, less, mem, if◌then◌else◌, ◌==◌, ◌>>=◌,
}
use dependency_guardian.Prelude.Int.{ℤ, pos, wrap64}
use dependency_guardian.Http.{◌^^◌}
use dependency_guardian.Vulndb.Models.{Vulnerability, EcosystemSyncState, SyncLog}
use dependency_guardian.Vulndb.Parser.{RawVulnerability, parse_json}
use dependency_guardian.Vulndb.Index.{ConstraintCodec}
use dependency_guardian.Vulndb.Index.Tables.{bulk_rebuild_package_index}
use dependency_guardian.Vulndb.Gorm.{Gorm, index_database}
use dependency_guardian.Vulndb.Store.{bulk_upsert_vulnerabilities}
use dependency_guardian.Vulndb.Store.States.{
  get_or_create_sync_state, update_sync_state, create_sync_log, complete_sync_log,
}
use dependency_guardian.Vulndb.Sync.{Web, ModifiedEntry, download_file, parse_modified_csv}

-- What the decoding of a record relies on: time.Parse by layout, and json.Unmarshal.
pub record Decoding : Type 0 where
  pub time_parse : String → String → Option ℕ
  pub unmarshal : String → Option RawVulnerability
  pub codec : ConstraintCodec

-- if vuln.SourceEcosystem == "" { vuln.SourceEcosystem = ecosystem }
abbrev pub with_source : String → Vulnerability → Vulnerability
with_source ecosystem v =
    if v.source_ecosystem == "" then record v { source_ecosystem = ecosystem } else v

-- DefaultEcosystems
abbrev pub default_ecosystems : List String
default_ecosystems = "npm" ∷ "PyPI" ∷ "Go" ∷ []

-- GetTargetEcosystems, by the ecosystems of the configuration.
unfoldable pub get_target_ecosystems : List String → List String
get_target_ecosystems [] = default_ecosystems
get_target_ecosystems (e ∷ es) = e ∷ es

-- Is an entry newer than a cursor?
abbrev pub is_new : String → ModifiedEntry → Bool
is_new cursor e = cursor == "" || less cursor e.modified_date

-- The entries newer than the cursor of the last delta.
unfoldable pub new_entries : String → List ModifiedEntry → List ModifiedEntry
unfolding less
new_entries cursor entries = filter (is_new cursor) entries

-- The cursor behind a delta whose latest fetched entry has a date, or "" where none was fetched.
unfoldable pub next_cursor : (cursor latest : String) → String
next_cursor cursor latest = if latest == "" then cursor else latest

-- A log as it is started.
abbrev pub started_log : String → String → ℕ → SyncLog
started_log ecosystem kind now = record {
  id = 0;
  ecosystem = ecosystem;
  sync_type = kind;
  status = "started";
  started_at = now;
  completed_at = none;
  records_processed = pos 0;
  records_inserted = pos 0;
  records_updated = pos 0;
  records_deleted = pos 0;
  error_message = "";
}

-- A log as it is completed.
abbrev pub completed_log : SyncLog → (processed inserted updated : ℤ) → SyncLog
completed_log log processed inserted updated = record log {
  status = "completed";
  records_processed = processed;
  records_inserted = inserted;
  records_updated = updated;
}

-- A statement whose error is not looked at.
abbrev pub with_log : {Db : Type 0} → SyncLog → Db → Option (List SyncLog × Db) → SyncLog × Db
with_log log db none = (log, db)
with_log log db (some ([], db')) = (log, db')
with_log log db (some (l ∷ ls, db')) = (l, db')

abbrev pub with_row : {A Db : Type 0} → A → Db → Option (A × Db) → A × Db
with_row a db none = (a, db)
with_row a db (some r) = r

abbrev pub or_before : {Db : Type 0} → Db → Option Db → Db
or_before db none = db
or_before db (some db') = db'

module _ (web : Web) (decoding : Decoding) where
  -- fetchVulnerability: `none` for an error.
  unfoldable pub fetch_vulnerability :
      (ecosystem_dir id : String) → web.World → Option Vulnerability × web.World
  unfolding download_file parse_json
  fetch_vulnerability ecosystem_dir id w =
      let (data_read, w') = download_file web ("https://api.osv.dev/v1/vulns/" ^^ id) w in
      (
        (data_read >>= parse_json decoding.time_parse decoding.unmarshal)
            >>= (λ v. some (with_source ecosystem_dir v)),
        w',
      )

  -- What the loop over the new entries has gathered.
  pub record Fetched : Type 0 where
    pub vulns : List Vulnerability
    pub latest : String
    pub world : web.World

  -- One round of the loop, behind its fetch: an entry that was not fetched is passed over.
  abbrev pub gather : ModifiedEntry → Fetched → Option Vulnerability × web.World → Fetched
  gather e f (none, w) = record f { world = w }
  gather e f (some v, w) = record {
    vulns = f.vulns ++ v ∷ [];
    latest = if less f.latest e.modified_date then e.modified_date else f.latest;
    world = w;
  }

  unfoldable pub fetch_entries : List ModifiedEntry → Fetched → Fetched
  unfolding fetch_vulnerability less
  fetch_entries [] f = f
  fetch_entries (e ∷ es) f =
      fetch_entries es (gather e f (fetch_vulnerability e.ecosystem_dir e.id f.world))

  abbrev pub nothing_fetched : web.World → Fetched
  nothing_fetched w = record { vulns = []; latest = ""; world = w }

module _ (web : Web) (decoding : Decoding) (gorm : Gorm) where
  -- The counts and the database behind the batch upsert and the rebuild of the index: their errors
  -- only show in the log.
  pub record Stored : Type 0 where
    pub inserted : ℤ
    pub updated : ℤ
    pub db : gorm.Db

  -- if len(fetched) > 0 { … }
  unfoldable pub store_fetched : List Vulnerability → gorm.Db → Stored
  unfolding bulk_upsert_vulnerabilities bulk_rebuild_package_index
  store_fetched [] db = record { inserted = pos 0; updated = pos 0; db = db }
  store_fetched (v ∷ vs) db =
      let u = bulk_upsert_vulnerabilities gorm (v ∷ vs) (pos 100) db in
      record {
        inserted = if u.is_failed then pos 0 else u.inserted;
        updated = if u.is_failed then pos 0 else u.updated;
        db =
            or_before u.db
              (bulk_rebuild_package_index (index_database gorm) decoding.codec u.vulns u.db);
      }

  -- The rest of applyDeltaForEcosystem, with the state of the ecosystem and its new entries.
  unfoldable pub apply_new :
      String → EcosystemSyncState → List ModifiedEntry → gorm.Db → web.World → gorm.Db × web.World
  unfolding create_sync_log fetch_entries store_fetched next_cursor update_sync_state
      complete_sync_log wrap64
  apply_new ecosystem state entries db w =
      let started = started_log ecosystem "delta" (web.now w) in
      let (log, d1) = with_log started db (create_sync_log gorm started db) in
      let f = fetch_entries web decoding entries (nothing_fetched web decoding w) in
      let s = store_fetched f.vulns d1 in
      let state' = record state {
        last_delta_cursor = next_cursor state.last_delta_cursor f.latest;
        last_delta_sync = some (web.now f.world);
      } in
      let (row, d2) = with_row state' s.db (update_sync_state gorm state' s.db) in
      let done = completed_log log (wrap64 (pos (length entries))) s.inserted s.updated in
      let (log', d3) = with_row done d2 (complete_sync_log gorm (web.now f.world) done d2) in
      (d3, f.world)

  -- What applyDeltaForEcosystem leaves, and whether it returned an error.
  pub record Applied : Type 0 where
    pub db : gorm.Db
    pub world : web.World
    pub is_failed : Bool

  abbrev with_new : String → EcosystemSyncState → List ModifiedEntry → gorm.Db → web.World → Applied
  with_new ecosystem state [] db w = record { db = db; world = w; is_failed = false }
  with_new ecosystem state (e ∷ es) db w =
      let (db', w') = apply_new ecosystem state (e ∷ es) db w in
      record { db = db'; world = w'; is_failed = false }

  -- applyDeltaForEcosystem
  unfoldable pub apply_delta_for_ecosystem :
      String → List ModifiedEntry → gorm.Db → web.World → Applied
  unfolding get_or_create_sync_state new_entries apply_new
  apply_delta_for_ecosystem ecosystem entries db w =
      elim (get_or_create_sync_state gorm ecosystem db) [
        | none ↦ record { db = db; world = w; is_failed = true }
        | some (state, d) ↦
            with_new ecosystem state (new_entries state.last_delta_cursor entries) d w
      ]

  -- The loop of DeltaSync over the groups that are left: an error is logged.
  unfoldable pub apply_groups :
      List ModifiedEntry → (ecosystems : List String) → gorm.Db → web.World → gorm.Db × web.World
  unfolding apply_delta_for_ecosystem
  apply_groups entries [] db w = (db, w)
  apply_groups entries (eco ∷ ecos) db w =
      let a = apply_delta_for_ecosystem eco (filter (λ e. e.ecosystem_dir == eco) entries) db w in
      apply_groups entries ecos a.db a.world

  -- The keys of byEcosystem.
  unfoldable pub group_names : List String → List ModifiedEntry → List String
  unfolding mem
  group_names targets [] = []
  group_names targets (e ∷ es) =
      let rest = group_names targets es in
      if mem e.ecosystem_dir targets && not (mem e.ecosystem_dir rest)
      then e.ecosystem_dir ∷ rest
      else rest

  -- DeltaSync behind the parse of the feed.
  abbrev with_entries :
      List String
      → (visit : List String → List String) → Option (List ModifiedEntry)
      → gorm.Db
      → web.World
      → gorm.Db × web.World × Bool
  with_entries targets visit none db w = (db, w, false)
  with_entries targets visit (some entries) db w =
      let (db', w') = apply_groups entries (visit (group_names targets entries)) db w in
      (db', w', true)

  -- DeltaSync, by the ecosystems of the configuration; a map is visited in the order that `visit`
  -- gives its keys. The last component tells whether it succeeded.
  unfoldable pub delta_sync :
      (configured : List String) (visit : List String → List String)
      → gorm.Db
      → web.World
      → gorm.Db × web.World × Bool
  unfolding get_target_ecosystems download_file parse_modified_csv group_names apply_groups
  delta_sync configured visit db w =
      let targets = get_target_ecosystems configured in
      let (csv, w1) =
        download_file web "https://storage.googleapis.com/osv-vulnerabilities/modified_id.csv" w in
      elim csv [
        | none ↦ (db, w1, false)
        | some text ↦ with_entries targets visit (parse_modified_csv text) db w1
      ]
