-- ===== src/Vulndb/Sync/Seeding.antt =====
-- internal/vulndb/sync/syncer.go: the full synchronisation of an ecosystem from its archive.
use dependency_guardian.Prelude.{
  ℕ, suc, String, Bool, true, false, not, ◌||◌, Option, none, some, List, [], ◌∷◌, ◌++◌, length,
  has_suffix, if◌then◌else◌, ◌>>=◌,
}
use dependency_guardian.Prelude.Int.{ℤ, pos, wrap64}
use dependency_guardian.Http.{◌^^◌}
use dependency_guardian.Vulndb.Models.{Vulnerability, EcosystemSyncState, SyncLog}
use dependency_guardian.Vulndb.Parser.{parse_json}
use dependency_guardian.Vulndb.Index.Tables.{bulk_rebuild_package_index}
use dependency_guardian.Vulndb.Gorm.{Gorm, index_database}
use dependency_guardian.Vulndb.Store.{bulk_upsert_vulnerabilities, batches, size_or}
use dependency_guardian.Vulndb.Store.States.{
  get_or_create_sync_state, update_sync_state, create_sync_log, complete_sync_log,
  update_ecosystem_metrics,
}
use dependency_guardian.Vulndb.Sync.{Web, download_file}
use dependency_guardian.Vulndb.Sync.Delta.{
  Decoding, with_source, started_log, completed_log, with_log, with_row, or_before,
}

-- A file of an archive as archive/zip gives it; no content where it cannot be opened or read.
pub record ZipFile : Type 0 where
  pub name : String
  pub is_dir : Bool
  pub content : Option String

-- What parseZip returns when the archive can be opened.
pub record Unpacked : Type 0 where
  pub vulns : List Vulnerability
  pub parse_errors : ℕ

-- The files that the loop of parseZip does not pass over.
abbrev pub is_record : ZipFile → Bool
is_record f = not (f.is_dir || not (has_suffix f.name ".json"))

module _ (decoding : Decoding) (ecosystem : String) where
  -- One file of the loop: a file that cannot be read or parsed counts as an error.
  abbrev pub unpack_one : Unpacked → Option Vulnerability → Unpacked
  unpack_one u none = record u { parse_errors = suc u.parse_errors }
  unpack_one u (some v) = record u { vulns = u.vulns ++ with_source ecosystem v ∷ [] }

  unfoldable pub unpack_files : List ZipFile → Unpacked → Unpacked
  unfolding parse_json has_suffix
  unpack_files [] u = u
  unpack_files (f ∷ fs) u = unpack_files fs (
      if not (is_record f)
      then u
      else unpack_one u (f.content >>= parse_json decoding.time_parse decoding.unmarshal))

  -- parseZip, by what zip.NewReader gives.
  unfoldable pub parse_zip : Option (List ZipFile) → Option Unpacked
  unfolding unpack_files
  parse_zip none = none
  parse_zip (some files) = some (unpack_files files (record { vulns = []; parse_errors = 0 }))

-- The errors that a full synchronisation records, whose texts `text_of` gives.
pub data Failure : Type 0 where
  download_failed : (url : String) → Failure
  zip_failed : Failure
  upsert_failed : Failure

module _ (web : Web) (decoding : Decoding) (gorm : Gorm) where
  -- zip.NewReader, and the texts of the errors.
  pub record Archives : Type 0 where
    pub open_zip : String → Option (List ZipFile)
    pub text_of : Failure → String

  -- What SeedEcosystem leaves, and whether it returned an error.
  pub record Seeded : Type 0 where
    pub db : gorm.Db
    pub world : web.World
    pub is_failed : Bool

  -- recordSyncError
  unfoldable pub record_sync_error : EcosystemSyncState → SyncLog → String → ℕ → gorm.Db → gorm.Db
  unfolding update_sync_state complete_sync_log
  record_sync_error state log message now db =
      let state' = record state {
        status = "error";
        last_error = message;
        last_error_at = some now;
      } in
      let (row, d1) = with_row state' db (update_sync_state gorm state' db) in
      let log' = record log { status = "failed"; error_message = message } in
      let (row', d2) = with_row log' d1 (complete_sync_log gorm now log' d1) in d2

  -- Rebuild package index in batches: an error is logged.
  unfoldable pub rebuild_batches : List (List Vulnerability) → gorm.Db → gorm.Db
  unfolding bulk_rebuild_package_index
  rebuild_batches [] db = db
  rebuild_batches (batch ∷ rest) db =
      rebuild_batches rest
        (or_before db (bulk_rebuild_package_index (index_database gorm) decoding.codec batch db))

  -- The end of SeedEcosystem, behind the upsert of the vulnerabilities.
  unfoldable pub finish_seed :
      (ecosystem : String)
      → EcosystemSyncState
      → SyncLog
      → (total : ℕ) (inserted updated : ℤ) (now : ℕ) → gorm.Db
      → gorm.Db
  unfolding update_sync_state complete_sync_log update_ecosystem_metrics wrap64
  finish_seed ecosystem state log total inserted updated now db =
      let state' = record state {
        status = "synced";
        last_full_sync = some now;
        last_error = "";
        last_error_at = none;
      } in
      let (row, d1) = with_row state' db (update_sync_state gorm state' db) in
      let log' = completed_log log (wrap64 (pos total)) inserted updated in
      let (row', d2) = with_row log' d1 (complete_sync_log gorm now log' d1) in
      let (d3, succeeded) = update_ecosystem_metrics gorm ecosystem d2 in d3

  module _ (archives : Archives) (batch_size : ℤ) (ecosystem : String) where
    -- SeedEcosystem from the parsed archive.
    abbrev seed_unpacked :
        EcosystemSyncState → SyncLog → Option Unpacked → gorm.Db → web.World → Seeded
    seed_unpacked state log none db w = record {
      db = record_sync_error state log (archives.text_of zip_failed) (web.now w) db;
      world = w;
      is_failed = true;
    }
    seed_unpacked state log (some u) db w =
        let size = size_or 100 batch_size in
        let up = bulk_upsert_vulnerabilities gorm u.vulns (pos size) db in
        if up.is_failed
        then record {
          db = record_sync_error state log (archives.text_of upsert_failed) (web.now w) up.db;
          world = w;
          is_failed = true;
        }
        else record {
          db =
              finish_seed ecosystem state log (length u.vulns) up.inserted up.updated (web.now w)
                (rebuild_batches (batches (length up.vulns) size up.vulns) up.db);
          world = w;
          is_failed = false;
        }

    -- SeedEcosystem from the downloaded archive.
    abbrev seed_downloaded :
        String → EcosystemSyncState → SyncLog → Option String × web.World → gorm.Db → Seeded
    seed_downloaded url state log (none, w) db = record {
      db = record_sync_error state log (archives.text_of (download_failed url)) (web.now w) db;
      world = w;
      is_failed = true;
    }
    seed_downloaded url state log (some zip, w) db =
        seed_unpacked state log (parse_zip decoding ecosystem (archives.open_zip zip)) db w

    abbrev seed_state : EcosystemSyncState → gorm.Db → web.World → Seeded
    seed_state state db w =
        let syncing = record state { status = "syncing" } in
        let (state', d1) = with_row syncing db (update_sync_state gorm syncing db) in
        let started = started_log ecosystem "full" (web.now w) in
        let (log, d2) = with_log started d1 (create_sync_log gorm started d1) in
        let url =
          "https://storage.googleapis.com/osv-vulnerabilities/" ^^ ecosystem ^^ "/all.zip" in
        seed_downloaded url state' log (download_file web url w) d2

    -- SeedEcosystem
    unfoldable pub seed_ecosystem : gorm.Db → web.World → Seeded
    unfolding get_or_create_sync_state update_sync_state create_sync_log download_file parse_zip
        bulk_upsert_vulnerabilities batches record_sync_error rebuild_batches finish_seed
    seed_ecosystem db w = elim (get_or_create_sync_state gorm ecosystem db) [
      | none ↦ record { db = db; world = w; is_failed = true }
      | some (state, d) ↦ seed_state state d w
    ]
