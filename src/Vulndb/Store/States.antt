-- ===== src/Vulndb/Store/States.antt =====
-- internal/vulndb/dal/store.go: the states and logs of the synchronisation, and the metrics.
use dependency_guardian.Prelude.{
  ℕ, String, Bool, true, false, if◌then◌else◌, ◌&&◌, Option, none, some, List, [], ◌∷◌, map, ◌==◌,
}
use dependency_guardian.Vulndb.Models.{EcosystemSyncState, SyncLog}
use dependency_guardian.Vulndb.Gorm.{
  Gorm, row, not_found, failed, vulnerability_table, index_table, state_table, log_table, is_live,
}

abbrev pub pending_state : String → EcosystemSyncState
pending_state ecosystem = record {
  id = 0;
  ecosystem = ecosystem;
  status = "pending";
  last_full_sync = none;
  last_delta_sync = none;
  last_delta_cursor = "";
  last_error = "";
  last_error_at = none;
  total_vulnerabilities = 0;
  total_affected_entries = 0;
  created_at = 0;
  updated_at = 0;
}

-- The statistics that GetGlobalStats returns under its four keys.
pub record GlobalStats : Type 0 where
  pub total_vulnerabilities : ℕ
  pub total_affected : ℕ
  pub total_malicious : ℕ
  pub ecosystems_tracked : ℕ

module _ (gorm : Gorm) where
  abbrev one_created :
      Option (List EcosystemSyncState × gorm.Db) → Option (EcosystemSyncState × gorm.Db)
  one_created none = none
  one_created (some ([], db)) = none
  one_created (some (state ∷ states, db)) = some (state, db)

  -- GetOrCreateSyncState: `none` for an error.
  unfoldable pub get_or_create_sync_state : String → gorm.Db → Option (EcosystemSyncState × gorm.Db)
  get_or_create_sync_state ecosystem db =
      elim (gorm.first state_table (λ s. s.ecosystem == ecosystem) db) [
        | row state ↦ some (state, db)
        | not_found ↦ one_created (gorm.create state_table (pending_state ecosystem ∷ []) db)
        | failed ↦ none
      ]

  -- UpdateSyncState, with the row as the statement leaves it.
  unfoldable pub update_sync_state :
      EcosystemSyncState → gorm.Db → Option (EcosystemSyncState × gorm.Db)
  update_sync_state state db = gorm.save state_table state db

  -- ListSyncStates, but for its order.
  unfoldable pub list_sync_states : gorm.Db → Option (List EcosystemSyncState)
  list_sync_states db = gorm.find state_table (λ s. true) db

  -- CreateSyncLog, with the log as the statement leaves it.
  unfoldable pub create_sync_log : SyncLog → gorm.Db → Option (List SyncLog × gorm.Db)
  create_sync_log log db = gorm.create log_table (log ∷ []) db

  -- CompleteSyncLog at a time.
  unfoldable pub complete_sync_log : ℕ → SyncLog → gorm.Db → Option (SyncLog × gorm.Db)
  complete_sync_log now log db = gorm.save log_table (record log { completed_at = some now }) db

  -- A count whose error is not looked at.
  abbrev or_zero : Option ℕ → ℕ
  or_zero none = 0
  or_zero (some n) = n

  abbrev counted : String → EcosystemSyncState → gorm.Db → EcosystemSyncState
  counted ecosystem state db = record state {
    total_vulnerabilities =
        or_zero
          (gorm.count vulnerability_table (λ v. is_live v && v.source_ecosystem == ecosystem) db);
    total_affected_entries = or_zero (gorm.count index_table (λ r. r.ecosystem == ecosystem) db);
  }

  abbrev saved : gorm.Db → Option (EcosystemSyncState × gorm.Db) → gorm.Db × Bool
  saved db none = (db, false)
  saved db (some (state, db')) = (db', true)

  -- UpdateEcosystemMetrics: the database behind it, and whether it succeeded.
  unfoldable pub update_ecosystem_metrics : String → gorm.Db → gorm.Db × Bool
  unfolding get_or_create_sync_state update_sync_state
  update_ecosystem_metrics ecosystem db = elim (get_or_create_sync_state ecosystem db) [
    | none ↦ (db, false)
    | some (state, d) ↦ saved d (update_sync_state (counted ecosystem state d) d)
  ]

  -- The loop of UpdateAllMetrics: an ecosystem that fails ends it.
  unfoldable pub update_each : List String → gorm.Db → gorm.Db × Bool
  unfolding update_ecosystem_metrics
  update_each [] db = (db, true)
  update_each (ecosystem ∷ ecosystems) db =
      let (d, succeeded) = update_ecosystem_metrics ecosystem db in
      let rest = update_each ecosystems d in if succeeded then rest else (d, false)

  -- UpdateAllMetrics: the database behind it, and whether it succeeded.
  unfoldable pub update_all_metrics : gorm.Db → gorm.Db × Bool
  unfolding update_each
  update_all_metrics db = elim (gorm.find state_table (λ s. true) db) [
    | none ↦ (db, false)
    | some states ↦ update_each (map (λ s. s.ecosystem) states) db
  ]

  -- GetGlobalStats
  unfoldable pub get_global_stats : gorm.Db → GlobalStats
  get_global_stats db = record {
    total_vulnerabilities = or_zero (gorm.count vulnerability_table is_live db);
    total_affected = or_zero (gorm.count index_table (λ r. true) db);
    total_malicious = or_zero (gorm.count index_table (λ r. r.is_malicious) db);
    ecosystems_tracked = or_zero (gorm.count state_table (λ s. true) db);
  }
