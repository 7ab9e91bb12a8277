-- ===== src/Guardian.antt =====
-- cmd/guardian/main.go: the configuration that the program runs with, and the server that it starts.
-- Flags are read, the logger is set up, and signals are awaited by Go's library.
pub mod Running
mod Examples
use dependency_guardian.Prelude.{
  ℕ, String, Bool, true, not, ◌||◌, Option, none, some, List, [], ◌∷◌, if◌then◌else◌, ◌==◌, ◌>>=◌,
}
use dependency_guardian.Prelude.Int.{pos}
use dependency_guardian.Config.{
  Config, VulnDbConfig, ConfigError, Files, default_config, load_from_file, validate,
}
use dependency_guardian.Decisions.{new_log}
use dependency_guardian.Policy.{new_engine}
use dependency_guardian.Proxy.Server.{Environment, State}

-- The flags of the command line.
pub record Flags : Type 0 where
  pub config : String
  pub policies : String
  pub vscode : Bool
  pub addr : String

-- In VS Code mode, override settings for local development use.
abbrev pub local_config : String → Config → Config
local_config policies_dir cfg =
    let db = cfg.vuln_db in
    let own_dsn = db.dsn == "" || db.dsn == "host=localhost" in
    let directory = cfg.policies.directory in
    record cfg {
      vuln_db = record db {
        enabled = true;
        driver = "sqlite";
        dsn = if own_dsn then "./guardian-vscode.sqlite" else db.dsn;
      };
      policies = record {
        directory =
            if not (policies_dir == "")
            then policies_dir
            else if directory == "./policies"
            then "./bin/policies"
            else directory;
      };
    }

abbrev pub or_default : Option Config → Config
or_default none = default_config
or_default (some cfg) = cfg

-- The configuration that the program validates.
unfoldable pub effective_config : Files → Flags → Config
unfolding load_from_file
effective_config files flags =
    let loaded = or_default (load_from_file files flags.config) in
    let cfg = if flags.vscode then local_config flags.policies loaded else loaded in
    if not (flags.addr == "")
    then record cfg { server = record (cfg.server) { listen_addr = flags.addr } }
    else cfg

module _ (env : Environment) (open_db : VulnDbConfig → Option env.gorm.Db) where
  -- The program exits with an error, or serves with a configuration from a state.
  pub data Started : Type 0 where
    invalid : List ConfigError → Started
    failed : Started
    serving : Config → State env → Started

  abbrev pub opened : Option env.gorm.Db → Option (Option env.gorm.Db)
  opened none = none
  opened (some db) = some (some db)

  -- Initialise the vulnerability database.
  abbrev pub database_of : VulnDbConfig → Option (Option env.gorm.Db)
  database_of cfg = if cfg.enabled then opened (open_db cfg) else some none

  -- Initialise the engine and the database, and create the log in VS Code mode.
  abbrev pub initial_state : Flags → Config → (now : ℕ) → Option (State env)
  initial_state flags cfg now = do
    engine ← new_engine env.services.opa (env.visits cfg.policies.directory)
    db ← database_of cfg.vuln_db
    some (record {
      engine = engine;
      log = if flags.vscode then some (new_log (pos 2000) now) else none;
      db = db;
    })

  abbrev pub started_of : Config → Option (State env) → Started
  started_of cfg none = failed
  started_of cfg (some s) = serving cfg s

  abbrev pub validated : Flags → Config → ℕ → List ConfigError → Started
  validated flags cfg now (e ∷ es) = invalid (e ∷ es)
  validated flags cfg now [] = started_of cfg (initial_state flags cfg now)

  -- main, up to the server that it starts.
  unfoldable pub main : Files → Flags → (now : ℕ) → Started
  unfolding effective_config validate new_engine new_log
  main files flags now =
      let cfg = effective_config files flags in validated flags cfg now (validate cfg)
