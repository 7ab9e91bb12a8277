-- ===== src/Config.antt =====
-- internal/config/config.go: the configuration, its defaults, its file and its validation. The rule
-- types are in Rewrite. Durations are numbers of nanoseconds.
mod Examples
use dependency_guardian.Prelude.{
  ℕ, ◌*◌, String, Bool, false, not, ◌&&◌, ◌||◌, Option, none, some, List, [], ◌∷◌, ◌++◌,
  if◌then◌else◌, ◌==◌, ◌>>=◌, contains, cut_last, cut_char, has_prefix, skip,
}
use dependency_guardian.Prelude.Int.{ℤ, pos, ltb_ℤ}
use dependency_guardian.Prelude.Paths.{is_abs, dir, join}
use dependency_guardian.Http.{◌^^◌}
use dependency_guardian.Rewrite.{RewriteRule}

pub record RewriteConfig : Type 0 where
  pub rules : List RewriteRule

pub record VulnDbConfig : Type 0 where
  pub enabled : Bool
  pub driver : String
  pub dsn : String
  pub max_open_conns : ℤ
  pub max_idle_conns : ℤ
  pub conn_max_lifetime : ℤ
  pub log_level : String

pub record SyncConfig : Type 0 where
  pub enabled : Bool
  pub ecosystems : List String
  pub full_sync_interval : ℤ
  pub delta_sync_interval : ℤ
  pub metrics_interval : ℤ
  pub batch_size : ℤ
  pub workers : ℤ
  pub seed_on_start : Bool

pub record ServerConfig : Type 0 where
  pub listen_addr : String
  pub read_timeout : ℤ
  pub write_timeout : ℤ
  pub max_request_body : ℤ
  pub admin_token : String

pub record UpstreamConfig : Type 0 where
  pub npm : String
  pub pypi : String
  pub go : String
  pub maven : String

pub record PoliciesConfig : Type 0 where
  pub directory : String

pub record LoggingConfig : Type 0 where
  pub level : String
  pub format : String

pub record Config : Type 0 where
  pub server : ServerConfig
  pub upstreams : UpstreamConfig
  pub policies : PoliciesConfig
  pub logging : LoggingConfig
  pub vuln_db : VulnDbConfig
  pub sync : SyncConfig
  pub rewrites_file : String
  pub rewrites : RewriteConfig

abbrev seconds : ℕ → ℤ
seconds n = pos (n * 1000000000)

-- DefaultConfig
abbrev pub default_config : Config
default_config = record {
  server = record {
    listen_addr = ":8080";
    read_timeout = seconds 30;
    write_timeout = seconds 60;
    max_request_body = pos 10485760;
    admin_token = "";
  };
  upstreams = record {
    npm = "https://registry.npmjs.org";
    pypi = "https://pypi.org";
    go = "https://proxy.golang.org";
    maven = "https://repo1.maven.org/maven2";
  };
  policies = record { directory = "./policies" };
  logging = record { level = "info"; format = "text" };
  vuln_db = record {
    enabled = false;
    driver = "sqlite";
    dsn = "./vulndb.sqlite";
    max_open_conns = pos 10;
    max_idle_conns = pos 5;
    conn_max_lifetime = seconds 3600;
    log_level = "warn";
  };
  sync = record {
    enabled = false;
    ecosystems = [];
    full_sync_interval = seconds 86400;
    delta_sync_interval = seconds 900;
    metrics_interval = seconds 3600;
    batch_size = pos 100;
    workers = pos 2;
    seed_on_start = false;
  };
  rewrites_file = "";
  rewrites = record { rules = [] };
}

-- Files and the YAML decoder: `stat` tells whether a path is a directory, and yaml.Unmarshal writes
-- the settings of a text over a configuration. `none` is an error.
pub record Files : Type 0 where
  pub stat : String → Option Bool
  pub read_file : String → Option String
  pub unmarshal : String → Config → Option Config
  pub unmarshal_rewrites : String → Option RewriteConfig

module _ (files : Files) where
  -- loadRewritesFile
  unfoldable pub load_rewrites_file : String → Option RewriteConfig
  load_rewrites_file path = do text ← files.read_file path; files.unmarshal_rewrites text

  -- Load rewrite rules from an external file if configured.
  abbrev pub with_rewrites : String → Config → Option Config
  with_rewrites path cfg =
      let beside =
        if is_abs cfg.rewrites_file then cfg.rewrites_file else join (dir path) cfg.rewrites_file in
      let loaded =
        load_rewrites_file beside >>= (λ rules. some (record cfg { rewrites = rules })) in
      if cfg.rewrites_file == "" then some cfg else loaded

  -- LoadFromFile
  unfoldable pub load_from_file : String → Option Config
  unfolding load_rewrites_file is_abs dir join
  load_from_file path = do
    is_dir ← files.stat path
    let file = if is_dir then path ^^ "/config.yaml" else path
    text ← files.read_file file
    cfg ← files.unmarshal text default_config
    with_rewrites file cfg

-- The host and the port at the last colon of a text that does not start with a bracket.
abbrev plain_host_port : Option (String × String) → Bool
plain_host_port none = false
plain_host_port (some (host, port)) = not (
    contains host ":"
    || contains host "["
    || contains host "]"
    || (contains port "[" || contains port "]"))

-- What follows the closing bracket of a host.
abbrev bracketed_port : String → Bool
bracketed_port rest =
    let port = skip 1 rest in
    has_prefix rest ":" && not (contains port ":" || contains port "[" || contains port "]")

abbrev bracketed_host_port : Option (String × String) → Bool
bracketed_host_port none = false
bracketed_host_port (some (host, rest)) = not (contains host "[") && bracketed_port rest

-- Does net.SplitHostPort accept a text?
unfoldable pub splits_host_port : String → Bool
unfolding has_prefix contains cut_char cut_last skip
splits_host_port s =
    if has_prefix s "["
    then bracketed_host_port (cut_char b']' (skip 1 s))
    else plain_host_port (cut_last s ":")

pub data ConfigError : Type 0 where
  bad_listen_addr : String → ConfigError
  missing_dsn : ConfigError
  bad_batch_size : ℤ → ConfigError
  bad_workers : ℤ → ConfigError

abbrev pub unless_ok : Bool → ConfigError → List ConfigError
unless_ok ok e = if ok then [] else e ∷ []

-- Config.Validate: the errors that errors.Join joins; no error is the answer nil.
unfoldable pub validate : Config → List ConfigError
unfolding splits_host_port
validate c =
    unless_ok (c.server.listen_addr == "" || splits_host_port c.server.listen_addr)
      (bad_listen_addr c.server.listen_addr)
    ++ unless_ok (not (c.vuln_db.enabled && (c.vuln_db.dsn == ""))) missing_dsn
    ++ (if c.sync.enabled
        then unless_ok (not (ltb_ℤ c.sync.batch_size (pos 1))) (bad_batch_size c.sync.batch_size)
          ++ unless_ok (not (ltb_ℤ c.sync.workers (pos 1))) (bad_workers c.sync.workers)
        else [])
