-- ===== src/Proxy/Server.antt =====
-- internal/proxy/server.go: the server, from a request to the handler of its route. Its state is the
-- policy engine, the decision log and the database, where it has them.
use dependency_guardian.Prelude.{
  ℕ, String, Bool, true, false, Option, none, some, List, [], ◌∷◌, map, trim_prefix,
}
use dependency_guardian.Registry.{VulnerabilityDb, no_op_db}
use dependency_guardian.Config.{Config}
use dependency_guardian.Rewrite.{RewriteRule}
use dependency_guardian.Decisions.{Log, Entry, Stats, handle_decisions, get_stats}
use dependency_guardian.Http.{Request, Reply, respond, error, get}
use dependency_guardian.Policy.{Engine, Visit}
use dependency_guardian.Handler.{Services, Base, new_base}
use dependency_guardian.Handler.Filtering.{Documents}
use dependency_guardian.Handler.Gomod.{VersionInfo, serve_http}
use dependency_guardian.Handler.Npm.{serve_npm}
use dependency_guardian.Handler.Pypi.{serve_pypi}
use dependency_guardian.Handler.Maven.Metadata.{XmlCodec, serve_maven}
use dependency_guardian.Vulndb.Models.{EcosystemSyncState}
use dependency_guardian.Vulndb.Index.{ConstraintCodec}
use dependency_guardian.Vulndb.Matching.{get_vulnerabilities}
use dependency_guardian.Vulndb.Gorm.{Gorm, index_database}
use dependency_guardian.Vulndb.Store.States.{GlobalStats, get_global_stats, list_sync_states}
use dependency_guardian.Proxy.{Handlers, handle_auto_detect, require_admin, handle_policy_reload}
use dependency_guardian.Proxy.Lookup.{LookupReply, handle_lookup}
use dependency_guardian.Proxy.Routes.{
  Route, npm_route, pypi_route, go_route, maven_route, health, policy_reload, decisions, stats,
  vulndb_status, lookup, auto_detect, Target, to_route, moved, not_found, register_handlers,
  find_handler,
}

-- What the server uses that is not of the program: the services of the handlers, the coders of their
-- documents, the database, the files of a policy directory, and time.RFC3339.
pub record Environment : Type 1 where
  pub services : Services
  pub documents : Documents
  pub xml : XmlCodec
  pub decode_info : String → Option VersionInfo
  pub codec : ConstraintCodec
  pub gorm : Gorm
  pub visits : (directory : String) → List Visit
  pub rfc3339 : ℕ → String

-- ecosystemInfo
pub record EcosystemInfo : Type 0 where
  pub ecosystem : String
  pub status : String
  pub last_full_sync : Option String
  pub last_delta_sync : Option String
  pub last_error : String
  pub total_vulnerabilities : ℕ
  pub total_affected_entries : ℕ

-- What is encoded as the status of the database.
pub record DatabaseStatus : Type 0 where
  pub global : GlobalStats
  pub ecosystems : List EcosystemInfo

-- What the server answers: the values that are encoded as JSON are given as such.
pub data Answer : Type 0 where
  plain : Reply → Answer
  moved_permanently : (path : String) → Answer
  decision_list : List Entry → Answer
  statistics : Stats → Answer
  database_status : DatabaseStatus → Answer
  lookup_result : LookupReply → Answer

abbrev page_not_found : Answer
page_not_found = plain (error "404 page not found" 404)

-- http.StripPrefix, for a path that has the prefix.
abbrev pub strip_prefix : String → Request → Request
strip_prefix prefix r = record r { path = trim_prefix r.path prefix }

module _ (env : Environment) where
  pub record State : Type 0 where
    pub engine : Engine env.services.opa
    pub log : Option Log
    pub db : Option env.gorm.Db

  -- The database that the handlers ask: OSVDatabase where there is one.
  abbrev vuln_db_of : Option env.gorm.Db → VulnerabilityDb
  vuln_db_of none = no_op_db
  vuln_db_of (some db) =
      get_vulnerabilities env.services.libs env.codec (index_database env.gorm) db

  -- The rewrite engine, if rules are configured.
  abbrev rewriter_of : List RewriteRule → Option (List RewriteRule)
  rewriter_of [] = none
  rewriter_of (rule ∷ rules) = some (rule ∷ rules)

  abbrev pub base_of : Config → String → State → Base env.services
  base_of cfg upstream s =
      new_base env.services upstream s.engine (vuln_db_of s.db) (rewriter_of cfg.rewrites.rules)

  -- A handler that changes the log, on the state of the server.
  abbrev pub with_log : State → Reply × Option Log → Reply × State
  with_log s (reply, log) = (reply, record s { log = log })

  -- The four handlers that `registerHandlers` makes.
  unfoldable pub handlers : Config → Handlers State
  unfolding serve_npm serve_pypi serve_http serve_maven new_base no_op_db get_vulnerabilities
  handlers cfg = record {
    npm_handler = λ r s.
        with_log s (serve_npm env.services env.documents (base_of cfg cfg.upstreams.npm s) r s.log);
    pypi_handler = λ r s.
        with_log s
          (serve_pypi env.services env.documents (base_of cfg cfg.upstreams.pypi s) r s.log);
    go_handler = λ r s.
        with_log s
          (serve_http env.services env.decode_info (base_of cfg cfg.upstreams.go s) r s.log);
    maven_handler = λ r s.
        with_log s (serve_maven env.services env.xml (base_of cfg cfg.upstreams.maven s) r s.log);
  }

  abbrev pub with_engine : State → Reply × Engine env.services.opa → Answer × State
  with_engine s (reply, engine) = (plain reply, record s { engine = engine })

  abbrev pub with_reply : Reply × State → Answer × State
  with_reply (reply, s) = (plain reply, s)

  abbrev info_of : EcosystemSyncState → EcosystemInfo
  info_of st = record {
    ecosystem = st.ecosystem;
    status = st.status;
    last_full_sync = elim st.last_full_sync [ none ↦ none | some t ↦ some (env.rfc3339 t) ];
    last_delta_sync = elim st.last_delta_sync [ none ↦ none | some t ↦ some (env.rfc3339 t) ];
    last_error = st.last_error;
    total_vulnerabilities = st.total_vulnerabilities;
    total_affected_entries = st.total_affected_entries;
  }

  abbrev states_of : Option (List EcosystemSyncState) → List EcosystemSyncState
  states_of none = []
  states_of (some states) = states

  -- handleVulnDBStatus
  unfoldable pub handle_vulndb_status : env.gorm.Db → DatabaseStatus
  unfolding get_global_stats list_sync_states
  handle_vulndb_status db = record {
    global = get_global_stats env.gorm db;
    ecosystems = map info_of (states_of (list_sync_states env.gorm db));
  }

  -- handleHealth
  unfoldable pub handle_health : Reply
  handle_health = respond 200 (("Content-Type", "application/json") ∷ []) "{\"status\":\"ok\"}"

  -- The endpoints of the log and of the database, which are registered where these are there.
  abbrev pub on_log : Option Log → (Log → Answer) → Answer
  on_log none f = page_not_found
  on_log (some log) f = f log

  abbrev pub on_db : Option env.gorm.Db → (env.gorm.Db → Answer) → Answer
  on_db none f = page_not_found
  on_db (some db) f = f db

  -- The handler of a route.
  unfoldable pub serve_route : Config → Route → Request → State → Answer × State
  unfolding handlers handle_auto_detect require_admin handle_policy_reload handle_decisions
      get_stats handle_vulndb_status handle_lookup handle_health trim_prefix get
  serve_route cfg npm_route r s = with_reply ((handlers cfg).npm_handler (strip_prefix "/npm" r) s)
  serve_route cfg pypi_route r s =
      with_reply ((handlers cfg).pypi_handler (strip_prefix "/pypi" r) s)
  serve_route cfg go_route r s = with_reply ((handlers cfg).go_handler (strip_prefix "/go" r) s)
  serve_route cfg maven_route r s =
      with_reply ((handlers cfg).maven_handler (strip_prefix "/maven" r) s)
  serve_route cfg health r s = (plain handle_health, s)
  serve_route cfg policy_reload r s = with_engine s (
      require_admin cfg.server.admin_token
        (handle_policy_reload env.services.opa (env.visits cfg.policies.directory)) r s.engine)
  serve_route cfg decisions r s = (
    on_log s.log
        (λ log. decision_list (handle_decisions log (get "limit" r.query) (get "filter" r.query))),
    s,
  )
  serve_route cfg stats r s =
      (on_log s.log (λ log. statistics (get_stats log (env.services.clock log))), s)
  serve_route cfg vulndb_status r s =
      (on_db s.db (λ db. database_status (handle_vulndb_status db)), s)
  serve_route cfg lookup r s = (
    on_db s.db (λ db.
        lookup_result (handle_lookup env.services.libs env.codec (index_database env.gorm) r db)),
    s,
  )
  serve_route cfg auto_detect r s = with_reply (handle_auto_detect (handlers cfg) r s)

  abbrev pub is_there : {A : Type 0} → Option A → Bool
  is_there none = false
  is_there (some a) = true

  abbrev pub table_of : State → List (String × Route)
  table_of s = register_handlers (is_there s.log) (is_there s.db)

  abbrev pub serve_target : Config → Target → Request → State → Answer × State
  serve_target cfg (to_route route) r s = serve_route cfg route r s
  serve_target cfg (moved path) r s = (moved_permanently path, s)
  serve_target cfg not_found r s = (page_not_found, s)

  -- The server's mux, for a method other than CONNECT.
  unfoldable pub serve : Config → Request → State → Answer × State
  unfolding serve_route register_handlers find_handler
  serve cfg r s = serve_target cfg (find_handler (table_of s) r.path) r s
