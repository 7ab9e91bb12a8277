-- ===== src/Proxy/Logging.antt =====
-- The decision log of the server of internal/proxy/server.go over any requests.
use dependency_guardian.Prelude.{
  ℕ, ◌≡◌, refl, sym, subst, Bool, true, false, Option, some, List, [], ◌∷◌, ◌++◌, append_assoc,
  append-nil, if◌then◌else◌,
}
use dependency_guardian.Http.{Request, Reply}
use dependency_guardian.Decisions.{Log, Entry, record_decision}
use dependency_guardian.Decisions.History.{Represents, next_entry, record_decision-Represents}
use dependency_guardian.Config.{Config}
use dependency_guardian.Handler.{Services, recorded}
use dependency_guardian.Handler.Recording.{Stable}
use dependency_guardian.Handler.Recording.Gomod.{serve_http-stable}
use dependency_guardian.Handler.Recording.Npm.{serve_npm-stable}
use dependency_guardian.Handler.Recording.Pypi.{serve_pypi-stable}
use dependency_guardian.Handler.Recording.Maven.{serve_maven-stable}
use dependency_guardian.Proxy.{handle_auto_detect}
use dependency_guardian.Proxy.Routes.{
  npm_route, pypi_route, go_route, maven_route, health, policy_reload, decisions, stats,
  vulndb_status, lookup, auto_detect, Target, to_route, moved, not_found, find_handler,
}
use dependency_guardian.Proxy.Server.{
  Environment, State, strip_prefix, base_of, handlers, serve_route, table_of, serve_target, serve,
}

module _ (env : Environment) (cfg : Config) where
  -- The states that requests lead to.
  pub data Reached (start : State env) : State env → Type 0 where
    here : Reached start start
    after : {s : State env} (r : Request) → Reached start s → Reached start (serve env cfg r s).1

module _ (env : Environment) (cfg : Config) (P : Option Log → Type 0)
    (keeps : Stable env.services P) where
  npm-stable :
      (r : Request) (s : State env) → P s.log → P ((handlers env cfg).npm_handler r s).1.log
  unfolding handlers
  npm-stable r s h =
      serve_npm-stable env.services env.documents P keeps (base_of env cfg cfg.upstreams.npm s) r
        s.log h

  pypi-stable :
      (r : Request) (s : State env) → P s.log → P ((handlers env cfg).pypi_handler r s).1.log
  unfolding handlers
  pypi-stable r s h =
      serve_pypi-stable env.services env.documents P keeps (base_of env cfg cfg.upstreams.pypi s) r
        s.log h

  go-stable : (r : Request) (s : State env) → P s.log → P ((handlers env cfg).go_handler r s).1.log
  unfolding handlers
  go-stable r s h =
      serve_http-stable env.services env.decode_info P keeps (base_of env cfg cfg.upstreams.go s) r
        s.log h

  maven-stable :
      (r : Request) (s : State env) → P s.log → P ((handlers env cfg).maven_handler r s).1.log
  unfolding handlers
  maven-stable r s h =
      serve_maven-stable env.services env.xml P keeps (base_of env cfg cfg.upstreams.maven s) r
        s.log h

  if-log :
      (b : Bool) (x y : Reply × State env)
      → P ((x.1).log)
      → P ((y.1).log)
      → P (((if b then x else y).1).log)
  if-log true x y h k = h
  if-log false x y h k = k

  handle_auto_detect-stable :
      (r : Request) (s : State env) → P s.log → P (handle_auto_detect (handlers env cfg) r s).1.log
  unfolding handle_auto_detect
  handle_auto_detect-stable r s h =
      search (if-log, npm-stable, pypi-stable, go-stable, maven-stable)

  serve_target-stable :
      (target : Target) (r : Request) (s : State env)
      → P s.log
      → P (serve_target env cfg target r s).1.log
  unfolding serve_route
  serve_target-stable (to_route npm_route) r s h = npm-stable (strip_prefix "/npm" r) s h
  serve_target-stable (to_route pypi_route) r s h = pypi-stable (strip_prefix "/pypi" r) s h
  serve_target-stable (to_route go_route) r s h = go-stable (strip_prefix "/go" r) s h
  serve_target-stable (to_route maven_route) r s h = maven-stable (strip_prefix "/maven" r) s h
  serve_target-stable (to_route health) r s h = h
  serve_target-stable (to_route policy_reload) r s h = h
  serve_target-stable (to_route decisions) r s h = h
  serve_target-stable (to_route stats) r s h = h
  serve_target-stable (to_route vulndb_status) r s h = h
  serve_target-stable (to_route lookup) r s h = h
  serve_target-stable (to_route auto_detect) r s h = handle_auto_detect-stable r s h
  serve_target-stable (moved path) r s h = h
  serve_target-stable not_found r s h = h

  serve-stable : (r : Request) (s : State env) → P s.log → P (serve env cfg r s).1.log
  unfolding serve
  serve-stable r s h = serve_target-stable (find_handler (table_of env s) r.path) r s h

  pub Reached-stable : {start s : State env} → P start.log → Reached env cfg start s → P s.log
  Reached-stable h here = h
  Reached-stable h (after r reached) = serve-stable r _ (Reached-stable h reached)

-- The log is there, and represents a history that begins with the given one.
abbrev pub Extends : (max : ℕ) → List Entry → Option Log → Type 0
Extends max before log =
    (later : List Entry) × (l : Log) × (log ≡ some l) × Represents max (before ++ later) l

Extends-stable :
    (services : Services) (max : ℕ) (before : List Entry) → Stable services (Extends max before)
Extends-stable services max before log c (later, l, there, represents) =
    let now = services.clock l in
    let entry = next_entry (before ++ later) now c in
    subst (λ o. Extends max before (recorded services o c)) (sym there)
      (
        later ++ entry ∷ [],
        _,
        refl,
        subst (λ h. Represents max h (record_decision l now c))
            (append_assoc before later (entry ∷ [])) (record_decision-Represents represents now c),
      )

-- A server whose log represents a history keeps it, whatever requests arrive: in every state that
-- requests lead to, the log represents a history that begins with it, so that it holds the last
-- entries of that history, at most as many as its size, and counts all of them.
pub Reached-Extends :
    (env : Environment) (cfg : Config) (max : ℕ) (before : List Entry) (l : Log)
    (start s : State env)
    → start.log ≡ some l
    → Represents max before l
    → Reached env cfg start s
    → Extends max before s.log
Reached-Extends env cfg max before l start s there represents reached =
    Reached-stable env cfg (Extends max before) (Extends-stable env.services max before)
      ([], l, there, subst (λ h. Represents max h l) (sym (append-nil before)) represents) reached
