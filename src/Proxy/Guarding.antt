-- ===== src/Proxy/Guarding.antt =====
-- The server of internal/proxy/server.go: what a request can change.
use dependency_guardian.Prelude.{String, ◌≡◌, ◌⊎◌, Bool, true, false, not, ◌||◌, Option, some, ◌==◌}
use dependency_guardian.Http.{Request}
use dependency_guardian.Config.{Config}
use dependency_guardian.Policy.{Engine, new_engine}
use dependency_guardian.Proxy.Admin.{Authorized}
use dependency_guardian.Proxy.Routes.{Route, policy_reload, Target, to_route}
use dependency_guardian.Proxy.Server.{Environment, State}

abbrev is_reload : Route → Bool
is_reload policy_reload = true
is_reload _ = false

abbrev reload_only : String × Route → Bool
reload_only (p, r) = not (is_reload r) || p == "/policy/reload"

abbrev reloads : Target → Bool
reloads (to_route route) = is_reload route
reloads _ = false

module _ (env : Environment) (cfg : Config) where
  -- What a request can change, but for the log.
  abbrev pub Guarded : Request → State env → State env → Type 0
  Guarded r s s' =
      (s'.db ≡ s.db)
      × ((s'.engine ≡ s.engine)
          ⊎ ((new : Engine env.services.opa) × (r.path ≡ "/policy/reload")
              × Authorized cfg.server.admin_token r
              × (r.method ≡ "POST")
              × (new_engine env.services.opa (env.visits cfg.policies.directory) ≡ some new)
              × (s'.engine ≡ new)))
