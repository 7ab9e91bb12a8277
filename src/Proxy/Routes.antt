-- ===== src/Proxy/Routes.antt =====
-- The route table of internal/proxy/server.go, and http.ServeMux of Go's library for its patterns:
-- they name no method, no host and no wildcard, and the paths are those that are their own escaped form.
use dependency_guardian.Prelude.{
  String, Bool, false, ◌&&◌, ◌||◌, not, Option, none, some, List, [], ◌∷◌, ◌++◌, ltb, if◌then◌else◌,
  ◌==◌, has_prefix, has_suffix,
}
use dependency_guardian.Prelude.Paths.{clean}
use dependency_guardian.Http.{◌^^◌}
use Prim.Native.String.{count}

-- The handlers that `registerHandlers` registers.
pub data Route : Type 0 where
  npm_route : Route
  pypi_route : Route
  go_route : Route
  maven_route : Route
  health : Route
  policy_reload : Route
  decisions : Route
  stats : Route
  vulndb_status : Route
  lookup : Route
  auto_detect : Route

-- The patterns, in the order of their registration, for a server with a log or a store, or without.
unfoldable pub register_handlers : (has_log has_store : Bool) → List (String × Route)
register_handlers has_log has_store =
    ("/npm/", npm_route)
    ∷ ("/pypi/", pypi_route)
    ∷ ("/go/", go_route)
    ∷ ("/maven/", maven_route)
    ∷ ("/health", health)
    ∷ ("/policy/reload", policy_reload)
    ∷ ((if has_log then ("/api/decisions", decisions) ∷ ("/api/stats", stats) ∷ [] else [])
        ++ (if has_store then ("/api/vulndb", vulndb_status) ∷ ("/api/lookup", lookup) ∷ [] else [])
        ++ ("/", auto_detect) ∷ [])

-- A pattern that ends in a slash holds of all paths below it, another one of its own path.
abbrev pub matches : String → String → Bool
matches pattern path = if has_suffix pattern "/" then has_prefix path pattern else path == pattern

-- The longer of a pattern that may fit and of the best one of those behind it.
abbrev pub better : Bool → String × Route → Option (String × Route) → Option (String × Route)
better fits one none = if fits then some one else none
better fits one (some best) =
    if fits && ltb (count (best.0)) (count (one.0)) then some one else some best

-- The longest pattern that holds of the path: it is the most specific one.
unfoldable pub find_pattern : String → List (String × Route) → Option (String × Route)
unfolding has_prefix has_suffix
find_pattern path [] = none
find_pattern path ((pattern, route) ∷ patterns) =
    better (matches pattern path) (pattern, route) (find_pattern path patterns)

-- cleanPath of net/http, for paths that are not empty and start with a slash.
unfoldable pub clean_path : String → String
unfolding clean has_suffix
clean_path p = let np = clean p in if has_suffix p "/" && not (np == "/") then np ^^ "/" else np

-- Where a request goes: to a handler, or back to the client with another path.
pub data Target : Type 0 where
  to_route : Route → Target
  moved : (path : String) → Target
  not_found : Target

abbrev pub target_of : Option (String × Route) → Target
target_of none = not_found
target_of (some (pattern, route)) = to_route route

-- A path that is a pattern with a slash behind it; no pattern stands in the table with and without one.
abbrev pub lacks_slash : String → List (String × Route) → Bool
lacks_slash path [] = false
lacks_slash path ((pattern, route) ∷ patterns) =
    pattern == (path ^^ "/") || lacks_slash path patterns

-- ServeMux.Handler, for a method other than CONNECT.
unfoldable pub find_handler : List (String × Route) → String → Target
unfolding find_pattern clean_path
find_handler patterns path =
    let cleaned = clean_path path in
    if lacks_slash cleaned patterns
    then moved (cleaned ^^ "/")
    else if not (cleaned == path)
    then moved cleaned
    else target_of (find_pattern path patterns)
