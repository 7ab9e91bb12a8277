-- ===== src/Proxy.antt =====
-- internal/proxy/server.go: which ecosystem a request belongs to, and the administrator's guard with
-- the reload of the policies.
pub mod Routes
pub mod Detection
pub mod Admin
pub mod Lookup
pub mod Lookups
pub mod Server
pub mod Guarding
pub mod Logging
mod Examples
use dependency_guardian.Prelude.{
  String, Bool, true, false, not, ◌||◌, Option, none, some, List, [], ◌∷◌, any, if◌then◌else◌, ◌==◌,
  has_prefix, has_suffix, contains, to_lower,
}
use dependency_guardian.Http.{Request, Reply, respond, error, get, ◌^^◌}
use dependency_guardian.Policy.{Opa, Engine, Visit, reload}

-- mapLookupEcosystem
unfoldable pub map_lookup_ecosystem : String → String
unfolding to_lower
map_lookup_ecosystem eco =
    if to_lower eco == "npm"
    then "npm"
    else if to_lower eco == "pypi"
    then "PyPI"
    else if to_lower eco == "go"
    then "Go"
    else if to_lower eco == "maven"
    then "Maven"
    else eco

-- detectEcosystemFromPath
unfoldable pub detect_ecosystem_from_path : String → String
unfolding has_prefix
detect_ecosystem_from_path path =
    if has_prefix path "/npm/"
    then "npm"
    else if has_prefix path "/pypi/"
    then "pypi"
    else if has_prefix path "/go/"
    then "go"
    else if has_prefix path "/maven/"
    then "maven"
    else "unknown"

-- detectEcosystemFromArtifactoryPath
unfoldable pub detect_ecosystem_from_artifactory_path : String → String
unfolding contains has_suffix
detect_ecosystem_from_artifactory_path path =
    if contains path "/@v/" || contains path "/@latest"
    then "go"
    else if contains path "/simple/" || has_suffix path "/json"
    then "pypi"
    else if contains path "/-/"
    then "npm"
    else if has_suffix path "/maven-metadata.xml"
        || has_suffix path ".jar"
        || has_suffix path ".pom"
    then "maven"
    else "npm"

abbrev starts_with_any : List String → String → Bool
starts_with_any prefixes ua = any (λ p. has_prefix ua p) prefixes

abbrev pub is_go_agent : String → Bool
is_go_agent ua =
    any (λ p. has_prefix ua p || contains ua p) ("go-http-client/" ∷ "go/" ∷ "golang" ∷ [])

abbrev pub is_npm_agent : (ua accept : String) → Bool
is_npm_agent ua accept =
    starts_with_any ("npm/" ∷ "yarn/" ∷ "pnpm/" ∷ "bun/" ∷ "cnpm/" ∷ "verdaccio/" ∷ []) ua
    || contains ua "node"
    || contains ua "npm"
    || contains accept "vnd.npm"

abbrev pub is_pypi_agent : (ua accept : String) → Bool
is_pypi_agent ua accept =
    starts_with_any
      ("pip/" ∷ "poetry/" ∷ "pdm/" ∷ "twine/" ∷ "bandersnatch/" ∷ "uv/" ∷ "setuptools/" ∷ []) ua
    || contains ua "python"
    || contains ua "pypi"
    || contains accept "vnd.pypi.simple"

abbrev pub is_maven_agent : String → Bool
is_maven_agent ua =
    starts_with_any
      ("apache-maven/" ∷ "gradle/" ∷ "mvn/" ∷ "ivy/" ∷ "sbt/" ∷ "leiningen/" ∷ "buildr/" ∷ []) ua
    || contains ua "maven"
    || contains ua "gradle"

-- The switch on the repository type; `none` when no case applies.
abbrev pub artifactory_type : String → Option String
artifactory_type art_type =
    if art_type == ""
    then none
    else if to_lower art_type == "npm"
    then some "npm"
    else if to_lower art_type == "pypi"
    then some "pypi"
    else if (to_lower art_type == "go") || (to_lower art_type == "gomod")
    then some "go"
    else if (to_lower art_type == "maven")
        || (to_lower art_type == "maven2")
        || (to_lower art_type == "gradle")
    then some "maven"
    else none

abbrev pub or_by_path : Option String → (ua path : String) → String
or_by_path (some eco) ua path = eco
or_by_path none ua path =
    if contains ua "artifactory" then detect_ecosystem_from_artifactory_path path else ""

-- detectEcosystemFromRequest
unfoldable pub detect_ecosystem_from_request : Request → String
unfolding to_lower contains has_prefix detect_ecosystem_from_artifactory_path get
detect_ecosystem_from_request r =
    let ua = to_lower (get "User-Agent" r.header) in
    let accept = to_lower (get "Accept" r.header) in
    if get "go-get" r.query == "1"
    then "go"
    else if is_go_agent ua
    then "go"
    else if is_npm_agent ua accept
    then "npm"
    else if is_pypi_agent ua accept
    then "pypi"
    else if is_maven_agent ua
    then "maven"
    else or_by_path (artifactory_type (get "X-Artifactory-Repo-Type" r.header)) ua r.path

-- The page that `handleAutoDetect` returns for the path "/".
abbrev usage : String
usage =
    "{\n  \"service\": \"dependency-guardian\",\n  \"endpoints\": {\n    \"npm\":    \"/npm/<package>\",\n    \"pypi\":   \"/pypi/pypi/<package>/json\",\n    \"go\":     \"/go/<module>/@v/list\",\n    \"maven\":  \"/maven/<group-path>/<artifact>/maven-metadata.xml\",\n    \"health\": \"/health\",\n    \"reload\": \"POST /policy/reload\"\n  },\n  \"note\": \"Ecosystem can also be auto-detected from client User-Agent headers\"\n}"

abbrev undetected : String
undetected =
    "could not determine package ecosystem from request headers or path; use /npm/, /pypi/, /go/, or /maven/ prefix"

-- The handlers of the server, which may change a state.
pub record Handlers (S : Type 0) : Type 0 where
  pub npm_handler : Request → S → Reply × S
  pub pypi_handler : Request → S → Reply × S
  pub go_handler : Request → S → Reply × S
  pub maven_handler : Request → S → Reply × S

abbrev unknown_client : Request → Reply
unknown_client r =
    if r.path == "/"
    then respond 200 (("Content-Type", "application/json") ∷ []) usage
    else error undetected 400

module _ {S : Type 0} where
  -- handleAutoDetect
  unfoldable pub handle_auto_detect : Handlers S → Request → S → Reply × S
  unfolding detect_ecosystem_from_request
  handle_auto_detect hs r s =
      let eco = detect_ecosystem_from_request r in
      if eco == "npm"
      then hs.npm_handler r s
      else if eco == "pypi"
      then hs.pypi_handler r s
      else if eco == "go"
      then hs.go_handler r s
      else if eco == "maven"
      then hs.maven_handler r s
      else (unknown_client r, s)

  -- requireAdmin, around a handler that may change a state.
  unfoldable pub require_admin :
      (token : String) → (Request → S → Reply × S) → Request → S → Reply × S
  unfolding get
  require_admin token next r s =
      let unauthorized : Reply × S = (error "unauthorized" 401, s) in
      let passed = next r s in
      if not (token == "")
      then if not (get "Authorization" r.header == ("Bearer " ^^ token))
        then unauthorized
        else passed
      else passed

module _ (opa : Opa) where
  abbrev reload_reply : Engine opa × Bool → Reply × Engine opa
  reload_reply (e, false) = (error "policy reload failed" 500, e)
  reload_reply (e, true) =
      (respond 200 (("Content-Type", "application/json") ∷ []) "{\"status\":\"reloaded\"}", e)

  -- handlePolicyReload; the text of the error is left out of its answer.
  unfoldable pub handle_policy_reload : List Visit → Request → Engine opa → Reply × Engine opa
  unfolding reload
  handle_policy_reload visits r e =
      if not (r.method == "POST")
      then (error "method not allowed" 405, e)
      else reload_reply (reload opa visits e)
