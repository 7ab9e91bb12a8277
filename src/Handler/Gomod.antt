-- ===== src/Handler/Gomod.antt =====
-- internal/handler/gomod/handler.go: the Go module proxy.
pub mod Listing
pub mod Serving
use dependency_guardian.Prelude.{
  ℕ, String, Bool, false, not, ◌&&◌, Option, none, some, List, [], ◌∷◌, map, filter, eqb,
  if◌then◌else◌, ◌==◌, has_suffix, cut_last, trim_prefix, trim_suffix, skip, mem,
}
use dependency_guardian.Prelude.Lines.{scan_lines, trim_space}
use dependency_guardian.Registry.{PackageVersion, PolicyResult, ecosystem_go}
use dependency_guardian.Rewrite.{RewriteRule, Result, apply}
use dependency_guardian.Decisions.{Log}
use dependency_guardian.Http.{
  Request, Incoming, Reply, respond, redirect, crash, error, ◌^^◌, fetch, passthrough,
}
use dependency_guardian.Handler.{Services, Base, is_allowed, evaluate_version}

-- versionInfo
pub record VersionInfo : Type 0 where
  pub version : String
  pub time : ℕ

-- extractModulePath
unfoldable pub extract_module_path : String → String → String
unfolding trim_suffix trim_prefix
extract_module_path path suffix = trim_prefix (trim_suffix path suffix) "/"

-- The version list of the upstream's text: the lines without spaces around, but the empty ones.
unfoldable pub read_versions : String → List String
unfolding scan_lines trim_space
read_versions body = filter (λ ver. not (ver == "")) (map trim_space (scan_lines body))

-- A line for each version.
unfoldable pub write_versions : List String → String
write_versions [] = ""
write_versions (v ∷ vs) = v ^^ "\n" ^^ write_versions vs

abbrev pub package_version : String → String → ℕ → PackageVersion
package_version name version published_at = record {
  name = name;
  version = version;
  ecosystem = ecosystem_go;
  published_at = published_at;
  deprecated = false;
  yanked = false;
}

-- The name of a module and of the file behind /@v/: `some none` is the slice path[1:0], which panics.
unfoldable pub split_info_path : String → Option (Option (String × String))
unfolding cut_last trim_suffix skip
split_info_path path = elim (cut_last path "/@v/") [
  | none ↦ none
  | some (before, version_file) ↦
      if before == ""
      then some none
      else some (some (skip 1 before, trim_suffix version_file ".info"))
]

abbrev pub info_path : String → String → String
info_path module_path ver = "/" ^^ module_path ^^ "/@v/" ^^ ver ^^ ".info"

module _ (services : Services) (decode_info : String → Option VersionInfo) where
  -- The condition of the rewriting loop: the version is rewritten to another one of the list.
  abbrev pub is_rewritten_away : Option (List RewriteRule) → String → List String → String → Bool
  is_rewritten_away none module_path all_versions ver = false
  is_rewritten_away (some rules) module_path all_versions ver =
      let rr = apply services.libs rules "go" module_path ver in
      rr.matched && not (rr.version == ver) && mem rr.version all_versions

  -- The loop that fills `rewrittenAway`.
  abbrev pub rewritten_away : Option (List RewriteRule) → String → List String → List String
  rewritten_away rewriter module_path all_versions =
      filter (is_rewritten_away rewriter module_path all_versions) all_versions

  -- The loop that fills `allowed`.
  unfoldable pub allowed_versions :
      Base services
      → String
      → (rewritten : List String) → List String
      → Option Log
      → List String × Option Log
  unfolding evaluate_version mem
  allowed_versions b module_path rewritten [] log = ([], log)
  allowed_versions b module_path rewritten (ver ∷ vers) log =
      let (result, log') = evaluate_version services b log (package_version module_path ver 0) in
      let skipped = allowed_versions b module_path rewritten vers log in
      let (rest, log'') = allowed_versions b module_path rewritten vers log' in
      if mem ver rewritten
      then skipped
      else ((if is_allowed result then ver ∷ rest else rest), log'')

  abbrev pub listing : Base services → String → String → Option Log → Reply × Option Log
  listing b module_path body log =
      let all_versions = read_versions body in
      let rewritten = rewritten_away b.rewriter module_path all_versions in
      let (allowed, log') = allowed_versions b module_path rewritten all_versions log in
      (
        respond 200 (("Content-Type", "text/plain; charset=utf-8") ∷ []) (write_versions allowed),
        log',
      )

  abbrev pub list_response :
      Base services → String → Option Incoming → Option Log → Reply × Option Log
  list_response b module_path none log = (error "upstream request failed" 502, log)
  list_response b module_path (some resp) log =
      if not (eqb resp.status_code 200)
      then (respond resp.status_code [] resp.body, log)
      else listing b module_path resp.body log

  -- handleVersionList
  unfoldable pub handle_version_list : Base services → Request → Option Log → Reply × Option Log
  unfolding extract_module_path read_versions write_versions allowed_versions apply mem
  handle_version_list b r log =
      let url = b.upstream.base_url ^^ r.path in
      if services.network.makes_request "GET" url
      then list_response b (extract_module_path r.path "/@v/list")
          (services.network.send (record { method = "GET"; url = url; header = []; body = none }))
          log
      else (error "failed to create upstream request" 500, log)

  -- The end of `handleLatest` and of `handleVersionInfo`: the verdict on the version.
  abbrev pub answer : Option PolicyResult × Option Log → String → Reply × Option Log
  answer (none, log) body = (error "policy evaluation failed" 500, log)
  answer (some result, log) body =
      if not result.allowed
      then (error "not found" 404, log)
      else (respond 200 (("Content-Type", "application/json") ∷ []) body, log)

  abbrev pub latest_of :
      Base services → String → String → Option VersionInfo → Option Log → Reply × Option Log
  latest_of b module_path body none log = (error "invalid upstream response" 502, log)
  latest_of b module_path body (some vi) log =
      answer (evaluate_version services b log (package_version module_path vi.version vi.time)) body

  abbrev pub latest_response :
      Base services → String → Option (String × ℕ) → Option Log → Reply × Option Log
  latest_response b module_path none log = (error "upstream request failed" 502, log)
  latest_response b module_path (some (body, status)) log =
      if not (eqb status 200)
      then (respond status [] body, log)
      else latest_of b module_path body (decode_info body) log

  -- handleLatest
  unfoldable pub handle_latest : Base services → Request → Option Log → Reply × Option Log
  unfolding extract_module_path evaluate_version fetch
  handle_latest b r log =
      latest_response b (extract_module_path r.path "/@latest")
        (fetch services.network b.upstream r.path) log

  -- A body that does not decode stands for the zero time.
  abbrev pub info_time : Option VersionInfo → ℕ
  info_time none = 0
  info_time (some vi) = vi.time

  abbrev pub info_response :
      Base services
      → (module_path ver : String) → Option (String × ℕ)
      → Option Log
      → Reply × Option Log
  info_response b module_path ver none log = (error "upstream request failed" 502, log)
  info_response b module_path ver (some (body, status)) log =
      if not (eqb status 200)
      then (respond status [] body, log)
      else answer
          (evaluate_version services b log
            (package_version module_path ver (info_time (decode_info body))))
          body

  abbrev pub no_rewrite : String → Result
  no_rewrite ver = record { matched = false; name = ""; version = ver; mode = "" }

  abbrev pub rewrite_info : Option (List RewriteRule) → String → String → Result
  rewrite_info none module_path ver = no_rewrite ver
  rewrite_info (some rules) module_path ver = apply services.libs rules "go" module_path ver

  -- The request behind the split of its path.
  unfoldable pub info_at :
      Base services → Request → (module_path ver : String) → Option Log → Reply × Option Log
  unfolding evaluate_version fetch apply
  info_at b r module_path ver log =
      let rr = rewrite_info b.rewriter module_path ver in
      if rr.matched && not (rr.version == ver)
      then if rr.mode == "redirect"
        then (redirect (info_path module_path rr.version), log)
        else info_response b module_path rr.version
            (fetch services.network b.upstream (info_path module_path rr.version)) log
      else info_response b module_path ver (fetch services.network b.upstream r.path) log

  abbrev pub info_split :
      Base services → Request → Option (Option (String × String)) → Option Log → Reply × Option Log
  info_split b r none log = (passthrough services.network b.upstream r, log)
  info_split b r (some none) log = (crash, log)
  info_split b r (some (some (module_path, ver))) log = info_at b r module_path ver log

  -- handleVersionInfo
  unfoldable pub handle_version_info : Base services → Request → Option Log → Reply × Option Log
  unfolding split_info_path info_at passthrough
  handle_version_info b r log = info_split b r (split_info_path r.path) log

  -- ServeHTTP
  unfoldable pub serve_http : Base services → Request → Option Log → Reply × Option Log
  unfolding handle_version_list handle_latest handle_version_info passthrough has_suffix
  serve_http b r log =
      if has_suffix r.path "/@v/list"
      then handle_version_list b r log
      else if has_suffix r.path "/@latest"
      then handle_latest b r log
      else if has_suffix r.path ".info"
      then handle_version_info b r log
      else (passthrough services.network b.upstream r, log)
