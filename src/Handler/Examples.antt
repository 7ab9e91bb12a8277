-- ===== src/Handler/Examples.antt =====
-- Examples of versions judged, listed and served by the Go module proxy.
use dependency_guardian.Prelude.{
  String, ◌≡◌, ◌≢◌, refl, ◌↔◌, ◌==◌, ◌&&◌, not, true, false, Option, none, some, List, [], Elem,
  if◌then◌else◌,
}
use dependency_guardian.Prelude.Int.{pos}
use dependency_guardian.Registry.{PackageVersion}
use dependency_guardian.Decisions.{Log, new_log}
use dependency_guardian.Http.{Request, Incoming, Header, respond, fetch, ◌^^◌}
use dependency_guardian.Handler.{is_allowed, evaluate_version}
use dependency_guardian.Handler.Verdict.{Permits, evaluate_version_iff}
use dependency_guardian.Handler.Gomod.{
  VersionInfo, extract_module_path, package_version, read_versions, write_versions,
  is_rewritten_away, rewrite_info, handle_latest, handle_version_list, info_at,
}
use dependency_guardian.Handler.Gomod.Listing.{handle_version_list_permitted}
use dependency_guardian.Handler.Gomod.Serving.{
  status, ServesInfo, handle_latest_permitted, info_at_permitted,
}
use dependency_guardian.Samples.{sample_services, sample_base}

abbrev version : PackageVersion
version = package_version "m" "1.0.0" 0

evaluate_version_iff_example :
    (is_allowed (evaluate_version sample_services sample_base none version).0 ≡ true)
    ↔ Permits sample_services sample_base version
evaluate_version_iff_example = evaluate_version_iff sample_services sample_base none version

abbrev log : Log
log = new_log (pos 5) 0

abbrev decode_info : String → Option VersionInfo
decode_info body = some (record { version = "1.0.0"; time = 5 })

abbrev request : String → Request
request path = record { method = "GET"; path = path; query = []; header = []; body = none }

abbrev upstream_versions : Incoming
upstream_versions = record {
  status_code = 200;
  header = [];
  body = "1.0.0\n1.1.0\n";
  body_failed = false;
}

handle_version_list_permitted_example :
    let module_path = extract_module_path "/m/@v/list" "/@v/list" in
    let all = read_versions upstream_versions.body in
    (listed : List String) × (h : Header) × ((handle_version_list sample_services decode_info
        sample_base
        (request "/m/@v/list")
        none).0
      ≡ respond 200 h (write_versions listed))
    × ((v : String)
        → Elem v listed ↔ (
            Elem v all
            × (is_rewritten_away sample_services decode_info sample_base.rewriter module_path all v
                ≡ false)
            × Permits sample_services sample_base (package_version module_path v 0)))
handle_version_list_permitted_example =
    handle_version_list_permitted sample_services decode_info sample_base (request "/m/@v/list")
      none upstream_versions refl refl refl

latest_ok :
    status (handle_latest sample_services decode_info sample_base (request "/m/@latest") none).0
    ≡ some 200
unfolding handle_latest
latest_ok = refl

handle_latest_permitted_example :
    (body : String) × (vi : VersionInfo) × (fetch sample_services.network sample_base.upstream
        "/m/@latest"
      ≡ some (body, 200))
    × (decode_info body ≡ some vi)
    × Permits sample_services sample_base
        (package_version (extract_module_path "/m/@latest" "/@latest") vi.version vi.time)
handle_latest_permitted_example =
    handle_latest_permitted sample_services decode_info sample_base (request "/m/@latest") none
      latest_ok

info_ok :
    status
      (info_at sample_services decode_info sample_base
        (request "/m/@v/1.0.0.info")
        "m"
        "1.0.0"
        none).0
    ≡ some 200
unfolding info_at
info_ok = refl

info_at_permitted_example :
    let rr = rewrite_info sample_services decode_info sample_base.rewriter "m" "1.0.0" in
    let rewritten = rr.matched && not (rr.version == "1.0.0") in
    ServesInfo sample_services decode_info sample_base "m"
      (if rewritten then rr.version else "1.0.0")
      (if rewritten then "/" ^^ "m" ^^ "/@v/" ^^ rr.version ^^ ".info" else "/m/@v/1.0.0.info")
      (info_at sample_services decode_info sample_base
        (request "/m/@v/1.0.0.info")
        "m"
        "1.0.0"
        none).0
    × (rewritten ≡ true → rr.mode ≢ "redirect")
info_at_permitted_example =
    info_at_permitted sample_services decode_info sample_base (request "/m/@v/1.0.0.info") "m"
      "1.0.0" none info_ok
