-- ===== src/Handler/Npm.antt =====
-- internal/handler/npm/handler.go: the npm proxy.
pub mod Filter
mod Examples
use dependency_guardian.Prelude.{
  ℕ, String, Bool, not, Option, none, some, List, [], ◌∷◌, filter, eqb, if◌then◌else◌, contains,
  mem, false,
}
use dependency_guardian.Prelude.Dict.{Dict, lookup, insert, remove}
use dependency_guardian.Json.{Json, obj, members, of_members, as_string, as_object}
use dependency_guardian.Registry.{PackageVersion, ecosystem_npm}
use dependency_guardian.Decisions.{Log}
use dependency_guardian.Http.{Request, Incoming, Reply, respond, error, ◌^^◌, passthrough}
use dependency_guardian.Handler.{Services, Base}
use dependency_guardian.Handler.Filtering.{
  Documents, Filtering, is_present, or_empty, rfc3339, filter_versions,
}

-- isTarballRequest
unfoldable pub is_tarball_request : String → Bool
unfolding contains
is_tarball_request path = contains path "/-/"

-- isDeprecated
unfoldable pub is_deprecated : Option Json → Bool
unfolding lookup
is_deprecated (some (obj fs)) = is_present (lookup "deprecated" (members fs))
is_deprecated _ = false

-- cleanDistTags
unfoldable pub clean_dist_tags : Dict Json → List String → Dict Json
unfolding mem
clean_dist_tags dist_tags removed =
    filter (λ tag. not (mem (or_empty (as_string (some tag.1))) removed)) dist_tags

abbrev pub remove_all : List String → Dict Json → Dict Json
remove_all [] times = times
remove_all (ver ∷ vers) times = remove_all vers (remove ver times)

abbrev pub put_tags : Option (Dict Json) → List String → Dict Json → Dict Json
put_tags none removed doc = doc
put_tags (some tags) removed doc =
    insert "dist-tags" (obj (of_members (clean_dist_tags tags removed))) doc

abbrev pub put_times : Option (Dict Json) → List String → Dict Json → Dict Json
put_times none removed doc = doc
put_times (some times) removed doc = insert "time" (obj (of_members (remove_all removed times))) doc

-- The document behind the loop: its maps are changed in place.
abbrev pub changed_document : Dict Json → Filtering → Dict Json
changed_document doc s = put_times (as_object (lookup "time" doc)) s.removed (
    put_tags (as_object (lookup "dist-tags" doc)) s.removed
      (insert "versions" (obj (of_members s.versions)) doc))

module _ (services : Services) (documents : Documents) where
  abbrev time_of : Option String → ℕ
  time_of none = 0
  time_of (some ts) = elim (documents.parse_layout rfc3339 ts) [ none ↦ 0 | some t ↦ t ]

  -- extractPublishTime
  unfoldable pub extract_publish_time : Option (Dict Json) → String → ℕ
  unfolding lookup
  extract_publish_time none version = 0
  extract_publish_time (some times) version = time_of (as_string (lookup version times))

  abbrev pub npm_version : String → Option (Dict Json) → String → Option Json → PackageVersion
  npm_version name times ver entry = record {
    name = name;
    version = ver;
    ecosystem = ecosystem_npm;
    published_at = extract_publish_time times ver;
    deprecated = is_deprecated entry;
    yanked = false;
  }

  abbrev filtered_document : Dict Json → Filtering → Option String
  filtered_document doc s = if s.failed then none else documents.marshal (changed_document doc s)

  -- The loop on the versions of a document.
  abbrev pub filter_loop : Base services → Dict Json → Dict Json → Option Log → Filtering
  filter_loop b doc versions log =
      let name = or_empty (as_string (lookup "name" doc)) in
      filter_versions services b "npm" name (npm_version name (as_object (lookup "time" doc)))
        (documents.iterate versions)
        (record { versions = versions; removed = []; log = log; failed = false })

  abbrev pub filter_document :
      Base services
      → (body : String) → Dict Json
      → Option (Dict Json)
      → Option Log
      → Option String × Option Log
  filter_document b body doc none log = (some body, log)
  filter_document b body doc (some versions) log =
      let s = filter_loop b doc versions log in (filtered_document doc s, s.log)

  abbrev pub filter_decoded :
      Base services → String → Option (Dict Json) → Option Log → Option String × Option Log
  filter_decoded b body none log = (none, log)
  filter_decoded b body (some doc) log =
      filter_document b body doc (as_object (lookup "versions" doc)) log

  -- filterMetadata: the new document, `none` for an error, and the log.
  unfoldable pub filter_metadata : Base services → String → Option Log → Option String × Option Log
  unfolding filter_versions clean_dist_tags lookup insert remove
  filter_metadata b body log = filter_decoded b body (documents.unmarshal body) log

  abbrev pub filtered_reply : Option String × Option Log → Reply × Option Log
  filtered_reply (none, log) = (error "policy evaluation failed" 500, log)
  filtered_reply (some body, log) =
      (respond 200 (("Content-Type", "application/json") ∷ []) body, log)

  abbrev pub metadata_response : Base services → Option Incoming → Option Log → Reply × Option Log
  metadata_response b none log = (error "upstream request failed" 502, log)
  metadata_response b (some resp) log =
      if not (eqb resp.status_code 200)
      then (respond resp.status_code [] resp.body, log)
      else if resp.body_failed
      then (error "failed to read upstream response" 502, log)
      else filtered_reply (filter_metadata b resp.body log)

  -- handleMetadata
  unfoldable pub handle_metadata : Base services → Request → Option Log → Reply × Option Log
  unfolding filter_metadata
  handle_metadata b r log =
      let url = b.upstream.base_url ^^ r.path in
      if services.network.makes_request "GET" url
      then metadata_response b
          (services.network.send (record {
            method = "GET";
            url = url;
            header = ("Accept", "application/json") ∷ [];
            body = none;
          }))
          log
      else (error "failed to create upstream request" 500, log)

  -- ServeHTTP
  unfoldable pub serve_npm : Base services → Request → Option Log → Reply × Option Log
  unfolding handle_metadata is_tarball_request passthrough
  serve_npm b r log =
      if is_tarball_request r.path
      then (passthrough services.network b.upstream r, log)
      else handle_metadata b r log
