-- ===== src/Handler/Pypi.antt =====
-- internal/handler/pypi/handler.go: the PyPI proxy.
pub mod Filter
mod Examples
use dependency_guardian.Prelude.{
  ℕ, String, Bool, true, false, not, ◌&&◌, Option, none, some, List, [], ◌∷◌, eqb, if◌then◌else◌,
  mem, has_prefix, has_suffix,
}
use dependency_guardian.Prelude.Dict.{Dict, lookup, insert}
use dependency_guardian.Json.{
  Json, obj, str, members, of_members, as_string, as_bool, as_object, as_array,
}
use dependency_guardian.Registry.{PackageVersion, ecosystem_pypi}
use dependency_guardian.Decisions.{Log}
use dependency_guardian.Http.{Request, Incoming, Reply, respond, error, ◌^^◌, passthrough}
use dependency_guardian.Handler.{Services, Base}
use dependency_guardian.Handler.Filtering.{Documents, Filtering, or_empty, rfc3339, filter_versions}

-- isJSONMetadataRequest
unfoldable pub is_json_metadata_request : String → Bool
unfolding has_prefix has_suffix
is_json_metadata_request path = has_prefix path "/pypi/" && has_suffix path "/json"

-- Is one file of a release yanked: an entry that is no object is passed over.
abbrev pub is_yanked_file : Json → Bool
is_yanked_file (obj fs) = elim (as_bool (lookup "yanked" (members fs))) [
  | none ↦ false
  | some yanked ↦ yanked
]
is_yanked_file _ = false

abbrev pub has_yanked : List Json → Bool
has_yanked [] = false
has_yanked (f ∷ fs) = let rest = has_yanked fs in if is_yanked_file f then true else rest

-- isYanked
unfoldable pub is_yanked : Option (List Json) → Bool
unfolding lookup
is_yanked none = false
is_yanked (some files) = has_yanked files

-- A read of a nil map gives nothing.
abbrev pub name_of : Option (Dict Json) → String
name_of none = ""
name_of (some info) = or_empty (as_string (lookup "name" info))

abbrev pub clear_version : Option String → List String → Dict Json → Dict Json
clear_version none removed info = info
clear_version (some current) removed info =
    if mem current removed then insert "version" (str "") info else info

-- The current release is cleared when it is removed.
abbrev pub put_info : Option (Dict Json) → List String → Dict Json → Dict Json
put_info none removed doc = doc
put_info (some info) removed doc =
    insert "info"
      (obj (of_members (clear_version (as_string (lookup "version" info)) removed info))) doc

-- The document behind the loop: its maps are changed in place.
abbrev pub changed_document : Dict Json → Filtering → Dict Json
changed_document doc s =
    put_info (as_object (lookup "info" doc)) s.removed
      (insert "releases" (obj (of_members s.versions)) doc)

module _ (services : Services) (documents : Documents) where
  abbrev first_parse : List String → String → Option ℕ
  first_parse [] ts = none
  first_parse (layout ∷ layouts) ts =
      let rest = first_parse layouts ts in
      elim (documents.parse_layout layout ts) [ none ↦ rest | some t ↦ some t ]

  abbrev layouts : List String
  layouts = rfc3339 ∷ "2006-01-02T15:04:05" ∷ "2006-01-02T15:04:05Z" ∷ []

  -- The loop over the names of the fields of a file.
  abbrev first_time : List String → Dict Json → ℕ
  first_time [] file = 0
  first_time (name ∷ names) file =
      let rest = first_time names file in
      elim (as_string (lookup name file)) [
        | none ↦ rest
        | some ts ↦ elim (first_parse layouts ts) [ none ↦ rest | some t ↦ t ]
      ]

  -- extractPyPIPublishTime
  unfoldable pub extract_pypi_publish_time : Option (List Json) → ℕ
  unfolding lookup
  extract_pypi_publish_time (some (obj fs ∷ files)) =
      first_time ("upload_time_iso_8601" ∷ "upload_time" ∷ []) (members fs)
  extract_pypi_publish_time _ = 0

  abbrev pub pypi_version : String → String → Option Json → PackageVersion
  pypi_version name ver entry = record {
    name = name;
    version = ver;
    ecosystem = ecosystem_pypi;
    published_at = extract_pypi_publish_time (as_array entry);
    deprecated = false;
    yanked = is_yanked (as_array entry);
  }

  -- The loop on the releases of a document.
  abbrev pub filter_releases : Base services → Dict Json → Dict Json → Option Log → Filtering
  filter_releases b doc releases log =
      let name = name_of (as_object (lookup "info" doc)) in
      filter_versions services b "pypi" name (pypi_version name) (documents.iterate releases)
        (record { versions = releases; removed = []; log = log; failed = false })

  abbrev filtered_document : Dict Json → Filtering → Option String
  filtered_document doc s = if s.failed then none else documents.marshal (changed_document doc s)

  abbrev pub filter_document :
      Base services
      → (body : String) → Dict Json
      → Option (Dict Json)
      → Option Log
      → Option String × Option Log
  filter_document b body doc none log = (some body, log)
  filter_document b body doc (some releases) log =
      let s = filter_releases b doc releases log in (filtered_document doc s, s.log)

  abbrev pub filter_decoded :
      Base services → String → Option (Dict Json) → Option Log → Option String × Option Log
  filter_decoded b body none log = (none, log)
  filter_decoded b body (some doc) log =
      filter_document b body doc (as_object (lookup "releases" doc)) log

  -- filterMetadata: the new document, `none` for an error, and the log.
  unfoldable pub filter_metadata : Base services → String → Option Log → Option String × Option Log
  unfolding filter_versions is_yanked extract_pypi_publish_time lookup insert mem
  filter_metadata b body log = filter_decoded b body (documents.unmarshal body) log

  abbrev pub filtered_reply : Option String × Option Log → Reply × Option Log
  filtered_reply (none, log) = (error "policy evaluation failed" 500, log)
  filtered_reply (some body, log) =
      (respond 200 (("Content-Type", "application/json") ∷ []) body, log)

  abbrev pub metadata_response : Base services → Option Incoming → Option Log → Reply × Option Log
  metadata_response b none log = (error "upstream request failed" 502, log)
  metadata_response b (some resp) log =
      if not (eqb resp.status_code 200)
      then (respond resp.status_code [] resp.body, log)
      else if resp.body_failed
      then (error "failed to read upstream response" 502, log)
      else filtered_reply (filter_metadata b resp.body log)

  -- handleJSONMetadata
  unfoldable pub handle_json_metadata : Base services → Request → Option Log → Reply × Option Log
  unfolding filter_metadata
  handle_json_metadata b r log =
      let url = b.upstream.base_url ^^ r.path in
      if services.network.makes_request "GET" url
      then metadata_response b
          (services.network.send (record {
            method = "GET";
            url = url;
            header = ("Accept", "application/json") ∷ [];
            body = none;
          }))
          log
      else (error "failed to create upstream request" 500, log)

  -- ServeHTTP
  unfoldable pub serve_pypi : Base services → Request → Option Log → Reply × Option Log
  unfolding handle_json_metadata is_json_metadata_request passthrough
  serve_pypi b r log =
      if has_prefix r.path "/simple/"
      then (passthrough services.network b.upstream r, log)
      else if is_json_metadata_request r.path
      then handle_json_metadata b r log
      else (passthrough services.network b.upstream r, log)
