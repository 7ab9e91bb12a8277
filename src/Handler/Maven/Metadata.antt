-- ===== src/Handler/Maven/Metadata.antt =====
-- internal/handler/maven/handler.go: the version lists of the Maven proxy, and the POMs it inspects.
pub mod Listing
pub mod Inspection
mod Examples
use Prim.Native.Char.{code}
use Prim.Native.String
use dependency_guardian.Prelude.{
  ℕ, String, Bool, false, not, ◌&&◌, Option, none, some, List, [], ◌∷◌, filter, eqb, if◌then◌else◌,
  ◌==◌, mem, has_suffix, trim_prefix, trim_suffix, ◌>>=◌,
}
use dependency_guardian.Registry.{PackageVersion, PolicyResult, ecosystem_maven}
use dependency_guardian.Rewrite.{RewriteRule, apply}
use dependency_guardian.Decisions.{Log}
use dependency_guardian.Http.{Request, Reply, respond, error, ◌^^◌, fetch, passthrough}
use dependency_guardian.Handler.{Services, Base, evaluate_version}
use dependency_guardian.Handler.Filtering.{is_rewritten}
use dependency_guardian.Handler.Maven.{
  PomProject, PomDependency, is_pom_request, parse_pom, collect_properties, resolved_dependencies,
}

-- mavenVersionList, mavenVersioning and mavenMetadata
pub record MavenVersionList : Type 0 where
  pub version : List String

pub record MavenVersioning : Type 0 where
  pub latest : String
  pub release : String
  pub versions : MavenVersionList
  pub last_updated : String

pub record MavenMetadata : Type 0 where
  pub group_id : String
  pub artifact_id : String
  pub versioning : Option MavenVersioning

-- What the handler uses of encoding/xml: reading and printing metadata, and reading a POM.
pub record XmlCodec : Type 0 where
  pub unmarshal : String → Option MavenMetadata
  pub marshal_indent : MavenMetadata → Option String
  pub decode_pom : String → Option PomProject

-- xml.Header
abbrev pub xml_header : String
xml_header = "<?xml version=\"1.0\" encoding=\"UTF-8\"?>\n"

-- isMetadataRequest
unfoldable pub is_metadata_request : String → Bool
unfolding has_suffix
is_metadata_request path = has_suffix path "/maven-metadata.xml"

-- mavenCoordinate
unfoldable pub maven_coordinate : String → String → String
maven_coordinate group_id artifact_id =
    if group_id == "" then artifact_id else group_id ^^ ":" ^^ artifact_id

abbrev pub maven_version : String → String → PackageVersion
maven_version name ver = record {
  name = name;
  version = ver;
  ecosystem = ecosystem_maven;
  published_at = 0;
  deprecated = false;
  yanked = false;
}

-- strings.Split(s, "/")
unfoldable pub split_slashes : String → List String
split_slashes String.[] = "" ∷ []
split_slashes (String.◌∷◌ c s) =
    let rest = split_slashes s in
    if eqb (code c) b'/' then "" ∷ rest else elim rest [
      | [] ↦ (String.◌∷◌ c String.[]) ∷ []
      | part ∷ parts ↦ (String.◌∷◌ c part) ∷ parts
    ]

-- strings.Join of all but the last part, with dots between, and the last part.
unfoldable pub join_but_last : List String → String × String
join_but_last [] = ("", "")
join_but_last (part ∷ []) = ("", part)
join_but_last (part ∷ next ∷ parts) =
    let (front, last) = join_but_last (next ∷ parts) in
    (elim parts [ [] ↦ part | _ ∷ _ ↦ part ^^ "." ^^ front ], last)

-- ExtractGroupAndArtifact
unfoldable pub extract_group_and_artifact : String → String × String
unfolding trim_prefix trim_suffix split_slashes join_but_last
extract_group_and_artifact path =
    join_but_last (split_slashes (trim_suffix (trim_prefix path "/") "/maven-metadata.xml"))

-- allowed[len(allowed)-1], if there is one.
abbrev pub last_of : List String → Option String
last_of [] = none
last_of (ver ∷ vers) = elim (last_of vers) [ none ↦ some ver | some last ↦ some last ]

-- A release or latest version, with the last of the versions that are left.
abbrev pub newest : Option String → String → String
newest none old = ""
newest (some last) old = if old == "" then old else last

abbrev pub with_versions : MavenMetadata → MavenVersioning → List String → MavenMetadata
with_versions meta v allowed = record meta {
  versioning = some (record {
    latest = newest (last_of allowed) v.latest;
    release = newest (last_of allowed) v.release;
    versions = record { version = allowed };
    last_updated = v.last_updated;
  });
}

module _ (services : Services) (codec : XmlCodec) where
  abbrev target_of : Option (List RewriteRule) → String → String → String
  target_of none name ver = ver
  target_of (some rules) name ver = (apply services.libs rules "maven" name ver).version

  -- The condition of the rewriting loop: the version is rewritten to another one of the list.
  abbrev pub is_rewritten_away : Option (List RewriteRule) → String → List String → String → Bool
  is_rewritten_away rewriter name versions ver =
      is_rewritten services rewriter "maven" name ver && mem (target_of rewriter name ver) versions

  -- The loop that fills `rewrittenAway`.
  abbrev pub rewritten_away : Option (List RewriteRule) → String → List String → List String
  rewritten_away rewriter name versions = filter (is_rewritten_away rewriter name versions) versions

  abbrev prepended : Bool → String → Option (List String) → Option (List String)
  prepended keep ver none = none
  prepended keep ver (some vers) = if keep then some (ver ∷ vers) else some vers

  abbrev pub then_rest :
      String
      → Option PolicyResult
      → Option (List String) × Option Log
      → Option Log
      → Option (List String) × Option Log
  then_rest ver none rest log = (none, log)
  then_rest ver (some result) rest log = (prepended result.allowed ver rest.0, rest.1)

  -- The loop that fills `allowed`: the first error ends it.
  unfoldable pub allowed_versions :
      Base services
      → (name : String) → (rewritten vers : List String) → Option Log
      → Option (List String) × Option Log
  unfolding evaluate_version mem
  allowed_versions b name rewritten [] log = (some [], log)
  allowed_versions b name rewritten (ver ∷ vers) log =
      let skip_it = mem ver rewritten in
      let (result, log') = evaluate_version services b log (maven_version name ver) in
      let rest = allowed_versions b name rewritten vers (if skip_it then log else log') in
      if skip_it then rest else then_rest ver result rest log'

  abbrev pub print_with :
      MavenMetadata
      → MavenVersioning
      → Option (List String) × Option Log
      → Option String × Option Log
  print_with meta v (none, log) = (none, log)
  print_with meta v (some allowed, log) = (
    codec.marshal_indent (with_versions meta v allowed) >>= λ output. some (xml_header ^^ output),
    log,
  )

  abbrev pub filter_versioning :
      Base services
      → (body : String) → MavenMetadata
      → MavenVersioning
      → Option Log
      → Option String × Option Log
  filter_versioning b body meta v log =
      let name = maven_coordinate meta.group_id meta.artifact_id in
      let versions = v.versions.version in
      print_with meta v
        (allowed_versions b name (rewritten_away b.rewriter name versions) versions log)

  -- len(versions) == 0 returns the document as it is.
  abbrev pub filter_listed :
      Base services
      → (body : String) → MavenMetadata
      → MavenVersioning
      → List String
      → Option Log
      → Option String × Option Log
  filter_listed b body meta v [] log = (some body, log)
  filter_listed b body meta v (ver ∷ vers) log = filter_versioning b body meta v log

  abbrev pub filter_parsed :
      Base services
      → (body : String) → MavenMetadata
      → Option MavenVersioning
      → Option Log
      → Option String × Option Log
  filter_parsed b body meta none log = (some body, log)
  filter_parsed b body meta (some v) log = filter_listed b body meta v v.versions.version log

  abbrev pub filter_decoded :
      Base services → String → Option MavenMetadata → Option Log → Option String × Option Log
  filter_decoded b body none log = (none, log)
  filter_decoded b body (some meta) log = filter_parsed b body meta meta.versioning log

  -- filterMetadata: the new document, `none` for an error, and the log.
  unfoldable pub filter_metadata : Base services → String → Option Log → Option String × Option Log
  unfolding allowed_versions maven_coordinate apply mem
  filter_metadata b body log = filter_decoded b body (codec.unmarshal body) log

  abbrev pub filtered_reply : Option String × Option Log → Reply × Option Log
  filtered_reply (none, log) = (error "policy evaluation failed" 500, log)
  filtered_reply (some body, log) =
      (respond 200 (("Content-Type", "application/xml") ∷ []) body, log)

  abbrev pub metadata_response :
      Base services → Option (String × ℕ) → Option Log → Reply × Option Log
  metadata_response b none log = (error "upstream request failed" 502, log)
  metadata_response b (some (body, status)) log =
      if not (eqb status 200)
      then (respond status [] body, log)
      else filtered_reply (filter_metadata b body log)

  -- handleMetadata
  unfoldable pub handle_metadata : Base services → Request → Option Log → Reply × Option Log
  unfolding filter_metadata fetch
  handle_metadata b r log = metadata_response b (fetch services.network b.upstream r.path) log

  -- The loop of `inspectPOM`: only the log keeps what the policy says.
  unfoldable pub inspect_dependencies : Base services → List PomDependency → Option Log → Option Log
  unfolding evaluate_version maven_coordinate
  inspect_dependencies b [] log = log
  inspect_dependencies b (dep ∷ deps) log =
      inspect_dependencies b deps
        (evaluate_version services b log
          (maven_version (maven_coordinate dep.group_id dep.artifact_id) dep.version)).1

  abbrev pub inspect_parsed : Base services → Option PomProject → Option Log → Option Log
  inspect_parsed b none log = log
  inspect_parsed b (some pom) log =
      inspect_dependencies b
        (resolved_dependencies pom
          (collect_properties services.network codec.decode_pom b.upstream pom))
        log

  -- inspectPOM
  unfoldable pub inspect_pom : Base services → String → Option Log → Option Log
  unfolding inspect_dependencies parse_pom collect_properties resolved_dependencies
  inspect_pom b body log = inspect_parsed b (parse_pom services.network codec.decode_pom body) log

  abbrev pub pom_response : Base services → Option (String × ℕ) → Option Log → Reply × Option Log
  pom_response b none log = (error "upstream request failed" 502, log)
  pom_response b (some (body, status)) log =
      if not (eqb status 200)
      then (respond status [] body, log)
      else (respond 200 (("Content-Type", "application/xml") ∷ []) body, inspect_pom b body log)

  -- handlePom
  unfoldable pub handle_pom : Base services → Request → Option Log → Reply × Option Log
  unfolding inspect_pom fetch
  handle_pom b r log = pom_response b (fetch services.network b.upstream r.path) log

  -- ServeHTTP
  unfoldable pub serve_maven : Base services → Request → Option Log → Reply × Option Log
  unfolding handle_metadata handle_pom is_metadata_request is_pom_request passthrough
  serve_maven b r log =
      if is_metadata_request r.path
      then handle_metadata b r log
      else if is_pom_request r.path
      then handle_pom b r log
      else (passthrough services.network b.upstream r, log)
