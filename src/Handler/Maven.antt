-- ===== src/Handler/Maven.antt =====
-- internal/handler/maven/pom.go: the properties, the ancestors and the dependencies of a POM.
pub mod Ancestors
pub mod Adding
pub mod Dependencies
pub mod Metadata
mod Examples
use Prim.Native.String.{[], ◌∷◌}
use mathlib.Core.List
use mathlib.Core.List.{List}
use dependency_guardian.Prelude.{
  ℕ, zero, suc, code, String, Bool, not, ◌||◌, Option, none, some, eqb, if◌then◌else◌, ◌==◌,
  contains, has_suffix, mem, ◌>>=◌,
}
use dependency_guardian.Prelude.Dict.{Dict, lookup, insert}
use dependency_guardian.Http.{Network, Client, fetch, ◌^^◌}

pub record PomParent : Type 0 where
  pub group_id : String
  pub artifact_id : String
  pub version : String

pub record PomDependency : Type 0 where
  pub group_id : String
  pub artifact_id : String
  pub version : String
  pub scope : String
  pub optional : String

-- pomDeps, and pomDepMgmt with its pointer to them.
pub record PomDeps : Type 0 where
  pub dependency : List PomDependency

pub record PomDepMgmt : Type 0 where
  pub dependencies : Option PomDeps

-- pomProperties
pub record PomProperties : Type 0 where
  pub entries : Dict String

-- pomProject: the fields that the program reads; it does no more with the others than to decode them.
pub record PomProject : Type 0 where
  pub parent : Option PomParent
  pub group_id : Option String
  pub artifact_id : Option String
  pub version : Option String
  pub dependency_management : Option PomDepMgmt
  pub dependencies : Option PomDeps
  pub properties : Option PomProperties

abbrev pub max_parent_depth : ℕ
max_parent_depth = 10

-- strings.ReplaceAll(s, ".", "/")
unfoldable pub dots_to_slashes : String → String
dots_to_slashes [] = []
dots_to_slashes (c ∷ s) = (if eqb (code c) b'.' then "/" else c) ∷ dots_to_slashes s

-- pomPath
unfoldable pub pom_path : String → String → String → String
unfolding dots_to_slashes
pom_path group_id artifact_id version =
    "/"
    ^^ dots_to_slashes group_id
    ^^ "/"
    ^^ artifact_id
    ^^ "/"
    ^^ version
    ^^ "/"
    ^^ artifact_id
    ^^ "-"
    ^^ version
    ^^ ".pom"

-- isPomRequest
unfoldable pub is_pom_request : String → Bool
unfolding has_suffix
is_pom_request path = has_suffix path ".pom"

-- The places of the expression \$\{([^}]+)\}: outside of a reference, behind a dollar sign, and inside of a
-- reference with the part of its key that was read.
pub data Place : Type 0 where
  outside : Place
  dollar : Place
  inside : String → Place

-- The function that `ReplaceAllStringFunc` applies to a match with the key.
abbrev pub value_of : Dict String → String → String
value_of props key = elim (lookup key props) [ none ↦ "${" ^^ key ^^ "}" | some v ↦ v ]

-- propertyRefRE.ReplaceAllStringFunc
unfoldable pub replace_refs : Dict String → Place → String → String
unfolding lookup
replace_refs props outside [] = []
replace_refs props dollar [] = "$"
replace_refs props (inside key) [] = "${" ^^ key
replace_refs props outside (c ∷ s) =
    let next = replace_refs props dollar s in
    let rest = replace_refs props outside s in if eqb (code c) b'$' then next else c ∷ rest
replace_refs props dollar (c ∷ s) =
    let opened = replace_refs props (inside "") s in
    let again = replace_refs props dollar s in
    let rest = replace_refs props outside s in
    if eqb (code c) b'{'
    then opened
    else if eqb (code c) b'$'
    then "$" ^^ again
    else "$" ^^ (c ∷ rest)
replace_refs props (inside key) (c ∷ s) =
    let rest = replace_refs props outside s in
    let longer = replace_refs props (inside (key ^^ (c ∷ []))) s in
    if eqb (code c) b'}' then (if key == "" then "${}" else value_of props key) ^^ rest else longer

-- The loop of `resolveVersion`, with the rounds that are left.
unfoldable pub resolve_rounds : ℕ → Dict String → String → String
unfolding replace_refs
resolve_rounds zero props resolved = resolved
resolve_rounds (suc n) props prev =
    let resolved = replace_refs props outside prev in
    let more = resolve_rounds n props resolved in if resolved == prev then resolved else more

-- resolveVersion
unfoldable pub resolve_version : String → Dict String → String
unfolding resolve_rounds contains
resolve_version version props =
    if not (contains version "${") then version else resolve_rounds 5 props version

-- for k, v := range entries { props[k] = v }
unfoldable pub put_all : Dict String → Dict String → Dict String
unfolding insert
put_all List.[] props = props
put_all (List.◌∷◌ (k, v) entries) props = insert k v (put_all entries props)

abbrev pub entries_of : Option PomProperties → Dict String
entries_of none = List.[]
entries_of (some p) = p.entries

-- The loop over the chain, from the outermost ancestor.
unfoldable pub put_chain : List PomProject → Dict String → Dict String
unfolding put_all
put_chain List.[] props = props
put_chain (List.◌∷◌ ancestor chain) props =
    put_chain chain (put_all (entries_of ancestor.properties) props)

abbrev put_some : String → Option String → Dict String → Dict String
put_some k none props = props
put_some k (some v) props = insert k v props

-- The version of a project: its own, or else its parent's where that is not empty.
abbrev pub project_version : Option String → Option PomParent → Option String
project_version (some v) parent = some v
project_version none none = none
project_version none (some p) = if p.version == "" then none else some p.version

-- The implicit project properties.
abbrev pub put_implicit : PomProject → Dict String → Dict String
put_implicit pom props =
    put_some "project.version" (project_version pom.version pom.parent) (
      put_some "project.artifactId" pom.artifact_id (put_some "project.groupId" pom.group_id props))

-- The parameters are the network and encoding/xml at the type of a project.
module _ (network : Network) (decode : String → Option PomProject) where
  abbrev with_properties : Option PomProperties → Option PomProperties
  with_properties none = some (record { entries = List.[] })
  with_properties (some p) = some p

  -- parsePOM
  unfoldable pub parse_pom : String → Option PomProject
  parse_pom body = do
    pom ← decode body
    some (record pom { properties = with_properties pom.properties })

  abbrev body_of : Option (String × ℕ) → Option String
  body_of none = none
  body_of (some (body, status)) = if not (eqb status 200) then none else some body

  -- fetchPOMFromUpstream
  unfoldable pub fetch_pom_from_upstream : Client → String → String → String → Option String
  unfolding pom_path fetch
  fetch_pom_from_upstream client group_id artifact_id version =
      let path = pom_path group_id artifact_id version in
      if (group_id == "") || (artifact_id == "") || (version == "")
      then none
      else if not (network.makes_request "GET" ("http://dummy" ^^ path))
      then none
      else body_of (fetch network client path)

  -- The parent of a POM, where it has one that can be fetched and parsed.
  abbrev pub parent_of : Client → Option PomParent → Option PomProject
  parent_of client none = none
  parent_of client (some p) =
      fetch_pom_from_upstream client p.group_id p.artifact_id p.version >>= parse_pom

  abbrev pub snoc : List PomProject → PomProject → List PomProject
  snoc ancestors p = List.◌++◌ ancestors (List.◌∷◌ p List.[])

  -- The parent behind its own ancestors; nothing where there is no parent.
  abbrev pub above : (PomProject → List PomProject) → Option PomProject → List PomProject
  above ancestors none = List.[]
  above ancestors (some p) = snoc (ancestors p) p

  -- parentChain
  unfoldable pub parent_chain : Client → PomProject → ℕ → List PomProject
  unfolding fetch_pom_from_upstream parse_pom
  parent_chain client pom zero = List.[]
  parent_chain client pom (suc depth) =
      above (λ p. parent_chain client p depth) (parent_of client pom.parent)

  -- collectProperties
  unfoldable pub collect_properties : Client → PomProject → Dict String
  unfolding parent_chain put_chain put_all
  collect_properties client pom = put_implicit pom (
      put_all (entries_of pom.properties)
        (put_chain (parent_chain client pom max_parent_depth) List.[]))

abbrev pub resolved_of : Dict String → PomDependency → PomDependency
resolved_of props d = record d {
  version = resolve_version d.version props;
  group_id = resolve_version d.group_id props;
  artifact_id = resolve_version d.artifact_id props;
}

abbrev pub key_of : PomDependency → String
key_of d = d.group_id ^^ ":" ^^ d.artifact_id ^^ ":" ^^ d.version

-- The version is still unresolved or empty.
abbrev pub is_unresolved : PomDependency → Bool
is_unresolved d = (d.version == "") || contains d.version "${"

-- addDeps, over `seen` and `deps`.
unfoldable pub add_deps :
    Dict String
    → List PomDependency
    → List String × List PomDependency
    → List String × List PomDependency
unfolding resolve_version contains mem
add_deps props List.[] state = state
add_deps props (List.◌∷◌ dep ds) (seen, deps) =
    let d = resolved_of props dep in
    let skipped = add_deps props ds (seen, deps) in
    let added = add_deps props ds (List.◌∷◌ (key_of d) seen, List.◌++◌ deps (List.◌∷◌ d List.[])) in
    if is_unresolved d then skipped else if mem (key_of d) seen then skipped else added

abbrev pub listed : Option PomDeps → List PomDependency
listed none = List.[]
listed (some d) = d.dependency

abbrev pub managed : Option PomDepMgmt → List PomDependency
managed none = List.[]
managed (some m) = listed m.dependencies

-- resolvedDependencies
unfoldable pub resolved_dependencies : PomProject → Dict String → List PomDependency
unfolding add_deps
resolved_dependencies pom props =
    (add_deps props (managed pom.dependency_management)
      (add_deps props (listed pom.dependencies) (List.[], List.[]))).1
