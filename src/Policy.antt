-- ===== src/Policy.antt =====
-- internal/policy/engine.go: loading Rego policies and evaluating a package version against them. The
-- policy library OPA is the argument `Opa`.
pub mod Reasons
pub mod Loading
mod Examples
use dependency_guardian.Prelude.{
  ℕ, String, Bool, true, false, not, ◌||◌, Option, none, some, List, [], ◌∷◌, ◌++◌, map, length,
  eqb, if◌then◌else◌, has_suffix, ◌>>=◌,
}
use dependency_guardian.Prelude.Dict.{Dict, insert}
use dependency_guardian.Json.{Json, bool, str, arr, obj, items, members, of_items, of_members}
use dependency_guardian.Registry.{PackageVersion, VulnerabilityRecord, PolicyInput, PolicyResult}

-- rego.ResultSet: for each result, the values of its expressions.
abbrev pub ResultSet : Type 0
ResultSet = List (List Json)

-- What the program uses of OPA: compiling modules, preparing the query `data.guardian.deny`, and
-- evaluating it on an input. `none` is an error.
pub record Opa : Type 1 where
  pub Compiler : Type 0
  pub Query : Type 0
  pub compile_modules : Dict String → Option Compiler
  pub prepare : Compiler → Option Query
  pub eval : Query → Json → Option ResultSet

-- A file that `filepath.Walk` visits: `failed` when it reports an error there, and what reading the
-- file gives.
pub record Visit : Type 0 where
  pub path : String
  pub base_name : String
  pub failed : Bool
  pub is_dir : Bool
  pub content : Option String

abbrev pub skipped : Visit → Bool
skipped v = v.is_dir || not (has_suffix v.base_name ".rego")

-- The walk of `loadRegoFiles`; an error ends it.
unfoldable pub walk : List Visit → Dict String → Option (Dict String)
unfolding insert has_suffix
walk [] modules = some modules
walk (v ∷ vs) modules =
    if v.failed
    then none
    else if skipped v
    then walk vs modules
    else (v.content >>= λ source. walk vs (insert v.path source modules))

-- loadRegoFiles
unfoldable pub load_rego_files : List Visit → Option (Dict String)
unfolding walk
load_rego_files visits = do
  modules ← walk visits []
  if eqb (length modules) 0 then none else some modules

abbrev vuln_fields : VulnerabilityRecord → Json
vuln_fields v = obj (
    of_members (
      ("id", str v.id)
      ∷ ("severity", str v.severity)
      ∷ ("summary", str v.summary)
      ∷ ("fixed_in", str v.fixed_in)
      ∷ ("is_malicious", bool v.is_malicious)
      ∷ []))

module _ (format_time : ℕ → String) where
  abbrev package_fields : PackageVersion → Json
  package_fields p = obj (
      of_members (
        ("name", str p.name)
        ∷ ("version", str p.version)
        ∷ ("ecosystem", str p.ecosystem)
        ∷ ("published_at", str (format_time p.published_at))
        ∷ ("deprecated", bool p.deprecated)
        ∷ ("yanked", bool p.yanked)
        ∷ []))

  abbrev with_metadata : Option (Dict Json) → Dict Json → Dict Json
  with_metadata none m = m
  with_metadata (some metadata) m = insert "metadata" (obj (of_members metadata)) m

  -- toMap
  unfoldable pub to_map : PolicyInput → Json
  unfolding insert
  to_map input = obj (
      of_members (
        with_metadata input.metadata (
          ("package", package_fields input.package_version)
          ∷ ("vulnerabilities", arr (of_items (map vuln_fields input.vulnerabilities)))
          ∷ [])))

-- The items that are strings.
abbrev pub strings_of : List Json → List String
strings_of [] = []
strings_of (str s ∷ vs) = s ∷ strings_of vs
strings_of (v ∷ vs) = strings_of vs

-- The type switch of `extractReasons`; a Go map is ranged over in some order.
abbrev pub values_of : Json → List Json
values_of (arr vs) = items vs
values_of (obj fs) = map (λ e. e.1) (members fs)
values_of v = []

abbrev pub expression_reasons : List Json → List String
expression_reasons [] = []
expression_reasons (v ∷ vs) = strings_of (values_of v) ++ expression_reasons vs

-- extractReasons
unfoldable pub extract_reasons : ResultSet → List String
extract_reasons [] = []
extract_reasons (expressions ∷ rs) = expression_reasons expressions ++ extract_reasons rs

module _ (opa : Opa) where
  pub record Engine : Type 0 where
    pub compiler : opa.Compiler
    pub prepared : opa.Query

  abbrev pub engine_of : Dict String → Option Engine
  engine_of modules = do
    compiler ← opa.compile_modules modules
    prepared ← opa.prepare compiler
    some (record { compiler = compiler; prepared = prepared })

  -- NewEngine
  unfoldable pub new_engine : List Visit → Option Engine
  unfolding load_rego_files
  new_engine visits = load_rego_files visits >>= engine_of

  abbrev or_old : Engine → Option Engine → Engine × Bool
  or_old e none = (e, false)
  or_old e (some new) = (new, true)

  -- Engine.Reload: the engine after it, and whether it succeeded.
  unfoldable pub reload : List Visit → Engine → Engine × Bool
  unfolding load_rego_files
  reload visits e = or_old e (load_rego_files visits >>= engine_of)

  -- Engine.Evaluate
  unfoldable pub evaluate : (ℕ → String) → Engine → PolicyInput → Option PolicyResult
  unfolding to_map extract_reasons
  evaluate format_time e input = do
    rs ← opa.eval e.prepared (to_map format_time input)
    let reasons = extract_reasons rs
    some (record { allowed = eqb (length reasons) 0; reasons = reasons })
