-- ===== src/Handler/Filtering.antt =====
-- The loop over the versions of a JSON document that internal/handler/npm/handler.go and
-- internal/handler/pypi/handler.go share line by line: it deletes the versions that a rewrite rule
-- replaces by another one of the document, and those that the policy denies.
pub mod Kept
pub mod Removed
use dependency_guardian.Prelude.{
  ℕ, ◌≢◌, Elem, String, Bool, true, false, not, ◌&&◌, Option, none, some, List, [], ◌∷◌, ◌++◌,
  if◌then◌else◌, ◌==◌,
}
use dependency_guardian.Prelude.Dict.{Dict, lookup, remove}
use dependency_guardian.Json.{Json}
use dependency_guardian.Registry.{PackageVersion, PolicyResult}
use dependency_guardian.Rewrite.{RewriteRule, apply}
use dependency_guardian.Decisions.{Log}
use dependency_guardian.Handler.{Services, Base, evaluate_version}

abbrev pub is_present : Option Json → Bool
is_present none = false
is_present (some v) = true

-- What the handlers use of encoding/json and time, and the order in which `range` visits the keys of
-- a map, which Go leaves open.
pub record Documents : Type 0 where
  pub unmarshal : String → Option (Dict Json)
  pub marshal : Dict Json → Option String
  pub parse_layout : (layout : String) → String → Option ℕ
  pub iterate : Dict Json → List String

-- `range` visits every key of a map.
abbrev pub VisitsKeys : Documents → Type 0
VisitsKeys documents =
    (m : Dict Json) (k : String) → lookup k m ≢ none → Elem k (documents.iterate m)

abbrev pub or_empty : Option String → String
or_empty none = ""
or_empty (some s) = s

-- time.RFC3339
abbrev pub rfc3339 : String
rfc3339 = "2006-01-02T15:04:05Z07:00"

-- What the loop changes: the versions, those removed and the log, and whether it has returned an
-- error.
pub record Filtering : Type 0 where
  pub versions : Dict Json
  pub removed : List String
  pub log : Option Log
  pub failed : Bool

-- delete(versions, ver) and the append to `removed`.
abbrev pub drop_version : Filtering → String → Filtering
drop_version s ver = record {
  versions = remove ver s.versions;
  removed = s.removed ++ ver ∷ [];
  log = s.log;
  failed = s.failed;
}

abbrev pub with_log : Filtering → Option Log → Bool → Filtering
with_log s log failed = record {
  versions = s.versions;
  removed = s.removed;
  log = log;
  failed = failed;
}

-- A version behind its evaluation.
abbrev pub judged : Filtering → String → Option PolicyResult × Option Log → Filtering
judged s ver (none, log) = with_log s log true
judged s ver (some result, log) =
    if not result.allowed
    then drop_version (with_log s log s.failed) ver
    else with_log s log s.failed

-- Do the rewrite rules ask for another version.
abbrev pub is_rewritten :
    Services → Option (List RewriteRule) → (ecosystem name : String) → String → Bool
is_rewritten services none ecosystem name ver = false
is_rewritten services (some rules) ecosystem name ver =
    let rr = apply services.libs rules ecosystem name ver in rr.matched && not (rr.version == ver)

abbrev has_target :
    Services → Option (List RewriteRule) → (ecosystem name : String) → Dict Json → String → Bool
has_target services none ecosystem name versions ver = false
has_target services (some rules) ecosystem name versions ver =
    is_present (lookup (apply services.libs rules ecosystem name ver).version versions)

-- The condition of the loop's first `delete`: the rules give another version of the document.
abbrev pub is_replaced :
    Services → Option (List RewriteRule) → (ecosystem name : String) → Dict Json → String → Bool
is_replaced services rewriter ecosystem name versions ver =
    is_rewritten services rewriter ecosystem name ver
    && has_target services rewriter ecosystem name versions ver

-- A package of an ecosystem, and the version that the policy judges for an entry of its document.
module _ (services : Services) (b : Base services) (ecosystem name : String)
    (version_of : String → Option Json → PackageVersion) where
  -- The body of the loop.
  unfoldable pub judge : Filtering → String → Filtering
  unfolding evaluate_version apply lookup remove
  judge s ver =
      if is_replaced services b.rewriter ecosystem name s.versions ver
      then drop_version s ver
      else judged s ver (evaluate_version services b s.log (version_of ver (lookup ver s.versions)))

  -- The loop, over the versions in the order in which they are visited.
  unfoldable pub filter_versions : List String → Filtering → Filtering
  unfolding judge
  filter_versions [] s = s
  filter_versions (ver ∷ vers) s =
      let s' = judge s ver in if s'.failed then s' else filter_versions vers s'
