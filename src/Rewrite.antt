-- ===== src/Rewrite.antt =====
-- internal/rewrite/rewrite.go: the engine that redirects or replaces versions and names, with the
-- rule types of internal/config/config.go. A nil pointer to a version rewrite is `none`; log lines
-- are left out.
mod Glob
pub mod Rules
pub mod Bounds
pub mod Closest
pub mod Tracking
pub mod Nearest
pub mod Snapping
mod Examples
use Prim.Native.String
use dependency_guardian.Prelude.{
  ℕ, String, Bool, true, false, not, ◌&&◌, ◌||◌, Option, none, some, List, [], ◌∷◌, ltb,
  if◌then◌else◌, ◌==◌, equal_fold, mem,
}
use dependency_guardian.Prelude.Int.{ℤ, pos, negsuc, ltb_ℤ, leb_ℤ, ◌+ℤ◌, ◌-ℤ◌, ◌*ℤ◌, wrap64}
use dependency_guardian.Prelude.Decimal.{atoi}
use dependency_guardian.Vercmp.{VersionLibs, ParsedVersion, parse_version, format, compare_versions}
use dependency_guardian.Rewrite.Glob.{glob_match}

pub record VersionRewrite : Type 0 where
  pub strategy : String
  pub target : String

pub record RewriteMatch : Type 0 where
  pub ecosystem : String
  pub name : String
  pub version : String

pub record RewriteAction : Type 0 where
  pub name : String
  pub version : Option VersionRewrite
  pub mode : String

pub record RewriteRule : Type 0 where
  pub matching : RewriteMatch
  pub rewrite : RewriteAction

pub record Result : Type 0 where
  pub matched : Bool
  pub name : String
  pub version : String
  pub mode : String

-- A glob criterion: an empty one and "*" hold of everything.
abbrev criterion : String → String → Bool
criterion pattern s =
    if not (pattern == "") && not (pattern == "*") then glob_match pattern s else true

-- matchesRule
unfoldable pub matches_rule : RewriteMatch → String → String → String → Bool
unfolding glob_match equal_fold
matches_rule m ecosystem name version =
    if not (m.ecosystem == "") && not (equal_fold m.ecosystem ecosystem)
    then false
    else if not (criterion m.name name)
    then false
    else if not (criterion m.version version)
    then false
    else true

abbrev at_least : ℕ → ℕ → ℕ
at_least low n = if ltb n low then low else n

module _ (libs : VersionLibs) where
  abbrev snapped : Option ParsedVersion → String → (ParsedVersion → ParsedVersion) → String
  snapped none version f = version
  snapped (some pv) version f = format (f pv)

  -- snapToMinor
  unfoldable pub snap_to_minor : String → String → String
  snap_to_minor version ecosystem =
      snapped (parse_version libs version ecosystem) version
        (λ pv. record pv { patch = pos 0; pre_release = ""; segments = at_least 3 pv.segments })

  -- snapToMajor
  unfoldable pub snap_to_major : String → String → String
  snap_to_major version ecosystem = snapped (parse_version libs version ecosystem) version (λ pv.
      record pv {
        minor = pos 0;
        patch = pos 0;
        pre_release = "";
        segments = at_least 3 pv.segments;
      })

  -- applyMin
  unfoldable pub apply_min : String → String → String → String
  apply_min version target ecosystem =
      if ltb_ℤ (compare_versions libs version target ecosystem) (pos 0) then target else version

  -- applyMax
  unfoldable pub apply_max : String → String → String → String
  apply_max version target ecosystem =
      if ltb_ℤ (pos 0) (compare_versions libs version target ecosystem) then target else version

  abbrev replaced :
      Option ParsedVersion → Option ℤ → String → (ParsedVersion → ℤ → ParsedVersion) → String
  replaced none n version f = version
  replaced (some pv) none version f = version
  replaced (some pv) (some n) version f = format (f pv n)

  -- replaceMajor
  unfoldable pub replace_major : String → String → String → String
  replace_major version target ecosystem =
      replaced (parse_version libs version ecosystem) (atoi target) version
        (λ pv n. record pv { major = n })

  -- replaceMinor
  unfoldable pub replace_minor : String → String → String → String
  replace_minor version target ecosystem =
      replaced (parse_version libs version ecosystem) (atoi target) version
        (λ pv n. record pv { minor = n; segments = at_least 2 pv.segments })

  -- replacePatch
  unfoldable pub replace_patch : String → String → String → String
  replace_patch version target ecosystem =
      replaced (parse_version libs version ecosystem) (atoi target) version
        (λ pv n. record pv { patch = n; segments = at_least 3 pv.segments })

  -- applyVersionStrategy
  unfoldable pub apply_version_strategy : String → VersionRewrite → String → String
  unfolding snap_to_minor snap_to_major apply_min apply_max replace_major replace_minor
      replace_patch
  apply_version_strategy version vr ecosystem =
      if vr.strategy == "pin"
      then vr.target
      else if vr.strategy == "nearest-minor"
      then snap_to_minor version ecosystem
      else if vr.strategy == "nearest-major"
      then snap_to_major version ecosystem
      else if vr.strategy == "min"
      then apply_min version vr.target ecosystem
      else if vr.strategy == "max"
      then apply_max version vr.target ecosystem
      else if vr.strategy == "replace-major"
      then replace_major version vr.target ecosystem
      else if vr.strategy == "replace-minor"
      then replace_minor version vr.target ecosystem
      else if vr.strategy == "replace-patch"
      then replace_patch version vr.target ecosystem
      else version

  abbrev rewritten : Option VersionRewrite → String → String → String
  rewritten none version ecosystem = version
  rewritten (some vr) version ecosystem = apply_version_strategy version vr ecosystem

  -- The body of the loop of `Apply` behind the test of the rule.
  unfoldable pub apply_action : RewriteAction → String → String → String → Result
  apply_action a ecosystem name version = record {
    matched = true;
    name = if a.name == "" then name else a.name;
    version = rewritten a.version version ecosystem;
    mode = if a.mode == "" then "transparent" else a.mode;
  }

  -- Engine.Apply: the first rule that matches wins.
  unfoldable pub apply : List RewriteRule → String → String → String → Result
  unfolding apply_action
  apply [] ecosystem name version = record {
    matched = false;
    name = name;
    version = version;
    mode = "transparent";
  }
  apply (rule ∷ rules) ecosystem name version =
      if matches_rule rule.matching ecosystem name version
      then apply_action rule.rewrite ecosystem name version
      else apply rules ecosystem name version

-- abs, in Go's int.
unfoldable pub abs64 : ℤ → ℤ
unfolding wrap64 ◌-ℤ◌
abs64 x = if ltb_ℤ x (pos 0) then wrap64 (pos 0 -ℤ x) else x

-- pv.Major*1000000 + pv.Minor*1000 + pv.Patch, in Go's int.
unfoldable pub linear : ParsedVersion → ℤ
unfolding wrap64 ◌+ℤ◌ ◌*ℤ◌
linear pv =
    wrap64 (wrap64 (wrap64 (pv.major *ℤ pos 1000000) +ℤ wrap64 (pv.minor *ℤ pos 1000)) +ℤ pv.patch)

-- The distance of a candidate: one more below the target.
unfoldable pub distance : ParsedVersion → ParsedVersion → ℤ → ℤ
unfolding abs64 linear
distance pa pt cmp =
    let dist = abs64 (wrap64 (linear pa -ℤ linear pt)) in
    if ltb_ℤ cmp (pos 0) then wrap64 (dist +ℤ pos 1) else dist

-- One pair of variables of `findClosestVersion`, such as bestAny and bestAnyAbs.
pub record Best : Type 0 where
  pub version : String
  pub abs : ℤ

abbrev pub no_best : Best
no_best = record { version = ""; abs = negsuc 0 }

unfoldable pub improve : Bool → String → ℤ → Best → Best
improve applies av dist b =
    if applies
    then (if ltb_ℤ b.abs (pos 0) || ltb_ℤ dist b.abs
        then record { version = av; abs = dist }
        else b)
    else b

pub record Search : Type 0 where
  pub same_minor : Best
  pub same_major : Best
  pub any : Best

eq_ℤ : ℤ → ℤ → Bool
eq_ℤ a b = leb_ℤ a b && leb_ℤ b a

abbrev pub shares_major : ParsedVersion → ParsedVersion → Bool
unfolding eq_ℤ
shares_major pa pt = eq_ℤ pa.major pt.major

abbrev pub shares_minor : ParsedVersion → ParsedVersion → Bool
unfolding eq_ℤ
shares_minor pa pt = eq_ℤ pa.major pt.major && eq_ℤ pa.minor pt.minor

module _ (libs : VersionLibs) where
  abbrev consider :
      Option ParsedVersion → String → String → ParsedVersion → String → Search → Search
  consider none av target pt ecosystem s = s
  consider (some pa) av target pt ecosystem s =
      let dist = distance pa pt (compare_versions libs av target ecosystem) in
      record {
        same_minor = improve (shares_minor pa pt) av dist s.same_minor;
        same_major = improve (shares_major pa pt) av dist s.same_major;
        any = improve true av dist s.any;
      }

  -- The loop of `findClosestVersion`.
  unfoldable pub search_closest : String → ParsedVersion → String → List String → Search → Search
  unfolding improve distance
  search_closest target pt ecosystem [] s = s
  search_closest target pt ecosystem (av ∷ avs) s =
      search_closest target pt ecosystem avs
        (consider (parse_version libs av ecosystem) av target pt ecosystem s)

  abbrev preferred : Search → String
  preferred s =
      if not (s.same_minor.version == "")
      then s.same_minor.version
      else if not (s.same_major.version == "")
      then s.same_major.version
      else s.any.version

  abbrev closest_to : Option ParsedVersion → String → List String → String → String
  closest_to none target available ecosystem = ""
  closest_to (some pt) target available ecosystem = preferred (
      search_closest target pt ecosystem available
        (record { same_minor = no_best; same_major = no_best; any = no_best }))

  -- findClosestVersion
  unfoldable pub find_closest_version : String → List String → String → String
  unfolding search_closest
  find_closest_version target available ecosystem =
      closest_to (parse_version libs target ecosystem) target available ecosystem

  -- Engine.ApplyWithAvailable
  unfoldable pub apply_with_available :
      List RewriteRule → String → String → String → List String → Result
  apply_with_available rules ecosystem name version available =
      let result = apply libs rules ecosystem name version in
      if not result.matched || result.version == version
      then result
      else if mem result.version available
      then result
      else (let closest = find_closest_version result.version available ecosystem in
          if not (closest == "")
          then record result { version = closest }
          else record result { version = version; matched = false })
