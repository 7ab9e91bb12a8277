-- ===== src/Handler/Recording/Filtering.antt =====
-- The loop over versions that the npm and the PyPI handler share, and the log that it passes on.
use dependency_guardian.Prelude.{
  String, Bool, true, false, not, Option, none, some, List, [], ◌∷◌, if◌then◌else◌,
}
use dependency_guardian.Json.{Json}
use dependency_guardian.Decisions.{Log}
use dependency_guardian.Registry.{PackageVersion, PolicyResult}
use dependency_guardian.Handler.{Services, Base}
use dependency_guardian.Handler.Filtering.{Filtering, judged, judge, filter_versions}
use dependency_guardian.Handler.Recording.{Stable, evaluate_version-stable}

module _ (services : Services) (P : Option Log → Type 0) (keeps : Stable services P)
    (b : Base services) (ecosystem name : String)
    (version_of : String → Option Json → PackageVersion) where
  if-log : (c : Bool) (s t : Filtering) → P s.log → P t.log → P (if c then s else t).log
  if-log true s t h k = h
  if-log false s t h k = k

  judged-stable :
      (s : Filtering) (ver : String) (x : Option PolicyResult × Option Log)
      → P (x.1)
      → P (judged s ver x).log
  judged-stable s ver (none, log) h = h
  judged-stable s ver (some result, log) h = if-log (not result.allowed) _ _ h h

  judge-stable :
      (s : Filtering) (ver : String)
      → P s.log
      → P (judge services b ecosystem name version_of s ver).log
  unfolding judge
  judge-stable s ver h = search (if-log, judged-stable, evaluate_version-stable services P keeps)

  pub filter_versions-stable :
      (vers : List String) (s : Filtering)
      → P s.log
      → P (filter_versions services b ecosystem name version_of vers s).log
  unfolding filter_versions
  filter_versions-stable [] s h = h
  filter_versions-stable (ver ∷ vers) s h =
      let h' = judge-stable s ver h in if-log _ _ _ h' (filter_versions-stable vers _ h')
