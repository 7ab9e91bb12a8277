-- ===== src/Vercmp/Compare.antt =====
-- Comparing versions: the laws of Compare, ComparerFor and Fallback of internal/vercmp/vercmp.go.
use text.Mathlib.TextPositions.{compare_refl}
use dependency_guardian.Prelude.{String, ◌≡◌, refl, Option, none, some, List, [], ◌∷◌, arith}
use dependency_guardian.Prelude.Int.{ℤ, pos}
use dependency_guardian.Vercmp.{VersionLibs, both, fallback, compare_versions}

-- What the program relies on: each library finds a version equal to itself.
pub record IsReflexive (libs : VersionLibs) : Type 0 where
  pub semver : (v : libs.Semver) → libs.compare_semver_lib v v ≡ pos 0
  pub pep : (v : libs.Pep) → libs.compare_pep_lib v v ≡ pos 0
  pub mvn : (v : libs.Mvn) → libs.compare_mvn_lib v v ≡ pos 0

fallback_refl : (a : String) → fallback a a ≡ pos 0
unfolding fallback
fallback_refl a = rw compare_refl refl

both_refl :
    {V : Type 0} (o : Option V) (cmp : V → V → ℤ) (other : ℤ)
    → ((v : V) → cmp v v ≡ pos 0)
    → other ≡ pos 0
    → both o o cmp other ≡ pos 0
both_refl none cmp other h e = e
both_refl (some v) cmp other h e = h v

-- A version is equal to itself in every ecosystem, also where it does not parse.
pub compare_versions_refl :
    (libs : VersionLibs)
    → IsReflexive libs
    → (v ecosystem : String) → compare_versions libs v v ecosystem ≡ pos 0
unfolding compare_versions
compare_versions_refl libs r v ecosystem = ground (
  arith,
  both_refl (libs.parse_pep v) libs.compare_pep_lib (fallback v v) r.pep (fallback_refl v),
  both_refl (libs.new_mvn v) libs.compare_mvn_lib (fallback v v) r.mvn (fallback_refl v),
  both_refl (libs.new_semver v) libs.compare_semver_lib (fallback v v) r.semver (fallback_refl v),
)

-- The names under which the vulnerability database stores the ecosystems.
abbrev pub osv_names : List String
osv_names = "npm" ∷ "PyPI" ∷ "Go" ∷ "Maven" ∷ []
