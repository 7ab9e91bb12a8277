-- ===== src/Handler/Recording.antt =====
-- The handlers of internal/handler and the decision log that they pass on.
pub mod Gomod
pub mod Filtering
pub mod Npm
pub mod Pypi
pub mod Maven
use dependency_guardian.Prelude.{ℕ, Bool, true, false, Option, none, some, if◌then◌else◌}
use dependency_guardian.Registry.{PackageVersion, PolicyResult}
use dependency_guardian.Decisions.{Log, Call}
use dependency_guardian.Handler.{Services, Base, recorded, evaluated, evaluate_version}

-- A predicate that every record of a decision keeps.
abbrev pub Stable : Services → (Option Log → Type 0) → Type 0
Stable services P = (log : Option Log) (c : Call) → P log → P (recorded services log c)

module _ (P : Option Log → Type 0) where
  pub if-stable :
      {A : Type 0} (b : Bool) (x y : A × Option Log)
      → P (x.1)
      → P (y.1)
      → P ((if b then x else y).1)
  if-stable true x y h k = h
  if-stable false x y h k = k

module _ (services : Services) (P : Option Log → Type 0) (keeps : Stable services P) where
  evaluated-stable :
      (log : Option Log) (pv : PackageVersion) (n : ℕ) (o : Option PolicyResult)
      → P log
      → P (evaluated services log pv n o).1
  evaluated-stable log pv n none h = h
  evaluated-stable log pv n (some result) h = keeps log _ h

  pub evaluate_version-stable :
      (b : Base services) (log : Option Log) (pv : PackageVersion)
      → P log
      → P (evaluate_version services b log pv).1
  unfolding evaluate_version
  evaluate_version-stable b log pv h = evaluated-stable log pv _ _ h
