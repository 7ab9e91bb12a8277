-- ===== src/Handler/Maven/Dependencies.antt =====
-- resolvedDependencies of internal/handler/maven/pom.go.
use dependency_guardian.Prelude.{String, ◌≡◌, ◌⊎◌, inl, inr, Bool, true, false, [], map, Elem}
use dependency_guardian.Prelude.Dict.{Dict}
use dependency_guardian.Handler.Maven.{
  PomProject, PomDependency, resolved_of, key_of, is_unresolved, add_deps, listed, managed,
  resolved_dependencies,
}
use dependency_guardian.Handler.Maven.Adding.{AllApart, add_deps-Adds, start-Adds}

-- The dependencies that a POM declares, in either section.
abbrev pub Declared : PomProject → PomDependency → Type 0
Declared pom g = Elem g (listed pom.dependencies) ⊎ Elem g (managed pom.dependency_management)

-- The resolved dependencies of a POM are declared dependencies with their references replaced, each with a
-- version that is not empty and holds no reference; no two have the same group, artifact and version;
-- and every declared dependency whose version resolves is there, under the key of its resolved form.
pub resolved_dependencies_lem :
    (pom : PomProject) (props : Dict String)
    → (let deps = resolved_dependencies pom props in
        ((d : PomDependency)
          → Elem d deps
          → (g : PomDependency) × Declared pom g
            × (is_unresolved d ≡ false)
            × (d ≡ resolved_of props g))
        × AllApart (map key_of deps)
        × ((g : PomDependency)
            → Declared pom g
            → is_unresolved (resolved_of props g) ≡ false
            → Elem (key_of (resolved_of props g)) (map key_of deps)))
unfolding resolved_dependencies
resolved_dependencies_lem pom props =
    let first = add_deps props (listed pom.dependencies) ([], []) in
    let both =
      add_deps-Adds props (managed pom.dependency_management)
        (λ d. Elem d (listed pom.dependencies) ⊎ ⊥) first.0 first.1
        (add_deps-Adds props (listed pom.dependencies) (λ d. ⊥) [] [] (start-Adds props)) in
    (
      λ d m. let (x, given, r, e) = both.sound d m in (x, to x given, r, e),
      both.apart,
      λ g given r. elim (both.complete g (of g given)) [
        | inl u ↦ absurd (clash r u)
        | inr m ↦ both.seen_keys (key_of (resolved_of props g)) m
      ],
    )
  where
    to :
        (x : PomDependency)
        → Elem x (managed pom.dependency_management) ⊎ (Elem x (listed pom.dependencies) ⊎ ⊥)
        → Declared pom x
    to x (inl m) = inr m
    to x (inr (inl m)) = inl m
    to x (inr (inr none_left)) = absurd none_left

    of :
        (x : PomDependency)
        → Declared pom x
        → Elem x (managed pom.dependency_management) ⊎ (Elem x (listed pom.dependencies) ⊎ ⊥)
    of x (inl m) = inr (inl m)
    of x (inr m) = inl m

    clash : {b : Bool} → b ≡ false → b ≡ true → ⊥
    clash e f = cc
