-- ===== src/Handler/Maven/Examples.antt =====
-- Examples of the properties, the ancestors and the dependencies of a POM.
use mathlib.Core.List.{reverse}
use dependency_guardian.Prelude.{
  ℕ, suc, ◌≤◌, ◌<◌, String, ◌≡◌, refl, false, Option, none, some, [], ◌∷◌, map, length, get_elem?,
  Elem, mem,
}
use dependency_guardian.Prelude.Dict.{Dict, lookup}
use dependency_guardian.Http.{Client}
use dependency_guardian.Handler.Maven.{
  PomProject, PomDependency, parent_chain, max_parent_depth, collect_properties, resolved_of,
  key_of, is_unresolved, resolved_dependencies,
}
use dependency_guardian.Handler.Maven.Ancestors.{
  ancestor, nearest, implicit_names, parent_chain_ancestors, collect_properties-nearest,
}
use dependency_guardian.Handler.Maven.Adding.{AllApart}
use dependency_guardian.Handler.Maven.Dependencies.{Declared, resolved_dependencies_lem}
use dependency_guardian.Samples.{sample_network}

abbrev project : PomProject
project = record {
  parent = some (record { group_id = "g"; artifact_id = "parent"; version = "1" });
  group_id = none;
  artifact_id = some "a";
  version = none;
  dependency_management = none;
  dependencies = some (record {
    dependency =
        record {
          group_id = "org";
          artifact_id = "lib";
          version = "${v}";
          scope = "";
          optional = "";
        }
        ∷ [];
  });
  properties = some (record { entries = ("v", "1.0") ∷ [] });
}

-- Every text decodes to the project, so its parents form a cycle.
abbrev decode : String → Option PomProject
decode body = some project

abbrev client : Client
client = record { base_url = "http://up" }

parent_chain_ancestors_example :
    (length (parent_chain sample_network decode client project max_parent_depth) ≤ max_parent_depth)
    × ((i : ℕ)
        → i < max_parent_depth
        → get_elem? (reverse (parent_chain sample_network decode client project max_parent_depth)) i
          ≡ ancestor sample_network decode client (suc i) project)
parent_chain_ancestors_example =
    parent_chain_ancestors sample_network decode client project max_parent_depth

not_implicit : mem "v" implicit_names ≡ false
unfolding mem
not_implicit = refl

collect_properties-nearest_example :
    lookup "v" (collect_properties sample_network decode client project)
    ≡ nearest "v"
        (project ∷ reverse (parent_chain sample_network decode client project max_parent_depth))
collect_properties-nearest_example =
    collect_properties-nearest sample_network decode client project "v" not_implicit

abbrev props : Dict String
props = ("v", "1.0") ∷ []

resolved_dependencies_lem_example :
    ((d : PomDependency)
      → Elem d (resolved_dependencies project props)
      → (g : PomDependency) × Declared project g
        × (is_unresolved d ≡ false)
        × (d ≡ resolved_of props g))
    × AllApart (map key_of (resolved_dependencies project props))
    × ((g : PomDependency)
        → Declared project g
        → is_unresolved (resolved_of props g) ≡ false
        → Elem (key_of (resolved_of props g)) (map key_of (resolved_dependencies project props)))
resolved_dependencies_lem_example = resolved_dependencies_lem project props

-- The reference is replaced.
resolves :
    resolved_dependencies project props
    ≡ record { group_id = "org"; artifact_id = "lib"; version = "1.0"; scope = ""; optional = "" }
      ∷ []
unfolding resolved_dependencies
resolves = refl
