-- ===== src/Policy/Loading.antt =====
-- loadRegoFiles, NewEngine and Reload of internal/policy/engine.go.
use dependency_guardian.Prelude.{
  String, ◌≡◌, refl, ◌⊎◌, inl, inr, true, false, none, some, List, [], ◌∷◌, map, Option-cases, mem,
  ◌>>=◌,
}
use dependency_guardian.Prelude.Dict.{Dict}
use dependency_guardian.Policy.{Opa, Engine, Visit, load_rego_files, engine_of, new_engine, reload}

abbrev pub paths_of : List Visit → List String
paths_of vs = map (λ v. v.path) vs

-- No path is visited twice.
abbrev pub VisitsOnce : List Visit → Type 0
VisitsOnce [] = Unit
VisitsOnce (v ∷ vs) = (mem v.path (paths_of vs) ≡ false) × VisitsOnce vs

-- Reload is atomic: where an engine can be made of the files, as NewEngine makes it, it is the engine after
-- the reload, which succeeds; else the reload fails and the engine stays as it was.
pub reload_atomic :
    (opa : Opa) (visits : List Visit) (e : Engine opa)
    → ((new_engine opa visits ≡ none) × (reload opa visits e ≡ (e, false)))
      ⊎ ((new : Engine opa) × (new_engine opa visits ≡ some new)
          × (reload opa visits e ≡ (new, true)))
unfolding new_engine reload
reload_atomic opa visits e = elim (Option-cases (load_rego_files visits >>= engine_of opa)) [
  | inl f ↦ inl (f, rw f refl)
  | inr (new, f) ↦ inr (new, f, rw f refl)
]
