-- ===== src/Handler/Filtering/Removed.antt =====
-- The list `removed` of the loop over the versions: it holds exactly the versions that are gone.
use dependency_guardian.Prelude.{
  String, ◌≡◌, refl, sym, ◌∙◌, inl, inr, ◌↔◌, Bool-cases, true, false, Option, none, some, List, [],
  ◌∷◌, eq_iff, arith, Elem, Elem-append, Elem-append_left, Elem-append_right, ◌==◌, if◌then◌else◌,
}
use dependency_guardian.Prelude.Dict.{lookup, lookup-remove}
use dependency_guardian.Json.{Json}
use dependency_guardian.Registry.{PackageVersion, PolicyResult}
use dependency_guardian.Decisions.{Log}
use dependency_guardian.Handler.{Services, Base, evaluate_version}
use dependency_guardian.Handler.Filtering.{
  Filtering, drop_version, judged, is_replaced, judge, filter_versions,
}

-- The version is not in the document exactly when it is in the list.
abbrev pub IsTracked : String → Filtering → Type 0
IsTracked v s = (lookup v s.versions ≡ none) ↔ Elem v s.removed

drop_version-IsTracked :
    (s : Filtering) (ver v : String) → IsTracked v s → IsTracked v (drop_version s ver)
drop_version-IsTracked s ver v t = (
  λ gone. elim (Bool-cases (ver == v)) [
    | inl same ↦ Elem-append_right v s.removed (ver ∷ []) (inl (sym ((eq_iff ver v).0 same)))
    | inr other ↦ Elem-append_left v s.removed (ver ∷ []) (t.0 (kept other ∙ gone))
  ],
  λ m. elim (Elem-append v s.removed (ver ∷ []) m) [
    | inl old ↦ at_old (t.1 old)
    | inr (inl e) ↦ lookup-remove ver v s.versions ∙ dropped ((eq_iff ver v).1 (sym e))
    | inr (inr none_left) ↦ absurd none_left
  ],
)
  where
    kept : (ver == v) ≡ false → lookup v s.versions ≡ lookup v (drop_version s ver).versions
    kept other = ground (arith, lookup-remove ver v s.versions)

    at_old : lookup v s.versions ≡ none → lookup v (drop_version s ver).versions ≡ none
    at_old gone = ground (arith, lookup-remove ver v s.versions)

    dropped : (ver == v) ≡ true → (if ver == v then none else lookup v s.versions) ≡ none
    dropped same = rw same refl

judged-IsTracked :
    (s : Filtering) (ver v : String) (r : Option PolicyResult × Option Log)
    → IsTracked v s
    → IsTracked v (judged s ver r)
judged-IsTracked s ver v (none, log) t = t
judged-IsTracked s ver v (some result, log) t = elim (Bool-cases result.allowed) [
  | inl yes_allowed ↦ rw yes_allowed t
  | inr denied ↦ rw denied (drop_version-IsTracked s ver v t)
]

module _ (services : Services) (b : Base services) (ecosystem name : String)
    (version_of : String → Option Json → PackageVersion) where
  judge-IsTracked :
      (s : Filtering) (ver v : String)
      → IsTracked v s
      → IsTracked v (judge services b ecosystem name version_of s ver)
  unfolding judge
  judge-IsTracked s ver v t =
      elim (Bool-cases (is_replaced services b.rewriter ecosystem name s.versions ver)) [
        | inl away ↦ rw away (drop_version-IsTracked s ver v t)
        | inr stays ↦ rw stays (
            judged-IsTracked s ver v
              (evaluate_version services b s.log (version_of ver (lookup ver s.versions))) t)
      ]

  pub filter_versions-IsTracked :
      (vers : List String) (s : Filtering) (v : String)
      → IsTracked v s
      → IsTracked v (filter_versions services b ecosystem name version_of vers s)
  unfolding filter_versions
  filter_versions-IsTracked [] s v t = t
  filter_versions-IsTracked (ver ∷ vers) s v t =
      let s' = judge services b ecosystem name version_of s ver in
      let t' = judge-IsTracked s ver v t in
      elim (Bool-cases s'.failed) [
        | inl stop ↦ rw stop t'
        | inr on ↦ rw on (filter_versions-IsTracked vers s' v t')
      ]
