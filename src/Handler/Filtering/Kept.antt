-- ===== src/Handler/Filtering/Kept.antt =====
-- The loop over the versions of internal/handler/npm/handler.go and of the PyPI handler: what it leaves.
use dependency_guardian.Prelude.{
  String, ◌≡◌, ◌≢◌, refl, sym, subst, ◌⊎◌, inl, inr, Bool, Bool-cases, true, false, Option, none,
  some, List, [], ◌∷◌, eq_iff, arith, Elem,
}
use dependency_guardian.Prelude.Dict.{lookup, lookup-remove}
use dependency_guardian.Json.{Json}
use dependency_guardian.Registry.{PackageVersion, PolicyResult}
use dependency_guardian.Decisions.{Log}
use dependency_guardian.Handler.{Services, Base, is_allowed, evaluate_version}
use dependency_guardian.Handler.Verdict.{Permits, evaluate_version_iff}
use dependency_guardian.Handler.Filtering.{Filtering, judged, is_rewritten, judge, filter_versions}

-- A version that is removed stays removed, and any other version is left as it is.
lookup-judged :
    (s : Filtering) (ver v : String) (r : Option PolicyResult × Option Log)
    → (lookup v (judged s ver r).versions ≡ lookup v s.versions)
      ⊎ ((ver ≡ v) × (is_allowed r.0 ≡ false) × (lookup v (judged s ver r).versions ≡ none))
lookup-judged s ver v (none, log) = inl refl
lookup-judged s ver v (some result, log) =
    ground (arith, lookup-remove ver v s.versions, eq_iff ver v)

judged-allowed :
    (s : Filtering) (ver : String) (r : Option PolicyResult × Option Log)
    → is_allowed r.0 ≡ false
    → ((judged s ver r).failed ≡ true) ⊎ (lookup ver (judged s ver r).versions ≡ none)
judged-allowed s ver (none, log) h = inl refl
judged-allowed s ver (some result, log) h =
    ground (arith, lookup-remove ver ver s.versions, eq_iff ver ver)

clash : {x : Bool} → x ≡ true → x ≡ false → ⊥
clash e f = cc

module _ (services : Services) (b : Base services) (ecosystem name : String)
    (version_of : String → Option Json → PackageVersion) where
  abbrev verdict_on : Filtering → String → Option PolicyResult
  verdict_on s v = (evaluate_version services b s.log (version_of v (lookup v s.versions))).0

  lookup-judge :
      (s : Filtering)
      → (ver v : String)
      → (lookup v (judge services b ecosystem name version_of s ver).versions ≡ lookup v s.versions)
        ⊎ ((lookup v (judge services b ecosystem name version_of s ver).versions ≡ none)
            × (ver ≡ v)
            × ((is_rewritten services b.rewriter ecosystem name v ≡ true)
                ⊎ (is_allowed (verdict_on s v) ≡ false)))
  unfolding judge
  lookup-judge s ver v = ground (
    arith,
    lookup-remove ver v s.versions,
    eq_iff ver v,
    lookup-judged s ver v
        (evaluate_version services b s.log (version_of ver (lookup ver s.versions))),
  )

  judge-allowed :
      (s : Filtering)
      → (ver : String)
      → (is_allowed (verdict_on s ver) ≡ true)
        ⊎ ((judge services b ecosystem name version_of s ver).failed ≡ true)
        ⊎ (lookup ver (judge services b ecosystem name version_of s ver).versions ≡ none)
  unfolding judge
  judge-allowed s ver = ground (
    arith,
    lookup-remove ver ver s.versions,
    eq_iff ver ver,
    judged-allowed s ver
        (evaluate_version services b s.log (version_of ver (lookup ver s.versions))),
  )

  stays_removed :
      (vers : List String)
      → (s : Filtering) (v : String) → lookup v s.versions ≡ none
      → lookup v (filter_versions services b ecosystem name version_of vers s).versions ≡ none
  unfolding filter_versions
  stays_removed [] s v h = h
  stays_removed (ver ∷ vers) s v h =
      let s' = judge services b ecosystem name version_of s ver in
      ground (arith, lookup-judge s ver v, stays_removed vers s' v)

  unfailed :
      (ver : String)
      → (vers : List String) (s : Filtering)
      → (filter_versions services b ecosystem name version_of (ver ∷ vers) s).failed ≡ false
      → (let s' = judge services b ecosystem name version_of s ver in
          (s'.failed ≡ false)
          × (filter_versions services b ecosystem name version_of (ver ∷ vers) s
              ≡ filter_versions services b ecosystem name version_of vers s'))
  unfolding filter_versions
  unfailed ver vers s h =
      elim (Bool-cases (judge services b ecosystem name version_of s ver).failed) [
        | inl e ↦ absurd (ground arith)
        | inr e ↦ (e, rw e refl)
      ]

  abbrev pub version_at : Filtering → String → PackageVersion
  version_at s v = version_of v (lookup v s.versions)

  abbrev pub PermitsEntry : String → Option Json → Type 0
  PermitsEntry v entry = Permits services b (version_of v entry)

  -- A version that is not permitted is not there behind its judgement, unless that fails.
  judge-Permits :
      (s : Filtering)
      → (v : String)
      → (let s' = judge services b ecosystem name version_of s v in
          PermitsEntry v (lookup v s.versions) ⊎ (s'.failed ≡ true) ⊎ (lookup v s'.versions ≡ none))
  judge-Permits s v = elim (judge-allowed s v) [
    | inl a ↦ inl ((evaluate_version_iff services b s.log (version_at s v)).0 a)
    | inr other ↦ inr other
  ]

  pub left_is_permitted :
      (vers : List String)
      → (s : Filtering) (v : String)
      → (filter_versions services b ecosystem name version_of vers s).failed ≡ false
      → Elem v vers
      → lookup v (filter_versions services b ecosystem name version_of vers s).versions ≢ none
      → PermitsEntry v (lookup v s.versions)
  left_is_permitted [] s v ok m left = absurd m
  left_is_permitted (ver ∷ vers) s v ok m left =
      let s' = judge services b ecosystem name version_of s ver in
      let (going, step) = unfailed ver vers s ok in
      let left' : lookup v (filter_versions services b ecosystem name version_of vers s').versions
          ≢ none =
        subst (λ x. lookup v x.versions ≢ none) step left in
      let ok' : (filter_versions services b ecosystem name version_of vers s').failed ≡ false =
        subst (λ x. x.failed ≡ false) step ok in
      elim m [
        | inl e ↦ elim (judge-Permits s v) [
          | inl p ↦ p
          | inr (inl failed) ↦ absurd (
              clash failed (
                subst (λ x. (judge services b ecosystem name version_of s x).failed ≡ false) (sym e)
                  going))
          | inr (inr gone) ↦ absurd (
              left' (
                stays_removed vers s' v (
                  subst
                    (λ x. lookup v (judge services b ecosystem name version_of s x).versions ≡ none)
                    e gone)))
        ]
        | inr there ↦
            let rest = left_is_permitted vers s' v ok' there left' in
            elim (lookup-judge s ver v) [
              | inl same ↦ subst (PermitsEntry v) same rest
              | inr (gone, _, _) ↦ absurd (left' (stays_removed vers s' v gone))
            ]
      ]

  pub permitted_is_left :
      (vers : List String)
      → (s : Filtering) (v : String) → PermitsEntry v (lookup v s.versions)
      → is_rewritten services b.rewriter ecosystem name v ≡ false
      → lookup v (filter_versions services b ecosystem name version_of vers s).versions
        ≡ lookup v s.versions
  unfolding filter_versions
  permitted_is_left [] s v p h = refl
  permitted_is_left (ver ∷ vers) s v p h = elim (lookup-judge s ver v) [
    | inl same ↦
        let s' = judge services b ecosystem name version_of s ver in
        let rest = permitted_is_left vers s' v (subst (PermitsEntry v) (sym same) p) h in
        ground arith
    | inr (gone, e, inl r) ↦ absurd (clash r h)
    | inr (gone, e, inr d) ↦
        absurd (clash ((evaluate_version_iff services b s.log (version_at s v)).1 p) d)
  ]
