-- ===== src/Handler/Maven/Adding.antt =====
-- The helper addDeps in resolvedDependencies of internal/handler/maven/pom.go.
use dependency_guardian.Prelude.{
  String, ◌≡◌, refl, ap, sym, ◌∙◌, ◌⊎◌, inl, inr, true, false, List, [], ◌∷◌, ◌++◌, map, Elem,
  Elem-append, Elem-append_left, Elem-append_right, Elem-map, Bool-cases, mem, mem-Elem,
  mem-Elem_of, subst,
}
use dependency_guardian.Prelude.Dict.{Dict}
use dependency_guardian.Handler.Maven.{PomDependency, resolved_of, key_of, is_unresolved, add_deps}

-- No text stands in the list twice.
abbrev pub AllApart : List String → Type 0
AllApart [] = Unit
AllApart (k ∷ ks) = (¬ Elem k ks) × AllApart ks

AllApart-snoc :
    (ks : List String) (k : String) → AllApart ks → ¬ Elem k ks → AllApart (ks ++ k ∷ [])
AllApart-snoc [] k h out = (λ m. m, tt)
AllApart-snoc (j ∷ ks) k (first, rest) out = (
  λ m. elim (Elem-append j ks (k ∷ []) m) [
    | inl l ↦ first l
    | inr (inl e) ↦ out (inl (sym e))
    | inr (inr none_left) ↦ none_left
  ],
  AllApart-snoc ks k rest (λ m. out (inr m)),
)

map-snoc :
    (deps : List PomDependency) (d : PomDependency)
    → map key_of (deps ++ d ∷ []) ≡ map key_of deps ++ key_of d ∷ []
map-snoc [] d = refl
map-snoc (x ∷ deps) d = ap (λ ks. key_of x ∷ ks) (map-snoc deps d)

not_mem : (k : String) (ks : List String) → mem k ks ≡ false → ¬ Elem k ks
not_mem k ks h m = clash (mem-Elem_of k ks m)
  where
    clash : mem k ks ≡ true → ⊥
    clash e = cc

module _ (props : Dict String) where
  -- What holds of `seen` and `deps` when the dependencies of which `Given` holds have been added.
  pub record Adds (Given : PomDependency → Type 0) (seen : List String) (deps : List PomDependency)
      : Type 0 where
    keys_seen : (d : PomDependency) → Elem d deps → Elem (key_of d) seen
    pub seen_keys : (k : String) → Elem k seen → Elem k (map key_of deps)
    pub apart : AllApart (map key_of deps)
    pub sound :
        (d : PomDependency)
        → Elem d deps
        → (g : PomDependency) × Given g × (is_unresolved d ≡ false) × (d ≡ resolved_of props g)
    pub complete :
        (g : PomDependency)
        → Given g
        → (is_unresolved (resolved_of props g) ≡ true) ⊎ Elem (key_of (resolved_of props g)) seen

  -- One more dependency that changes nothing.
  skip-Adds :
      (Given : PomDependency → Type 0) (g : PomDependency) (seen : List String)
      (deps : List PomDependency)
      → (is_unresolved (resolved_of props g) ≡ true) ⊎ Elem (key_of (resolved_of props g)) seen
      → Adds Given seen deps
      → Adds (λ d. (d ≡ g) ⊎ Given d) seen deps
  skip-Adds Given g seen deps why h = record {
    keys_seen = h.keys_seen;
    seen_keys = h.seen_keys;
    apart = h.apart;
    sound = λ d m. let (x, given, r, e) = h.sound d m in (x, inr given, r, e);
    complete = λ x given. elim given [
      | inl e ↦
          subst
            (λ y.
              (is_unresolved (resolved_of props y) ≡ true)
              ⊎ Elem (key_of (resolved_of props y)) seen)
            (sym e) why
      | inr old ↦ h.complete x old
    ];
  }

  keep-Adds :
      (Given : PomDependency → Type 0) (g : PomDependency) (seen : List String)
      (deps : List PomDependency)
      → is_unresolved (resolved_of props g) ≡ false
      → mem (key_of (resolved_of props g)) seen ≡ false
      → Adds Given seen deps
      → Adds
          (λ d. (d ≡ g) ⊎ Given d)
          (key_of (resolved_of props g) ∷ seen)
          (deps ++ resolved_of props g ∷ [])
  keep-Adds Given g seen deps resolved unseen h =
      let new = resolved_of props g in
      record {
        keys_seen = λ d m. elim (Elem-append d deps (new ∷ []) m) [
          | inl l ↦ inr (h.keys_seen d l)
          | inr (inl e) ↦ inl (ap key_of e)
          | inr (inr none_left) ↦ absurd none_left
        ];
        seen_keys = λ k m. subst (Elem k) (sym (map-snoc deps new)) (elim m [
          | inl e ↦ Elem-append_right k (map key_of deps) (key_of new ∷ []) (inl e)
          | inr old ↦ Elem-append_left k (map key_of deps) (key_of new ∷ []) (h.seen_keys k old)
        ]);
        apart = subst AllApart (sym (map-snoc deps new)) (
            AllApart-snoc (map key_of deps) (key_of new) h.apart (λ m.
              let (d, n, e) = Elem-map key_of (key_of new) deps m in
              not_mem (key_of new) seen unseen
                (subst (λ k. Elem k seen) (sym e) (h.keys_seen d n))));
        sound = λ d m. elim (Elem-append d deps (new ∷ []) m) [
          | inl l ↦ let (x, given, r, e) = h.sound d l in (x, inr given, r, e)
          | inr (inl e) ↦ (g, inl refl, ap is_unresolved e ∙ resolved, e)
          | inr (inr none_left) ↦ absurd none_left
        ];
        complete = λ x given. elim given [
          | inl e ↦ inr (inl (ap (λ y. key_of (resolved_of props y)) e))
          | inr old ↦ elim (h.complete x old) [ inl u ↦ inl u | inr m ↦ inr (inr m) ]
        ];
      }

  add_cases :
      (g : PomDependency) (gs : List PomDependency) (seen : List String) (deps : List PomDependency)
      → (let d = resolved_of props g in
          ((is_unresolved d ≡ true)
            × (add_deps props (g ∷ gs) (seen, deps) ≡ add_deps props gs (seen, deps)))
          ⊎ ((Elem (key_of d) seen)
              × (add_deps props (g ∷ gs) (seen, deps) ≡ add_deps props gs (seen, deps)))
          ⊎ ((is_unresolved d ≡ false)
              × (mem (key_of d) seen ≡ false)
              × (add_deps props (g ∷ gs) (seen, deps)
                  ≡ add_deps props gs (key_of d ∷ seen, deps ++ d ∷ []))))
  unfolding add_deps
  add_cases g gs seen deps =
      let d = resolved_of props g in
      elim (Bool-cases (is_unresolved d)) [
        | inl u ↦ inl (u, rw u refl)
        | inr r ↦ elim (Bool-cases (mem (key_of d) seen)) [
          | inl m ↦ inr (inl (mem-Elem (key_of d) seen m, rw (r, m) refl))
          | inr n ↦ inr (inr (r, n, rw (r, n) refl))
        ]
      ]

  regroup-Adds :
      (Given : PomDependency → Type 0) (g : PomDependency) (gs : List PomDependency)
      (state : List String × List PomDependency)
      → Adds (λ d. Elem d gs ⊎ ((d ≡ g) ⊎ Given d)) state.0 state.1
      → Adds (λ d. Elem d (g ∷ gs) ⊎ Given d) state.0 state.1
  regroup-Adds Given g gs state h = record {
    keys_seen = h.keys_seen;
    seen_keys = h.seen_keys;
    apart = h.apart;
    sound = λ d m. let (x, given, r, e) = h.sound d m in (x, to given, r, e);
    complete = λ x given. h.complete x (of given);
  }
    where
      to : {x : PomDependency} → Elem x gs ⊎ ((x ≡ g) ⊎ Given x) → Elem x (g ∷ gs) ⊎ Given x
      to (inl m) = inl (inr m)
      to (inr (inl e)) = inl (inl e)
      to (inr (inr old)) = inr old

      of : {x : PomDependency} → Elem x (g ∷ gs) ⊎ Given x → Elem x gs ⊎ ((x ≡ g) ⊎ Given x)
      of (inl (inl e)) = inr (inl e)
      of (inl (inr m)) = inl m
      of (inr old) = inr (inr old)

  nothing-Adds :
      (Given : PomDependency → Type 0) (seen : List String) (deps : List PomDependency)
      → Adds Given seen deps
      → Adds (λ d. Elem d [] ⊎ Given d) seen deps
  nothing-Adds Given seen deps h = record {
    keys_seen = h.keys_seen;
    seen_keys = h.seen_keys;
    apart = h.apart;
    sound = λ d m. let (x, given, r, e) = h.sound d m in (x, inr given, r, e);
    complete =
        λ x given. elim given [ inl none_left ↦ absurd none_left | inr old ↦ h.complete x old ];
  }

  pub add_deps-Adds :
      (gs : List PomDependency) (Given : PomDependency → Type 0) (seen : List String)
      (deps : List PomDependency)
      → Adds Given seen deps
      → (let state = add_deps props gs (seen, deps) in
          Adds (λ d. Elem d gs ⊎ Given d) state.0 state.1)
  add_deps-Adds [] Given seen deps h = unfold add_deps in nothing-Adds Given seen deps h
  add_deps-Adds (g ∷ gs) Given seen deps h =
      regroup-Adds Given g gs _ (elim (add_cases g gs seen deps) [
        | inl (u, e) ↦ rw e (
            add_deps-Adds gs (λ d. (d ≡ g) ⊎ Given d) seen deps
              (skip-Adds Given g seen deps (inl u) h))
        | inr (inl (m, e)) ↦ rw e (
            add_deps-Adds gs (λ d. (d ≡ g) ⊎ Given d) seen deps
              (skip-Adds Given g seen deps (inr m) h))
        | inr (inr (r, n, e)) ↦ rw e (
            add_deps-Adds gs (λ d. (d ≡ g) ⊎ Given d) (key_of (resolved_of props g) ∷ seen)
              (deps ++ resolved_of props g ∷ []) (keep-Adds Given g seen deps r n h))
      ])

  pub start-Adds : Adds (λ d. ⊥) [] []
  start-Adds = record {
    keys_seen = λ d m. m;
    seen_keys = λ k m. m;
    apart = tt;
    sound = λ d m. absurd m;
    complete = λ x given. absurd given;
  }
