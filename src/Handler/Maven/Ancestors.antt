-- ===== src/Handler/Maven/Ancestors.antt =====
-- parentChain and collectProperties of internal/handler/maven/pom.go.
use mathlib.Core.List.{reverse, reverse-cons}
use dependency_guardian.Prelude.{
  ℕ, zero, suc, ◌≤◌, ◌<◌, String, ◌≡◌, refl, ap, sym, ◌∙◌, ◌⊎◌, inl, inr, false, Option, none, some,
  List, [], ◌∷◌, ◌++◌, length, get_elem?, arith, Option-cases, ◌==◌, length-append, ◌>>=◌, mem,
}
use dependency_guardian.Prelude.Dict.{Dict, lookup, lookup-insert}
use dependency_guardian.Http.{Network, Client}
use dependency_guardian.Handler.Maven.{
  PomProject, parent_of, parent_chain, put_all, put_chain, entries_of, put_some, project_version,
  collect_properties, max_parent_depth,
}

reverse-snoc : {A : Type 0} (xs : List A) (x : A) → reverse (xs ++ x ∷ []) ≡ x ∷ reverse xs
reverse-snoc [] x = refl
reverse-snoc (y ∷ xs) x =
    reverse-cons y (xs ++ x ∷ [])
    ∙ ap (λ l. l ++ y ∷ []) (reverse-snoc xs x)
    ∙ ap (λ l. x ∷ l) (sym (reverse-cons y xs))

module _ (network : Network) (decode : String → Option PomProject) (client : Client) where
  abbrev parent : PomProject → Option PomProject
  parent pom = parent_of network decode client pom.parent

  -- The ancestor that many generations above a POM, where all on the way can be fetched and parsed.
  pub ancestor : ℕ → PomProject → Option PomProject
  ancestor zero pom = some pom
  ancestor (suc n) pom = parent pom >>= ancestor n

  abbrev chain : PomProject → ℕ → List PomProject
  chain = parent_chain network decode client

  chain_cases :
      (pom : PomProject) (depth : ℕ)
      → ((parent pom ≡ none) × (chain pom (suc depth) ≡ []))
        ⊎ ((p : PomProject) × (parent pom ≡ some p)
            × (chain pom (suc depth) ≡ chain p depth ++ p ∷ []))
  unfolding parent_chain
  chain_cases pom depth = elim (Option-cases (parent pom)) [
    | inl e ↦ inl (e, rw e refl)
    | inr (p, e) ↦ inr (p, e, rw e refl)
  ]

  length-chain : (pom : PomProject) (depth : ℕ) → length (chain pom depth) ≤ depth
  length-chain pom zero = unfold parent_chain in omega arith
  length-chain pom (suc depth) = elim (chain_cases pom depth) [
    | inl (_, e) ↦ rw e (omega arith)
    | inr (p, _, e) ↦
        rw e (omega (arith, length-append (chain p depth) (p ∷ []), length-chain p depth))
  ]

  -- The first place is the project itself, and the places behind it those of the list.
  place :
      (p : PomProject) (ps : List PomProject) {depth : ℕ} (i : ℕ)
      → ((j : ℕ) → j < depth → get_elem? (reverse ps) j ≡ ancestor (suc j) p)
      → i < suc depth
      → get_elem? (p ∷ reverse ps) i ≡ ancestor i p
  unfolding ancestor
  place p ps zero places h = refl
  place p ps (suc i) places h = places i (omega arith)

  chain_place :
      (pom : PomProject) (depth i : ℕ)
      → i < depth
      → get_elem? (reverse (chain pom depth)) i ≡ ancestor (suc i) pom
  unfolding ancestor
  chain_place pom zero i h = elim h [ ]
  chain_place pom (suc depth) i h = elim (chain_cases pom depth) [
    | inl (no_parent, e) ↦ rw (e, no_parent) refl
    | inr (p, is_parent, e) ↦
        rw (e, is_parent, reverse-snoc)
          (place p (chain p depth) i (λ j k. chain_place p depth j k) h)
  ]

  -- The chain of a POM has at most the given number of ancestors, also when its parents form a cycle, and
  -- holds them from the outermost: counted from its end, the place i has the ancestor i + 1 generations above,
  -- and is missing where that one cannot be fetched and parsed.
  pub parent_chain_ancestors :
      (pom : PomProject) (depth : ℕ)
      → (length (parent_chain network decode client pom depth) ≤ depth)
        × ((i : ℕ)
            → i < depth
            → get_elem? (reverse (parent_chain network decode client pom depth)) i
              ≡ ancestor (suc i) pom)
  parent_chain_ancestors pom depth = (length-chain pom depth, chain_place pom depth)

abbrev pub or_else : Option String → Option String → Option String
or_else none other = other
or_else (some v) other = some v

-- The value of a property in the first POM of the list that sets it.
abbrev pub nearest : String → List PomProject → Option String
nearest k [] = none
nearest k (p ∷ ps) = or_else (lookup k (entries_of p.properties)) (nearest k ps)

or_else_assoc : (a b c : Option String) → or_else (or_else a b) c ≡ or_else a (or_else b c)
or_else_assoc none b c = refl
or_else_assoc (some v) b c = refl

lookup-put_all :
    (k : String) (entries props : Dict String)
    → lookup k (put_all entries props) ≡ or_else (lookup k entries) (lookup k props)
unfolding put_all lookup
lookup-put_all k [] props = refl
lookup-put_all k ((key, v) ∷ entries) props =
    lookup-insert key k v (put_all entries props) ∙ ground (arith, lookup-put_all k entries props)

nearest-append :
    (k : String) (ps : List PomProject) (p : PomProject)
    → nearest k (ps ++ p ∷ []) ≡ or_else (nearest k ps) (lookup k (entries_of p.properties))
nearest-append k [] p = last (lookup k (entries_of p.properties))
  where
    last : (o : Option String) → or_else o none ≡ o
    last none = refl
    last (some v) = refl
nearest-append k (q ∷ ps) p =
    ap (or_else (lookup k (entries_of q.properties))) (nearest-append k ps p)
    ∙ sym (
        or_else_assoc (lookup k (entries_of q.properties)) (nearest k ps)
          (lookup k (entries_of p.properties)))

lookup-put_chain :
    (k : String) (chain : List PomProject) (props : Dict String)
    → lookup k (put_chain chain props) ≡ or_else (nearest k (reverse chain)) (lookup k props)
unfolding put_chain
lookup-put_chain k [] props = refl
lookup-put_chain k (p ∷ chain) props =
    lookup-put_chain k chain (put_all (entries_of p.properties) props)
    ∙ ap (or_else (nearest k (reverse chain))) (lookup-put_all k (entries_of p.properties) props)
    ∙ sym (
        or_else_assoc (nearest k (reverse chain)) (lookup k (entries_of p.properties))
          (lookup k props))
    ∙ ap (λ o. or_else o (lookup k props))
        (sym (ap (nearest k) (reverse-cons p chain) ∙ nearest-append k (reverse chain) p))

-- The names of the implicit properties.
abbrev pub implicit_names : List String
implicit_names = "project.groupId" ∷ "project.artifactId" ∷ "project.version" ∷ []

lookup-put_some :
    (k name : String) (o : Option String) (props : Dict String)
    → (name == k) ≡ false
    → lookup k (put_some name o props) ≡ lookup k props
lookup-put_some k name none props h = refl
lookup-put_some k name (some v) props h = lookup-insert name k v props ∙ rw h refl

other_names :
    (k : String)
    → mem k implicit_names ≡ false
    → (("project.groupId" == k) ≡ false)
      × (("project.artifactId" == k) ≡ false)
      × (("project.version" == k) ≡ false)
unfolding mem
other_names k h = ground arith

-- A property that is not an implicit one has the value of the nearest POM that sets it: the project's own, else
-- its parent's, and so on up the chain of at most ten ancestors.
pub collect_properties-nearest :
    (network : Network) (decode : String → Option PomProject) (client : Client) (pom : PomProject)
    (k : String)
    → mem k implicit_names ≡ false
    → lookup k (collect_properties network decode client pom)
      ≡ nearest k (pom ∷ reverse (parent_chain network decode client pom max_parent_depth))
unfolding collect_properties
collect_properties-nearest network decode client pom k h =
    let chain = parent_chain network decode client pom max_parent_depth in
    let own = put_all (entries_of pom.properties) (put_chain chain []) in
    let (group, artifact, version) = other_names k h in
    lookup-put_some k "project.version" (project_version pom.version pom.parent) _ version
    ∙ lookup-put_some k "project.artifactId" pom.artifact_id _ artifact
    ∙ lookup-put_some k "project.groupId" pom.group_id own group
    ∙ lookup-put_all k (entries_of pom.properties) (put_chain chain [])
    ∙ ap (or_else (lookup k (entries_of pom.properties)))
        (lookup-put_chain k chain [] ∙ missing (nearest k (reverse chain)))
  where
    missing : (o : Option String) → or_else o (lookup k []) ≡ o
    missing none = unfold lookup in refl
    missing (some v) = refl
