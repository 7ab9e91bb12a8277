-- ===== src/Handler/Maven/Metadata/Listing.antt =====
-- filterMetadata of internal/handler/maven/handler.go: which versions the answered metadata lists.
use dependency_guardian.Prelude.{
  String, ◌≡◌, refl, ap, sym, subst, ◌∙◌, ◌↔◌, ◌⊎◌, inl, inr, Bool, true, false, not, ◌&&◌, Option,
  none, some, List, [], ◌∷◌, filter, arith, Elem, Elem-filter, Elem-filter_of, mem, mem-filter,
  ◌>>=◌, ◌==◌, Option-cases, Bool-cases, eq_iff,
}
use dependency_guardian.Decisions.{Log}
use dependency_guardian.Http.{◌^^◌}
use dependency_guardian.Handler.{Services, Base, is_allowed, evaluate_version}
use dependency_guardian.Handler.Verdict.{Permits, evaluate_version_result, evaluate_version_iff}
use dependency_guardian.Handler.Maven.Metadata.{
  MavenMetadata, MavenVersioning, XmlCodec, xml_header, maven_coordinate, maven_version, last_of,
  newest, with_versions, print_with, is_rewritten_away, rewritten_away, allowed_versions,
  filter_metadata,
}

last_of-Elem : (vers : List String) (v : String) → last_of vers ≡ some v → Elem v vers
last_of-Elem [] v e = absurd (cc)
last_of-Elem (ver ∷ vers) v e = elim (Option-cases (last_of vers)) [
  | inl only ↦ inl (first (rw only at e))
  | inr (last, more) ↦ inr (last_of-Elem vers v (more ∙ (rw more at e)))
]
  where
    first : some ver ≡ some v → v ≡ ver
    first h = cc

-- The release or latest version of the answer is one of its versions.
newest-Elem :
    (vers : List String) (old : String)
    → (newest (last_of vers) old ≡ "") ⊎ Elem (newest (last_of vers) old) vers
newest-Elem vers old = elim (Option-cases (last_of vers)) [
  | inl nothing ↦ rw nothing (inl refl)
  | inr (last, e) ↦ elim (Bool-cases (old == "")) [
    | inl blank ↦ rw (e, blank) (inl ((eq_iff old "").0 blank))
    | inr filled ↦ rw (e, filled) (inr (last_of-Elem vers last e))
  ]
]

module _ (services : Services) (codec : XmlCodec) where
  abbrev permitted : Base services → String → String → Bool
  permitted b name ver = is_allowed (evaluate_version services b none (maven_version name ver)).0

  is_allowed-permitted :
      (b : Base services) (name ver : String) (log : Option Log)
      → is_allowed (evaluate_version services b log (maven_version name ver)).0
        ≡ permitted b name ver
  is_allowed-permitted b name ver log = ap is_allowed (
      evaluate_version_result services b log (maven_version name ver)
      ∙ sym (evaluate_version_result services b none (maven_version name ver)))

  -- The loop fails, or keeps the versions that are not rewritten away and that the policy permits.
  allowed_versions-filter :
      (b : Base services) (name : String) (rewritten vers : List String) (log : Option Log)
      → ((allowed_versions services codec b name rewritten vers log).0 ≡ none)
        ⊎ ((allowed_versions services codec b name rewritten vers log).0
            ≡ some (filter (λ v. not (mem v rewritten) && permitted b name v) vers))
  unfolding allowed_versions
  allowed_versions-filter b name rewritten [] log = inr refl
  allowed_versions-filter b name rewritten (ver ∷ vers) log =
      let (r, log') = evaluate_version services b log (maven_version name ver) in
      ground (
        arith,
        is_allowed-permitted b name ver log,
        allowed_versions-filter b name rewritten vers log,
        allowed_versions-filter b name rewritten vers log',
      )

module _ (services : Services) (codec : XmlCodec) (b : Base services) (body : String)
    (log : Option Log) (meta : MavenMetadata) (listing : MavenVersioning) (first : String)
    (others : List String) (out : String) (parses : codec.unmarshal body ≡ some meta)
    (has_listing : meta.versioning ≡ some listing)
    (has_versions : listing.versions.version ≡ first ∷ others)
    (answers : (filter_metadata services codec b body log).0 ≡ some out) where
  abbrev name : String
  name = maven_coordinate meta.group_id meta.artifact_id

  abbrev rewritten : List String
  rewritten = rewritten_away services codec b.rewriter name (first ∷ others)

  abbrev left : List String
  left = filter (λ v. not (mem v rewritten) && permitted services codec b name v) (first ∷ others)

  abbrev Printed : List String → Type 0
  Printed vers =
      (text : String) × (codec.marshal_indent (with_versions meta listing vers) ≡ some text)
      × (out ≡ xml_header ^^ text)

  marshal_indent-Printed :
      (vers : List String) (o : Option String)
      → codec.marshal_indent (with_versions meta listing vers) ≡ o
      → (o >>= λ output. some (xml_header ^^ output)) ≡ some out
      → Printed vers
  marshal_indent-Printed vers none e h = absurd (cc)
  marshal_indent-Printed vers (some text) e h = (text, e, cc)

  print_with-Printed :
      (r : Option (List String) × Option Log) (vers : List String)
      → (r.0 ≡ none) ⊎ (r.0 ≡ some vers)
      → (print_with services codec meta listing r).0 ≡ some out
      → Printed vers
  print_with-Printed (none, l) vers c h = absurd (cc)
  print_with-Printed (some vs, l) vers (inl c) h = absurd (cc)
  print_with-Printed (some vs, l) vers (inr c) h =
      subst Printed (inner c) (marshal_indent-Printed vs _ refl h)
    where
      inner : some vs ≡ some vers → vs ≡ vers
      inner e = cc

  left-Printed : Printed left
  unfolding filter_metadata
  left-Printed =
      print_with-Printed (allowed_versions services codec b name rewritten (first ∷ others) log)
        left (allowed_versions-filter services codec b name rewritten (first ∷ others) log)
        (rw (parses, has_listing, has_versions) at answers)

  -- An answer of filterMetadata for metadata with versions is metadata that lists exactly the versions
  -- of the upstream that the rewrite rules do not turn into another version of the list and that the
  -- policy permits; the release and the latest version that it names are empty or among these.
  pub filter_metadata_lists :
      (meta' : MavenMetadata) × (listing' : MavenVersioning) × (text : String)
      × (codec.marshal_indent meta' ≡ some text)
      × (out ≡ xml_header ^^ text)
      × (meta'.versioning ≡ some listing')
      × ((v : String)
          → Elem v listing'.versions.version ↔ (
              Elem v (first ∷ others)
              × (is_rewritten_away services codec b.rewriter name (first ∷ others) v ≡ false)
              × Permits services b (maven_version name v)))
      × ((listing'.release ≡ "") ⊎ Elem listing'.release listing'.versions.version)
      × ((listing'.latest ≡ "") ⊎ Elem listing'.latest listing'.versions.version)
  filter_metadata_lists =
      let (text, marshals, whole) = left-Printed in
      (
        with_versions meta listing left,
        record {
          latest = newest (last_of left) listing.latest;
          release = newest (last_of left) listing.release;
          versions = record { version = left };
          last_updated = listing.last_updated;
        },
        text,
        marshals,
        whole,
        refl,
        listed,
        newest-Elem left listing.release,
        newest-Elem left listing.latest,
      )
    where
      passes : String → Bool
      passes v = not (mem v rewritten) && permitted services codec b name v

      away :
          (v : String)
          → Elem v (first ∷ others)
          → mem v rewritten ≡ is_rewritten_away services codec b.rewriter name (first ∷ others) v
      away v m =
          mem-filter (is_rewritten_away services codec b.rewriter name (first ∷ others)) v
            (first ∷ others) m

      both : {x y : Bool} → (not x && y) ≡ true → (x ≡ false) × (y ≡ true)
      both {x} {y} h = ground arith

      listed :
          (v : String)
          → Elem v left ↔ (
              Elem v (first ∷ others)
              × (is_rewritten_away services codec b.rewriter name (first ∷ others) v ≡ false)
              × Permits services b (maven_version name v))
      listed v = (
        (λ m.
            let (there, kept) = Elem-filter passes v (first ∷ others) m in
            let (stays, permit) = both kept in
            (
              there,
              sym (away v there) ∙ stays,
              (evaluate_version_iff services b none (maven_version name v)).0 permit,
            )),
        λ (there, stays, permit). Elem-filter_of passes v (first ∷ others) there (
            rw
              (
                away v there ∙ stays,
                (evaluate_version_iff services b none (maven_version name v)).1 permit,
              )
              refl),
      )
