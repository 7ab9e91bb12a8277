-- ===== src/Vulndb/Matching/Ranges.antt =====
-- VersionMatchesConstraint of internal/vulndb/osvdb.go against a description of the affected versions.
use dependency_guardian.Prelude.{
  String, ◌≡◌, ◌≢◌, refl, ◌⊎◌, inl, inr, ◌↔◌, Bool, true, false, not, ◌&&◌, ◌||◌, some, List, [],
  ◌∷◌, if◌then◌else◌, ◌==◌, eq_iff, arith, All, Bool-cases,
}
use dependency_guardian.Prelude.Int.{ℤ}
use dependency_guardian.Vercmp.{VersionLibs, comparer_for}
use dependency_guardian.Vulndb.Models.{AffectedRange, RangeEvent}
use dependency_guardian.Vulndb.Index.{
  ConstraintCodec, Constraint, ConstraintEvent, constraint_of, range_to_constraint,
}
use dependency_guardian.Vulndb.Matching.{
  opens, closes, at_least_zero, events_loop, version_matches_constraint,
}

module _ (cmp : String → String → ℤ) (version : String) where
  abbrev pub Leaves : ConstraintEvent → Type 0
  Leaves e = closes cmp version e ≡ false

  -- The versions that the events affect: an event introduces the version, and neither this event nor
  -- a later one ends the range for it.
  pub data Affects : List ConstraintEvent → Type 0 where
    here :
        {e : ConstraintEvent} {es : List ConstraintEvent}
        → opens cmp version e ≡ true
        → Leaves e
        → All Leaves es
        → Affects (e ∷ es)
    later : {e : ConstraintEvent} {es : List ConstraintEvent} → Affects es → Affects (e ∷ es)

  loop_keeps : (es : List ConstraintEvent) → All Leaves es → events_loop cmp version es true ≡ true
  unfolding events_loop
  loop_keeps [] h = refl
  loop_keeps (e ∷ es) (l, h) = elim (Bool-cases (opens cmp version e)) [
    | inl o ↦ rw (l, o) (loop_keeps es h)
    | inr o ↦ rw (l, o) (loop_keeps es h)
  ]

  loop_of :
      (es : List ConstraintEvent) (b : Bool) → Affects es → events_loop cmp version es b ≡ true
  unfolding events_loop
  loop_of _ b (here {e} {es} o l h) = rw (l, o) (loop_keeps es h)
  loop_of _ b (later {e} {es} h) =
      loop_of es (if closes cmp version e then false else (if opens cmp version e then true else b))
        h

  loop_to :
      (es : List ConstraintEvent) (b : Bool)
      → events_loop cmp version es b ≡ true
      → Affects es ⊎ ((b ≡ true) × All Leaves es)
  unfolding events_loop
  loop_to [] b h = inr (h, tt)
  loop_to (e ∷ es) b h = elim (loop_to es _ h) [
    | inl a ↦ inl (later a)
    | inr (t, rest) ↦ elim (Bool-cases (closes cmp version e)) [
      | inl c ↦ absurd_closed c t
      | inr c ↦ elim (Bool-cases (opens cmp version e)) [
        | inl o ↦ inl (here o c rest)
        | inr o ↦ inr ((rw (c, o) at t), (c, rest))
      ]
    ]
  ]
    where
      absurd_closed :
          closes cmp version e ≡ true
          → (if closes cmp version e then false else (if opens cmp version e then true else b))
            ≡ true
          → Affects (e ∷ es) ⊎ ((b ≡ true) × All Leaves (e ∷ es))
      absurd_closed c t = absurd (cc)

  pub events_loop_iff :
      (es : List ConstraintEvent) → (events_loop cmp version es false ≡ true) ↔ Affects es
  events_loop_iff es =
      (λ h. elim (loop_to es false h) [ inl a ↦ a | inr (f, rest) ↦ cc ], λ a. loop_of es false a)

-- For a constraint text that decodes to a constraint other than a GIT one, VersionMatchesConstraint
-- holds exactly for the versions that some event introduces and neither that event nor a later one
-- ends, in the order that ComparerFor picks.
pub version_matches_constraint_iff :
    (libs : VersionLibs) (codec : ConstraintCodec) (version json ecosystem : String)
    (c : Constraint)
    → codec.unmarshal json ≡ some c
    → c.kind ≢ "GIT"
    → (version_matches_constraint libs codec version json ecosystem ≡ true)
      ↔ Affects (comparer_for libs c.kind ecosystem) version c.events
unfolding version_matches_constraint
version_matches_constraint_iff libs codec version json ecosystem c decoded other =
    let no_git : (c.kind == "GIT") ≡ false = ground (arith, eq_iff c.kind "GIT") in
    rw (decoded, no_git) (events_loop_iff (comparer_for libs c.kind ecosystem) version c.events)

-- What the program relies on: encoding/json decodes the text that it made of the constraint.
abbrev pub Decodes : ConstraintCodec → Constraint → Type 0
Decodes codec c = codec.unmarshal (codec.marshal c) ≡ some c

abbrev pub Introduces : String → RangeEvent → Type 0
Introduces i e = (e.introduced ≡ i) × (e.fixed ≡ "") × (e.last_affected ≡ "")

abbrev pub Fixes : String → RangeEvent → Type 0
Fixes f e = (e.introduced ≡ "") × (e.fixed ≡ f) × (e.last_affected ≡ "")

-- A range of a kind other than GIT, with exactly two events, of which the first only introduces i and
-- the second only fixes f, neither the empty text: stored by rangeToConstraint as a text that decodes to
-- the constraint again, and read by VersionMatchesConstraint, it holds exactly the versions from i (all of
-- them, for "0") up to f, which is not in it, in the order that ComparerFor picks.
pub range_to_constraint_half_open :
    (libs : VersionLibs) (codec : ConstraintCodec) (version ecosystem i f : String)
    (r : AffectedRange) (start end : RangeEvent)
    → Decodes codec (constraint_of r)
    → r.kind ≢ "GIT"
    → r.events ≡ start ∷ end ∷ []
    → Introduces i start
    → Fixes f end
    → i ≢ ""
    → f ≢ ""
    → (let cmp = comparer_for libs r.kind ecosystem in
        version_matches_constraint libs codec version (range_to_constraint codec r) ecosystem
        ≡ ((i == "0" || at_least_zero (cmp version i)) && not (at_least_zero (cmp version f))))
unfolding version_matches_constraint range_to_constraint events_loop
range_to_constraint_half_open libs codec version ecosystem i f r start end decodes other events
      (si, sf, sl) (ei, ef, el) some_i some_f =
    let no_git : (r.kind == "GIT") ≡ false = ground (arith, eq_iff r.kind "GIT") in
    let i_shown : (i == "") ≡ false = ground (arith, eq_iff i "") in
    let f_shown : (f == "") ≡ false = ground (arith, eq_iff f "") in
    rw (decodes, no_git, events, si, sf, sl, ei, ef, el, i_shown, f_shown) (ground arith)
