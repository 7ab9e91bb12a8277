-- ===== src/Rewrite/Tracking.antt =====
-- What the pair of variables of findClosestVersion holds while it goes over the available versions.
use dependency_guardian.Prelude.{
  String, ◌≡◌, refl, sym, ap, ◌⊎◌, inl, inr, Bool, true, false, ◌||◌, Option, none, some, List, ◌∷◌,
  arith, Elem, Bool-cases, if◌then◌else◌, subst,
}
use dependency_guardian.Prelude.Int.{ℤ, pos, ltb_ℤ, ◌≤ℤ◌}
use dependency_guardian.Vercmp.{VersionLibs, ParsedVersion, parse_version, compare_versions}
use dependency_guardian.Rewrite.{Best, improve, distance, no_best}

ltb_ℤ-eq-false : (a b : ℤ) → b ≤ℤ a → ltb_ℤ a b ≡ false
ltb_ℤ-eq-false a b h = ground arith

≤ℤ-trans_of_ltb : (a b c : ℤ) → ltb_ℤ a b ≡ true → b ≤ℤ c → a ≤ℤ c
≤ℤ-trans_of_ltb a b c h k = ground arith

le_of_ltb_ℤ-eq-false : (a b : ℤ) → ltb_ℤ a b ≡ false → b ≤ℤ a
le_of_ltb_ℤ-eq-false a b h = ground arith

module _ (libs : VersionLibs) (target : String) (pt : ParsedVersion) (ecosystem : String) where
  abbrev pub parse : String → Option ParsedVersion
  parse v = parse_version libs v ecosystem

  -- The distance of an available version from the target.
  abbrev pub dist : String → ParsedVersion → ℤ
  dist v pa = distance pa pt (compare_versions libs v target ecosystem)

  -- No version of the list that parses is in the group.
  abbrev pub NoneIn : (ParsedVersion → Bool) → List String → Type 0
  NoneIn p seen = (v : String) (pa : ParsedVersion) → Elem v seen → parse v ≡ some pa → p pa ≡ false

  -- The version is in the list and in the group, and none of both is nearer to the target.
  pub record IsNearest (p : ParsedVersion → Bool) (seen : List String) (version : String)
      (parsed : ParsedVersion) : Type 0 where
    pub reads : parse version ≡ some parsed
    pub fits : p parsed ≡ true
    pub listed : Elem version seen
    pub least :
        (v : String) (pa : ParsedVersion)
        → Elem v seen
        → parse v ≡ some pa
        → p pa ≡ true
        → dist version parsed ≤ℤ dist v pa

  -- What a pair of variables holds after the versions `seen`.
  abbrev pub Tracks : (ParsedVersion → Bool) → List String → Best → Type 0
  Tracks p seen b =
      ((b ≡ no_best) × NoneIn p seen)
      ⊎ ((parsed : ParsedVersion) × IsNearest p seen b.version parsed
          × (b.abs ≡ dist b.version parsed)
          × (pos 0 ≤ℤ b.abs))

  module _ (p : ParsedVersion → Bool) (av : String) (seen : List String) where
    NoneIn-cons :
        ((pa : ParsedVersion) → parse av ≡ some pa → p pa ≡ false)
        → NoneIn p seen
        → NoneIn p (av ∷ seen)
    NoneIn-cons here h v pa (inl e) reads = here pa (subst (λ x. parse x ≡ some pa) e reads)
    NoneIn-cons here h v pa (inr m) reads = h v pa m reads

    IsNearest-cons :
        (version : String) (parsed : ParsedVersion)
        → ((pa : ParsedVersion)
            → parse av ≡ some pa
            → p pa ≡ true
            → dist version parsed ≤ℤ dist av pa)
        → IsNearest p seen version parsed
        → IsNearest p (av ∷ seen) version parsed
    IsNearest-cons version parsed here near = record {
      reads = near.reads;
      fits = near.fits;
      listed = inr near.listed;
      least = least;
    }
      where
        least :
            (v : String) (pa : ParsedVersion)
            → Elem v (av ∷ seen)
            → parse v ≡ some pa
            → p pa ≡ true
            → dist version parsed ≤ℤ dist v pa
        least v pa (inl e) reads fits =
            subst (λ x. dist version parsed ≤ℤ dist x pa) (sym e)
              (here pa (subst (λ x. parse x ≡ some pa) e reads) fits)
        least v pa (inr m) reads fits = near.least v pa m reads fits

    IsNearest-first :
        (pa : ParsedVersion)
        → parse av ≡ some pa
        → p pa ≡ true
        → ((v : String) (pv : ParsedVersion)
            → Elem v seen
            → parse v ≡ some pv
            → p pv ≡ true
            → dist av pa ≤ℤ dist v pv)
        → IsNearest p (av ∷ seen) av pa
    IsNearest-first pa reads fits others = record {
      reads = reads;
      fits = fits;
      listed = inl refl;
      least = least;
    }
      where
        same : {pv : ParsedVersion} → parse av ≡ some pv → dist av pa ≡ dist av pv
        same e = ap (dist av) (cc (e, reads))

        least :
            (v : String) (pv : ParsedVersion)
            → Elem v (av ∷ seen)
            → parse v ≡ some pv
            → p pv ≡ true
            → dist av pa ≤ℤ dist v pv
        least v pv (inl e) reads' fits' =
            subst (λ x. dist av pa ≤ℤ dist x pv) (sym e)
              (rw (same (subst (λ x. parse x ≡ some pv) e reads')) (omega arith))
        least v pv (inr m) reads' fits' = others v pv m reads' fits'

    pub skip-Tracks : (b : Best) → parse av ≡ none → Tracks p seen b → Tracks p (av ∷ seen) b
    skip-Tracks b bad (inl (e, h)) = inl (e, NoneIn-cons (λ pa reads. cc) h)
    skip-Tracks b bad (inr (parsed, near, at, pos_b)) =
        inr (parsed, IsNearest-cons b.version parsed (λ pa reads. cc) near, at, pos_b)

    pub improve-Tracks :
        (pa : ParsedVersion) (b : Best)
        → parse av ≡ some pa
        → pos 0 ≤ℤ dist av pa
        → Tracks p seen b
        → Tracks p (av ∷ seen) (improve (p pa) av (dist av pa) b)
    unfolding improve
    improve-Tracks pa b reads nonneg t = elim (Bool-cases (p pa)) [
      | inr out ↦ rw out (kept out t)
      | inl fits ↦ rw fits (tried fits t)
    ]
      where
        is_pa : {pv : ParsedVersion} → parse av ≡ some pv → pa ≡ pv
        is_pa e = cc (e, reads)

        kept : p pa ≡ false → Tracks p seen b → Tracks p (av ∷ seen) b
        kept out (inl (e, h)) = inl (e, NoneIn-cons (λ pv r. rw (← is_pa r) out) h)
        kept out (inr (parsed, near, at, pos_b)) = inr (
          parsed,
          IsNearest-cons b.version parsed (λ pv r f. cc (ap p (is_pa r))) near,
          at,
          pos_b,
        )

        fresh : Best
        fresh = record { version = av; abs = dist av pa }

        tried :
            p pa ≡ true
            → Tracks p seen b
            → Tracks p
                (av ∷ seen)
                (if ltb_ℤ b.abs (pos 0) || ltb_ℤ (dist av pa) b.abs then fresh else b)
        tried fits (inl (e, h)) =
            rw e (
              inr (pa, IsNearest-first pa reads fits (λ v pv m r f. cc (h v pv m r)), refl, nonneg))
        tried fits (inr (parsed, near, at, pos_b)) =
            let not_negative : ltb_ℤ b.abs (pos 0) ≡ false = ltb_ℤ-eq-false b.abs (pos 0) pos_b in
            elim (Bool-cases (ltb_ℤ (dist av pa) b.abs)) [
              | inl nearer ↦
                  rw (not_negative, nearer)
                    (inr (
                      pa,
                      IsNearest-first pa reads fits (λ v pv m r f.
                          ≤ℤ-trans_of_ltb (dist av pa) b.abs (dist v pv) nearer
                            (rw at (near.least v pv m r f))),
                      refl,
                      nonneg,
                    ))
              | inr farther ↦
                  rw (not_negative, farther)
                    (inr (
                      parsed,
                      IsNearest-cons b.version parsed
                          (λ pv r f.
                            rw (← at, ← is_pa r) (le_of_ltb_ℤ-eq-false (dist av pa) b.abs farther))
                          near,
                      at,
                      pos_b,
                    ))
            ]
