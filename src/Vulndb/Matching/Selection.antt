-- ===== src/Vulndb/Matching/Selection.antt =====
-- GetVulnerabilities of internal/vulndb/osvdb.go: which rows of the index give a result.
use dependency_guardian.Prelude.{
  String, ◌≡◌, refl, ap, ◌∙◌, ◌⊎◌, inl, inr, Bool, true, false, List, [], ◌∷◌, map, eq_iff, arith,
  Elem, Elem-map, Bool-cases, mem, mem-Elem, mem-Elem_of,
}
use dependency_guardian.Vercmp.{VersionLibs}
use dependency_guardian.Vulndb.Models.{AffectedPackageIndex}
use dependency_guardian.Vulndb.Index.{ConstraintCodec}
use dependency_guardian.Vulndb.Matching.{applies, select_rows}

abbrev pub ids_of : List AffectedPackageIndex → List String
ids_of rows = map (λ r. r.osv_id) rows

-- No text stands in the list twice.
abbrev pub Distinct : List String → Type 0
Distinct [] = Unit
Distinct (x ∷ xs) = (mem x xs ≡ false) × Distinct xs

module _ (libs : VersionLibs) (codec : ConstraintCodec) (version ecosystem : String) where
  abbrev select : List AffectedPackageIndex → List String → List AffectedPackageIndex
  select = select_rows libs codec version ecosystem

  abbrev fits : AffectedPackageIndex → Bool
  fits = applies libs codec version ecosystem

  -- The three ways of the loop.
  select_cases :
      (idx : AffectedPackageIndex) (rows : List AffectedPackageIndex) (seen : List String)
      → ((mem idx.osv_id seen ≡ true) × (select (idx ∷ rows) seen ≡ select rows seen))
        ⊎ ((fits idx ≡ false) × (select (idx ∷ rows) seen ≡ select rows seen))
        ⊎ ((mem idx.osv_id seen ≡ false)
            × (fits idx ≡ true)
            × (select (idx ∷ rows) seen ≡ idx ∷ select rows (idx.osv_id ∷ seen)))
  unfolding select_rows
  select_cases idx rows seen = elim (Bool-cases (mem idx.osv_id seen)) [
    | inl s ↦ inl (s, rw s refl)
    | inr s ↦ elim (Bool-cases (fits idx)) [
      | inl f ↦ inr (inr (s, f, rw (s, f) refl))
      | inr f ↦ inr (inl (f, rw (s, f) refl))
    ]
  ]

  pub select-Elem :
      (rows : List AffectedPackageIndex) (seen : List String) (r : AffectedPackageIndex)
      → Elem r (select rows seen)
      → Elem r rows × (fits r ≡ true) × (mem r.osv_id seen ≡ false)
  unfolding mem
  select-Elem [] seen r h = absurd (unfold select_rows in h)
  select-Elem (idx ∷ rows) seen r h = elim (select_cases idx rows seen) [
    | inl (s, e) ↦ let (m, f, n) = select-Elem rows seen r (rw e at h) in (inr m, f, n)
    | inr (inl (f, e)) ↦ let (m, g, n) = select-Elem rows seen r (rw e at h) in (inr m, g, n)
    | inr (inr (s, f, e)) ↦ kept s f (select-Elem rows (idx.osv_id ∷ seen) r) (rw e at h)
  ]
    where
      kept :
          mem idx.osv_id seen ≡ false
          → fits idx ≡ true
          → (Elem r (select rows (idx.osv_id ∷ seen))
              → Elem r rows × (fits r ≡ true) × (mem r.osv_id (idx.osv_id ∷ seen) ≡ false))
          → Elem r (idx ∷ select rows (idx.osv_id ∷ seen))
          → Elem r (idx ∷ rows) × (fits r ≡ true) × (mem r.osv_id seen ≡ false)
      kept s f ih (inl e) = (inl e, ap fits e ∙ f, ap (λ x. mem x.osv_id seen) e ∙ s)
      kept s f ih (inr m) = let (m', g, n) = ih m in (inr m', g, fewer n)
        where
          fewer : mem r.osv_id (idx.osv_id ∷ seen) ≡ false → mem r.osv_id seen ≡ false
          fewer n = ground (arith, n)

  -- An id that is not yet seen and has a row that fits is selected.
  pub select_complete :
      (rows : List AffectedPackageIndex) (seen : List String) (r : AffectedPackageIndex)
      → Elem r rows
      → fits r ≡ true
      → (mem r.osv_id seen ≡ true) ⊎ Elem r.osv_id (ids_of (select rows seen))
  unfolding mem
  select_complete [] seen r m f = absurd m
  select_complete (idx ∷ rows) seen r m f = elim (select_cases idx rows seen) [
    | inl (s, e) ↦ elim m [
      | inl same ↦ inl (ap (λ x. mem x.osv_id seen) same ∙ s)
      | inr rest ↦ rw e (select_complete rows seen r rest f)
    ]
    | inr (inl (g, e)) ↦ elim m [
      | inl same ↦ absurd (clash (ap fits same) g)
      | inr rest ↦ rw e (select_complete rows seen r rest f)
    ]
    | inr (inr (s, g, e)) ↦ rw e (elim m [
      | inl same ↦ inr (inl (ap (λ x. x.osv_id) same))
      | inr rest ↦ step (select_complete rows (idx.osv_id ∷ seen) r rest f)
    ])
  ]
    where
      clash : fits r ≡ fits idx → fits idx ≡ false → ⊥
      clash e g = cc

      step :
          (mem r.osv_id (idx.osv_id ∷ seen) ≡ true)
            ⊎ Elem r.osv_id (ids_of (select rows (idx.osv_id ∷ seen)))
          → (mem r.osv_id seen ≡ true)
            ⊎ Elem r.osv_id (idx.osv_id ∷ ids_of (select rows (idx.osv_id ∷ seen)))
      step (inr m) = inr (inr m)
      step (inl m) = seen_or_first m
        where
          seen_or_first :
              mem r.osv_id (idx.osv_id ∷ seen) ≡ true
              → (mem r.osv_id seen ≡ true)
                ⊎ Elem r.osv_id (idx.osv_id ∷ ids_of (select rows (idx.osv_id ∷ seen)))
          seen_or_first m = ground (arith, eq_iff idx.osv_id r.osv_id)

  not_selected :
      (rows : List AffectedPackageIndex) (seen : List String) (i : String)
      → mem i seen ≡ true
      → mem i (ids_of (select rows seen)) ≡ false
  not_selected rows seen i s = elim (Bool-cases (mem i (ids_of (select rows seen)))) [
    | inr out ↦ out
    | inl m ↦
        let (r, m', e) = Elem-map (λ r. r.osv_id) i (select rows seen) (mem-Elem i _ m) in
        let (_, _, n) = select-Elem rows seen r m' in absurd (clash r e n)
  ]
    where
      clash : (r : AffectedPackageIndex) → i ≡ r.osv_id → mem r.osv_id seen ≡ false → ⊥
      clash r e n = cc

  pub select-Distinct :
      (rows : List AffectedPackageIndex) (seen : List String) → Distinct (ids_of (select rows seen))
  select-Distinct [] seen = unfold select_rows in tt
  select-Distinct (idx ∷ rows) seen = elim (select_cases idx rows seen) [
    | inl (s, e) ↦ rw e (select-Distinct rows seen)
    | inr (inl (f, e)) ↦ rw e (select-Distinct rows seen)
    | inr (inr (s, f, e)) ↦ rw e (
      not_selected rows (idx.osv_id ∷ seen) idx.osv_id
          (mem-Elem_of idx.osv_id (idx.osv_id ∷ seen) (inl refl)),
      select-Distinct rows (idx.osv_id ∷ seen),
    )
  ]
