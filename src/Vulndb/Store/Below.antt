-- ===== src/Vulndb/Store/Below.antt =====
-- The statements that a deletion of internal/vulndb/dal/store.go is made of, and the rows they keep.
use dependency_guardian.Prelude.{
  ℕ, ◌≡◌, refl, sym, ap, subst, ◌∙◌, ◌⊎◌, inl, inr, ◌↔◌, Bool, true, false, not, ◌&&◌, some, List,
  [], ◌∷◌, map, Elem, Elem-map, Elem-map_of, >>=-eq-some, arith,
}
use mathlib.Core.Option.{some-injective}
use dependency_guardian.Vulndb.Models.{Affected, AffectedRange, RangeEvent, Severity}
use dependency_guardian.Vulndb.Gorm.{
  Gorm, IsSql, Table, alias_table, related_table, severity_table, affected_table, range_table,
  event_table, reference_table, credit_table, index_table, Row,
}
use dependency_guardian.Vulndb.Store.{
  has_id, has_some_id, delete_events, delete_below, delete_direct,
}
use dependency_guardian.Vulndb.Store.Keeping.{
  has_id_iff, has_some_id_iff, kept_below, kept_direct, unless, seven, three, below_none, no_event,
}
use dependency_guardian.Vulndb.Store.Hanging.{HangsOn, Leaves, unchanged, Leaves-ext, then_delete}

pub clash : {x : Bool} → x ≡ true → x ≡ false → ⊥
clash e f = cc

pub not_iff {ℓ} : {P : Type ℓ} (b : Bool) → (b ≡ true) ↔ P → (not b ≡ true) ↔ (¬ P)
not_iff true (to, of) = ((λ h p. absurd (cc)), λ n. absurd (n (to refl)))
not_iff false (to, of) = ((λ h p. clash (of p) refl), λ n. refl)

pub not_and_iff {ℓ κ} :
    {P : Type ℓ} {Q : Type κ} (b c : Bool)
    → (b ≡ true) ↔ P
    → (c ≡ true) ↔ Q
    → ((not b && not c) ≡ true) ↔ (¬ (Q ⊎ P))
not_and_iff true c (to, of) q = ((λ h p. absurd (cc)), λ n. absurd (n (inr (to refl))))
not_and_iff false c (to, of) q = (
  λ h pq. elim pq [ inl y ↦ (not_iff c q).0 h y | inr x ↦ clash (of x) refl ],
  λ n. (not_iff c q).1 (λ y. n (inl y)),
)

pub and_true_iff {ℓ} : {P : Type ℓ} (b : Bool) → (b ≡ true) ↔ P → ((b && true) ≡ true) ↔ P
and_true_iff true p = p
and_true_iff false p = p

pub iff_trans {ℓ κ ι} : {P : Type ℓ} {Q : Type κ} {R : Type ι} → P ↔ Q → Q ↔ R → P ↔ R
iff_trans (f, g) (h, k) = ((λ p. h (f p)), λ r. g (k r))

-- The seven deletions behind those of a test.
regroup :
    (k a b c d e f g : Bool)
    → (k && a && b && c && d && e && f && g) ≡ (k && (a && b && c && d && e && f && g))
regroup true a b c d e f g = refl
regroup false a b c d e f g = ground arith

module _ (gorm : Gorm) (sql : IsSql gorm) where
  pub delete_direct-Leaves :
      (ids : List ℕ) (k : (u : Table) → Row u → Bool) (db d db' : gorm.Db)
      → Leaves gorm ids k db d
      → delete_direct gorm ids d ≡ some db'
      → Leaves gorm ids (λ u r. k u r && kept_direct ids u r) db db'
  delete_direct-Leaves ids k db d db' start h =
      let (d1, e1, h1) = >>=-eq-some (gorm.delete affected_table _ d) _ h in
      let (d2, e2, h2) = >>=-eq-some (gorm.delete alias_table _ d1) _ h1 in
      let (d3, e3, h3) = >>=-eq-some (gorm.delete related_table _ d2) _ h2 in
      let (d4, e4, h4) = >>=-eq-some (gorm.delete severity_table _ d3) _ h3 in
      let (d5, e5, h5) = >>=-eq-some (gorm.delete reference_table _ d4) _ h4 in
      let (d6, e6, h6) = >>=-eq-some (gorm.delete credit_table _ d5) _ h5 in
      let of_ids : (id : ℕ) → has_id ids id ≡ true → Elem id ids = λ id. (has_id_iff ids id).0 in
      let then = then_delete gorm sql ids in
      let l1 = then _ affected_table _ db d d1 (λ r. of_ids r.vulnerability_id) start e1 in
      let l2 = then _ alias_table _ db d1 d2 (λ r. of_ids r.vulnerability_id) l1 e2 in
      let l3 = then _ related_table _ db d2 d3 (λ r. of_ids r.vulnerability_id) l2 e3 in
      let l4 = then _ severity_table _ db d3 d4 (λ r p. inl (of_ids r.vulnerability_id p)) l3 e4 in
      let l5 = then _ reference_table _ db d4 d5 (λ r. of_ids r.vulnerability_id) l4 e5 in
      let l6 = then _ credit_table _ db d5 d6 (λ r. of_ids r.vulnerability_id) l5 e6 in
      Leaves-ext gorm ids _ (λ u r. k u r && kept_direct ids u r) db db'
        (λ u r. regroup (k u r) _ _ _ _ _ _ _ ∙ ap (λ b. k u r && b) (seven ids u r))
        (then _ index_table _ db d6 db' (λ r. of_ids r.vulnerability_id) l6 h6)

  pub plucked :
      (t : Table) (p : Row t → Bool) (key : Row t → ℕ) (db : gorm.Db) (rs : List (Row t))
      → gorm.find t p db ≡ some rs
      → (id : ℕ)
      → Elem id (map key rs) ↔ ((r : Row t) × Elem r (gorm.rows t db) × (p r ≡ true) × (key r ≡ id))
  plucked t p key db rs found id = (
    λ m.
        let (r, there, e) = Elem-map key id rs m in
        let (old, holds) = (sql.find_lem t p db rs found r).0 there in (r, old, holds, sym e),
    λ (r, old, holds, e).
        subst (λ x. Elem x (map key rs)) e
          (Elem-map_of key r rs ((sql.find_lem t p db rs found r).1 (old, holds))),
  )

  -- The ranges below the affected packages, by their keys.
  abbrev pub RangesBelow : gorm.Db → (affected_ids range_ids : List ℕ) → Type 0
  RangesBelow db affected_ids range_ids =
      (id : ℕ)
      → Elem id range_ids ↔ (
          (r : AffectedRange) × Elem r (gorm.rows range_table db)
          × Elem r.affected_id affected_ids
          × (r.id ≡ id))

  -- The affected packages of the vulnerabilities, by their keys.
  abbrev pub PackagesOf : gorm.Db → (ids affected_ids : List ℕ) → Type 0
  PackagesOf db ids affected_ids =
      (id : ℕ)
      → Elem id affected_ids ↔ (
          (a : Affected) × Elem a (gorm.rows affected_table db)
          × Elem a.vulnerability_id ids
          × (a.id ≡ id))

  delete_events-Leaves :
      (vulns ids : List ℕ) (db db' : gorm.Db)
      → ((r : RangeEvent)
          → has_id ids r.affected_range_id ≡ true
          → HangsOn gorm vulns db event_table r)
      → delete_events gorm ids db ≡ some db'
      → Leaves gorm vulns (unless event_table (λ e. has_id ids e.affected_range_id)) db db'
  delete_events-Leaves vulns [] db db' aims h =
      Leaves-ext gorm vulns (λ u r. true) _ db db' no_event
        (subst (Leaves gorm vulns (λ u r. true) db) (some-injective _ db' h)
          (unchanged gorm vulns db))
  delete_events-Leaves vulns (id ∷ ids) db db' aims h =
      then_delete gorm sql vulns _ event_table _ db db db' aims (unchanged gorm vulns db) h

  pub delete_below-Leaves :
      (vulns ids : List ℕ) (db db' : gorm.Db)
      → PackagesOf db vulns ids
      → delete_below gorm ids db ≡ some db'
      → (range_ids : List ℕ) × RangesBelow db ids range_ids
        × Leaves gorm vulns (kept_below ids range_ids) db db'
  delete_below-Leaves vulns [] db db' packages h = (
    [],
    λ id. ((λ m. absurd m), λ (r, there, m, e). absurd m),
    Leaves-ext gorm vulns (λ u r. true) (kept_below [] []) db db' below_none
        (subst (Leaves gorm vulns (λ u r. true) db) (some-injective _ db' h)
          (unchanged gorm vulns db)),
  )
  delete_below-Leaves vulns (i ∷ ids) db db' packages h =
      let affected_ids = i ∷ ids in
      let (ranges, e0, h0) =
        >>=-eq-some (gorm.find range_table (λ r. has_id affected_ids r.affected_id) db) _ h in
      let range_ids = map (λ r. r.id) ranges in
      let (d1, e1, h1) = >>=-eq-some (delete_events gorm range_ids db) _ h0 in
      let (d2, e2, h2) = >>=-eq-some (gorm.delete range_table _ d1) _ h1 in
      let below = below_ranges ranges e0 in
      let l1 = delete_events-Leaves vulns range_ids db d1 (aims_events range_ids below) e1 in
      let l2 = then_delete gorm sql vulns _ range_table _ db d1 d2 aims_ranges l1 e2 in
      (
        range_ids,
        below,
        Leaves-ext gorm vulns _ (kept_below affected_ids range_ids) db db'
            (three affected_ids range_ids)
            (then_delete gorm sql vulns _ severity_table _ db d2 db' aims_severities l2 h2),
      )
    where
      below_ranges :
          (ranges : List AffectedRange)
          → gorm.find range_table (λ r. has_id (i ∷ ids) r.affected_id) db ≡ some ranges
          → RangesBelow db (i ∷ ids) (map (λ r. r.id) ranges)
      below_ranges ranges found id = (
        λ m.
            let (r, there, p, e) = (plucked range_table _ (λ r. r.id) db ranges found id).0 m in
            (r, there, (has_id_iff (i ∷ ids) r.affected_id).0 p, e),
        λ (r, there, m, e).
            (plucked range_table _ (λ r. r.id) db ranges found id).1
              (r, there, (has_id_iff (i ∷ ids) r.affected_id).1 m, e),
      )

      aims_events :
          (range_ids : List ℕ)
          → RangesBelow db (i ∷ ids) range_ids
          → (r : RangeEvent) → has_id range_ids r.affected_range_id ≡ true
          → HangsOn gorm vulns db event_table r
      aims_events range_ids below r p =
          let (g, there, m, e) =
            (below r.affected_range_id).0 ((has_id_iff range_ids r.affected_range_id).0 p) in
          (g, there, e, (packages g.affected_id).0 m)

      aims_ranges :
          (r : AffectedRange)
          → has_id (i ∷ ids) r.affected_id ≡ true
          → HangsOn gorm vulns db range_table r
      aims_ranges r p = (packages r.affected_id).0 ((has_id_iff (i ∷ ids) r.affected_id).0 p)

      aims_severities :
          (r : Severity)
          → has_some_id (i ∷ ids) r.affected_id ≡ true
          → HangsOn gorm vulns db severity_table r
      aims_severities r p =
          let (id, e, m) = (has_some_id_iff (i ∷ ids) r.affected_id).0 p in
          let (a, there, of, same) = (packages id).0 m in
          inr (a, there, of, subst (λ x. r.affected_id ≡ some x) (sym same) e)
