-- ===== src/Vulndb/Store/Hanging.antt =====
-- The rows that hang on a vulnerability, and what one deletion of internal/vulndb/dal/store.go below it
-- leaves, cascades included.
use dependency_guardian.Prelude.{
  ℕ, ◌≡◌, refl, ◌⊎◌, ◌∙◌, sym, inr, Bool, true, false, not, ◌&&◌, some, List, Elem, arith,
}
use dependency_guardian.Vulndb.Models.{Affected, AffectedRange}
use dependency_guardian.Vulndb.Gorm.{
  Gorm, IsSql, Table, vulnerability_table, alias_table, related_table, severity_table,
  affected_table, range_table, event_table, reference_table, credit_table, index_table, state_table,
  log_table, Row, RefersTo, alias_of, related_of, severity_of, affected_of, reference_of, credit_of,
  range_of, affected_severity_of, event_of, MayGo, direct, cascade, on,
}
use dependency_guardian.Vulndb.Store.Keeping.{unless}

-- A row that meets a condition on one table is a row of this table that meets it.
on_elim :
    (t : Table) (p : Row t → Bool) (P : (u : Table) → Row u → Type 0)
    → ((r : Row t) → p r ≡ true → P t r)
    → (u : Table) (r : Row u) → on t p u r ≡ true
    → P u r
on_elim vulnerability_table p P h vulnerability_table r e = h r e
on_elim alias_table p P h alias_table r e = h r e
on_elim related_table p P h related_table r e = h r e
on_elim severity_table p P h severity_table r e = h r e
on_elim affected_table p P h affected_table r e = h r e
on_elim range_table p P h range_table r e = h r e
on_elim event_table p P h event_table r e = h r e
on_elim reference_table p P h reference_table r e = h r e
on_elim credit_table p P h credit_table r e = h r e
on_elim index_table p P h index_table r e = h r e
on_elim state_table p P h state_table r e = h r e
on_elim log_table p P h log_table r e = h r e
on_elim _ p P h _ r e = absurd (cc)

module _ (gorm : Gorm) where
  -- The row hangs on one of the vulnerabilities: it is of it, of an affected package of it, or of a
  -- range of such a package.
  abbrev pub HangsOn : List ℕ → gorm.Db → (u : Table) → Row u → Type 0
  HangsOn ids db affected_table r = Elem r.vulnerability_id ids
  HangsOn ids db alias_table r = Elem r.vulnerability_id ids
  HangsOn ids db related_table r = Elem r.vulnerability_id ids
  HangsOn ids db reference_table r = Elem r.vulnerability_id ids
  HangsOn ids db credit_table r = Elem r.vulnerability_id ids
  HangsOn ids db index_table r = Elem r.vulnerability_id ids
  HangsOn ids db severity_table r =
      Elem r.vulnerability_id ids
      ⊎ ((a : Affected) × Elem a (gorm.rows affected_table db)
          × Elem a.vulnerability_id ids
          × (r.affected_id ≡ some a.id))
  HangsOn ids db range_table r =
      (a : Affected) × Elem a (gorm.rows affected_table db)
      × Elem a.vulnerability_id ids
      × (a.id ≡ r.affected_id)
  HangsOn ids db event_table r =
      (g : AffectedRange) × Elem g (gorm.rows range_table db)
      × (g.id ≡ r.affected_range_id)
      × ((a : Affected) × Elem a (gorm.rows affected_table db)
          × Elem a.vulnerability_id ids
          × (a.id ≡ g.affected_id))
  HangsOn ids db vulnerability_table r = ⊥
  HangsOn ids db state_table r = ⊥
  HangsOn ids db log_table r = ⊥

  -- What refers to a row that hangs on a vulnerability hangs on it too.
  RefersTo-HangsOn :
      (ids : List ℕ) (db : gorm.Db) {s u : Table} {x : Row s} {r : Row u}
      → Elem x (gorm.rows s db)
      → RefersTo s u x r
      → HangsOn ids db s x
      → HangsOn ids db u r
  RefersTo-HangsOn ids db m (alias_of e) h = absurd h
  RefersTo-HangsOn ids db m (related_of e) h = absurd h
  RefersTo-HangsOn ids db m (severity_of e) h = absurd h
  RefersTo-HangsOn ids db m (affected_of e) h = absurd h
  RefersTo-HangsOn ids db m (reference_of e) h = absurd h
  RefersTo-HangsOn ids db m (credit_of e) h = absurd h
  RefersTo-HangsOn ids db m (range_of {a} e) h = (a, m, h, sym e)
  RefersTo-HangsOn ids db m (affected_severity_of {a} e) h = inr (a, m, h, e)
  RefersTo-HangsOn ids db m (event_of {g} e) (a, there, of, same) =
      (g, m, sym e, (a, there, of, same))

  -- When a deletion aims at rows that hang on the vulnerabilities, so does all that it may take.
  MayGo-HangsOn :
      (ids : List ℕ) (db d : gorm.Db) (t : Table) (p : Row t → Bool)
      → ((u : Table) (r : Row u) → Elem r (gorm.rows u d) → Elem r (gorm.rows u db))
      → ((r : Row t) → p r ≡ true → HangsOn ids db t r)
      → {u : Table} {r : Row u} → MayGo gorm d t p u r
      → HangsOn ids db u r
  MayGo-HangsOn ids db d t p sub aims {u} {r} (direct m e) =
      on_elim t p (λ u r. HangsOn ids db u r) aims u r e
  MayGo-HangsOn ids db d t p sub aims (cascade {s} {u} {x} {r} m g refers) =
      RefersTo-HangsOn ids db (sub s x m) refers (MayGo-HangsOn ids db d t p sub aims g)

  -- The second state holds no other rows than the first, only such as pass the test, and all that do
  -- not hang on the vulnerabilities.
  pub record Leaves (ids : List ℕ) (k : (u : Table) → Row u → Bool) (db d : gorm.Db) : Type 0 where
    pub adds_nothing : (u : Table) (r : Row u) → Elem r (gorm.rows u d) → Elem r (gorm.rows u db)
    pub takes : (u : Table) (r : Row u) → Elem r (gorm.rows u d) → k u r ≡ true
    pub leaves :
        (u : Table) (r : Row u)
        → Elem r (gorm.rows u db)
        → ¬ HangsOn ids db u r
        → Elem r (gorm.rows u d)

  pub unchanged : (ids : List ℕ) (db : gorm.Db) → Leaves ids (λ u r. true) db db
  unchanged ids db = record {
    adds_nothing = λ u r m. m;
    takes = λ u r m. refl;
    leaves = λ u r m free. m;
  }

  pub Leaves-ext :
      (ids : List ℕ) (k l : (u : Table) → Row u → Bool) (db d : gorm.Db)
      → ((u : Table) (r : Row u) → k u r ≡ l u r)
      → Leaves ids k db d
      → Leaves ids l db d
  Leaves-ext ids k l db d same h = record {
    adds_nothing = h.adds_nothing;
    takes = λ u r m. sym (same u r) ∙ h.takes u r m;
    leaves = h.leaves;
  }

  pub then_delete :
      (sql : IsSql gorm) (ids : List ℕ) (k : (u : Table) → Row u → Bool) (t : Table)
      (p : Row t → Bool) (db d d' : gorm.Db)
      → ((r : Row t) → p r ≡ true → HangsOn ids db t r)
      → Leaves ids k db d
      → gorm.delete t p d ≡ some d'
      → Leaves ids (λ u r. k u r && unless t p u r) db d'
  then_delete sql ids k t p db d d' aims h e = record {
    adds_nothing = λ u r m. h.adds_nothing u r (sql.delete_adds_nothing t p d d' e u r m);
    takes = λ u r m.
        both (h.takes u r (sql.delete_adds_nothing t p d d' e u r m))
          (sql.delete_takes t p d d' e u r m);
    leaves = λ u r m free.
        sql.delete_leaves t p d d' e u r (h.leaves u r m free)
          (λ gone. free (MayGo-HangsOn ids db d t p h.adds_nothing aims gone));
  }
    where
      both : {x y : Bool} → x ≡ true → y ≡ false → (x && not y) ≡ true
      both {x} {y} a b = ground arith
