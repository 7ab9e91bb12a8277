-- ===== src/Samples/Memory.antt =====
-- A sample of GORM's statements: tables in memory.
use dependency_guardian.Prelude.{
  ◌≡◌, ◌≢◌, refl, sym, ap, subst, ◌↔◌, inl, inr, Bool, Bool-cases, true, false, not, arith, some,
  List, [], ◌∷◌, ◌++◌, map, filter, eqb, if◌then◌else◌, length, Elem, Elem-filter, Elem-filter_of,
}
use mathlib.Core.Option.{some-injective}
use dependency_guardian.Vulndb.Models.{Vulnerability}
use dependency_guardian.Vulndb.Gorm.{
  Gorm, IsSql, Table, vulnerability_table, alias_table, related_table, severity_table,
  affected_table, range_table, event_table, reference_table, credit_table, index_table, state_table,
  log_table, Row, Found, row, not_found, on, direct,
}

abbrev pub Memory : Type 0
Memory = (t : Table) → List (Row t)

abbrev pub first_of : {A : Type 0} → List A → Found A
first_of [] = not_found
first_of (a ∷ rest) = row a

-- Rows in front of those of a table.
abbrev pub put : (t : Table) → List (Row t) → Memory → Memory
put vulnerability_table rs db vulnerability_table = rs ++ db vulnerability_table
put alias_table rs db alias_table = rs ++ db alias_table
put related_table rs db related_table = rs ++ db related_table
put severity_table rs db severity_table = rs ++ db severity_table
put affected_table rs db affected_table = rs ++ db affected_table
put range_table rs db range_table = rs ++ db range_table
put event_table rs db event_table = rs ++ db event_table
put reference_table rs db reference_table = rs ++ db reference_table
put credit_table rs db credit_table = rs ++ db credit_table
put index_table rs db index_table = rs ++ db index_table
put state_table rs db state_table = rs ++ db state_table
put log_table rs db log_table = rs ++ db log_table
put _ rs db u = db u

abbrev pub mark : Vulnerability → Memory → Memory
mark v db vulnerability_table =
    map (λ (w : Vulnerability). if eqb w.id v.id then record w { deleted_at = some 1 } else w)
      (db vulnerability_table)
mark v db u = db u

abbrev pub sample_gorm : Gorm
sample_gorm = record {
  Db = Memory;
  rows = λ t db. db t;
  find = λ t p db. some (filter p (db t));
  first = λ t p db. first_of (filter p (db t));
  count = λ t p db. some (length (filter p (db t)));
  delete = λ t p db. some (λ u. filter (λ r. not (on t p u r)) (db u));
  soft_delete = λ v db. some (mark v db);
  create = λ t rs db. some (rs, put t rs db);
  create_nested = λ vs db. (vs, some (put vulnerability_table vs db));
  save = λ t r db. some (r, put t (r ∷ []) db);
}

mark_others :
    (v : Vulnerability) (db : Memory) (u : Table) → u ≢ vulnerability_table → mark v db u ≡ db u
mark_others v db vulnerability_table h = absurd (h refl)
mark_others v db alias_table h = refl
mark_others v db related_table h = refl
mark_others v db severity_table h = refl
mark_others v db affected_table h = refl
mark_others v db range_table h = refl
mark_others v db event_table h = refl
mark_others v db reference_table h = refl
mark_others v db credit_table h = refl
mark_others v db index_table h = refl
mark_others v db state_table h = refl
mark_others v db log_table h = refl

false_lem : {b : Bool} → not b ≡ true → b ≡ false
false_lem {b} h = ground arith

deleted_iff :
    (t : Table) (p : Row t → Bool) (db db' : Memory)
    → sample_gorm.delete t p db ≡ some db'
    → (u : Table) (r : Row u) → Elem r (db' u)
    → Elem r (db u) × (not (on t p u r) ≡ true)
deleted_iff t p db db' h u r m =
    Elem-filter (λ x. not (on t p u x)) r (db u)
      (subst (λ d. Elem r (d u)) (sym (some-injective _ db' h)) m)

-- It enforces no cascade.
pub sample_gorm-IsSql : IsSql sample_gorm
sample_gorm-IsSql = record {
  find_lem = λ t p db rs h r.
      subst (λ l. Elem r l ↔ (Elem r (db t) × (p r ≡ true))) (some-injective _ rs h)
        (Elem-filter p r (db t), λ (m, e). Elem-filter_of p r (db t) m e);
  delete_adds_nothing = λ t p db db' h u r m. (deleted_iff t p db db' h u r m).0;
  delete_takes = λ t p db db' h u r m. false_lem (deleted_iff t p db db' h u r m).1;
  delete_leaves = λ t p db db' h u r m stays.
      subst (λ d. Elem r (d u)) (some-injective _ db' h)
        (Elem-filter_of (λ x. not (on t p u x)) r (db u) m
          (elim (Bool-cases (on t p u r)) [
            | inl taken ↦ absurd (stays (direct m taken))
            | inr left ↦ ap not left
          ]));
  soft_delete_lem = λ v db db' h u other.
      subst (λ d. d u ≡ db u) (some-injective _ db' h) (mark_others v db u other);
}
