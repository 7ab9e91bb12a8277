-- ===== src/Vulndb/Store/Keeping.antt =====
-- Conditions on the rows of all tables, and what a chain of deletions keeps.
use dependency_guardian.Prelude.{
  ℕ, ◌≡◌, refl, sym, ap, subst, ◌↔◌, Bool, true, false, not, ◌&&◌, Option, none, some, List, [],
  ◌∷◌, arith, Elem,
}
use dependency_guardian.Vulndb.Gorm.{
  Table, vulnerability_table, alias_table, related_table, severity_table, affected_table,
  range_table, event_table, reference_table, credit_table, index_table, state_table, log_table, Row,
  on,
}
use dependency_guardian.Vulndb.Store.{has_id, has_some_id}

pub has_id_iff : (ids : List ℕ) (id : ℕ) → (has_id ids id ≡ true) ↔ Elem id ids
has_id_iff [] id = ((λ h. cc), λ m. absurd m)
has_id_iff (i ∷ ids) id = ground (arith, has_id_iff ids id)

pub has_some_id_iff :
    (ids : List ℕ) (o : Option ℕ)
    → (has_some_id ids o ≡ true) ↔ ((id : ℕ) × (o ≡ some id) × Elem id ids)
has_some_id_iff ids none = ((λ h. absurd (cc)), λ (id, e, m). absurd (cc))
has_some_id_iff ids (some id) = (
  λ h. (id, refl, (has_id_iff ids id).0 h),
  λ (id', e, m). (has_id_iff ids id).1 (subst (λ x. Elem x ids) (inner id' e) m),
)
  where
    inner : (id' : ℕ) → some id ≡ some id' → id' ≡ id
    inner id' e = cc

-- What a deletion below the given affected packages and ranges keeps.
abbrev pub kept_below : (affected_ids range_ids : List ℕ) (u : Table) → Row u → Bool
kept_below affected_ids range_ids event_table r = not (has_id range_ids r.affected_range_id)
kept_below affected_ids range_ids range_table r = not (has_id affected_ids r.affected_id)
kept_below affected_ids range_ids severity_table r = not (has_some_id affected_ids r.affected_id)
kept_below affected_ids range_ids _ r = true

abbrev pub kept_direct : (ids : List ℕ) (u : Table) → Row u → Bool
kept_direct ids affected_table r = not (has_id ids r.vulnerability_id)
kept_direct ids alias_table r = not (has_id ids r.vulnerability_id)
kept_direct ids related_table r = not (has_id ids r.vulnerability_id)
kept_direct ids severity_table r = not (has_id ids r.vulnerability_id)
kept_direct ids reference_table r = not (has_id ids r.vulnerability_id)
kept_direct ids credit_table r = not (has_id ids r.vulnerability_id)
kept_direct ids index_table r = not (has_id ids r.vulnerability_id)
kept_direct ids _ r = true

abbrev pub unless : (t : Table) → (Row t → Bool) → (u : Table) → Row u → Bool
unless t p u r = not (on t p u r)

-- The seven deletions of `delete_direct`, one after the other.
pub seven :
    (ids : List ℕ) (u : Table) (r : Row u)
    → (unless affected_table (λ r. has_id ids r.vulnerability_id) u r
        && unless alias_table (λ r. has_id ids r.vulnerability_id) u r
        && unless related_table (λ r. has_id ids r.vulnerability_id) u r
        && unless severity_table (λ r. has_id ids r.vulnerability_id) u r
        && unless reference_table (λ r. has_id ids r.vulnerability_id) u r
        && unless credit_table (λ r. has_id ids r.vulnerability_id) u r
        && unless index_table (λ r. has_id ids r.vulnerability_id) u r)
      ≡ kept_direct ids u r
seven ids vulnerability_table r = ground arith
seven ids alias_table r = ground arith
seven ids related_table r = ground arith
seven ids severity_table r = ground arith
seven ids affected_table r = ground arith
seven ids range_table r = ground arith
seven ids event_table r = ground arith
seven ids reference_table r = ground arith
seven ids credit_table r = ground arith
seven ids index_table r = ground arith
seven ids state_table r = ground arith
seven ids log_table r = ground arith

-- The deletions below affected packages, one after the other; below none, nothing is deleted.
pub three :
    (affected_ids range_ids : List ℕ) (u : Table) (r : Row u)
    → (unless event_table (λ e. has_id range_ids e.affected_range_id) u r
        && unless range_table (λ r. has_id affected_ids r.affected_id) u r
        && unless severity_table (λ s. has_some_id affected_ids s.affected_id) u r)
      ≡ kept_below affected_ids range_ids u r
three affected_ids range_ids vulnerability_table r = ground arith
three affected_ids range_ids alias_table r = ground arith
three affected_ids range_ids related_table r = ground arith
three affected_ids range_ids severity_table r = ground arith
three affected_ids range_ids affected_table r = ground arith
three affected_ids range_ids range_table r = ground arith
three affected_ids range_ids event_table r = ground arith
three affected_ids range_ids reference_table r = ground arith
three affected_ids range_ids credit_table r = ground arith
three affected_ids range_ids index_table r = ground arith
three affected_ids range_ids state_table r = ground arith
three affected_ids range_ids log_table r = ground arith

has_some_id_none : (o : Option ℕ) → has_some_id [] o ≡ false
has_some_id_none none = refl
has_some_id_none (some id) = refl

pub below_none : (u : Table) (r : Row u) → true ≡ kept_below [] [] u r
below_none vulnerability_table r = refl
below_none alias_table r = refl
below_none related_table r = refl
below_none severity_table r = ap not (sym (has_some_id_none r.affected_id))
below_none affected_table r = refl
below_none range_table r = refl
below_none event_table r = refl
below_none reference_table r = refl
below_none credit_table r = refl
below_none index_table r = refl
below_none state_table r = refl
below_none log_table r = refl

pub no_event :
    (u : Table) (r : Row u) → true ≡ unless event_table (λ e. has_id [] e.affected_range_id) u r
no_event vulnerability_table r = refl
no_event alias_table r = refl
no_event related_table r = refl
no_event severity_table r = refl
no_event affected_table r = refl
no_event range_table r = refl
no_event event_table r = refl
no_event reference_table r = refl
no_event credit_table r = refl
no_event index_table r = refl
no_event state_table r = refl
no_event log_table r = refl
