-- ===== src/Vulndb/Store/Children.antt =====
-- The deletions of internal/vulndb/dal/store.go, and the rows that hang on a vulnerability.
use dependency_guardian.Prelude.{
  ℕ, ◌≡◌, refl, sym, subst, ◌↔◌, true, ◌&&◌, some, List, ◌∷◌, map, Elem, >>=-eq-some,
}
use dependency_guardian.Vulndb.Models.{Affected}
use dependency_guardian.Vulndb.Gorm.{
  Gorm, IsSql, Table, vulnerability_table, alias_table, related_table, severity_table,
  affected_table, range_table, event_table, reference_table, credit_table, index_table, state_table,
  log_table, Row,
}
use dependency_guardian.Vulndb.Store.{has_id, has_some_id, delete_below, delete_vuln_children_batch}
use dependency_guardian.Vulndb.Store.Keeping.{has_id_iff, has_some_id_iff, kept_below, kept_direct}
use dependency_guardian.Vulndb.Store.Hanging.{HangsOn}
use dependency_guardian.Vulndb.Store.Below.{
  not_iff, not_and_iff, and_true_iff, iff_trans, delete_direct-Leaves, plucked, PackagesOf,
  RangesBelow, delete_below-Leaves,
}

module _ (gorm : Gorm) (sql : IsSql gorm) where
  hangs_iff :
      (ids affected_ids range_ids : List ℕ) (db : gorm.Db)
      → PackagesOf gorm sql db ids affected_ids
      → RangesBelow gorm sql db affected_ids range_ids
      → (u : Table) (r : Row u)
      → ((kept_below affected_ids range_ids u r && kept_direct ids u r) ≡ true)
        ↔ (¬ HangsOn gorm ids db u r)
  hangs_iff ids affected_ids range_ids db packages ranges affected_table r =
      not_iff (has_id ids r.vulnerability_id) (has_id_iff ids r.vulnerability_id)
  hangs_iff ids affected_ids range_ids db packages ranges alias_table r =
      not_iff (has_id ids r.vulnerability_id) (has_id_iff ids r.vulnerability_id)
  hangs_iff ids affected_ids range_ids db packages ranges related_table r =
      not_iff (has_id ids r.vulnerability_id) (has_id_iff ids r.vulnerability_id)
  hangs_iff ids affected_ids range_ids db packages ranges reference_table r =
      not_iff (has_id ids r.vulnerability_id) (has_id_iff ids r.vulnerability_id)
  hangs_iff ids affected_ids range_ids db packages ranges credit_table r =
      not_iff (has_id ids r.vulnerability_id) (has_id_iff ids r.vulnerability_id)
  hangs_iff ids affected_ids range_ids db packages ranges index_table r =
      not_iff (has_id ids r.vulnerability_id) (has_id_iff ids r.vulnerability_id)
  hangs_iff ids affected_ids range_ids db packages ranges vulnerability_table r =
      ((λ h n. n), λ n. refl)
  hangs_iff ids affected_ids range_ids db packages ranges state_table r = ((λ h n. n), λ n. refl)
  hangs_iff ids affected_ids range_ids db packages ranges log_table r = ((λ h n. n), λ n. refl)
  hangs_iff ids affected_ids range_ids db packages ranges range_table r = and_true_iff _ (
      not_iff (has_id affected_ids r.affected_id)
        (iff_trans (has_id_iff affected_ids r.affected_id) (packages r.affected_id)))
  hangs_iff ids affected_ids range_ids db packages ranges event_table r = and_true_iff _ (
      not_iff (has_id range_ids r.affected_range_id) (
        iff_trans (has_id_iff range_ids r.affected_range_id) (
          iff_trans (ranges r.affected_range_id) (
            (λ (g, there, m, e). (g, there, e, (packages g.affected_id).0 m)),
            λ (g, there, e, a). (g, there, (packages g.affected_id).1 a, e),
          ))))
  hangs_iff ids affected_ids range_ids db packages ranges severity_table r =
      not_and_iff (has_some_id affected_ids r.affected_id) (has_id ids r.vulnerability_id)
        (iff_trans (has_some_id_iff affected_ids r.affected_id) (
          (λ (id, e, m).
              let (a, there, of, same) = (packages id).0 m in
              (a, there, of, subst (λ x. r.affected_id ≡ some x) (sym same) e)),
          λ (a, there, of, e). (a.id, e, (packages a.id).1 (a, there, of, refl)),
        ))
        (has_id_iff ids r.vulnerability_id)

  -- A deletion below vulnerabilities that succeeds deletes exactly what hangs on them, whether the
  -- database enforces the cascades that the models declare or not: a row of any table is there behind it
  -- exactly when it was there and is neither of one of the vulnerabilities, nor of an affected package
  -- of one, nor of a range of such a package.
  pub delete_vuln_children_batch_lem :
      (id : ℕ) (ids : List ℕ) (db db' : gorm.Db)
      → delete_vuln_children_batch gorm (id ∷ ids) db ≡ some db'
      → (u : Table) (r : Row u)
      → Elem r (gorm.rows u db') ↔ (Elem r (gorm.rows u db) × (¬ HangsOn gorm (id ∷ ids) db u r))
  unfolding delete_vuln_children_batch
  delete_vuln_children_batch_lem id ids db db' h =
      let vulns = id ∷ ids in
      let (affected, found, h0) =
        >>=-eq-some (gorm.find affected_table (λ a. has_id vulns a.vulnerability_id) db) _ h in
      let affected_ids = map (λ a. a.id) affected in
      let of_vulns = packages affected found in
      let (d1, below, direct) = >>=-eq-some (delete_below gorm affected_ids db) _ h0 in
      let (range_ids, ranges, l) =
        delete_below-Leaves gorm sql vulns affected_ids db d1 of_vulns below in
      let l' =
        delete_direct-Leaves gorm sql vulns (kept_below affected_ids range_ids) db d1 db' l
          direct in
      λ u r. (
        λ m. (
          l'.adds_nothing u r m,
          (hangs_iff vulns affected_ids range_ids db of_vulns ranges u r).0 (l'.takes u r m),
        ),
        λ (there, free). l'.leaves u r there free,
      )
    where
      packages :
          (affected : List Affected)
          → gorm.find affected_table (λ a. has_id (id ∷ ids) a.vulnerability_id) db ≡ some affected
          → PackagesOf gorm sql db (id ∷ ids) (map (λ a. a.id) affected)
      packages affected found key = (
        λ m.
            let (a, there, p, e) =
              (plucked gorm sql affected_table _ (λ a. a.id) db affected found key).0 m in
            (a, there, (has_id_iff (id ∷ ids) a.vulnerability_id).0 p, e),
        λ (a, there, m, e).
            (plucked gorm sql affected_table _ (λ a. a.id) db affected found key).1
              (a, there, (has_id_iff (id ∷ ids) a.vulnerability_id).1 m, e),
      )
