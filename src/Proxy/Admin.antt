-- ===== src/Proxy/Admin.antt =====
-- requireAdmin and handlePolicyReload of internal/proxy/server.go: who can change the policy.
use dependency_guardian.Prelude.{
  String, ◌≡◌, refl, ap, ◌∙◌, ◌⊎◌, inl, inr, some, List, ◌==◌, eq_iff, arith, Bool-cases,
}
use dependency_guardian.Http.{Request, Reply, get, ◌^^◌}
use dependency_guardian.Policy.{Opa, Engine, Visit, new_engine}
use dependency_guardian.Policy.Loading.{reload_atomic}
use dependency_guardian.Proxy.{require_admin, handle_policy_reload}

-- The request passes the guard: no token is set, or the request bears it.
abbrev pub Authorized : String → Request → Type 0
Authorized token r = (token ≡ "") ⊎ (get "Authorization" r.header ≡ "Bearer " ^^ token)

module _ {S : Type 0} where
  require_admin_cases :
      (token : String) (next : Request → S → Reply × S) (r : Request) (s : S)
      → (Authorized token r × (require_admin token next r s ≡ next r s))
        ⊎ ((¬ Authorized token r) × ((require_admin token next r s).1 ≡ s))
  unfolding require_admin
  require_admin_cases token next r s =
      ground (arith, eq_iff token "", eq_iff (get "Authorization" r.header) ("Bearer " ^^ token))

reload_cases :
    (opa : Opa) (visits : List Visit) (r : Request) (e : Engine opa)
    → ((handle_policy_reload opa visits r e).1 ≡ e)
      ⊎ ((new : Engine opa) × (r.method ≡ "POST")
          × (new_engine opa visits ≡ some new)
          × ((handle_policy_reload opa visits r e).1 ≡ new))
unfolding handle_policy_reload
reload_cases opa visits r e = elim (Bool-cases (r.method == "POST")) [
  | inr other ↦ inl (rw other refl)
  | inl post ↦ elim (reload_atomic opa visits e) [
    | inl (_, same) ↦ inl (rw (post, same) refl)
    | inr (new, made, now) ↦ inr (new, (eq_iff r.method "POST").0 post, made, rw (post, now) refl)
  ]
]

-- The reload request of the proxy leaves the policy engine as it was, unless the request passes the
-- administrator's guard, is a POST, and an engine can be made of the policy files: then that is the engine.
pub policy_reload_guarded :
    (opa : Opa) (token : String) (visits : List Visit) (r : Request) (e : Engine opa)
    → ((require_admin token (handle_policy_reload opa visits) r e).1 ≡ e)
      ⊎ ((new : Engine opa) × Authorized token r
          × (r.method ≡ "POST")
          × (new_engine opa visits ≡ some new)
          × ((require_admin token (handle_policy_reload opa visits) r e).1 ≡ new))
policy_reload_guarded opa token visits r e =
    elim (require_admin_cases token (handle_policy_reload opa visits) r e) [
      | inr (_, same) ↦ inl same
      | inl (passes, same) ↦ elim (reload_cases opa visits r e) [
        | inl kept ↦ inl (ap (λ x. x.1) same ∙ kept)
        | inr (new, post, made, now) ↦ inr (new, passes, post, made, ap (λ x. x.1) same ∙ now)
      ]
    ]
