-- ===== src/Handler/Gomod/Serving.antt =====
-- handleLatest and handleVersionInfo of internal/handler/gomod/handler.go: nothing is served that the
-- policy does not permit.
use dependency_guardian.Prelude.{
  ℕ, String, ◌≡◌, ◌≢◌, refl, ap, subst, ◌∙◌, [], ◌∷◌, inl, inr, Bool, true, false, not, ◌&&◌,
  Option, none, some, eqb, if◌then◌else◌, ◌==◌, eq_iff, arith, Bool-cases, Option-cases,
}
use dependency_guardian.Registry.{PolicyResult}
use dependency_guardian.Decisions.{Log}
use dependency_guardian.Http.{Request, Reply, respond, redirect, crash, fetch, ◌^^◌}
use dependency_guardian.Handler.{Services, Base, is_allowed}
use dependency_guardian.Handler.Verdict.{Permits, evaluate_version_iff}
use dependency_guardian.Handler.Gomod.{
  VersionInfo, extract_module_path, package_version, answer, latest_response, info_response,
  rewrite_info, info_time, info_path, handle_latest, info_at,
}

-- The status that a reply carries; a redirect carries 302.
abbrev pub status : Reply → Option ℕ
status (respond code h body) = some code
status (redirect location) = some 302
status crash = none

not_200 : (n : ℕ) → eqb n 200 ≡ false → some n ≢ some 200
not_200 n other e = differ (inner e)
  where
    inner : some n ≡ some 200 → n ≡ 200
    inner e = cc

    differ : n ≡ 200 → ⊥
    differ h = ground arith

module _ (services : Services) (decode_info : String → Option VersionInfo) where
  answer_ok :
      (o : Option PolicyResult × Option Log) (body : String)
      → status (answer services decode_info o body).0 ≡ some 200
      → is_allowed o.0 ≡ true
  answer_ok (none, log) body h = absurd (not_200 500 refl h)
  answer_ok (some r, log) body h = elim (Bool-cases r.allowed) [
    | inl a ↦ a
    | inr d ↦ absurd (not_200 404 refl (rw d at h))
  ]

  latest_response_ok :
      (b : Base services) (module_path : String) (got : Option (String × ℕ)) (log : Option Log)
      → status (latest_response services decode_info b module_path got log).0 ≡ some 200
      → (body : String) × (vi : VersionInfo) × (got ≡ some (body, 200))
        × (decode_info body ≡ some vi)
        × Permits services b (package_version module_path vi.version vi.time)
  latest_response_ok b module_path none log h = absurd (not_200 502 refl h)
  latest_response_ok b module_path (some (body, code)) log h = elim (Bool-cases (eqb code 200)) [
    | inr other ↦ absurd (not_200 code other (rw other at h))
    | inl ok ↦ elim (Option-cases (decode_info body)) [
      | inl e ↦ absurd (not_200 502 refl (rw (ok, e) at h))
      | inr (vi, e) ↦ (
        body,
        vi,
        ap (λ n. some (body, n)) (equal ok),
        e,
        (evaluate_version_iff services b log (package_version module_path vi.version vi.time)).0
            (answer_ok _ body (rw (ok, e) at h)),
      )
    ]
  ]
    where
      equal : eqb code 200 ≡ true → code ≡ 200
      equal e = ground arith

  -- /@latest is answered with status 200 only when the upstream has answered with status 200 and a body
  -- that decodes, and the policy permits the version and the time that the body names.
  pub handle_latest_permitted :
      (b : Base services) (r : Request) (log : Option Log)
      → status (handle_latest services decode_info b r log).0 ≡ some 200
      → (body : String) × (vi : VersionInfo) × (fetch services.network b.upstream r.path
          ≡ some (body, 200))
        × (decode_info body ≡ some vi)
        × Permits services b
            (package_version (extract_module_path r.path "/@latest") vi.version vi.time)
  unfolding handle_latest
  handle_latest_permitted b r log h =
      latest_response_ok b (extract_module_path r.path "/@latest")
        (fetch services.network b.upstream r.path) log h

  answer_body :
      (o : Option PolicyResult × Option Log) (body : String)
      → status (answer services decode_info o body).0 ≡ some 200
      → (answer services decode_info o body).0
        ≡ respond 200 (("Content-Type", "application/json") ∷ []) body
  answer_body (none, log) body h = absurd (not_200 500 refl h)
  answer_body (some r, log) body h = elim (Bool-cases r.allowed) [
    | inl a ↦ rw a refl
    | inr d ↦ absurd (not_200 404 refl (rw d at h))
  ]

  -- The reply is the upstream's answer with status 200 at a path, for a version that the policy permits
  -- with the time in this answer (0 where it does not decode).
  abbrev pub ServesInfo : Base services → (module_path ver path : String) → Reply → Type 0
  ServesInfo b module_path ver path reply =
      (body : String) × (fetch services.network b.upstream path ≡ some (body, 200))
      × (reply ≡ respond 200 (("Content-Type", "application/json") ∷ []) body)
      × Permits services b (
          package_version module_path ver
            (elim (decode_info body) [ none ↦ 0 | some vi ↦ vi.time ]))

  time_lem :
      (o : Option VersionInfo)
      → info_time services decode_info o ≡ elim o [ none ↦ 0 | some vi ↦ vi.time ]
  time_lem none = refl
  time_lem (some vi) = refl

  info_response_ok :
      (b : Base services) (module_path ver path : String) (got : Option (String × ℕ))
      (log : Option Log)
      → fetch services.network b.upstream path ≡ got
      → status (info_response services decode_info b module_path ver got log).0 ≡ some 200
      → ServesInfo b module_path ver path
          (info_response services decode_info b module_path ver got log).0
  info_response_ok b module_path ver path none log same h = absurd (not_200 502 refl h)
  info_response_ok b module_path ver path (some (body, code)) log same h =
      elim (Bool-cases (eqb code 200)) [
        | inr other ↦ absurd (not_200 code other (rw other at h))
        | inl ok ↦
            let time = info_time services decode_info (decode_info body) in
            (
              body,
              same ∙ ap (λ n. some (body, n)) (equal ok),
              rw ok (answer_body _ body (rw ok at h)),
              subst (λ t. Permits services b (package_version module_path ver t))
                  (time_lem (decode_info body))
                  ((evaluate_version_iff services b log (package_version module_path ver time)).0
                    (answer_ok _ body (rw ok at h))),
            )
      ]
    where
      equal : eqb code 200 ≡ true → code ≡ 200
      equal e = ground arith

  -- When the information of a version is answered with status 200, the version that is served is the
  -- one that the rewrite rules give, where they match and give another one than was asked for (their
  -- mode is then not a redirect), and else the one asked for: the body is what the upstream answers
  -- with status 200 at the path of this version's information (the path of the request, where no rule
  -- rewrites the version), and the policy permits this version with the time that this body names, or
  -- 0 where it does not decode.
  pub info_at_permitted :
      (b : Base services) (r : Request) (module_path ver : String) (log : Option Log)
      → status (info_at services decode_info b r module_path ver log).0 ≡ some 200
      → (let rr = rewrite_info services decode_info b.rewriter module_path ver in
          let rewritten = rr.matched && not (rr.version == ver) in
          ServesInfo b module_path
            (if rewritten then rr.version else ver)
            (if rewritten then "/" ^^ module_path ^^ "/@v/" ^^ rr.version ^^ ".info" else r.path)
            (info_at services decode_info b r module_path ver log).0
          × (rewritten ≡ true → rr.mode ≢ "redirect"))
  unfolding info_at
  info_at_permitted b r module_path ver log h =
      let rr = rewrite_info services decode_info b.rewriter module_path ver in
      elim (Bool-cases (rr.matched && not (rr.version == ver))) [
        | inl t ↦ elim (Bool-cases (rr.mode == "redirect")) [
          | inl m ↦ absurd (not_200 302 refl (rw (t, m) at h))
          | inr m ↦ (
            rw (t, m)
                (info_response_ok b module_path rr.version (info_path module_path rr.version) _ log
                  refl (rw (t, m) at h)),
            λ _ e. absurd (clash rr.mode m e),
          )
        ]
        | inr f ↦ (
          rw f (info_response_ok b module_path ver r.path _ log refl (rw f at h)),
          λ t. absurd (both_ways f t),
        )
      ]
    where
      clash : (mode : String) → (mode == "redirect") ≡ false → mode ≢ "redirect"
      clash mode other e = ground (arith, eq_iff mode "redirect")

      both_ways : {x : Bool} → x ≡ false → x ≡ true → ⊥
      both_ways f t = cc
