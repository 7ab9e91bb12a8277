-- ===== src/Handler/Gomod/Listing.antt =====
-- handleVersionList of internal/handler/gomod/handler.go: which versions the proxy lists.
use dependency_guardian.Prelude.{
  String, ◌≡◌, refl, ap, sym, ◌∙◌, ◌↔◌, Bool, true, false, not, ◌&&◌, Option, none, some, List, [],
  ◌∷◌, filter, eqb, arith, Elem, Elem-filter, Elem-filter_of, mem, mem-filter,
}
use dependency_guardian.Rewrite.{RewriteRule}
use dependency_guardian.Decisions.{Log}
use dependency_guardian.Http.{Request, Incoming, respond, Header, ◌^^◌}
use dependency_guardian.Handler.{Services, Base, is_allowed, evaluate_version}
use dependency_guardian.Handler.Verdict.{Permits, evaluate_version_result, evaluate_version_iff}
use dependency_guardian.Handler.Gomod.{
  VersionInfo, extract_module_path, read_versions, write_versions, package_version,
  is_rewritten_away, rewritten_away, allowed_versions, handle_version_list,
}

module _ (services : Services) (decode_info : String → Option VersionInfo) where
  abbrev permitted : Base services → String → String → Bool
  permitted b module_path ver =
      is_allowed (evaluate_version services b none (package_version module_path ver 0)).0

  is_allowed-permitted :
      (b : Base services) (module_path ver : String) (log : Option Log)
      → is_allowed (evaluate_version services b log (package_version module_path ver 0)).0
        ≡ permitted b module_path ver
  is_allowed-permitted b module_path ver log = ap is_allowed (
      evaluate_version_result services b log (package_version module_path ver 0)
      ∙ sym (evaluate_version_result services b none (package_version module_path ver 0)))

  -- The loop keeps the versions that are not rewritten away and that the policy permits, in order,
  -- whatever the log holds.
  allowed_versions-filter :
      (b : Base services) (module_path : String) (rewritten vers : List String) (log : Option Log)
      → (allowed_versions services decode_info b module_path rewritten vers log).0
        ≡ filter (λ v. not (mem v rewritten) && permitted b module_path v) vers
  unfolding allowed_versions
  allowed_versions-filter b module_path rewritten [] log = refl
  allowed_versions-filter b module_path rewritten (ver ∷ vers) log =
      let (r, log') = evaluate_version services b log (package_version module_path ver 0) in
      ground (
        arith,
        is_allowed-permitted b module_path ver log,
        allowed_versions-filter b module_path rewritten vers log,
        allowed_versions-filter b module_path rewritten vers log',
      )

  rewritten_away_iff :
      (rewriter : Option (List RewriteRule)) (module_path : String) (all : List String)
      (ver : String)
      → Elem ver all
      → mem ver (rewritten_away services decode_info rewriter module_path all)
        ≡ is_rewritten_away services decode_info rewriter module_path all ver
  rewritten_away_iff rewriter module_path all ver m =
      mem-filter (is_rewritten_away services decode_info rewriter module_path all) ver all m

  abbrev upstream_list : Base services → Request → Option Incoming
  upstream_list b r =
      services.network.send
        (record { method = "GET"; url = b.upstream.base_url ^^ r.path; header = []; body = none })

  -- When the upstream answers a version list with status 200, the proxy answers with a list that holds
  -- exactly the versions that it reads of the upstream's list (the lines in front of one of 64 KiB or
  -- more) which the rewrite rules do not turn into another version of the list and which the policy
  -- permits.
  pub handle_version_list_permitted :
      (b : Base services) (r : Request) (log : Option Log) (resp : Incoming)
      → services.network.makes_request "GET" (b.upstream.base_url ^^ r.path) ≡ true
      → upstream_list b r ≡ some resp
      → resp.status_code ≡ 200
      → (let module_path = extract_module_path r.path "/@v/list" in
          let all = read_versions resp.body in
          (listed : List String) × (h : Header) × ((handle_version_list services decode_info b r
              log).0
            ≡ respond 200 h (write_versions listed))
          × ((v : String)
              → Elem v listed ↔ (
                  Elem v all
                  × (is_rewritten_away services decode_info b.rewriter module_path all v ≡ false)
                  × Permits services b (package_version module_path v 0))))
  unfolding handle_version_list
  handle_version_list_permitted b r log resp made sent ok =
      let module_path = extract_module_path r.path "/@v/list" in
      let all = read_versions resp.body in
      let rewritten = rewritten_away services decode_info b.rewriter module_path all in
      let is_200 : eqb resp.status_code 200 ≡ true = rw ok refl in
      let keeps : String → Bool = λ v. not (mem v rewritten) && permitted b module_path v in
      (
        filter keeps all,
        ("Content-Type", "text/plain; charset=utf-8") ∷ [],
        rw (made, sent, is_200)
            (ap
              (λ vs.
                respond 200 (("Content-Type", "text/plain; charset=utf-8") ∷ [])
                  (write_versions vs))
              (allowed_versions-filter b module_path rewritten all log)),
        λ v. (
          (λ m.
              let (there, kept) = Elem-filter keeps v all m in
              let (stays, permit) = and_true kept in
              (
                there,
                sym (rewritten_away_iff b.rewriter module_path all v there) ∙ stays,
                (evaluate_version_iff services b none (package_version module_path v 0)).0 permit,
              )),
          λ (there, stays, permit). Elem-filter_of keeps v all there (
              true_and (rewritten_away_iff b.rewriter module_path all v there ∙ stays) (
                (evaluate_version_iff services b none (package_version module_path v 0)).1 permit)),
        ),
      )
    where
      and_true : {x y : Bool} → (not x && y) ≡ true → (x ≡ false) × (y ≡ true)
      and_true {x} {y} h = ground arith

      true_and : {x y : Bool} → x ≡ false → y ≡ true → (not x && y) ≡ true
      true_and e f = rw (e, f) refl
