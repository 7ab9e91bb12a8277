-- ===== src/Proxy/Detection.antt =====
-- detectEcosystemFromRequest and handleAutoDetect of internal/proxy/server.go.
use dependency_guardian.Prelude.{
  String, ◌≡◌, refl, ◌⊎◌, inl, inr, Bool, true, false, ◌||◌, Option, none, some, List, [], ◌∷◌,
  if◌then◌else◌, ◌==◌, arith, Elem, Bool-cases, contains, has_suffix, to_lower,
}
use dependency_guardian.Http.{Request, get}
use dependency_guardian.Proxy.{
  detect_ecosystem_from_request, detect_ecosystem_from_artifactory_path, is_go_agent, is_npm_agent,
  is_pypi_agent, is_maven_agent, Handlers, handle_auto_detect, artifactory_type, or_by_path,
}

-- The ecosystems with a handler.
abbrev pub ecosystems : List String
ecosystems = "npm" ∷ "pypi" ∷ "go" ∷ "maven" ∷ []

abbrev pub IsKnown : String → Type 0
IsKnown eco = (eco ≡ "") ⊎ Elem eco ecosystems

choose : (b : Bool) (x y : String) → IsKnown x → IsKnown y → IsKnown (if b then x else y)
choose true x y hx hy = hx
choose false x y hx hy = hy

by_artifactory_path-IsKnown :
    (path : String) → IsKnown (detect_ecosystem_from_artifactory_path path)
unfolding detect_ecosystem_from_artifactory_path
by_artifactory_path-IsKnown path =
    choose (contains path "/@v/" || contains path "/@latest") "go" _ (inr (inr (inr (inl refl)))) (
      choose (contains path "/simple/" || has_suffix path "/json") "pypi" _ (inr (inr (inl refl))) (
        choose (contains path "/-/") "npm" _ (inr (inl refl)) (
          choose
            (has_suffix path "/maven-metadata.xml"
              || has_suffix path ".jar"
              || has_suffix path ".pom")
            "maven" "npm" (inr (inr (inr (inr (inl refl))))) (inr (inl refl)))))

abbrev IsType : Option String → Type 0
IsType none = Unit
IsType (some eco) = IsKnown eco

choose-IsType : (b : Bool) (x y : Option String) → IsType x → IsType y → IsType (if b then x else y)
choose-IsType true x y hx hy = hx
choose-IsType false x y hx hy = hy

artifactory_type-IsType : (t : String) → IsType (artifactory_type t)
artifactory_type-IsType t = choose-IsType (t == "") none _ tt (
    choose-IsType (to_lower t == "npm") (some "npm") _ (inr (inl refl)) (
      choose-IsType (to_lower t == "pypi") (some "pypi") _ (inr (inr (inl refl))) (
        choose-IsType ((to_lower t == "go") || (to_lower t == "gomod")) (some "go") _
          (inr (inr (inr (inl refl))))
          (choose-IsType
            ((to_lower t == "maven") || (to_lower t == "maven2") || (to_lower t == "gradle"))
            (some "maven") none (inr (inr (inr (inr (inl refl))))) tt))))

or_by_path-IsKnown :
    (o : Option String) (ua path : String) → IsType o → IsKnown (or_by_path o ua path)
or_by_path-IsKnown (some eco) ua path h = h
or_by_path-IsKnown none ua path h =
    choose (contains ua "artifactory") _ "" (by_artifactory_path-IsKnown path) (inl refl)

-- The ecosystem that is detected for a request is one that has a handler, or the empty text.
pub detect_ecosystem_from_request-IsKnown :
    (r : Request) → IsKnown (detect_ecosystem_from_request r)
unfolding detect_ecosystem_from_request
detect_ecosystem_from_request-IsKnown r =
    let ua = to_lower (get "User-Agent" r.header) in
    let accept = to_lower (get "Accept" r.header) in
    choose (get "go-get" r.query == "1") "go" _ (inr (inr (inr (inl refl)))) (
      choose (is_go_agent ua) "go" _ (inr (inr (inr (inl refl)))) (
        choose (is_npm_agent ua accept) "npm" _ (inr (inl refl)) (
          choose (is_pypi_agent ua accept) "pypi" _ (inr (inr (inl refl))) (
            choose (is_maven_agent ua) "maven" _ (inr (inr (inr (inr (inl refl))))) (
              or_by_path-IsKnown (artifactory_type (get "X-Artifactory-Repo-Type" r.header)) ua
                r.path (artifactory_type-IsType (get "X-Artifactory-Repo-Type" r.header)))))))

or_left : (x y : Bool) → x ≡ true → (x || y) ≡ true
or_left x y h = rw h refl

or_right : (x y : Bool) → y ≡ true → (x || y) ≡ true
or_right x y h = ground arith

go_detected :
    (r : Request)
    → is_go_agent (to_lower (get "User-Agent" r.header)) ≡ true
    → detect_ecosystem_from_request r ≡ "go"
unfolding detect_ecosystem_from_request
go_detected r h = elim (Bool-cases (get "go-get" r.query == "1")) [
  | inl q ↦ rw q refl
  | inr q ↦ rw (q, h) refl
]

-- A request whose User-Agent contains "go/" anywhere, in upper or lower case, is handled by the Go
-- handler, whatever else it says: also a client of another name that ends in "go", such as cargo.
pub handle_auto_detect-go_contained :
    {S : Type 0} (hs : Handlers S) (r : Request) (s : S)
    → contains (to_lower (get "User-Agent" r.header)) "go/" ≡ true
    → handle_auto_detect hs r s ≡ hs.go_handler r s
unfolding handle_auto_detect
handle_auto_detect-go_contained hs r s h = rw (go_detected r (agent h)) refl
  where
    agent :
        contains (to_lower (get "User-Agent" r.header)) "go/" ≡ true
        → is_go_agent (to_lower (get "User-Agent" r.header)) ≡ true
    agent h = or_right _ _ (or_left _ _ (or_right _ _ h))
