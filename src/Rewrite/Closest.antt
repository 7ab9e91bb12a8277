-- ===== src/Rewrite/Closest.antt =====
-- findClosestVersion picks one of the available versions.
use dependency_guardian.Prelude.{
  String, ◌≡◌, refl, ◌⊎◌, inl, inr, Bool, true, Option, none, some, List, [], ◌∷◌, arith, Elem,
  eq_iff,
}
use dependency_guardian.Prelude.Int.{ℤ}
use dependency_guardian.Vercmp.{VersionLibs, ParsedVersion, parse_version, compare_versions}
use dependency_guardian.Rewrite.{
  Best, improve, Search, search_closest, find_closest_version, consider, distance, shares_minor,
  shares_major, preferred, closest_to, no_best,
}

-- The version kept so far is none, or one of the available ones.
abbrev Listed : List String → Best → Type 0
Listed all b = (b.version ≡ "") ⊎ Elem b.version all

improve-Listed :
    (all : List String) (applies : Bool) (av : String) (dist : ℤ) (b : Best)
    → Elem av all
    → Listed all b
    → Listed all (improve applies av dist b)
unfolding improve
improve-Listed all applies av dist b m h = ground arith

record AllListed (all : List String) (s : Search) : Type 0 where
  minor : Listed all s.same_minor
  major : Listed all s.same_major
  any : Listed all s.any

module _ (libs : VersionLibs) (target : String) (pt : ParsedVersion) (ecosystem : String)
    (all : List String) where
  consider-AllListed :
      (o : Option ParsedVersion) (av : String) (s : Search)
      → Elem av all
      → AllListed all s
      → AllListed all (consider libs o av target pt ecosystem s)
  consider-AllListed none av s m h = h
  consider-AllListed (some pa) av s m h =
      let dist = distance pa pt (compare_versions libs av target ecosystem) in
      record {
        minor = improve-Listed all (shares_minor pa pt) av dist s.same_minor m h.minor;
        major = improve-Listed all (shares_major pa pt) av dist s.same_major m h.major;
        any = improve-Listed all true av dist s.any m h.any;
      }

  search_closest-AllListed :
      (avs : List String) (s : Search)
      → ((v : String) → Elem v avs → Elem v all)
      → AllListed all s
      → AllListed all (search_closest libs target pt ecosystem avs s)
  unfolding search_closest
  search_closest-AllListed [] s sub h = h
  search_closest-AllListed (av ∷ avs) s sub h =
      search_closest-AllListed avs
        (consider libs (parse_version libs av ecosystem) av target pt ecosystem s)
        (λ v m. sub v (inr m))
        (consider-AllListed (parse_version libs av ecosystem) av s (sub av (inl refl)) h)

preferred-Listed :
    (libs : VersionLibs) (all : List String) (s : Search)
    → AllListed all s
    → (preferred libs s ≡ "") ⊎ Elem (preferred libs s) all
preferred-Listed libs all s h =
    ground (
      arith,
      eq_iff s.same_minor.version "",
      eq_iff s.same_major.version "",
      h.minor,
      h.major,
      h.any,
    )

closest_to-Listed :
    (libs : VersionLibs) (o : Option ParsedVersion) (target ecosystem : String)
    (available : List String)
    → (closest_to libs o target available ecosystem ≡ "")
      ⊎ Elem (closest_to libs o target available ecosystem) available
closest_to-Listed libs none target ecosystem available = inl refl
closest_to-Listed libs (some pt) target ecosystem available = preferred-Listed libs available _ (
    search_closest-AllListed libs target pt ecosystem available available
      (record { same_minor = no_best; same_major = no_best; any = no_best }) (λ v m. m)
      (record { minor = inl refl; major = inl refl; any = inl refl }))

-- The closest version is one of the available versions, or the empty text if there is none.
pub find_closest_version-Elem :
    (libs : VersionLibs) (target ecosystem : String) (available : List String)
    → (find_closest_version libs target available ecosystem ≡ "")
      ⊎ Elem (find_closest_version libs target available ecosystem) available
find_closest_version-Elem libs target ecosystem available =
    unfold find_closest_version in
    closest_to-Listed libs (parse_version libs target ecosystem) target ecosystem available
