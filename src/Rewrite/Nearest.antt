-- ===== src/Rewrite/Nearest.antt =====
-- findClosestVersion returns a nearest version: same major and minor number first, then same major
-- number, then any; within each group one at the least distance.
use dependency_guardian.Prelude.{String, ◌≡◌, true, some, List, Elem}
use dependency_guardian.Prelude.Int.{pos, ◌≤ℤ◌}
use dependency_guardian.Vercmp.{VersionLibs, ParsedVersion}
use dependency_guardian.Rewrite.{Search, shares_minor, shares_major}
use dependency_guardian.Rewrite.Tracking.{parse, dist, NoneIn, IsNearest, Tracks}

module _ (libs : VersionLibs) (target : String) (pt : ParsedVersion) (ecosystem : String) where
  record AllTrack (seen : List String) (s : Search) : Type 0 where
    minor : Tracks libs target pt ecosystem (λ pa. shares_minor pa pt) seen s.same_minor
    major : Tracks libs target pt ecosystem (λ pa. shares_major pa pt) seen s.same_major
    any : Tracks libs target pt ecosystem (λ pa. true) seen s.any

  -- No distance of an available version overflows to a negative number.
  abbrev pub NoOverflow : List String → Type 0
  NoOverflow avs =
      (v : String) (pa : ParsedVersion)
      → Elem v avs
      → parse libs target pt ecosystem v ≡ some pa
      → pos 0 ≤ℤ dist libs target pt ecosystem v pa

  -- The result `r` of the search: a nearest version of the best group that is not empty.
  pub data IsClosest (avs : List String) (r : String) : Type 0 where
    same_minor :
        (parsed : ParsedVersion)
        → IsNearest libs target pt ecosystem (λ pa. shares_minor pa pt) avs r parsed
        → IsClosest avs r
    same_major :
        (parsed : ParsedVersion)
        → NoneIn libs target pt ecosystem (λ pa. shares_minor pa pt) avs
        → IsNearest libs target pt ecosystem (λ pa. shares_major pa pt) avs r parsed
        → IsClosest avs r
    any :
        (parsed : ParsedVersion)
        → NoneIn libs target pt ecosystem (λ pa. shares_major pa pt) avs
        → IsNearest libs target pt ecosystem (λ pa. true) avs r parsed
        → IsClosest avs r
    nothing : r ≡ "" → NoneIn libs target pt ecosystem (λ pa. true) avs → IsClosest avs r
