-- ===== src/Vulndb/Sync/Order.antt =====
-- The order of texts by which internal/vulndb/sync/syncer.go compares dates.
use dependency_guardian.Prelude.{String, ◌≡◌, refl, true, false, less, arith}
use Prim.Native.String.{[], ◌∷◌}

pub less_trans : (s t u : String) → less s t ≡ true → less t u ≡ true → less s u ≡ true
unfolding less
less_trans s t [] h k = absurd (cc)
less_trans s [] (e ∷ u) h k = absurd (cc)
less_trans [] (d ∷ t) (e ∷ u) h k = refl
less_trans (c ∷ s) (d ∷ t) (e ∷ u) h k = ground (arith, less_trans s t u)

pub less_irrefl : (s : String) → less s s ≡ false
unfolding less
less_irrefl [] = refl
less_irrefl (c ∷ s) = ground (arith, less_irrefl s)
