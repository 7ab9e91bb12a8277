-- ===== src/Config/Examples.antt =====
-- Tests of the configuration's defaults and of the addresses that it accepts.
use dependency_guardian.Prelude.{
  ◌≡◌, refl, true, false, [], map, ◌∷◌, contains, has_prefix, cut_char, cut_last, skip,
}
use dependency_guardian.Config.{default_config, validate, splits_host_port}

default_config_valid : validate default_config ≡ []
unfolding validate splits_host_port has_prefix contains cut_last
default_config_valid = refl

addresses :
    map splits_host_port (":8080" ∷ "[::1]:80" ∷ "::1" ∷ "host" ∷ "[::1]" ∷ [])
    ≡ true ∷ true ∷ false ∷ false ∷ false ∷ []
unfolding splits_host_port has_prefix contains cut_char cut_last skip
addresses = refl
