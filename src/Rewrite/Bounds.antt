-- ===== src/Rewrite/Bounds.antt =====
-- The strategies "min" and "max" keep a version on the right side of their target.
use dependency_guardian.Prelude.{String, ◌≡◌, refl, ◌⊎◌, inl, inr, false, Bool-cases}
use dependency_guardian.Prelude.Int.{ℤ, pos, ltb_ℤ}
use dependency_guardian.Vercmp.{VersionLibs, compare_versions}
use dependency_guardian.Vercmp.Compare.{IsReflexive, compare_versions_refl}
use dependency_guardian.Rewrite.{VersionRewrite, apply_min, apply_max, apply_version_strategy}

module _ (libs : VersionLibs) (r : IsReflexive libs) (version target ecosystem : String) where
  abbrev cmp : String → ℤ
  cmp v = compare_versions libs v target ecosystem

  min_bound :
      (ltb_ℤ (cmp (apply_min libs version target ecosystem)) (pos 0) ≡ false)
      × ((apply_min libs version target ecosystem ≡ version)
          ⊎ (apply_min libs version target ecosystem ≡ target))
  unfolding apply_min
  min_bound = elim (Bool-cases (ltb_ℤ (cmp version) (pos 0))) [
    | inl below ↦ rw below (rw (compare_versions_refl libs r target ecosystem) refl, inr refl)
    | inr above ↦ rw above (above, inl refl)
  ]

  max_bound :
      (ltb_ℤ (pos 0) (cmp (apply_max libs version target ecosystem)) ≡ false)
      × ((apply_max libs version target ecosystem ≡ version)
          ⊎ (apply_max libs version target ecosystem ≡ target))
  unfolding apply_max
  max_bound = elim (Bool-cases (ltb_ℤ (pos 0) (cmp version))) [
    | inl above ↦ rw above (rw (compare_versions_refl libs r target ecosystem) refl, inr refl)
    | inr below ↦ rw below (below, inl refl)
  ]

abbrev pub strategy : String → String → VersionRewrite
strategy name target = record { strategy = name; target = target }

-- If the version libraries find a version equal to itself, the strategy "min" gives a version that
-- is not below the target, the strategy "max" one that is not above it, and both give either the
-- version asked for or the target.
pub strategy_bounds :
    (libs : VersionLibs)
    → IsReflexive libs
    → (version target ecosystem : String)
    → (let low = apply_version_strategy libs version (strategy "min" target) ecosystem in
        (ltb_ℤ (compare_versions libs low target ecosystem) (pos 0) ≡ false)
        × ((low ≡ version) ⊎ (low ≡ target)))
      × (let high = apply_version_strategy libs version (strategy "max" target) ecosystem in
          (ltb_ℤ (pos 0) (compare_versions libs high target ecosystem) ≡ false)
          × ((high ≡ version) ⊎ (high ≡ target)))
strategy_bounds libs r version target ecosystem = (
  rw is_min (min_bound libs r version target ecosystem),
  rw is_max (max_bound libs r version target ecosystem),
)
  where
    is_min :
        apply_version_strategy libs version (strategy "min" target) ecosystem
        ≡ apply_min libs version target ecosystem
    is_min = unfold apply_version_strategy in refl

    is_max :
        apply_version_strategy libs version (strategy "max" target) ecosystem
        ≡ apply_max libs version target ecosystem
    is_max = unfold apply_version_strategy in refl
