-- ===== src/Vulndb/Store/Batches.antt =====
-- The batches of internal/vulndb/dal/store.go and internal/vulndb/sync/syncer.go.
use dependency_guardian.Prelude.{
  ℕ, zero, suc, ◌≤◌, ◌<◌, ◌≡◌, refl, ap, ◌∙◌, List, [], ◌∷◌, ◌++◌, length, take, drop, All, arith,
  length-drop,
}
use dependency_guardian.Vulndb.Store.{batches}

module _ {A : Type 0} where
  abbrev joined : List (List A) → List A
  joined [] = []
  joined (xs ∷ xss) = xs ++ joined xss

  take-append-drop : (n : ℕ) (xs : List A) → take n xs ++ drop n xs ≡ xs
  take-append-drop zero xs = refl
  take-append-drop (suc n) [] = refl
  take-append-drop (suc n) (x ∷ xs) = ap (λ rest. x ∷ rest) (take-append-drop n xs)

  length-take-le : (n : ℕ) (xs : List A) → length (take n xs) ≤ n
  length-take-le zero xs = omega arith
  length-take-le (suc n) [] = omega arith
  length-take-le (suc n) (x ∷ xs) = omega (arith, length-take-le n xs)

  -- With a size that is positive, and as many rounds as there are elements, the batches are the
  -- elements in order, and none is longer than the size.
  joined-batches :
      (rounds size : ℕ) (xs : List A)
      → 0 < size
      → length xs ≤ rounds
      → (joined (batches rounds size xs) ≡ xs)
        × All (λ batch. length batch ≤ size) (batches rounds size xs)
  unfolding batches
  joined-batches zero size [] h enough = (refl, tt)
  joined-batches zero size (x ∷ xs) h enough = absurd (omega arith)
  joined-batches (suc rounds) size [] h enough = (refl, tt)
  joined-batches (suc rounds) size (x ∷ xs) h enough =
      let (whole, bounded) =
        joined-batches rounds size (drop size (x ∷ xs)) h
          (omega (arith, length-drop size (x ∷ xs))) in
      (
        ap (λ rest. take size (x ∷ xs) ++ rest) whole ∙ take-append-drop size (x ∷ xs),
        (length-take-le size (x ∷ xs), bounded),
      )
