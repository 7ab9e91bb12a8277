-- ===== src/Vulndb/Sync/Downloads.antt =====
-- The retries of `downloadFile` in internal/vulndb/sync/syncer.go.
use dependency_guardian.Prelude.{
  ℕ, zero, suc, ◌+◌, ◌≤◌, String, ◌≡◌, refl, ap, ◌∙◌, ◌↔◌, some, arith,
}
use dependency_guardian.Vulndb.Sync.{
  Web, Attempt, answered, given_up, to_retry, follow, attempt, download_rounds, download_file,
}

module _ (web : Web) (url : String) where
  -- The rounds from the attempt of a number up to that of another are all to be retried.
  pub data Retries : ℕ → web.World → ℕ → web.World → Type 0 where
    here : {k : ℕ} {w : web.World} → Retries k w k w
    retry :
        {k j : ℕ} {w w1 w2 : web.World}
        → attempt web url k w ≡ (to_retry, w1)
        → Retries (suc k) w1 j w2
        → Retries k w j w2

  -- One of the attempts of numbers k, ..., k + rounds - 1 answers, after retries only.
  abbrev pub Answers : (rounds k : ℕ) → web.World → String → web.World → Type 0
  Answers rounds k w body w' =
      (j : ℕ) × (wj : web.World) × (suc j ≤ k + rounds)
      × Retries k w j wj
      × (attempt web url j wj ≡ (answered body, w'))

  Retries-le : {k j : ℕ} {w w' : web.World} → Retries k w j w' → k ≤ j
  Retries-le here = omega arith
  Retries-le (retry e r) = omega (arith, Retries-le r)

  Answers-later :
      (rounds : ℕ) {k : ℕ} {w w1 w' : web.World} {body : String}
      → attempt web url k w ≡ (to_retry, w1)
      → Answers rounds (suc k) w1 body w'
      → Answers (suc rounds) k w body w'
  Answers-later rounds e (j, wj, le, r, found) = (j, wj, omega arith, retry e r, found)

  Answers-of :
      (rounds k : ℕ) (w : web.World) (body : String) (w' : web.World)
      → download_rounds web url rounds k w ≡ (some body, w')
      → Answers rounds k w body w'
  unfolding download_rounds
  Answers-of zero k w body w' h = absurd (cc)
  Answers-of (suc rounds) k w body w' h =
      after (attempt web url k w) refl h (λ w1. Answers-of rounds (suc k) w1 body w')
    where
      after :
          (step : Attempt × web.World)
          → attempt web url k w ≡ step
          → follow web step (λ w1. download_rounds web url rounds (suc k) w1) ≡ (some body, w')
          → ((w1 : web.World)
              → download_rounds web url rounds (suc k) w1 ≡ (some body, w')
              → Answers rounds (suc k) w1 body w')
          → Answers (suc rounds) k w body w'
      after (answered b, w1) e h ih = (k, w, omega arith, here, cc)
      after (given_up, w1) e h ih = absurd (cc)
      after (to_retry, w1) e h ih = Answers-later rounds e (ih w1 h)

  Answers-to :
      (rounds k j : ℕ) {w wj : web.World} {body : String} {w' : web.World}
      → suc j ≤ k + rounds
      → Retries k w j wj
      → attempt web url j wj ≡ (answered body, w')
      → download_rounds web url rounds k w ≡ (some body, w')
  unfolding download_rounds
  Answers-to zero k j le r e = absurd (omega (arith, Retries-le r))
  Answers-to (suc rounds) k j le here e =
      ap (λ s. follow web s (download_rounds web url rounds (suc k))) e
  Answers-to (suc rounds) k j le (retry e1 r) e =
      ap (λ s. follow web s (download_rounds web url rounds (suc k))) e1
      ∙ Answers-to rounds (suc k) j (omega arith) r e

  -- A download ends with a body exactly if one of the attempts 0, 1, 2, 3 answers it and all attempts
  -- before that one were to be retried: the body and the state of the network are those of that attempt.
  pub download_file-Answers :
      (w : web.World) (body : String) (w' : web.World)
      → (download_file web url w ≡ (some body, w')) ↔ Answers 4 0 w body w'
  unfolding download_file
  download_file-Answers w body w' =
      (Answers-of 4 0 w body w', λ (j, wj, le, r, e). Answers-to 4 0 j le r e)
