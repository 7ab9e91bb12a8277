-- ===== src/Vulndb/Sync/Pool.antt =====
-- internal/vulndb/sync/syncer.go: SeedAll, which runs SeedEcosystem for all target ecosystems on a pool
-- of workers. The loop that starts them, the workers and the context run concurrently: a run is a
-- sequence of their steps.
use dependency_guardian.Prelude.{
  ℕ, ◌+◌, ◌≤◌, ◌<◌, String, ◌≡◌, refl, ap, ◌⊎◌, inl, inr, Bool-cases, Bool, true, false, List, [],
  ◌∷◌, ◌++◌, length, length-append, count_by, count_by-append, arith, if◌then◌else◌, ◌==◌,
}
use dependency_guardian.Prelude.Int.{ℤ, pos, ltb_ℤ, pos_part}

-- The ecosystems that are not started yet, those that a worker has, those that are done, and those of
-- them that failed; and whether the context is cancelled.
pub record Pool : Type 0 where
  pub waiting : List String
  pub running : List String
  pub finished : List String
  pub failed : List String
  pub cancelled : Bool

-- if workers < 1 { workers = 1 }
abbrev pub slots : ℤ → ℕ
slots workers = if ltb_ℤ workers (pos 1) then 1 else pos_part workers

abbrev pub initial_pool : List String → Pool
initial_pool ecosystems = record {
  waiting = ecosystems;
  running = [];
  finished = [];
  failed = [];
  cancelled = false;
}

-- One step: the loop starts a worker when a slot is free and the context is not cancelled, or ends
-- when it is; a worker ends with or without an error; the context is cancelled from outside.
pub data Step (workers : ℤ) : Pool → Pool → Type 0 where
  start :
      (eco : String) (ecos : List String) (p : Pool)
      → p.waiting ≡ eco ∷ ecos
      → p.cancelled ≡ false
      → length p.running < slots workers
      → Step workers p (record p { waiting = ecos; running = eco ∷ p.running })
  leave : (p : Pool) → p.cancelled ≡ true → Step workers p (record p { waiting = [] })
  succeed :
      (eco : String) (before after : List String) (p : Pool)
      → p.running ≡ before ++ eco ∷ after
      → Step workers p (record p { running = before ++ after; finished = eco ∷ p.finished })
  fail :
      (eco : String) (before after : List String) (p : Pool)
      → p.running ≡ before ++ eco ∷ after
      → Step workers p (record p {
        running = before ++ after;
        finished = eco ∷ p.finished;
        failed = eco ∷ p.failed;
      })
  cancel : (p : Pool) → Step workers p (record p { cancelled = true })

pub data Run (workers : ℤ) (from : Pool) : Pool → Type 0 where
  here : Run workers from from
  next : {p q : Pool} → Run workers from p → Step workers p q → Run workers from q

-- wg.Wait() has returned.
abbrev pub IsDone : Pool → Type 0
IsDone p = (p.waiting ≡ []) × (p.running ≡ [])

-- SeedAll returns an error when some ecosystem failed.
abbrev pub is_error : Pool → Bool
is_error p = elim p.failed [ [] ↦ false | eco ∷ ecos ↦ true ]

abbrev pub times : String → List String → ℕ
times eco ecos = count_by (λ e. e == eco) ecos

-- At most as many ecosystems are worked on as there are slots, none is worked on more often than it
-- is a target, and while the context is not cancelled none is lost.
pub record IsSound (workers : ℤ) (targets : List String) (p : Pool) : Type 0 where
  pub bounded : length p.running ≤ slots workers
  pub at_most :
      (eco : String)
      → times eco p.waiting + (times eco p.running + times eco p.finished) ≤ times eco targets
  pub exact :
      p.cancelled ≡ false
      → (eco : String)
      → times eco p.waiting + (times eco p.running + times eco p.finished) ≡ times eco targets
  pub fewer : (eco : String) → times eco p.failed ≤ times eco p.finished

times-split :
    (eco one : String) (before after ecos : List String)
    → times eco (before ++ after) + times eco (one ∷ ecos)
      ≡ times eco (before ++ one ∷ after) + times eco ecos
times-split eco one before after ecos = omega (
  arith,
  count_by-append (λ e. e == eco) before after,
  count_by-append (λ e. e == eco) before (one ∷ after),
)

-- A worker's end, with the ecosystems that have failed behind it.
ended-IsSound :
    {workers : ℤ} {targets : List String} (eco : String) (before after : List String) (p : Pool)
    (failures : List String)
    → p.running ≡ before ++ eco ∷ after
    → IsSound workers targets p
    → ((x : String) → times x failures ≤ times x (eco ∷ p.finished))
    → IsSound workers targets
        (record p { running = before ++ after; finished = eco ∷ p.finished; failed = failures })
ended-IsSound eco before after p failures e s h = record {
  bounded = omega (
    arith,
    s.bounded,
    ap (λ (l : List String). length l) e,
    length-append before after,
    length-append before (eco ∷ after),
  );
  at_most =
      λ x. omega (arith, s.at_most x, ap (times x) e, times-split x eco before after p.finished);
  exact = λ live x.
      omega (arith, s.exact live x, ap (times x) e, times-split x eco before after p.finished);
  fewer = h;
}

Step-IsSound :
    {workers : ℤ} {targets : List String} {p q : Pool}
    → Step workers p q
    → IsSound workers targets p
    → IsSound workers targets q
Step-IsSound (start eco ecos p e c free) s = record {
  bounded = omega (arith, free);
  at_most = λ x. omega (arith, s.at_most x, ap (times x) e);
  exact = λ live x. omega (arith, s.exact live x, ap (times x) e);
  fewer = s.fewer;
}
Step-IsSound (leave p c) s = record {
  bounded = s.bounded;
  at_most = λ x. omega (arith, s.at_most x);
  exact = λ live x. absurd (cc);
  fewer = s.fewer;
}
Step-IsSound (succeed eco before after p e) s =
    ended-IsSound eco before after p p.failed e s (λ x. omega (arith, s.fewer x))
Step-IsSound (fail eco before after p e) s =
    ended-IsSound eco before after p (eco ∷ p.failed) e s (λ x. omega (arith, s.fewer x))
Step-IsSound (cancel p) s = record {
  bounded = s.bounded;
  at_most = s.at_most;
  exact = λ live x. absurd (cc);
  fewer = s.fewer;
}

initial_pool-IsSound :
    (workers : ℤ) (targets : List String) → IsSound workers targets (initial_pool targets)
initial_pool-IsSound workers targets = record {
  bounded = omega arith;
  at_most = λ x. omega arith;
  exact = λ live x. omega arith;
  fewer = λ x. omega arith;
}

Run-IsSound :
    {workers : ℤ} {targets : List String} {p : Pool}
    → Run workers (initial_pool targets) p
    → IsSound workers targets p
Run-IsSound here = initial_pool-IsSound _ _
Run-IsSound (next run step) = Step-IsSound step (Run-IsSound run)

-- The steps that are left, at most, while the context stays as it is.
abbrev pub work : Pool → ℕ
work p = length p.waiting + (length p.waiting + length p.running)

slots-positive : (workers : ℤ) → 0 < slots workers
slots-positive workers = ground arith

-- A pool that is not done can take a step that leaves less work.
progress :
    (workers : ℤ) (p : Pool) (waiting running : List String) (cancelled : Bool)
    → p.waiting ≡ waiting
    → p.running ≡ running
    → p.cancelled ≡ cancelled
    → IsDone p ⊎ ((q : Pool) × Step workers p q × (work q < work p))
progress workers p [] [] c ew er ec = inl (ew, er)
progress workers p waiting (eco ∷ ecos) c ew er ec =
    inr (_, succeed eco [] ecos p er, omega (arith, ap (λ (l : List String). length l) er))
progress workers p (eco ∷ ecos) [] true ew er ec =
    inr (_, leave p ec, omega (arith, ap (λ (l : List String). length l) ew))
progress workers p (eco ∷ ecos) [] false ew er ec = inr (
  _,
  start eco ecos p ew ec
      (omega (arith, slots-positive workers, ap (λ (l : List String). length l) er)),
  omega (arith, ap (λ (l : List String). length l) ew),
)

-- Of the pool of workers, with the ecosystems it is started for, whatever the order of its steps:
-- at most as many ecosystems are worked on as there are workers, or one if that number is below one;
-- each is taken at most as often as it is a target; unless the context was cancelled, each waits, is
-- worked on or has been worked on exactly as often as it is a target, so that none is left out when
-- the pool is done; and a pool that is not done can take a step that leaves less work, without a
-- cancellation, so that it is never stuck.
pub Run-IsSound_progress :
    (workers : ℤ) (targets : List String) (p : Pool)
    → Run workers (initial_pool targets) p
    → (length p.running ≤ slots workers)
      × ((eco : String) → times eco p.running + times eco p.finished ≤ times eco targets)
      × ((p.cancelled ≡ true)
          ⊎ ((eco : String)
              → times eco p.waiting + (times eco p.running + times eco p.finished)
                ≡ times eco targets))
      × (IsDone p ⊎ ((q : Pool) × Step workers p q × (work q < work p)))
Run-IsSound_progress workers targets p run =
    let s = Run-IsSound run in
    (
      s.bounded,
      (λ eco. omega (arith, s.at_most eco)),
      elim (Bool-cases p.cancelled) [
        | inl yes_cancelled ↦ inl yes_cancelled
        | inr live ↦ inr (s.exact live)
      ],
      progress workers p p.waiting p.running p.cancelled refl refl refl,
    )
