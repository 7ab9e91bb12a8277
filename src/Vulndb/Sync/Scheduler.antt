-- ===== src/Vulndb/Sync/Scheduler.antt =====
-- internal/vulndb/sync/scheduler.go: the loops of the scheduler, and their steps. A loop, its ticker
-- and the context run concurrently: a run is a sequence of their steps.
use dependency_guardian.Prelude.{
  ℕ, suc, ◌≡◌, refl, ◌∙◌, Bool, true, false, List, [], ◌∷◌, ◌++◌, if◌then◌else◌,
}
use dependency_guardian.Prelude.Int.{ℤ, pos, ltb_ℤ}
use dependency_guardian.Config.{SyncConfig}

-- What a loop runs.
pub data Job : Type 0 where
  delta_sync_job : Job
  full_sync_job : Job
  metrics_job : Job

abbrev loop_if : Job → ℤ → List (Job × ℤ)
loop_if job interval = if ltb_ℤ (pos 0) interval then (job, interval) ∷ [] else []

-- Scheduler.Start: the loops that are started, each with its interval.
unfoldable pub started_loops : SyncConfig → List (Job × ℤ)
started_loops cfg =
    loop_if delta_sync_job cfg.delta_sync_interval
    ++ loop_if full_sync_job cfg.full_sync_interval
    ++ loop_if metrics_job cfg.metrics_interval

-- A loop: how often it has run its job, whether the context is cancelled, and whether it has returned.
pub record Loop : Type 0 where
  pub runs : ℕ
  pub cancelled : Bool
  pub returned : Bool

abbrev pub new_loop : Loop
new_loop = record { runs = 0; cancelled = false; returned = false }

-- The branches of its select, of which a cancelled context excludes neither, and Stop from outside.
pub data LoopStep : Loop → Loop → Type 0 where
  tick : (l : Loop) → l.returned ≡ false → LoopStep l (record l { runs = suc l.runs })
  done :
      (l : Loop)
      → l.returned ≡ false
      → l.cancelled ≡ true
      → LoopStep l (record l { returned = true })
  stop : (l : Loop) → LoopStep l (record l { cancelled = true })

pub data LoopRun (from : Loop) : Loop → Type 0 where
  here : LoopRun from from
  next : {l m : Loop} → LoopRun from l → LoopStep l m → LoopRun from m

LoopStep-returned :
    {l m : Loop} → LoopStep l m → l.returned ≡ true → (m.returned ≡ true) × (m.runs ≡ l.runs)
LoopStep-returned (tick l running) h = absurd (cc)
LoopStep-returned (done l running stopped) h = absurd (cc)
LoopStep-returned (stop l) h = (h, refl)

-- A loop that has returned runs its job no more.
LoopRun-returned :
    {l m : Loop} → LoopRun l m → l.returned ≡ true → (m.returned ≡ true) × (m.runs ≡ l.runs)
LoopRun-returned here h = (h, refl)
LoopRun-returned (next run step) h =
    let (still, same) = LoopRun-returned run h in
    let (still', same') = LoopStep-returned step still in (still', same' ∙ same)
