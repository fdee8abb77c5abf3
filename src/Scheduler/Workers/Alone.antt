-- ===== src/Scheduler/Workers/Alone.antt =====
-- A worker alone is a run of the system (queues/processors/job.processor.ts, scheduler.service.ts).
use scheduling_service.Base.{ℕ, zero, suc, ◌≡◌, String, List, [], ◌∷◌, ◌++◌}
use scheduling_service.Scheduler.Model.{Execution}
use scheduling_service.Scheduler.Outside.{Outside}
use scheduling_service.Scheduler.Workers.{Work, advance, drops}

module _ (o : Outside) where
  -- At most `n` calls, of the first work and of what it leaves: the work left, the world and the dropped.
  abbrev run_works : ℕ → List Work → o.World → List String → List Work × o.World × List String
  run_works zero ts w dropped = (ts, w, dropped)
  run_works (suc n) [] w dropped = ([], w, dropped)
  run_works (suc n) (t ∷ ts) w dropped =
      run_works n ((advance o t w).0 ++ ts) (advance o t w).1 (drops o t w ++ dropped)

  abbrev Ends : Work → o.World → ℕ → o.World → Type 0
  Ends t w n w' = (dropped : List String) × (run_works n (t ∷ []) w [] ≡ ([], w', dropped))
