-- ===== src/Scheduler/Outcomes.antt =====
-- What an execution ends as.
use scheduling_service.Base.{ℕ, ◌≡◌, ◌⊎◌, inl, inr, some, arith, ◌*◌}
use scheduling_service.Base.Action.{ok, Thrown, Result-cases}
use scheduling_service.Scheduler.Model.{Job, Execution, completed, failed, JobResult}
use scheduling_service.Scheduler.Outside.{Outside}
use scheduling_service.Scheduler.Execution.{
  run_execution, execute_with_timeout, complete_execution, fail_execution, mark_completed,
  mark_failed,
}

module _ (o : Outside) where
  -- What the execution repository's `save` answers: the entity that it was given.
  pub record SavesGiven : Type 0 where
    pub given :
        (e saved : Execution) (w : o.World) → (o.save_execution e w).0 ≡ ok saved → saved ≡ e

  abbrev pub IsFinished : Execution → Type 0
  IsFinished e =
      ((e.status ≡ completed)
        × (t : ℕ) × (r : JobResult) × (e.completed_at ≡ some t)
        × (e.result_data ≡ some r))
      ⊎ ((e.status ≡ failed) × (t : ℕ) × (e.failed_at ≡ some t))

  fail-IsFinished :
      (s : SavesGiven) (start : ℕ) (x : Execution) (error : Thrown) (w : o.World) (e : Execution)
      → (fail_execution o start x error w).0 ≡ ok e
      → e ≡ mark_failed o (o.now w) start error x
  unfolding fail_execution
  fail-IsFinished s start x error w e h = s.given _ e w h

  complete-IsFinished :
      (s : SavesGiven) (start : ℕ) (x : Execution) (result : JobResult) (w : o.World)
      (e : Execution)
      → (complete_execution o start x result w).0 ≡ ok e
      → IsFinished e
  unfolding complete_execution
  complete-IsFinished s start x result w e h =
      elim (Result-cases (o.save_execution (mark_completed o (o.now w) start result x) w).0) [
        | inl (saved, k) ↦
            let same = s.given _ saved w k in
            inl (ground (arith, same), o.now w, result, ground (arith, same), ground (arith, same))
        | inr (error, k) ↦
            let done : Execution = mark_completed o (o.now w) start result x in
            let w' : o.World = (o.save_execution done w).1 in
            let same : e ≡ mark_failed o (o.now w') start error done =
              fail-IsFinished s start done error w' e (ground arith) in
            inr (ground (arith, same), o.now w', ground (arith, same))
      ]

  -- If the running of a job ends without throwing, and saving an execution answers with the
  -- entity given, then the execution is completed with an instant and a result, or failed with an
  -- instant; and it is failed, or the job gave a result in time.
  pub run_execution-IsFinished :
      (s : SavesGiven) (start : ℕ) (job : Job) (x : Execution) (w : o.World) (e : Execution)
      → (run_execution o start job x w).0 ≡ ok e
      → IsFinished e
        × ((e.status ≡ failed)
            ⊎ ((result : JobResult) × ((execute_with_timeout o job (job.timeout_seconds * 1000) w).0
                  ≡ ok result)))
  unfolding run_execution
  run_execution-IsFinished s start job x w e h =
      elim (Result-cases (execute_with_timeout o job (job.timeout_seconds * 1000) w).0) [
        | inl (result, k) ↦ (
          complete-IsFinished s start x result
              (execute_with_timeout o job (job.timeout_seconds * 1000) w).1 e (ground arith),
          inr (result, k),
        )
        | inr (error, k) ↦
            let w' : o.World = (execute_with_timeout o job (job.timeout_seconds * 1000) w).1 in
            let same : e ≡ mark_failed o (o.now w') start error x =
              fail-IsFinished s start x error w' e (ground arith) in
            (inr (ground (arith, same), o.now w', ground (arith, same)), inl (ground (arith, same)))
      ]
