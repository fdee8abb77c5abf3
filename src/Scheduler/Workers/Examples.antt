-- ===== src/Scheduler/Workers/Examples.antt =====
-- A worker that dies, over the store of Scheduler.Stored.
use scheduling_service.Base.{
  ◌≡◌, ◌≢◌, ◌⊎◌, ◌+◌, ◌≤◌, refl, sym, ap, ◌∙◌, inl, inr, Bool-cases, String, str_eq, str_eq_iff,
  Option, none, some, [], ◌∷◌, findb, count, arith,
}
use scheduling_service.Base.Action.{Result, Thrown, ok, err, ok_injective}
use scheduling_service.Scheduler.Model.{Execution, NewExecution, running}
use scheduling_service.Scheduler.Outcomes.{IsFinished}
use scheduling_service.Scheduler.Execution.{new_execution, insert_new_execution}
use scheduling_service.Scheduler.Recorded.{job, stored_execution}
use scheduling_service.Scheduler.Stored.{Store, outside}
use scheduling_service.Scheduler.Runs.{no_jobs}
use scheduling_service.Scheduler.Workers.{
  finding, creating, working, Executions, System, takes, advances, dies, Steps, done, next, at_rest,
}
use scheduling_service.Scheduler.Workers.Held.{holders}
use scheduling_service.Scheduler.Workers.Settled.{execution-IsAccounted}

abbrev row : Store → String → Option Execution
row w j = findb (λ e. str_eq e.id j) w.executions

newest :
    (w : Store) (e : Execution) → row (record w { executions = e ∷ w.executions }) e.id ≡ some e
newest w e = ground (arith, str_eq_iff e.id e.id)

older :
    (w : Store) (e : Execution) (j : String)
    → e.id ≢ j
    → row (record w { executions = e ∷ w.executions }) j ≡ row w j
older w e j n = elim (Bool-cases (str_eq e.id j)) [
  | inl t ↦ absurd (n ((str_eq_iff e.id j).0 t))
  | inr f ↦ ground arith
]

stored_lem :
    (n : NewExecution) (x : Execution) (w : Store)
    → stored_execution n ≡ x
    → (x.id ≡ n.id)
      × (x.status ≡ n.status)
      × (row (record w { executions = stored_execution n ∷ w.executions }) n.id ≡ some x)
stored_lem n x w h =
    (ap (λ e. e.id) (sym h), ap (λ e. e.status) (sym h), newest w (stored_execution n) ∙ ap some h)

-- A call of the store does not throw.
not_thrown :
    {G : Type 0}
    → (x : Execution) (e : Thrown) → ◌≡◌ {A = Result Thrown Execution} (ok x) (err e)
    → G
not_thrown x e h = absurd (ground arith)

-- No timer of the store fires.
no_timer : {G : Type 0} → (v : Store) → ◌≡◌ {A = Option Store} none (some v) → G
no_timer v h = absurd (ground arith)

abbrev table : Executions outside
table = record {
  row = row;
  insert_ok = λ n x w h. stored_lem n x w (ok_injective h);
  insert_lost = λ n e w h. not_thrown (stored_execution n) e h;
  insert_other = λ n w j d. older w (stored_execution n) j d;
  save_ok = λ e s w h. newest w e;
  save_lost = λ e x w h. not_thrown e x h;
  save_other = λ e w j d. older w e j d;
  timer_rows = λ job ms w v j h. no_timer v h;
  find_job_rows = λ id j w. refl;
  send_rows = λ r j w. refl;
  cleanup_rows = λ r j w. refl;
}

abbrev begun : Execution
begun = stored_execution (new_execution outside "uuid" "job" none (some "bull-1") no_jobs)

abbrev died : System outside
died = record {
  world = record no_jobs { executions = begun ∷ [] };
  works = [];
  dropped = "uuid" ∷ [];
}

-- The worker creates the execution and dies while the job runs.
died-Steps : Steps outside table (at_rest outside no_jobs) died
unfolding insert_new_execution
died-Steps =
    let one = next done (takes "bull-1" "job" none) in
    let two = next one (advances [] (finding "job" none (some "bull-1")) [] refl) in
    let three =
      next two (advances [] (creating 500 "uuid" job "job" none (some "bull-1")) [] refl) in
    next three (dies [] (working 500 job begun) [] refl)

execution-IsAccounted_example :
    ((begun.status ≡ running) × (1 ≤ holders "uuid" died.works + count "uuid" died.dropped))
    ⊎ IsFinished outside begun
execution-IsAccounted_example =
    execution-IsAccounted outside table "uuid" no_jobs died begun (λ x h. absurd (ground arith))
      died-Steps refl
