-- ===== src/Scheduler/Workers/Held.antt =====
-- What one call of an `executeJob` does to the row of an execution (scheduler.service.ts).
use scheduling_service.Base.{
  ℕ, ◌+◌, ◌*◌, ◌≤◌, ◌≡◌, ◌≢◌, ◌⊎◌, refl, sym, subst, ap, ◌∙◌, inl, inr, String, str_eq, str_eq_iff,
  Option, some, List, [], ◌∷◌, ◌++◌, count, arith, Bool-cases, Option-cases,
}
use scheduling_service.Base.Action.{Result, ok, err, Thrown, Result-cases, proceed, pure}
use scheduling_service.Scheduler.Model.{Job, Execution, JobResult, reply, NewExecution, running}
use scheduling_service.Scheduler.Outside.{Outside}
use scheduling_service.Scheduler.Outcomes.{IsFinished}
use scheduling_service.Scheduler.Execution.{
  execute_with_timeout, execute_job_by_service, execute_messaging_job, execute_notification_job,
  insert_new_execution, new_execution, mark_completed, mark_failed,
}
use scheduling_service.Scheduler.Workers.{
  Work, finding, creating, working, completing, failing, work_id, advance, drops, Executions,
}

-- How often the execution is held by work.
abbrev pub holders : String → List Work → ℕ
holders j [] = 0
holders j (t ∷ ts) = count j (work_id t) + holders j ts

pub holders-append :
    (j : String) (xs ys : List Work) → holders j (xs ++ ys) ≡ holders j xs + holders j ys
holders-append j [] ys = omega arith
holders-append j (x ∷ xs) ys = omega (arith, holders-append j xs ys)

count_own : (j : String) → count j (j ∷ []) ≡ 1
count_own j = ground (arith, str_eq_iff j j)

count_other : (i j : String) → i ≢ j → count j (i ∷ []) ≡ 0
count_other i j n = elim (Bool-cases (str_eq i j)) [
  | inl e ↦ absurd (n ((str_eq_iff i j).0 e))
  | inr f ↦ ground arith
]

same_id : (i j : String) → (i ≡ j) ⊎ (i ≢ j)
same_id i j = elim (Bool-cases (str_eq i j)) [
  | inl e ↦ inl ((str_eq_iff i j).0 e)
  | inr f ↦ inr (λ e. ground (arith, str_eq_iff i j))
]

module _ (o : Outside) (table : Executions o) (j : String) where
  abbrev pub IsSettledRow : o.World → Type 0
  IsSettledRow w = (e : Execution) → table.row w j ≡ some e → IsFinished o e

  replied_world :
      (r : Result Thrown String) (w : o.World)
      → (proceed {W = o.World} r (λ x. pure (reply x)) w).1 ≡ w
  replied_world (ok x) w = refl
  replied_world (err e) w = refl

  messaging_rows :
      (job : Job) (w : o.World) → table.row (execute_messaging_job o job w).1 j ≡ table.row w j
  unfolding execute_messaging_job
  messaging_rows job w = grind (arith, replied_world, table.send_rows, table.cleanup_rows)

  job_rows :
      (job : Job) (w : o.World) → table.row (execute_job_by_service o job w).1 j ≡ table.row w j
  unfolding execute_job_by_service execute_notification_job
  job_rows job w = ground (arith, messaging_rows job w)

  timeout_rows :
      (job : Job) (ms : ℕ) (w : o.World)
      → table.row (execute_with_timeout o job ms w).1 j ≡ table.row w j
  unfolding execute_with_timeout
  timeout_rows job ms w = elim (Option-cases (o.timer_first job ms w)) [
    | inl e ↦ ground (arith, e, job_rows job w)
    | inr (v, e) ↦ ground (arith, e, table.timer_rows job ms w v j e)
  ]

  -- What a save of a finished execution does to the row.
  saved_row :
      (y : Execution) (w : o.World)
      → IsFinished o y
      → IsSettledRow (o.save_execution y w).1
        ⊎ ((table.row (o.save_execution y w).1 j ≡ table.row w j)
            × ((y.id ≢ j) ⊎ ((x : Thrown) × ((o.save_execution y w).0 ≡ err x))))
  saved_row y w finished = elim (same_id y.id j) [
    | inr n ↦ inr (table.save_other y w j n, inl n)
    | inl i ↦ elim (Result-cases (o.save_execution y w).0) [
      | inl (s, e) ↦ inl (written (table.save_ok y s w e) i)
      | inr (x, e) ↦ elim (table.save_lost y x w e) [
        | inl same ↦
            inr
              (subst (λ k. table.row (o.save_execution y w).1 k ≡ table.row w k) i same, inr (x, e))
        | inr new ↦ inl (written new i)
      ]
    ]
  ]
    where
      written :
          table.row (o.save_execution y w).1 y.id ≡ some y
          → y.id ≡ j
          → IsSettledRow (o.save_execution y w).1
      written r i z s =
          let same : y ≡ z = ground (arith, ap (table.row (o.save_execution y w).1) i) in
          subst (IsFinished o) same finished

  -- After a call the row is settled, or it is the same and as much holds it, or it runs and something holds it.
  abbrev pub StaysHeld : Work → o.World → Type 0
  StaysHeld t w =
      IsSettledRow (advance o t w).1
      ⊎ (((table.row (advance o t w).1 j ≡ table.row w j)
            × (count j (work_id t) ≤ holders j (advance o t w).0 + count j (drops o t w)))
          ⊎ ((x : Execution) × (table.row (advance o t w).1 j ≡ some x)
              × (x.status ≡ running)
              × (1 ≤ holders j (advance o t w).0 + count j (drops o t w))))

  finding-StaysHeld :
      (job_id : String) (schedule_id correlation_id : Option String) (w : o.World)
      → StaysHeld (finding job_id schedule_id correlation_id) w
  finding-StaysHeld job_id schedule_id correlation_id w =
      inr (inl (table.find_job_rows job_id j w, omega arith))

  creating-StaysHeld :
      (start : ℕ) (id : String) (job : Job) (job_id : String)
      (schedule_id correlation_id : Option String) (w : o.World)
      → StaysHeld (creating start id job job_id schedule_id correlation_id) w
  unfolding insert_new_execution
  creating-StaysHeld start id job job_id schedule_id correlation_id w =
      let n : NewExecution = new_execution o id job_id schedule_id correlation_id w in
      elim (same_id id j) [
        | inr other ↦ inr (inl (table.insert_other n w j other, omega arith))
        | inl own ↦ elim (Result-cases (o.insert_execution n w).0) [
          | inl (x, e) ↦
              let (of_id, runs, stored) = table.insert_ok n x w e in
              inr (
                inr (
                  x,
                  ap (table.row (o.insert_execution n w).1) (sym own) ∙ stored,
                  runs,
                  ground (arith, of_id, str_eq_iff x.id j),
                ))
          | inr (z, e) ↦ elim (table.insert_lost n z w e) [
            | inl same ↦ inr (
                inl (
                  subst (λ k. table.row (o.insert_execution n w).1 k ≡ table.row w k) own same,
                  omega arith,
                ))
            | inr (x, runs, stored) ↦ inr (
                inr (
                  x,
                  ap (table.row (o.insert_execution n w).1) (sym own) ∙ stored,
                  runs,
                  ground (arith, str_eq_iff id j),
                ))
          ]
        ]
      ]

  working-StaysHeld :
      (start : ℕ) (job : Job) (x : Execution) (w : o.World) → StaysHeld (working start job x) w
  working-StaysHeld start job x w = inr (
      inl (
        timeout_rows job (job.timeout_seconds * 1000) w,
        elim (Result-cases (execute_with_timeout o job (job.timeout_seconds * 1000) w).0) [
          | inl (r, e) ↦ ground arith
          | inr (z, e) ↦ ground arith
        ],
      ))

  completing-StaysHeld :
      (start : ℕ) (x : Execution) (result : JobResult) (w : o.World)
      → StaysHeld (completing start x result) w
  completing-StaysHeld start x result w =
      let y : Execution = mark_completed o (o.now w) start result x in
      elim (saved_row y w (inl (refl, o.now w, result, refl, refl))) [
        | inl settled ↦ inl settled
        | inr (same, why) ↦ inr (
            inl (
              same,
              elim why [ inl n ↦ omega (arith, count_other x.id j n) | inr (z, e) ↦ ground arith ],
            ))
      ]

  failing-StaysHeld :
      (start : ℕ) (x : Execution) (error : Thrown) (w : o.World)
      → StaysHeld (failing start x error) w
  failing-StaysHeld start x error w =
      let y : Execution = mark_failed o (o.now w) start error x in
      elim (saved_row y w (inr (refl, o.now w, refl))) [
        | inl settled ↦ inl settled
        | inr (same, why) ↦ inr (
            inl (
              same,
              elim why [ inl n ↦ omega (arith, count_other x.id j n) | inr (z, e) ↦ ground arith ],
            ))
      ]

  pub advance-StaysHeld : (t : Work) (w : o.World) → StaysHeld t w
  advance-StaysHeld (finding i s c) w = finding-StaysHeld i s c w
  advance-StaysHeld (creating n i job k s c) w = creating-StaysHeld n i job k s c w
  advance-StaysHeld (working n job x) w = working-StaysHeld n job x w
  advance-StaysHeld (completing n x r) w = completing-StaysHeld n x r w
  advance-StaysHeld (failing n x z) w = failing-StaysHeld n x z w
