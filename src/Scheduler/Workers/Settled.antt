-- ===== src/Scheduler/Workers/Settled.antt =====
-- What becomes of the executions, whatever the workers do at the same time (scheduler.service.ts, `executeJob`).
use scheduling_service.Base.{
  ◌+◌, ◌≤◌, ◌≡◌, ◌⊎◌, refl, sym, ap, ◌∙◌, inl, inr, String, some, List, ◌∷◌, ◌++◌, count,
  count-append, arith,
}
use scheduling_service.Scheduler.Model.{Execution, running}
use scheduling_service.Scheduler.Outside.{Outside}
use scheduling_service.Scheduler.Outcomes.{IsFinished}
use scheduling_service.Scheduler.Workers.{
  Work, finding, work_id, advance, drops, Executions, System, advanced, Step, takes, advances, dies,
  passes, Steps, done, next, at_rest,
}
use scheduling_service.Scheduler.Workers.Held.{holders, holders-append, advance-StaysHeld}

module _ (o : Outside) (table : Executions o) (j : String) where
  -- The row is settled, or it runs and is held, or it is among the dropped.
  abbrev IsAccounted : System o → Type 0
  IsAccounted s =
      (e : Execution)
      → table.row s.world j ≡ some e
      → ((e.status ≡ running) × (1 ≤ holders j s.works + count j s.dropped)) ⊎ IsFinished o e

  parts :
      (before : List Work) (t : Work) (after ts : List Work)
      → ts ≡ before ++ t ∷ after
      → holders j ts ≡ holders j before + count j (work_id t) + holders j after
  parts before t after ts e = omega (arith, ap (holders j) e, holders-append j before (t ∷ after))

  held_more :
      (s s' : System o)
      → table.row s'.world j ≡ table.row s.world j
      → holders j s.works + count j s.dropped ≤ holders j s'.works + count j s'.dropped
      → IsAccounted s
      → IsAccounted s'
  held_more s s' same more h e stored = elim (h e (sym same ∙ stored)) [
    | inl (runs, held) ↦ inl (runs, omega arith)
    | inr finished ↦ inr finished
  ]

  advanced-IsAccounted :
      (s : System o) (before : List Work) (t : Work) (after : List Work)
      → s.works ≡ before ++ t ∷ after
      → IsAccounted s
      → IsAccounted (advanced o s before t after)
  advanced-IsAccounted s before t after e h =
      let left : List Work = (advance o t s.world).0 in
      let p = parts before t after s.works e in
      let a = holders-append j (before ++ left) after in
      let b = holders-append j before left in
      let c = count-append j (drops o t s.world) s.dropped in
      elim (advance-StaysHeld o table j t s.world) [
        | inl settled ↦ λ x stored. inr (settled x stored)
        | inr (inl (same, held)) ↦
            held_more s (advanced o s before t after) same (omega (arith, held, p, a, b, c)) h
        | inr (inr (y, stored', runs, held)) ↦
            λ x stored. inl (ground (arith, stored, stored', runs), omega (arith, held, a, b, c))
      ]

  step-IsAccounted : (s t : System o) → IsAccounted s → Step o table s t → IsAccounted t
  step-IsAccounted s t h (takes bull_id job_id schedule_id) =
      held_more s (record s { works = finding job_id schedule_id (some bull_id) ∷ s.works }) refl
        (omega arith) h
  step-IsAccounted s t h (advances before x after e) = advanced-IsAccounted s before x after e h
  step-IsAccounted s t h (dies before x after e) =
      held_more s (record s { works = before ++ after; dropped = work_id x ++ s.dropped }) refl
        (omega (
          arith,
          parts before x after s.works e,
          holders-append j before after,
          count-append j (work_id x) s.dropped,
        ))
        h
  step-IsAccounted s t h (passes w same) =
      held_more s (record s { world = w }) (same j) (omega arith) h

  run-IsAccounted : {s t : System o} → IsAccounted s → Steps o table s t → IsAccounted t
  run-IsAccounted h done = h
  run-IsAccounted h (next ss st) = step-IsAccounted _ _ (run-IsAccounted h ss) st

  -- In every run of the workers from a world where the execution of an id is missing or finished
  -- (completed with an instant and a result, or failed with an instant), with the calls of all
  -- executeJobs in any order and workers that die: if the execution is stored at the end, then it
  -- is finished, or it is running, and some work holds it or it is among the dropped: those of
  -- workers that died, of insertions whose answer was lost, and of failures that could not be
  -- saved. No execution is pending, cancelled or timed out.
  pub execution-IsAccounted :
      (w : o.World) (t : System o) (e : Execution)
      → ((x : Execution) → table.row w j ≡ some x → IsFinished o x)
      → Steps o table (at_rest o w) t
      → table.row t.world j ≡ some e
      → ((e.status ≡ running) × (1 ≤ holders j t.works + count j t.dropped)) ⊎ IsFinished o e
  execution-IsAccounted w t e finished ss stored =
      run-IsAccounted (λ x s. inr (finished x s)) ss e stored
