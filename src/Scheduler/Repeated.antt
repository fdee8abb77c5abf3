-- ===== src/Scheduler/Repeated.antt =====
-- An INTERVAL schedule that is cancelled (scheduler.service.ts): its repeated job is not found.
use scheduling_service.Base.{
  ℕ, ◌*◌, ◌≡◌, refl, ◌≢◌, ◌⊎◌, sym, ◌∙◌, ap, inl, inr, false, Bool, Bool-cases, String, str_eq,
  str_eq_iff, none, some, List, [], ◌∷◌, ◌++◌, arith, findb,
}
use scheduling_service.Base.Action.{ok, Result-cases}
use scheduling_service.Queue.Model.{Queue, JobsOptions, JobData, Repeatable, RepeatOptions}
use scheduling_service.Queue.Service.{is_repeatable}
use scheduling_service.Scheduler.Model.{Job, Schedule, interval}
use scheduling_service.Scheduler.Outside.{Outside}
use scheduling_service.Scheduler.Service.{add_to_queue, cancel_schedule, job_data, number_or_null}
use scheduling_service.Scheduler.Queueing.{queue_of, add_to_queue_lem, hand_over, wanted, repeating}
use scheduling_service.Scheduler.Cancelling.{KeepsJobs, same_queue}
use scheduling_service.Scheduler.Surviving.{IsUnknown, cancel_keeps_entries}

-- BullMQ 5: a repeated job becomes an entry of its queue, in the place of the one of the same key if there is one. The
-- entries that `getRepeatableJobs` lists have a key, a digest of the options, and no id; the next job that the entry
-- makes has an id made of that key. `id` is a text that is neither.
pub record KeepsRepeated (o : Outside) (keeps : KeepsJobs o) (id : String) : Type 0 where
  pub add_repeated :
      (q : Queue) (name x : String) (payload : JobData) (options : JobsOptions)
      (repeat_opts : RepeatOptions) (ms : ℕ) (w : o.World)
      → options.repeats ≡ some repeat_opts
      → repeat_opts.every ≡ some ms
      → (o.bull.add q name payload options w).0 ≡ ok x
      → let w' = (o.bull.add q name payload options w).1 in
        (before : List Repeatable) × (after : List Repeatable) × (entry : Repeatable)
        × ((keeps.entries w q ≡ before ++ after)
            ⊎ ((old : Repeatable) × (keeps.entries w q ≡ before ++ old ∷ after)))
        × (keeps.entries w' q ≡ before ++ entry ∷ after)
        × (entry.id ≡ none)
        × (entry.key ≢ id)
        × ((p : Queue) → p ≢ q → keeps.entries w' p ≡ keeps.entries w p)
        × ((p : Queue) → keeps.has_job w' p id ≡ keeps.has_job w p id)

findb_removed :
    (p : Repeatable → Bool) (before after : List Repeatable) (e : Repeatable)
    → findb p (before ++ e ∷ after) ≡ none
    → findb p (before ++ after) ≡ none
findb_removed p [] after e h = ground arith
findb_removed p (x ∷ before) after e h = ground (arith, findb_removed p before after e)

findb_inserted :
    (p : Repeatable → Bool) (before after : List Repeatable) (e : Repeatable)
    → findb p (before ++ after) ≡ none
    → p e ≡ false
    → findb p (before ++ e ∷ after) ≡ none
findb_inserted p [] after e h f = ground arith
findb_inserted p (x ∷ before) after e h f = ground (arith, findb_inserted p before after e)

module _ (o : Outside) (keeps : KeepsJobs o) where
  -- An entry without an id is not found by an id, unless that is its key.
  not_found :
      (id : String) (e : Repeatable) → e.id ≡ none → e.key ≢ id → is_repeatable o.bull id e ≡ false
  not_found id e n k = elim (Bool-cases (str_eq e.key id)) [
    | inl t ↦ absurd (k ((str_eq_iff e.key id).0 t))
    | inr f ↦ ground arith
  ]

  -- For queues that keep jobs and repeated jobs as BullMQ 5 does, an INTERVAL schedule with a
  -- number of seconds, whose id no queue knows: if addToQueue and then cancelSchedule succeed,
  -- the queue of the job's priority has the repeated job in between, added to its entries or in
  -- the place of one of them, and at the end its entries are still the same.
  pub interval_survives :
      (job : Job) (s : Schedule) (n : ℕ) (w : o.World)
      → KeepsRepeated o keeps s.id
      → s.schedule_type ≡ interval
      → number_or_null s.interval_seconds ≡ some n
      → IsUnknown o keeps s.id w
      → (add_to_queue o job s w).0 ≡ ok tt
      → (cancel_schedule o s.id (add_to_queue o job s w).1).0 ≡ ok tt
      → (before : List Repeatable) × (after : List Repeatable) × (entry : Repeatable)
        × ((keeps.entries w (queue_of job.priority) ≡ before ++ after)
            ⊎ ((old : Repeatable) × (keeps.entries w (queue_of job.priority)
                  ≡ before ++ old ∷ after)))
        × (keeps.entries (add_to_queue o job s w).1 (queue_of job.priority)
            ≡ before ++ entry ∷ after)
        × (keeps.entries
              (cancel_schedule o s.id (add_to_queue o job s w).1).1
              (queue_of job.priority)
            ≡ before ++ entry ∷ after)
  interval_survives job s n w repeated k a unknown h cancelled =
      let options : JobsOptions =
        repeating (record { pattern = none; cron = none; tz = none; every = some (n * 1000) })
          s.id in
      let q : Queue = queue_of job.priority in
      let wants : wanted s.schedule_type (o.now w) s ≡ some options = ground arith in
      let e : add_to_queue o job s w ≡ hand_over o q job s (some options) w =
        add_to_queue_lem o job s w ∙ ap (λ z. hand_over o q job s z w) wants in
      elim (Result-cases (o.bull.add q "execute-job" (job_data job s) options w).0) [
        | inl (x, g) ↦
            let (before, after, entry, was, now, no_id, key, others, jobs) =
              repeated.add_repeated q "execute-job" x (job_data job s) options _ (n * 1000) w refl
                refl g in
            let w' : o.World = (o.bull.add q "execute-job" (job_data job s) options w).1 in
            let left : add_to_queue o job s w ≡ (ok tt, w') = ground (arith, e, g) in
            let after_unknown : IsUnknown o keeps s.id w' = record {
              no_job = λ p. jobs p ∙ unknown.no_job p;
              no_entry = λ p. elim (same_queue p q) [
                | inl t ↦
                    ap (λ r. findb (is_repeatable o.bull s.id) (keeps.entries w' r)) t
                    ∙ ap (findb (is_repeatable o.bull s.id)) now
                    ∙ findb_inserted (is_repeatable o.bull s.id) before after entry
                        (none_left q before after w unknown was) (not_found s.id entry no_id key)
                | inr ne ↦ ap (findb (is_repeatable o.bull s.id)) (others p ne) ∙ unknown.no_entry p
              ];
            } in
            let kept =
              cancel_keeps_entries o keeps s.id q w' after_unknown
                (ap (λ r. (cancel_schedule o s.id r.1).0) (sym left) ∙ cancelled) in
            (
              before,
              after,
              entry,
              was,
              ap (λ r. keeps.entries r.1 q) left ∙ now,
              ap (λ r. keeps.entries (cancel_schedule o s.id r.1).1 q) left ∙ kept ∙ now,
            )
        | inr (x, g) ↦ absurd (ground (arith, e))
      ]
    where
      none_left :
          (q : Queue) (before after : List Repeatable) (v : o.World)
          → IsUnknown o keeps s.id v
          → (keeps.entries v q ≡ before ++ after)
            ⊎ ((old : Repeatable) × (keeps.entries v q ≡ before ++ old ∷ after))
          → findb (is_repeatable o.bull s.id) (before ++ after) ≡ none
      none_left q before after v u (inl same) =
          ap (findb (is_repeatable o.bull s.id)) (sym same) ∙ u.no_entry q
      none_left q before after v u (inr (old, same)) =
          findb_removed (is_repeatable o.bull s.id) before after old
            (ap (findb (is_repeatable o.bull s.id)) (sym same) ∙ u.no_entry q)
