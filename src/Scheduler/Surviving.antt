-- ===== src/Scheduler/Surviving.antt =====
-- An IMMEDIATE schedule that is cancelled before a worker takes its job (scheduler.service.ts).
use scheduling_service.Base.{
  ◌≡◌, refl, ◌≢◌, sym, ◌∙◌, ap, inl, inr, true, false, String, none, arith, [], ◌∷◌, findb,
  Option-cases,
}
use scheduling_service.Base.Action.{ok, Result-cases}
use scheduling_service.Queue.Model.{
  Queue, high_priority, medium_priority, low_priority, JobsOptions, JobData,
}
use scheduling_service.Queue.Service.{is_repeatable, remove_job}
use scheduling_service.Queue.Removal.{IsAbsent, remove_loop_absent}
use scheduling_service.Scheduler.Model.{Job, Schedule, immediate}
use scheduling_service.Scheduler.Outside.{Outside}
use scheduling_service.Scheduler.Service.{add_to_queue, cancel_schedule, job_data}
use scheduling_service.Scheduler.Queueing.{queue_of, add_to_queue_lem, plain as plain_options}
use scheduling_service.Scheduler.Cancelling.{KeepsJobs}

-- BullMQ as documented: a job added without an id gets one of its own, and stays in its queue.
pub record KeepsPlain (o : Outside) (keeps : KeepsJobs o) : Type 0 where
  pub add_plain :
      (q : Queue) (name x : String) (payload : JobData) (options : JobsOptions) (w : o.World)
      → options.job_id ≡ none
      → options.repeats ≡ none
      → (o.bull.add q name payload options w).0 ≡ ok x
      → let w' = (o.bull.add q name payload options w).1 in
        (keeps.has_job w' q x ≡ true)
        × ((p : Queue) (id : String) → id ≢ x → keeps.has_job w' p id ≡ keeps.has_job w p id)
        × ((p : Queue) → keeps.entries w' p ≡ keeps.entries w p)

module _ (o : Outside) (keeps : KeepsJobs o) where
  -- No queue knows the id.
  pub record IsUnknown (id : String) (w : o.World) : Type 0 where
    pub no_job : (q : Queue) → keeps.has_job w q id ≡ false
    pub no_entry : (q : Queue) → findb (is_repeatable o.bull id) (keeps.entries w q) ≡ none

  pub absent : (id : String) (w : o.World) (q : Queue) → IsUnknown id w → IsAbsent o.bull id w q
  absent id w q h = record {
    no_job = ground (arith, keeps.get_job_lem q id w, h.no_job q);
    entries = keeps.entries w q;
    listed = keeps.listed q w;
    no_entry = h.no_entry q;
  }

  remove_job_unknown :
      (id : String) (w : o.World) → IsUnknown id w → remove_job o.bull id w ≡ (ok tt, w)
  unfolding remove_job
  remove_job_unknown id w h = ground (
    arith,
    remove_loop_absent o.bull id w (high_priority ∷ medium_priority ∷ low_priority ∷ []) (
      absent id w high_priority h,
      (absent id w medium_priority h, (absent id w low_priority h, tt)),
    ),
  )

  saved-IsUnknown :
      (id : String) (s : Schedule) (w : o.World)
      → IsUnknown id w
      → IsUnknown id (o.save_schedule s w).1
  saved-IsUnknown id s w h = record {
    no_job = λ q. (keeps.save_schedule_keeps id s q w).0 ∙ h.no_job q;
    no_entry = λ q.
        ap (findb (is_repeatable o.bull id)) (keeps.save_schedule_keeps id s q w).2 ∙ h.no_entry q;
  }

  found-IsUnknown :
      (id i : String) (w : o.World) → IsUnknown id w → IsUnknown id (o.find_schedule i w).1
  found-IsUnknown id i w h = record {
    no_job = λ q. (keeps.find_schedule_keeps id i q w).0 ∙ h.no_job q;
    no_entry = λ q.
        ap (findb (is_repeatable o.bull id)) (keeps.find_schedule_keeps id i q w).2 ∙ h.no_entry q;
  }

  -- Cancelling a schedule whose id no queue knows leaves every queue's jobs.
  cancel_keeps :
      (id x : String) (q : Queue) (w : o.World)
      → IsUnknown id w
      → (cancel_schedule o id w).0 ≡ ok tt
      → keeps.has_job (cancel_schedule o id w).1 q x ≡ keeps.has_job w q x
  unfolding cancel_schedule
  cancel_keeps id x q w h e = elim (Result-cases (o.find_schedule id w).0) [
    | inl (found, f) ↦ elim (Option-cases found) [
      | inl n ↦ absurd (ground arith)
      | inr (s, n) ↦
          let w₁ : o.World = (o.find_schedule id w).1 in
          let s' : Schedule = record s { is_active = false } in
          let w₂ : o.World = (o.save_schedule s' w₁).1 in
          let removed =
            remove_job_unknown id w₂ (saved-IsUnknown id s' w₁ (found-IsUnknown id id w h)) in
          let found_keeps = (keeps.find_schedule_keeps x id q w).0 in
          let save_keeps = (keeps.save_schedule_keeps x s' q w₁).0 in
          elim (Result-cases (o.save_schedule s' w₁).0) [
            | inl (saved, g) ↦ ground (arith, f, n, g, removed, found_keeps, save_keeps)
            | inr (y, g) ↦ absurd (ground arith)
          ]
    ]
    | inr (y, f) ↦ absurd (ground arith)
  ]

  -- And it leaves every queue's repeated jobs.
  pub cancel_keeps_entries :
      (id : String) (q : Queue) (w : o.World)
      → IsUnknown id w
      → (cancel_schedule o id w).0 ≡ ok tt
      → keeps.entries (cancel_schedule o id w).1 q ≡ keeps.entries w q
  unfolding cancel_schedule
  cancel_keeps_entries id q w h e = elim (Result-cases (o.find_schedule id w).0) [
    | inl (found, f) ↦ elim (Option-cases found) [
      | inl n ↦ absurd (ground arith)
      | inr (s, n) ↦
          let w₁ : o.World = (o.find_schedule id w).1 in
          let s' : Schedule = record s { is_active = false } in
          let w₂ : o.World = (o.save_schedule s' w₁).1 in
          let removed =
            remove_job_unknown id w₂ (saved-IsUnknown id s' w₁ (found-IsUnknown id id w h)) in
          let found_keeps = (keeps.find_schedule_keeps id id q w).2 in
          let save_keeps = (keeps.save_schedule_keeps id s' q w₁).2 in
          elim (Result-cases (o.save_schedule s' w₁).0) [
            | inl (saved, g) ↦ ground (arith, f, n, g, removed, found_keeps, save_keeps)
            | inr (y, g) ↦ absurd (ground arith)
          ]
    ]
    | inr (y, f) ↦ absurd (ground arith)
  ]

  -- For queues that keep jobs as documented, an IMMEDIATE schedule whose id no queue knows, and
  -- whose job gets another id from the queue: addToQueue succeeds, and if cancelSchedule then
  -- succeeds, the job is still in the queue of its priority.
  pub immediate_survives :
      (plain : KeepsPlain o keeps) (job : Job) (s : Schedule) (x : String) (w : o.World)
      → s.schedule_type ≡ immediate
      → IsUnknown s.id w
      → s.id ≢ x
      → (o.bull.add
          (queue_of job.priority)
          "execute-job"
          (job_data job s)
          (plain_options none none)
          w).0
        ≡ ok x
      → (cancel_schedule o s.id (add_to_queue o job s w).1).0 ≡ ok tt
      → ((add_to_queue o job s w).0 ≡ ok tt)
        × (keeps.has_job
              (cancel_schedule o s.id (add_to_queue o job s w).1).1
              (queue_of job.priority)
              x
            ≡ true)
  immediate_survives plain job s x w k h ne added cancelled =
      let q : Queue = queue_of job.priority in
      let options : JobsOptions = plain_options none none in
      let w' : o.World = (o.bull.add q "execute-job" (job_data job s) options w).1 in
      let (has, others, same) =
        plain.add_plain q "execute-job" x (job_data job s) options w refl refl added in
      let e : add_to_queue o job s w ≡ (ok tt, w') =
        ground (arith, add_to_queue_lem o job s w, k, added) in
      let unknown : IsUnknown s.id w' = record {
        no_job = λ p. others p s.id ne ∙ h.no_job p;
        no_entry = λ p. ap (findb (is_repeatable o.bull s.id)) (same p) ∙ h.no_entry p;
      } in
      let kept =
        cancel_keeps s.id x q w' unknown
          (ap (λ r. (cancel_schedule o s.id r.1).0) (sym e) ∙ cancelled) in
      (ap (λ r. r.0) e, ap (λ r. keeps.has_job (cancel_schedule o s.id r.1).1 q x) e ∙ kept ∙ has)
