-- ===== src/Scheduler/Runs.antt =====
-- The theorems on schedules and their jobs, over a store of jobs.
use scheduling_service.Base.{
  List, ◌∷◌, ◌++◌, ◌⊎◌, ◌≡◌, refl, true, false, str_eq_iff, some, [], arith,
}
use scheduling_service.Base.Action.{ok}
use scheduling_service.Queue.Model.{Queue, high_priority, Repeatable}
use scheduling_service.Queue.Service.{
  add_job, add_repeatable_job, repeatable_job_options, add_job_options, get_queue, remove_job,
  remove_loop, try_remove, remove_from, remove_found, remove_repeatable,
}
use scheduling_service.Scheduler.Model.{Schedule, immediate, interval}
use scheduling_service.Scheduler.Service.{add_to_queue, cancel_schedule}
use scheduling_service.Scheduler.Recorded.{job, schedule}
use scheduling_service.Scheduler.Cancelling.{cancel-add_once}
use scheduling_service.Scheduler.Surviving.{immediate_survives}
use scheduling_service.Scheduler.Repeated.{interval_survives}
use scheduling_service.Scheduler.Stored.{Store, outside}
use scheduling_service.Scheduler.Kept.{keeps_jobs, keeps_plain, keeps_repeated}

abbrev pub no_jobs : Store
no_jobs = record { jobs = []; entries = []; executions = [] }

abbrev every_minute : Schedule
every_minute = record schedule { schedule_type = interval; interval_seconds = some 60 }

abbrev repeated_after : List Repeatable
repeated_after =
    keeps_jobs.entries
      (cancel_schedule outside "schedule" (add_to_queue outside job every_minute no_jobs).1).1
      high_priority

interval_survives_example :
    (before : List Repeatable) × (after : List Repeatable) × (entry : Repeatable)
    × ((keeps_jobs.entries no_jobs high_priority ≡ before ++ after)
        ⊎ ((old : Repeatable) × (keeps_jobs.entries no_jobs high_priority ≡ before ++ old ∷ after)))
    × (keeps_jobs.entries (add_to_queue outside job every_minute no_jobs).1 high_priority
        ≡ before ++ entry ∷ after)
    × (repeated_after ≡ before ++ entry ∷ after)
interval_survives_example =
    interval_survives outside keeps_jobs job every_minute 60 no_jobs keeps_repeated refl refl
      (record { no_job = λ q. refl; no_entry = λ q. refl })
      (unfold add_to_queue add_repeatable_job repeatable_job_options get_queue in refl)
      (unfold cancel_schedule remove_job remove_loop try_remove remove_from remove_found
          remove_repeatable add_job_options add_to_queue add_repeatable_job repeatable_job_options
          get_queue in
        refl)

abbrev at_once : Schedule
at_once = record schedule { schedule_type = immediate }

immediate_survives_example :
    ((add_to_queue outside job at_once no_jobs).0 ≡ ok tt)
    × (keeps_jobs.has_job
          (cancel_schedule outside "schedule" (add_to_queue outside job at_once no_jobs).1).1
          high_priority
          "bull-id"
        ≡ true)
immediate_survives_example =
    immediate_survives outside keeps_jobs keeps_plain job at_once "bull-id" no_jobs refl
      (record { no_job = λ q. refl; no_entry = λ q. refl })
      (λ e. ground (arith, str_eq_iff "schedule" "bull-id")) refl
      (unfold cancel_schedule remove_job remove_loop try_remove remove_from remove_found
          remove_repeatable add_job_options add_to_queue add_job get_queue in
        refl)

cancel-add_once_example :
    (keeps_jobs.has_job (add_to_queue outside job schedule no_jobs).1 high_priority "schedule"
      ≡ true)
    × ((q : Queue)
        → keeps_jobs.has_job
            (cancel_schedule outside "schedule" (add_to_queue outside job schedule no_jobs).1).1
            q
            "schedule"
          ≡ false)
cancel-add_once_example =
    cancel-add_once outside keeps_jobs job schedule 2_000 no_jobs refl refl (omega arith)
      (λ q. refl) (λ q. refl) (unfold add_to_queue add_job get_queue in refl)
      (unfold cancel_schedule remove_job remove_loop try_remove remove_from remove_found
          remove_repeatable add_job_options add_to_queue add_job get_queue in
        refl)
