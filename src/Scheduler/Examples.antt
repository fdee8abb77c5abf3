-- ===== src/Scheduler/Examples.antt =====
-- The theorems on the scheduler, the queues and the cron expressions at concrete inputs.
use scheduling_service.Base.{◌≡◌, ◌↔◌, none, some, []}
use scheduling_service.Queue.Model.{high_priority}
use scheduling_service.Scheduler.Model.{once, Execution}
use scheduling_service.Scheduler.Validation.{validate, validate_iff, IsValidDto}
use scheduling_service.Scheduler.Service.{add_to_queue}
use scheduling_service.Scheduler.Execution.{error_of, new_execution, mark_failed}
use scheduling_service.Scheduler.Queueing.{add_to_queue_lem, hand_over, wanted}
use scheduling_service.Scheduler.Recorded.{job, stored_execution, outside, once_at_2000, schedule}

add_to_queue_lem_example :
    add_to_queue outside job schedule []
    ≡ hand_over outside high_priority job schedule (wanted once 500 schedule) []
add_to_queue_lem_example = add_to_queue_lem outside job schedule []

validate_iff_example : (validate 500 once_at_2000 ≡ []) ↔ IsValidDto 500 once_at_2000
validate_iff_example = validate_iff 500 once_at_2000

abbrev execution : Execution
execution = stored_execution (new_execution outside "uuid" "job" none (some "bull-1") [])

abbrev timed_out_execution : Execution
timed_out_execution = mark_failed outside 500 500 (error_of "Job execution timeout") execution
