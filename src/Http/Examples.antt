-- ===== src/Http/Examples.antt =====
-- The theorems on the routes at concrete requests.
use scheduling_service.Base.{◌≡◌, refl, Bool, true, String, none, some, [], arith, str_eq_iff}
use scheduling_service.Base.Action.{ok}
use scheduling_service.Jwks.Guard.{GuardState, can_activate}
use scheduling_service.Jwks.Access.{Passes}
use scheduling_service.Jwks.Examples.{checks, auth_header, before_request, loaded_keys}
use scheduling_service.Messages.Model.{ScheduledMessage, pending, cancelled}
use scheduling_service.Messages.Service.{cancel, find_owned_or_throw}
use scheduling_service.Messages.Memory.{Memory, memory, memory_database}
use scheduling_service.Messages.Examples.{message, world_at}
use scheduling_service.Webhook.Guards.{internal_can_activate}
use scheduling_service.Queue.Service
use scheduling_service.Scheduler.Recorded.{outside, once_at_2000, schedule}
use scheduling_service.Scheduler.Responses.{map_schedule_to_response}
use scheduling_service.Scheduler.Service.{schedule_job, add_to_queue}
use scheduling_service.Scheduler.Validation.{validate, IsValidDto}
use scheduling_service.Http.Guarded.{authenticated}
use scheduling_service.Http.Messages.{delete_message}
use scheduling_service.Http.Jobs.{Credentials, internal_route, post_schedule}
use scheduling_service.Http.Access.{anonymous, delete_message_lem}
use scheduling_service.Http.Routes.{HasToken, schedule_route_lem}

abbrev is_uuid : String → Bool
is_uuid text = true

abbrev state : GuardState
state = before_request loaded_keys

abbrev world : Memory
world = world_at 5 message

delete_message_lem_example :
    let after = (delete_message checks is_uuid memory (some auth_header) "m" (state, world)).1.1 in
    (guarded : GuardState) × (p : Passes checks (some auth_header) (anonymous state) guarded) × (m
      r : ScheduledMessage)
    × (memory_database.row world "m" ≡ some m)
    × (m.user_id ≡ some p.sub)
    × (m.status ≡ pending)
    × (memory_database.row after "m" ≡ some r)
    × (r.status ≡ cancelled)
    × (memory_database.row after "k" ≡ none)
delete_message_lem_example =
    delete_message_lem checks is_uuid memory memory_database (some auth_header) "m" "k" state world
      (λ e. ground (arith, str_eq_iff "m" "k"))
      (unfold delete_message authenticated can_activate cancel find_owned_or_throw in refl)

abbrev credentials : Credentials
credentials = record {
  auth_header = some auth_header;
  internal_token = some "secret";
  configured = some "secret";
}

schedule_route_lem_example :
    (guarded : GuardState) × Passes checks (some auth_header) (anonymous state) guarded
    × HasToken credentials
    × (true ≡ true)
    × IsValidDto 500 (record once_at_2000 { job_id = "job" })
    × (internal_route checks credentials
          (post_schedule is_uuid outside "job" once_at_2000)
          (state, [])
        ≡ (
          ok (map_schedule_to_response schedule),
          (guarded, (schedule_job outside (record once_at_2000 { job_id = "job" }) []).1),
        ))
schedule_route_lem_example =
    schedule_route_lem checks is_uuid outside credentials "job" once_at_2000 state []
      (map_schedule_to_response schedule)
      (unfold internal_route authenticated can_activate internal_can_activate post_schedule
          schedule_job validate add_to_queue Service.add_job Service.get_queue in
        refl)
