-- ===== src/Grpc/Wire.antt =====
-- Requests as the gRPC server hands them to the handlers: main.ts loads scheduler.proto with
-- `keepCase: true` and `enums: String`, and the handlers read the names of scheduler.interface.ts
-- (modules/grpc/services/grpc-scheduler.service.ts).
use scheduling_service.Base.{
  ℕ, ◌≡◌, refl, ap, inl, inr, true, false, String, str_eq, str_eq_iff, Option, none, some, List, [],
  ◌∷◌, All, has_text, arith, if◌then◌else◌, Bool-cases,
}
use scheduling_service.Scheduler.Model.{Priority, medium, ScheduleType, once}
use scheduling_service.Grpc.Service.{priority_of, map_grpc_to_prisma_schedule_type}

-- A field's value: a text, a number or an instant. An enum value is a text with `enums: String`.
pub data Value : Type 0 where
  text : String → Value
  whole : ℕ → Value
  instant : ℕ → Value

abbrev pub Object : Type 0
Object = List (String × Value)

-- `request.name`, `none` for `undefined`.
abbrev pub read_field : String → Object → Option Value
read_field name [] = none
read_field name ((n, v) ∷ fields) =
    let rest = read_field name fields in if str_eq n name then some v else rest

-- The fields of the messages of scheduler.proto.
abbrev pub create_job_fields : List String
create_job_fields =
    "name" ∷ "description" ∷ "category_id" ∷ "target_service" ∷ "target_method" ∷ "payload"
    ∷ "priority" ∷ "max_retries" ∷ "timeout_seconds" ∷ "created_by" ∷ []

abbrev pub get_job_fields : List String
get_job_fields = "job_id" ∷ []

abbrev pub schedule_job_fields : List String
schedule_job_fields =
    "job_id" ∷ "schedule_type" ∷ "cron_expression" ∷ "interval_seconds" ∷ "scheduled_at"
    ∷ "timezone" ∷ "starts_at" ∷ "ends_at" ∷ []

abbrev pub execute_job_fields : List String
execute_job_fields = "job_id" ∷ "schedule_id" ∷ "correlation_id" ∷ []

abbrev pub cancel_schedule_fields : List String
cancel_schedule_fields = "schedule_id" ∷ []

-- What `keepCase: true` gives: an object whose fields have the names of the proto file.
abbrev pub KeepsCase : List String → Object → Type 0
KeepsCase fields o = All (λ (n, v). has_text fields n ≡ true) o

-- What the handlers read of a request.
pub record CreateJobRead : Type 0 where
  pub name : Option Value
  pub description : Option Value
  pub category_id : Option Value
  pub target_service : Option Value
  pub target_method : Option Value
  pub payload : Option Value
  pub priority : Option Value
  pub max_retries : Option Value
  pub timeout_seconds : Option Value
  pub created_by : Option Value

pub record ScheduleJobRead : Type 0 where
  pub job_id : Option Value
  pub schedule_type : Option Value
  pub cron_expression : Option Value
  pub interval_seconds : Option Value
  pub scheduled_at : Option Value
  pub timezone : Option Value
  pub starts_at : Option Value
  pub ends_at : Option Value

abbrev pub read_create_job : Object → CreateJobRead
read_create_job request = record {
  name = read_field "name" request;
  description = read_field "description" request;
  category_id = read_field "categoryId" request;
  target_service = read_field "targetService" request;
  target_method = read_field "targetMethod" request;
  payload = read_field "payload" request;
  priority = read_field "priority" request;
  max_retries = read_field "maxRetries" request;
  timeout_seconds = read_field "timeoutSeconds" request;
  created_by = read_field "createdBy" request;
}

abbrev pub read_schedule_job : Object → ScheduleJobRead
read_schedule_job request = record {
  job_id = read_field "jobId" request;
  schedule_type = read_field "scheduleType" request;
  cron_expression = read_field "cronExpression" request;
  interval_seconds = read_field "intervalSeconds" request;
  scheduled_at = read_field "scheduledAt" request;
  timezone = read_field "timezone" request;
  starts_at = read_field "startsAt" request;
  ends_at = read_field "endsAt" request;
}

-- The id that `getJob`, `executeJob` and `cancelSchedule` hand on.
abbrev pub read_job_id : Object → Option Value
read_job_id request = read_field "jobId" request

abbrev pub read_schedule_id : Object → Option Value
read_schedule_id request = read_field "scheduleId" request

-- The two `switch`es, whose cases are numbers, on any value.
abbrev pub switch_priority : Option Value → Priority
switch_priority (some (whole n)) = priority_of n
switch_priority _ = medium

abbrev pub switch_schedule_type : Option Value → ScheduleType
switch_schedule_type (some (whole n)) = map_grpc_to_prisma_schedule_type n
switch_schedule_type _ = once

absent :
    (name : String) (fields : List String) (o : Object)
    → has_text fields name ≡ false
    → KeepsCase fields o
    → read_field name o ≡ none
absent name fields [] h k = refl
absent name fields ((n, v) ∷ o) h (e, k) = elim (Bool-cases (str_eq n name)) [
  | inl t ↦ absurd (ground (arith, other, str_eq_iff n name))
  | inr f ↦ ground (arith, absent name fields o h k)
]
  where
    other : n ≡ name → has_text fields n ≡ false
    other p = rw p h

-- Of requests whose fields have the names of scheduler.proto, with a priority given as a text,
-- the handlers read no category, no target service and method, no retries, the priority medium,
-- no job id and no instant to schedule, the schedule type once, and no id to execute, get or
-- cancel.
pub keep_case_loses :
    (create schedule execute get cancel : Object) (priority_name : String)
    → KeepsCase create_job_fields create
    → KeepsCase schedule_job_fields schedule
    → KeepsCase execute_job_fields execute
    → KeepsCase get_job_fields get
    → KeepsCase cancel_schedule_fields cancel
    → read_field "priority" create ≡ some (text priority_name)
    → ((read_create_job create).category_id ≡ none)
      × ((read_create_job create).target_service ≡ none)
      × ((read_create_job create).target_method ≡ none)
      × ((read_create_job create).max_retries ≡ none)
      × (switch_priority (read_create_job create).priority ≡ medium)
      × ((read_schedule_job schedule).job_id ≡ none)
      × ((read_schedule_job schedule).scheduled_at ≡ none)
      × (switch_schedule_type (read_schedule_job schedule).schedule_type ≡ once)
      × (read_job_id execute ≡ none)
      × (read_job_id get ≡ none)
      × (read_schedule_id cancel ≡ none)
keep_case_loses create schedule execute get cancel priority_name c s e g d p = (
  absent "categoryId" create_job_fields create refl c,
  absent "targetService" create_job_fields create refl c,
  absent "targetMethod" create_job_fields create refl c,
  absent "maxRetries" create_job_fields create refl c,
  ap switch_priority p,
  absent "jobId" schedule_job_fields schedule refl s,
  absent "scheduledAt" schedule_job_fields schedule refl s,
  ap switch_schedule_type (absent "scheduleType" schedule_job_fields schedule refl s),
  absent "jobId" execute_job_fields execute refl e,
  absent "jobId" get_job_fields get refl g,
  absent "scheduleId" cancel_schedule_fields cancel refl d,
)

-- The fields of `SendScheduledMessageRequest` in messaging.proto, and those of the object that the messaging
-- client passes on (modules/grpc/clients/messaging.client.ts).
abbrev pub send_message_fields : List String
send_message_fields =
    "conversation_id" ∷ "sender_id" ∷ "message_type" ∷ "content" ∷ "metadata" ∷ "scheduled_for" ∷ []

abbrev pub send_message_object : Value → Value → Value → Value → Value → Value → Object
send_message_object conversation_id sender_id message_type content metadata scheduled_for =
    ("conversationId", conversation_id)
    ∷ ("senderId", sender_id)
    ∷ ("messageType", message_type)
    ∷ ("content", content)
    ∷ ("metadata", metadata)
    ∷ ("scheduledFor", scheduled_for)
    ∷ []

-- An encoder that skips the fields that the message does not have, as protobuf.js documents.
abbrev pub encoded : List String → Object → Object
encoded fields [] = []
encoded fields ((n, v) ∷ o) =
    let rest = encoded fields o in if has_text fields n then (n, v) ∷ rest else rest

-- Of a message that the client passes on, only the content and the metadata reach the wire.
pub send_loses_fields :
    (conversation_id sender_id message_type content metadata scheduled_for : Value)
    → encoded send_message_fields
        (send_message_object conversation_id sender_id message_type content metadata scheduled_for)
      ≡ ("content", content) ∷ ("metadata", metadata) ∷ []
send_loses_fields conversation_id sender_id message_type content metadata scheduled_for = refl
