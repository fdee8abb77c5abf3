-- ===== src/Scheduler/Execution.antt =====
-- `SchedulerService.executeJob` and what it runs (modules/scheduler/services/scheduler.service.ts), and
-- the queue processors that call it (modules/queues/processors/job.processor.ts).
use scheduling_service.Base.{
  ℕ, ◌-◌, ◌*◌, String, str_eq, Option, none, some, [], ◌∷◌, get_or, if◌then◌else◌,
}
use scheduling_service.Base.Action.{
  Action, Result, ok, err, Exception, Thrown, primitive, object, absent, ◌>>=◌, pure, throw, catch,
  lift,
}
use scheduling_service.Scheduler.Model.{
  Job, Execution, running, completed, failed, JobResult, reply, report, Payload, ErrorData,
  NewExecution,
}
use scheduling_service.Scheduler.Outside.{Outside, SendRequest}
use scheduling_service.Scheduler.Responses.{ExecutionResponseDto, map_execution_to_response}
use scheduling_service.Scheduler.Service.{or_not_found, text_or_null}

-- A field of the payload.
abbrev pub payload_field : String → Payload → Option String
payload_field k [] = none
payload_field k ((j, v) ∷ rest) = if str_eq j k then some v else payload_field k rest

-- An `Error` with a message only.
abbrev pub error_of : String → Thrown
error_of message = object (record {
  message = message;
  code = absent;
  response_status = none;
  status = none;
  status_code = none;
})

-- `{ error: error.message, code: error.code ?? null }`.
abbrev pub error_data_of : Thrown → ErrorData
error_data_of primitive = record { error = none; code = absent }
error_data_of (object e) = record { error = some e.message; code = e.code }

module _ (outside : Outside) where
  open outside use {
    World, now, uuid, date_of, find_job, insert_execution, save_execution, send_scheduled_message,
    cleanup_expired_messages, timer_first,
  }

  abbrev Step : Type 0 → Type 0
  Step = Action World Thrown

  -- `payload.scheduledFor ? new Date(payload.scheduledFor) : new Date()`
  abbrev scheduled_for : Option String → World → ℕ
  scheduled_for none w = now w
  scheduled_for (some s) w = date_of (some s)

  abbrev send_request : Payload → World → SendRequest
  send_request payload w = record {
    conversation_id = payload_field "conversationId" payload;
    sender_id = payload_field "senderId" payload;
    message_type = get_or (text_or_null (payload_field "messageType" payload)) "TEXT";
    content = payload_field "content" payload;
    metadata = payload_field "metadata" payload;
    scheduled_for = scheduled_for (text_or_null (payload_field "scheduledFor" payload)) w;
  }

  unfoldable pub execute_messaging_job : Job → Step JobResult
  execute_messaging_job job w =
      if str_eq job.target_method "sendScheduledMessage"
      then (send_scheduled_message (send_request job.payload w) >>= λ r. pure (reply r)) w
      else if str_eq job.target_method "cleanupExpiredMessages"
      then (cleanup_expired_messages (record {
        older_than = date_of (payload_field "olderThan" job.payload);
        batch_size = payload_field "batchSize" job.payload;
      })
            >>= λ r. pure (reply r))
          w
      else throw (error_of "Unknown messaging method") w

  unfoldable pub execute_notification_job : Job → Step JobResult
  execute_notification_job job w =
      (ok (report "notification" job.target_method job.payload (now w) "placeholder"), w)

  -- The `switch` on the target service; its `catch` logs and rethrows.
  unfoldable pub execute_job_by_service : Job → Step JobResult
  execute_job_by_service job w =
      if str_eq job.target_service "messaging"
      then execute_messaging_job job w
      else if str_eq job.target_service "notification"
      then execute_notification_job job w
      else (ok (report job.target_service job.target_method job.payload (now w) "simulated"), w)

  -- The winner of `Promise.race([execution, timeout])`. Where the timer fires first, the race does not stop the job: it
  -- is left in flight, and what follows goes on from the world of that instant.
  abbrev pub race : Option World → Job → Step JobResult
  race (some at_timeout) job w = (err (error_of "Job execution timeout"), at_timeout)
  race none job w = execute_job_by_service job w

  unfoldable pub execute_with_timeout : Job → ℕ → Step JobResult
  execute_with_timeout job timeout_ms w = race (timer_first job timeout_ms w) job w

  -- The assignments after a success, and those of the `catch`.
  abbrev pub mark_completed : ℕ → ℕ → JobResult → Execution → Execution
  mark_completed now start_time result execution = record execution {
    status = completed;
    completed_at = some now;
    result_data = some result;
    duration_ms = some (now - start_time);
  }

  abbrev pub mark_failed : ℕ → ℕ → Thrown → Execution → Execution
  mark_failed now start_time error execution = record execution {
    status = failed;
    failed_at = some now;
    error_data = some (error_data_of error);
    duration_ms = some (now - start_time);
  }

  -- The `catch`, on the execution as the `try` left it.
  unfoldable pub fail_execution : ℕ → Execution → Thrown → Step Execution
  fail_execution start_time execution error w =
      save_execution (mark_failed (now w) start_time error execution) w

  -- What follows the job's result in the `try`. If the save throws, the fields already assigned stay.
  unfoldable pub complete_execution : ℕ → Execution → JobResult → Step Execution
  unfolding fail_execution
  complete_execution start_time execution result w =
      let done = mark_completed (now w) start_time result execution in
      catch (save_execution done) (fail_execution start_time done) w

  abbrev pub settle : ℕ → Execution → Result Thrown JobResult → Step Execution
  settle start_time execution (ok result) = complete_execution start_time execution result
  settle start_time execution (err error) = fail_execution start_time execution error

  unfoldable pub run_execution : ℕ → Job → Execution → Step Execution
  unfolding complete_execution fail_execution
  run_execution start_time job execution w =
      let outcome = execute_with_timeout job (job.timeout_seconds * 1000) w in
      settle start_time execution outcome.0 outcome.1

  abbrev pub new_execution : String → String → Option String → Option String → World → NewExecution
  new_execution execution_id job_id schedule_id correlation_id w = record {
    id = execution_id;
    job_id = job_id;
    schedule_id = text_or_null schedule_id;
    status = running;
    correlation_id = get_or (text_or_null correlation_id) (uuid 1 w);
    started_at = now w;
  }

  -- `create` and `save` of the new record; the time and the spare correlation id are taken here.
  unfoldable pub insert_new_execution :
      String → String → Option String → Option String → Step Execution
  insert_new_execution execution_id job_id schedule_id correlation_id w =
      insert_execution (new_execution execution_id job_id schedule_id correlation_id w) w

  unfoldable pub execute_job :
      String → Option String → Option String → Action World Exception ExecutionResponseDto
  execute_job job_id schedule_id correlation_id w =
      (do
        found ← lift (find_job job_id)
        job ← or_not_found outside found
        execution ← lift (insert_new_execution (uuid 0 w) job_id schedule_id correlation_id)
        settled ← lift (run_execution (now w) job execution)
        pure (map_execution_to_response settled))
        w

  -- `BaseJobProcessor.process`: `none` for a job of another name. `bull_id` is the text `bull-` with the
  -- job's id in the queue.
  unfoldable pub process :
      String
      → String
      → String
      → Option String
      → Action World Exception (Option ExecutionResponseDto)
  process name bull_id job_id schedule_id w =
      if str_eq name "execute-job"
      then (execute_job job_id schedule_id (some bull_id) >>= λ e. pure (some e)) w
      else pure none w
