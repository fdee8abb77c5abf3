-- ===== src/Messages/Examples.antt =====
-- The theorems on scheduled messages at concrete worlds, and small runs.
use scheduling_service.Base.{
  List, ◌<◌, length, ℕ, ◌≡◌, refl, ◌≢◌, ◌⊎◌, true, String, str_eq_iff, none, some, [], ◌∷◌, arith,
  All,
}
use scheduling_service.Base.Action.{bad_request, ok, err, Thrown, object, number}
use scheduling_service.Messages.Transient.{is_transient_error}
use scheduling_service.Messages.Model.{
  ScheduledMessage, pending, processing, sent, failed, CreateDto, UpdateDto,
}
use scheduling_service.Messages.Service.{
  create, update, cancel, find_owned_or_throw, apply_update, to_response,
}
use scheduling_service.Messages.Delivery.{
  is_due, process_batch_size, process_due_messages, process_claimed, claim_due_messages,
  claim_candidates, send_message, send_all, acquire_lock, release_lock, release_lock_lua, lock_key,
}
use scheduling_service.Messages.Ownership.{Owns, InWindow, IsUpdated, update_lem, foreign_untouched}
use scheduling_service.Messages.Window.{IsAcceptable, create_lem, new_message}
use scheduling_service.Messages.Claims.{claim_due-IsDueClaim, IsDueClaim}
use scheduling_service.Messages.Lock.{acquire_exclusive, process_lem}
use scheduling_service.Messages.Sending.{IsAnswered, EndsWith}
use scheduling_service.Messages.Settled.{send_all-IsSettled, AllSettled}
use scheduling_service.Messages.Retries.{lost_count_not_retried}
use scheduling_service.Messages.Stuck.{processing_is_stuck}
use scheduling_service.Messages.Client.{timed_out_gives_up, call_error, timed_out}
use scheduling_service.Messages.Memory.{Memory, memory, memory_database, memory_redis}
use scheduling_service.Messages.Progress.{due_message-IsSent, IsSent}
use scheduling_service.Messages.Available.{available, available_database, is_up}

-- A message of user "u" due at 1000, in a table read at `now`.
abbrev pub message : ScheduledMessage
message = record {
  id = "m";
  user_id = some "u";
  conversation_id = some "c";
  content = "hello";
  metadata = none;
  scheduled_at = some 1000;
  status = pending;
  retry_count = some 0;
  created_at = some 1;
  updated_at = some 1;
}

abbrev pub world_at : ℕ → ScheduledMessage → Memory
world_at now m = record { stored = some m; lock = none; clock = now; answers = []; deliveries = [] }

abbrev unavailable : Thrown
unavailable = object (record {
  message = "unavailable";
  code = number 14;
  response_status = none;
  status = none;
  status_code = none;
})

abbrev claimed : ScheduledMessage
claimed = record message { status = processing; updated_at = some 2000 }

-- One tick of the cron job sends the due message.
tick_sends :
    (process_due_messages memory "pod" (world_at 2000 message)).1.stored
    ≡ some (record message { status = sent; updated_at = some 2000 })
unfolding process_due_messages process_claimed claim_due_messages claim_candidates send_all
    send_message acquire_lock release_lock
tick_sends = refl

abbrev postponed : UpdateDto
postponed = record { content = none; metadata = none; scheduled_at = some 3000 }

update_lem_example :
    (m r : ScheduledMessage) × Owns memory memory_database (world_at 5 message) "m" "u" m
    × (m.status ≡ pending)
    × InWindow memory memory_database
        (memory.now (find_owned_or_throw memory "m" "u" (world_at 5 message)).1)
        (some 3000)
    × (memory_database.row (update memory "m" "u" postponed (world_at 5 message)).1 "m" ≡ some r)
    × IsUpdated memory memory_database postponed m r
update_lem_example =
    update_lem memory memory_database "m" "u" postponed (world_at 5 message)
      (to_response (apply_update postponed message)) (unfold update find_owned_or_throw in refl)

foreign_untouched_example : (cancel memory "m" "intruder" (world_at 5 message)).0 ≢ ok tt
foreign_untouched_example =
    (foreign_untouched memory memory_database "m" "intruder" "m" postponed (world_at 5 message)
      message refl (λ e. ground (arith, str_eq_iff "u" "intruder"))).1

abbrev empty_world : Memory
empty_world = record (world_at 5 message) { stored = none }

abbrev request : CreateDto
request = record { conversation_id = "c"; content = "hello"; metadata = none; scheduled_at = 1000 }

create_lem_example :
    (IsAcceptable 5 1000
      × (create memory "u" request empty_world ≡ (
        ok (to_response (record message { id = "new"; created_at = some 5; updated_at = some 5 })),
        (memory.insert (new_message "u" request) empty_world).1,
      )))
    ⊎ ((¬ IsAcceptable 5 1000)
        × (reason : String) × (create memory "u" request empty_world
            ≡ (err (bad_request reason), empty_world)))
create_lem_example =
    create_lem memory "u" request empty_world
      (record message { id = "new"; created_at = some 5; updated_at = some 5 }) refl

abbrev failing_world : Memory
failing_world = record (world_at 2000 claimed) { answers = err (call_error timed_out) ∷ [] }

timed_out_gives_up_example :
    (r : ScheduledMessage) × (memory_database.row
        (send_message memory "pod" claimed failing_world).1
        "m"
      ≡ some r)
    × (r.status ≡ failed)
timed_out_gives_up_example =
    timed_out_gives_up memory memory_database "pod" claimed failing_world refl
      (unfold send_message call_error is_transient_error in refl)

lost_count_not_retried_example :
    (r : ScheduledMessage) × (memory_database.row
        (send_message memory "pod" (record claimed { retry_count = none }) failing_world).1
        "m"
      ≡ some r)
    × ((IsAnswered memory (record claimed { retry_count = none }) failing_world × (r.status ≡ sent))
        ⊎ ((e : Thrown) × EndsWith memory (record claimed { retry_count = none }) failing_world e
            × (r.status ≡ failed)))
lost_count_not_retried_example =
    lost_count_not_retried memory memory_database "pod" (record claimed { retry_count = none })
      failing_world refl (unfold send_message call_error is_transient_error in refl)

claim_due-IsDueClaim_example :
    All
      (IsDueClaim memory memory_database "pod"
        (world_at 2000 message)
        (claim_due_messages memory "pod" (world_at 2000 message)).1)
      (claimed ∷ [])
claim_due-IsDueClaim_example =
    claim_due-IsDueClaim memory memory_database "pod" (world_at 2000 message) (claimed ∷ [])
      (unfold claim_due_messages claim_candidates in refl)

send_all-IsSettled_example :
    AllSettled memory memory_database "pod"
      (claimed ∷ [])
      (world_at 2000 claimed)
      (send_all memory "pod" (claimed ∷ []) (world_at 2000 claimed)).1
send_all-IsSettled_example =
    send_all-IsSettled memory memory_database "pod" (claimed ∷ []) (world_at 2000 claimed) (tt, tt)
      (unfold send_all send_message in refl)

processing_is_stuck_example :
    memory_database.row (cancel memory "m" "u" (world_at 2000 claimed)).1 "m" ≡ some claimed
processing_is_stuck_example =
    (processing_is_stuck memory memory_database "m" (world_at 2000 claimed) claimed refl refl "pod"
      "m" "u" postponed (message ∷ []) []).1

acquire_exclusive_example :
    (acquire_lock memory "other" lock_key 55
      (acquire_lock memory "pod" lock_key 55 (world_at 5 message)).1).0
    ≢ ok true
acquire_exclusive_example =
    acquire_exclusive memory memory_redis "pod" "other" lock_key 55 (world_at 5 message)
      (unfold acquire_lock in refl)

abbrev held_world : Memory
held_world = record (world_at 5 message) { lock = some "other" }

process_lem_example :
    memory.redis_get (process_due_messages memory "pod" (world_at 2000 message)).1 lock_key
    ≢ some "pod"
process_lem_example =
    (process_lem memory memory_redis "pod" (world_at 2000 message) 1).2
      (unfold acquire_lock in refl)
      (unfold acquire_lock process_claimed claim_due_messages claim_candidates send_all send_message
          release_lock release_lock_lua in
        refl)

few_due :
    (cs : List ScheduledMessage)
    → (available.find
        (record { matching = is_due 2000; limit = some process_batch_size })
        (record (world_at 2000 message) { lock = some "pod" })).0
      ≡ ok cs
    → length cs < process_batch_size
few_due [] h = omega arith
few_due (c ∷ []) h = omega arith
few_due (c ∷ d ∷ cs) h = absurd (ground arith)

due_message-IsSent_example :
    ((process_due_messages available "pod" (world_at 2000 message)).0 ≡ ok tt)
    × IsSent available available_database is_up "pod"
        (process_due_messages available "pod" (world_at 2000 message)).1
        "m"
due_message-IsSent_example =
    due_message-IsSent available available_database is_up "pod" (world_at 2000 message) "m" message
      refl refl refl (unfold acquire_lock in few_due) (λ t v. refl)
