-- ===== src/Messages/Delivery.antt =====
-- `ScheduledMessagesService`, the cron job: the lock, the claim and the sending of due messages
-- (scheduled-messages.service.ts).
use scheduling_service.Base.{
  ℕ, ◌+◌, Bool, false, ◌&&◌, String, str_eq, Option, none, some, List, [], ◌∷◌, map, ltb, leb,
  has_text, if◌then◌else◌, get_or,
}
use scheduling_service.Base.Action.{Action, Thrown, ◌>>=◌, ◌>>◌, pure, catch, finally}
use scheduling_service.Messages.Transient.{is_transient_error}
use scheduling_service.Messages.Model.{
  pending, processing, sent, failed, is_pending, ScheduledMessage, SendRequest, Outside,
}

abbrev pub lock_key : String
lock_key = "scheduled-messages:lock:process"

abbrev pub lock_ttl_seconds : ℕ
lock_ttl_seconds = 55

abbrev pub process_batch_size : ℕ
process_batch_size = 100

abbrev pub retry_limit : ℕ
retry_limit = 3

-- `message.retryCount < RETRY_LIMIT`, which is false of `undefined`.
abbrev pub below_retry_limit : Option ℕ → Bool
below_retry_limit none = false
below_retry_limit (some n) = ltb n retry_limit

-- `message.retryCount += 1`; it runs only where the count is defined.
abbrev pub increment : Option ℕ → Option ℕ
increment none = none
increment (some n) = some (n + 1)

abbrev pub send_request : ScheduledMessage → SendRequest
send_request message = record {
  conversation_id = message.conversation_id;
  sender_id = message.user_id;
  message_type = "TEXT";
  content = message.content;
  metadata = get_or message.metadata "{}";
  scheduled_for = message.scheduled_at;
}

-- SQL's `scheduled_at <= $1`.
abbrev pub due_by : ℕ → Option ℕ → Bool
due_by now none = false
due_by now (some t) = leb t now

-- The `where` of the candidates' query, and that of the update.
abbrev pub is_due : ℕ → ScheduledMessage → Bool
is_due now row = is_pending row.status && due_by now row.scheduled_at

abbrev pub is_claimable : List String → ScheduledMessage → Bool
is_claimable ids row = has_text ids row.id && is_pending row.status

-- `.set({ status })`, to which TypeORM adds the column of `@UpdateDateColumn`.
abbrev pub set_processing : ℕ → ScheduledMessage → ScheduledMessage
set_processing timestamp row = record row { status = processing; updated_at = some timestamp }

-- The message as the catch block leaves it, to be saved: back to PENDING, or FAILED.
abbrev pub after_failure : Thrown → ScheduledMessage → ScheduledMessage
after_failure error message =
    if is_transient_error error && below_retry_limit message.retry_count
    then record message { retry_count = increment message.retry_count; status = pending }
    else record message { status = failed }

module _ (outside : Outside) (lock_owner_id : String) where
  open outside use {
    World, now, timestamp, find, save, update_returning, create, send, set_nx, redis_get, redis_del,
    eval,
  }

  abbrev Step : Type 0 → Type 0
  Step = Action World Thrown

  unfoldable pub acquire_lock : String → ℕ → Step Bool
  acquire_lock key ttl_seconds = set_nx key lock_owner_id ttl_seconds

  abbrev pub is_owner : Option String → Bool
  is_owner none = false
  is_owner (some owner) = str_eq owner lock_owner_id

  -- `RELEASE_LOCK_LUA`.
  unfoldable pub release_lock_lua : String → World → ℕ × World
  release_lock_lua key w = if is_owner (redis_get w key) then (1, redis_del key w) else (0, w)

  -- Its error is logged and dropped.
  unfoldable pub release_lock : String → World → World
  unfolding release_lock_lua
  release_lock key w = (eval (release_lock_lua key) w).1

  -- The UPDATE and the entities made of its rows; an empty list of candidates skips it.
  unfoldable pub claim_candidates : List ScheduledMessage → Step (List ScheduledMessage)
  claim_candidates [] w = pure [] w
  claim_candidates (c ∷ cs) w =
      (do
        raw ←
            update_returning (set_processing (timestamp w))
              (is_claimable (map (λ m. m.id) (c ∷ cs)))
        pure (map create raw))
        w

  unfoldable pub claim_due_messages : Step (List ScheduledMessage)
  unfolding claim_candidates
  claim_due_messages w =
      (find (record { matching = is_due (now w); limit = some process_batch_size })
          >>= claim_candidates)
        w

  unfoldable pub send_message : ScheduledMessage → Step (Unit {0})
  send_message message =
      catch
        (do send (send_request message); saved ← save (record message { status = sent }); pure tt)
        (λ error. do saved ← save (after_failure error message); pure tt)

  -- `for (const message of claimed) await this.sendMessage(message)`.
  unfoldable pub send_all : List ScheduledMessage → Step (Unit {0})
  send_all [] = pure tt
  send_all (message ∷ rest) = send_message message >> send_all rest

  -- The body of the `try`, and its `catch`, which logs the error.
  unfoldable pub process_claimed : Step (Unit {0})
  process_claimed = catch (claim_due_messages >>= send_all) (λ error. pure tt)

  unfoldable pub process_due_messages : Step (Unit {0})
  process_due_messages = do
    lock_acquired ← acquire_lock lock_key lock_ttl_seconds
    if lock_acquired then finally process_claimed (release_lock lock_key) else pure tt
