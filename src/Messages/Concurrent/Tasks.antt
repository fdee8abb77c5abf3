-- ===== src/Messages/Concurrent/Tasks.antt =====
-- What is left to do of an operation between two outside calls (scheduled-messages.service.ts).
use scheduling_service.Base.{
  ℕ, zero, suc, ◌++◌, Bool, false, String, Option, none, some, List, [], ◌∷◌,
}
use scheduling_service.Base.Action.{Result, ok, err, Thrown}
use scheduling_service.Messages.Model.{ScheduledMessage, sent, is_pending, Outside}
use scheduling_service.Messages.Delivery.{send_request, after_failure}

-- `sendMessage` before the call of the client, after it, and in its `catch`; and `update` or `cancel` before the
-- save of the entity that they have read and changed.
pub data Task : Type 0 where
  sending marking : ScheduledMessage → Task
  failing : Thrown → ScheduledMessage → Task
  storing : ScheduledMessage → Task

abbrev pub after_send : ScheduledMessage → Result Thrown (Unit {0}) → List Task
after_send m (ok _) = marking m ∷ []
after_send m (err e) = failing e m ∷ []

-- The save stands in the same `try` as the call of the client.
abbrev pub after_mark : ScheduledMessage → Result Thrown ScheduledMessage → List Task
after_mark m (ok _) = []
after_mark m (err e) = failing e m ∷ []

-- The id of a message whose call threw: the service may have taken it all the same.
abbrev pub unanswered_id : ScheduledMessage → Result Thrown (Unit {0}) → List String
unanswered_id m (ok _) = []
unanswered_id m (err e) = m.id ∷ []

abbrev pub unmarked_id : ScheduledMessage → Result Thrown ScheduledMessage → List String
unmarked_id m (ok _) = []
unmarked_id m (err e) = m.id ∷ []

abbrev pub is_pending_row : Option ScheduledMessage → Bool
is_pending_row none = false
is_pending_row (some r) = is_pending r.status

module _ (o : Outside) where
  abbrev pub marked : ScheduledMessage → ScheduledMessage
  marked m = record m { status = sent }

  -- One outside call, what is left after it, and the world.
  abbrev pub advance : Task → o.World → List Task × o.World
  advance (sending m) w = let (r, w') = o.send (send_request m) w in (after_send m r, w')
  advance (marking m) w = let (r, w') = o.save (marked m) w in (after_mark m r, w')
  advance (failing e m) w = ([], (o.save (after_failure e m) w).1)
  advance (storing m) w = ([], (o.save m w).1)

  -- At most `n` calls, of the first task and of what it leaves: the tasks left, and the world.
  abbrev pub run_tasks : ℕ → List Task → o.World → List Task × o.World
  run_tasks zero ts w = (ts, w)
  run_tasks (suc n) [] w = ([], w)
  run_tasks (suc n) (t ∷ ts) w = let (rest, w') = advance t w in run_tasks n (rest ++ ts) w'
