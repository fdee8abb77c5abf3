-- ===== src/Messages/Concurrent/System.antt =====
-- The service as a whole: a world, and the operations under way in all of its pods (scheduled-messages.service.ts).
use scheduling_service.Base.{
  ◌≤◌, ◌≡◌, ◌⊎◌, Bool, true, ◌&&◌, not, String, some, List, [], ◌∷◌, ◌++◌, map, if◌then◌else◌,
  count,
}
use scheduling_service.Base.Action.{Result, ok, err, Thrown}
use scheduling_service.Messages.Model.{
  ScheduledMessage, NewMessage, UpdateDto, pending, cancelled, is_pending, Outside,
}
use scheduling_service.Messages.Laws.{Database, IsWritten, updated}
use scheduling_service.Messages.Service.{find_owned_or_throw, apply_update}
use scheduling_service.Messages.Delivery.{send_request, claim_candidates, after_failure}
use scheduling_service.Messages.Concurrent.Tasks.{
  Task, sending, marking, failing, storing, advance, marked, unanswered_id, unmarked_id,
  is_pending_row,
}

abbrev pub task_id : Task → String
task_id (sending m) = m.id
task_id (marking m) = m.id
task_id (failing e m) = m.id
task_id (storing m) = m.id

-- The ids that a claim may have taken although its answer is lost.
abbrev pub lost_ids : List ScheduledMessage → Result Thrown (List ScheduledMessage) → List String
lost_ids cs (ok ms) = []
lost_ids cs (err e) = map (λ m. m.id) cs

abbrev pub unsettled_id : ScheduledMessage → Result Thrown ScheduledMessage → List String
unsettled_id m (ok _) = []
unsettled_id m (err e) = m.id ∷ []

-- The claimed messages; an error of the claim ends the tick.
abbrev pub claimed_of : Result Thrown (List ScheduledMessage) → List ScheduledMessage
claimed_of (ok ms) = ms
claimed_of (err e) = []

module _ (o : Outside) (db : Database o) where
  -- What PostgreSQL documents of a statement that returns no result to the client, of RETURNING and of a primary key.
  pub record Atomic : Type 0 where
    pub returned_once :
        (set : ScheduledMessage → ScheduledMessage) (p : ScheduledMessage → Bool) (w : o.World)
        (raw : List ScheduledMessage) (j : String)
        → (o.update_returning set p w).0 ≡ ok raw
        → count j (map (λ m. m.id) raw) ≤ 1
    pub returned_each :
        (set : ScheduledMessage → ScheduledMessage) (p : ScheduledMessage → Bool) (w : o.World)
        (raw : List ScheduledMessage) (j : String) (m : ScheduledMessage)
        → ((x : ScheduledMessage) → (set x).id ≡ x.id)
        → (o.update_returning set p w).0 ≡ ok raw
        → db.row w j ≡ some m
        → p m ≡ true
        → 1 ≤ count j (map (λ x. x.id) raw)
    pub update_lost :
        (set : ScheduledMessage → ScheduledMessage) (p : ScheduledMessage → Bool) (w : o.World)
        (e : Thrown) (j : String)
        → (o.update_returning set p w).0 ≡ err e
        → (db.row (o.update_returning set p w).1 j ≡ db.row w j)
          ⊎ (db.row (o.update_returning set p w).1 j ≡ updated set p (db.row w j))
    pub save_lost :
        (m : ScheduledMessage) (w : o.World) (e : Thrown)
        → (o.save m w).0 ≡ err e
        → (db.row (o.save m w).1 m.id ≡ db.row w m.id)
          ⊎ ((r : ScheduledMessage) × (db.row (o.save m w).1 m.id ≡ some r) × IsWritten m r)
    pub insert_keeps :
        (n : NewMessage) (w : o.World) (j : String) (r : ScheduledMessage)
        → db.row w j ≡ some r
        → db.row (o.insert n w).1 j ≡ some r

  -- `called` has the id of each call of the messaging service, whether it answers or throws. `faults` has an id for
  -- each call that threw, for each message sent that could not be marked, and for each save by a user of an entity that
  -- is pending over a row that is no longer.
  pub record System : Type 0 where
    pub world : o.World
    pub tasks : List Task
    pub called : List String
    pub faults : List String
    -- the messages of tasks given up, of claims whose answer is lost, and of failures that could not be saved
    pub dropped : List String

  abbrev pub calls_of : Task → o.World → List String
  calls_of (sending m) w = m.id ∷ []
  calls_of (marking m) w = []
  calls_of (failing e m) w = []
  calls_of (storing m) w = []

  abbrev pub fault_of : Task → o.World → List String
  fault_of (sending m) w = unanswered_id m (o.send (send_request m) w).0
  fault_of (marking m) w = unmarked_id m (o.save (marked o m) w).0
  fault_of (failing e m) w = []
  fault_of (storing m) w =
      if is_pending m.status && not (is_pending_row (db.row w m.id)) then m.id ∷ [] else []

  abbrev pub drops : Task → o.World → List String
  drops (sending m) w = []
  drops (marking m) w = []
  drops (failing e m) w = unsettled_id m (o.save (after_failure e m) w).0
  drops (storing m) w = []

  abbrev pub advanced : System → List Task → Task → List Task → System
  advanced s before t after = record {
    world = (advance o t s.world).1;
    tasks = before ++ (advance o t s.world).0 ++ after;
    called = calls_of t s.world ++ s.called;
    faults = fault_of t s.world ++ s.faults;
    dropped = drops t s.world ++ s.dropped;
  }

  -- A pod claims, with any candidates; a task goes on; a pod dies or gives up its loop; a user's `update` or `cancel`
  -- has read a pending message; a message is created; or the table stays as it is.
  pub data Step (s : System) : System → Type 0 where
    claims :
        (owner : String) (cs : List ScheduledMessage)
        → Step s (record s {
          world = (claim_candidates o owner cs s.world).1;
          tasks = map sending (claimed_of (claim_candidates o owner cs s.world).0) ++ s.tasks;
          dropped = lost_ids cs (claim_candidates o owner cs s.world).0 ++ s.dropped;
        })
    advances :
        (before : List Task) (t : Task) (after : List Task)
        → s.tasks ≡ before ++ t ∷ after
        → Step s (advanced s before t after)
    abandons :
        (before : List Task) (t : Task) (after : List Task)
        → s.tasks ≡ before ++ t ∷ after
        → Step s (record s { tasks = before ++ after; dropped = task_id t ∷ s.dropped })
    reads_to_update :
        (id user_id : String) (dto : UpdateDto) (m : ScheduledMessage)
        → (find_owned_or_throw o id user_id s.world).0 ≡ ok m
        → m.status ≡ pending
        → Step s (record s {
          world = (find_owned_or_throw o id user_id s.world).1;
          tasks = storing (apply_update dto m) ∷ s.tasks;
        })
    reads_to_cancel :
        (id user_id : String) (m : ScheduledMessage)
        → (find_owned_or_throw o id user_id s.world).0 ≡ ok m
        → m.status ≡ pending
        → Step s (record s {
          world = (find_owned_or_throw o id user_id s.world).1;
          tasks = storing (record m { status = cancelled }) ∷ s.tasks;
        })
    inserts : (n : NewMessage) → Step s (record s { world = (o.insert n s.world).1 })
    passes :
        (w : o.World)
        → ((j : String) → db.row w j ≡ db.row s.world j)
        → Step s (record s { world = w })

  pub data Steps (s : System) : System → Type 0 where
    done : Steps s s
    next : {t u : System} → Steps s t → Step t u → Steps s u

  abbrev pub at_rest : o.World → System
  at_rest w = record { world = w; tasks = []; called = []; faults = []; dropped = [] }
