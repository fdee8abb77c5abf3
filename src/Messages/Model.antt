-- ===== src/Messages/Model.antt =====
-- The entity of scheduled-message.entity.ts, the DTOs, and what the service asks of the database,
-- of Redis and of the messaging client. An instant is a number of milliseconds since the epoch; a
-- JSON value is its text, which is never empty.
use scheduling_service.Base.{ℕ, Bool, String, Option, List}
use scheduling_service.Base.Action.{Action, Thrown}

-- `ScheduledMessageStatus`.
pub data Status : Type 0 where
  pending processing sent cancelled failed : Status

abbrev pub is_pending : Status → Bool
is_pending pending = Bool.true
is_pending _ = Bool.false

-- A field that an entity may lack in memory is an `Option`, with `none` for `undefined`: an entity
-- built by `create` from a raw row has such fields. A row of the table has them all.
pub record ScheduledMessage : Type 0 where
  pub id : String
  pub user_id : Option String
  pub conversation_id : Option String
  pub content : String
  pub metadata : Option String
  pub scheduled_at : Option ℕ
  pub status : Status
  pub retry_count : Option ℕ
  pub created_at : Option ℕ
  pub updated_at : Option ℕ

-- What `create` passes to the repository; the database fills in the rest.
pub record NewMessage : Type 0 where
  pub user_id : String
  pub conversation_id : String
  pub content : String
  pub metadata : Option String
  pub scheduled_at : ℕ
  pub status : Status

pub record CreateDto : Type 0 where
  pub conversation_id : String
  pub content : String
  pub metadata : Option String
  pub scheduled_at : ℕ

-- `metadata` is absent, or given as `null` or a value.
pub record UpdateDto : Type 0 where
  pub content : Option String
  pub metadata : Option (Option String)
  pub scheduled_at : Option ℕ

-- `ScheduledMessageResponseDto`: the entity without its retry count.
pub record ResponseDto : Type 0 where
  pub id : String
  pub user_id : Option String
  pub conversation_id : Option String
  pub content : String
  pub metadata : Option String
  pub scheduled_at : Option ℕ
  pub status : Status
  pub created_at : Option ℕ
  pub updated_at : Option ℕ

-- The request of `messagingClient.sendScheduledMessage`.
pub record SendRequest : Type 0 where
  pub conversation_id : Option String
  pub sender_id : Option String
  pub message_type : String
  pub content : String
  pub metadata : String
  pub scheduled_for : Option ℕ

-- `find` options: the `where` as a test on the row, and `take`. Both finds of the service order by
-- `scheduledAt` ascending.
pub record Query : Type 0 where
  pub matching : ScheduledMessage → Bool
  pub limit : Option ℕ

-- The outside of the service. A world holds the table, Redis, the deliveries and the clock.
pub record Outside : Type 1 where
  pub World : Type 0
  -- `new Date()`
  pub now : World → ℕ
  -- CURRENT_TIMESTAMP of the database
  pub timestamp : World → ℕ
  -- the repository
  pub find_one : (ScheduledMessage → Bool) → Action World Thrown (Option ScheduledMessage)
  pub find : Query → Action World Thrown (List ScheduledMessage)
  pub insert : NewMessage → Action World Thrown ScheduledMessage
  pub save : ScheduledMessage → Action World Thrown ScheduledMessage
  -- `UPDATE .. SET .. WHERE .. RETURNING *`, with the raw rows
  pub update_returning :
      (ScheduledMessage → ScheduledMessage)
      → (ScheduledMessage → Bool)
      → Action World Thrown (List ScheduledMessage)
  -- `repository.create(raw)` on one raw row
  pub create : ScheduledMessage → ScheduledMessage
  -- the messaging client
  pub send : SendRequest → Action World Thrown (Unit {0})
  -- Redis: `SET key value EX ttl NX` answers whether it was set; a script runs by `eval`
  pub set_nx : String → String → ℕ → Action World Thrown Bool
  pub redis_get : World → String → Option String
  pub redis_del : String → World → World
  pub eval : (World → ℕ × World) → Action World Thrown ℕ
