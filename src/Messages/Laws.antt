-- ===== src/Messages/Laws.antt =====
-- What the service relies on of the database, of the messaging client and of Redis, as laws on
-- `Outside`: documented behaviour of PostgreSQL, TypeORM and Redis. No other process writes while
-- an operation runs.
use scheduling_service.Base.{
  ℕ, ◌≡◌, ◌≢◌, ◌⊎◌, Bool, true, false, String, str_eq, Option, none, some, List, if◌then◌else◌, All,
}
use scheduling_service.Base.Action.{ok, err, Thrown}
use scheduling_service.Messages.Model.{ScheduledMessage, Query, Outside, SendRequest}

-- `r` is the row that a save of the entity `m` leaves: columns whose field is `undefined` are
-- skipped, and `updated_at` is the database's.
pub record IsWritten (m r : ScheduledMessage) : Type 0 where
  pub id : r.id ≡ m.id
  pub content : r.content ≡ m.content
  pub metadata : r.metadata ≡ m.metadata
  pub status : r.status ≡ m.status
  pub user_id : (u : String) → m.user_id ≡ some u → r.user_id ≡ some u
  pub scheduled_at : (t : ℕ) → m.scheduled_at ≡ some t → r.scheduled_at ≡ some t
  pub retry_count : (n : ℕ) → m.retry_count ≡ some n → r.retry_count ≡ some n

-- The effect of `UPDATE .. SET .. WHERE ..` on one row.
abbrev pub updated :
    (ScheduledMessage → ScheduledMessage)
    → (ScheduledMessage → Bool)
    → Option ScheduledMessage
    → Option ScheduledMessage
updated set matching none = none
updated set matching (some m) = some (if matching m then set m else m)

pub record Database (o : Outside) : Type 0 where
  -- the row with that primary key
  pub row : o.World → String → Option ScheduledMessage
  pub row_id : (w : o.World) (i : String) (m : ScheduledMessage) → row w i ≡ some m → m.id ≡ i
  pub find_one_rows :
      (p : ScheduledMessage → Bool) (w : o.World) (j : String) → row (o.find_one p w).1 j ≡ row w j
  pub find_one_found :
      (p : ScheduledMessage → Bool) (w : o.World) (m : ScheduledMessage)
      → (o.find_one p w).0 ≡ ok (some m)
      → (row w m.id ≡ some m) × (p m ≡ true)
  pub find_one_missing :
      (p : ScheduledMessage → Bool) (w : o.World) (j : String) (m : ScheduledMessage)
      → (o.find_one p w).0 ≡ ok none
      → row w j ≡ some m
      → p m ≡ false
  pub find_rows : (q : Query) (w : o.World) (j : String) → row (o.find q w).1 j ≡ row w j
  pub find_found :
      (q : Query) (w : o.World) (ms : List ScheduledMessage)
      → (o.find q w).0 ≡ ok ms
      → All (λ m. (row w m.id ≡ some m) × (q.matching m ≡ true)) ms
  -- a save writes its row, unless it throws, and touches no other row
  pub save_self :
      (m : ScheduledMessage) (w : o.World) (saved : ScheduledMessage)
      → (o.save m w).0 ≡ ok saved
      → (r : ScheduledMessage) × (row (o.save m w).1 m.id ≡ some r) × IsWritten m r
  pub save_other :
      (m : ScheduledMessage) (w : o.World) (j : String) → m.id ≢ j → row (o.save m w).1 j ≡ row w j
  pub update_rows :
      (set : ScheduledMessage → ScheduledMessage) (p : ScheduledMessage → Bool) (w : o.World)
      (raw : List ScheduledMessage) (j : String)
      → ((m : ScheduledMessage) → (set m).id ≡ m.id)
      → (o.update_returning set p w).0 ≡ ok raw
      → row (o.update_returning set p w).1 j ≡ updated set p (row w j)
  pub update_returned :
      (set : ScheduledMessage → ScheduledMessage) (p : ScheduledMessage → Bool) (w : o.World)
      (raw : List ScheduledMessage)
      → (o.update_returning set p w).0 ≡ ok raw
      → All (λ r. (m : ScheduledMessage) × (row w m.id ≡ some m) × (p m ≡ true) × (r ≡ set m)) raw
  -- `create` copies at least the fields whose column has the property's name
  pub create_id : (raw : ScheduledMessage) → (o.create raw).id ≡ raw.id
  pub create_content : (raw : ScheduledMessage) → (o.create raw).content ≡ raw.content
  pub create_status : (raw : ScheduledMessage) → (o.create raw).status ≡ raw.status
  -- a delivery is no business of the table
  pub send_rows : (r : SendRequest) (w : o.World) (j : String) → row (o.send r w).1 j ≡ row w j

pub record Redis (o : Outside) : Type 0 where
  pub set_nx_set :
      (key value : String) (ttl : ℕ) (w : o.World)
      → (o.set_nx key value ttl w).0 ≡ ok true
      → (o.redis_get w key ≡ none) × (o.redis_get (o.set_nx key value ttl w).1 key ≡ some value)
  pub set_nx_held :
      (key value : String) (ttl : ℕ) (w : o.World)
      → (o.set_nx key value ttl w).0 ≡ ok false
      → (j : String) → o.redis_get (o.set_nx key value ttl w).1 j ≡ o.redis_get w j
  pub get_del :
      (key j : String) (w : o.World)
      → o.redis_get (o.redis_del key w) j ≡ (if str_eq key j then none else o.redis_get w j)
  -- a script runs as a whole, or the call throws and it does not run
  pub eval_atomic :
      (script : o.World → ℕ × o.World) (w : o.World)
      → (o.eval script w ≡ (ok (script w).0, (script w).1))
        ⊎ ((e : Thrown) × ((o.eval script w).0 ≡ err e)
            × ((j : String) → o.redis_get (o.eval script w).1 j ≡ o.redis_get w j))
