-- ===== src/Messages/Memory.antt =====
-- A world small enough to run: a table with room for one row, the lock of the cron job, a clock and
-- the answers that the messaging service will give. It meets the laws that the theorems assume.
use scheduling_service.Base.{
  ℕ, ◌≡◌, refl, ◌≢◌, inl, inr, Bool, true, false, String, str_eq, str_eq_iff, str_eq_refl, Option,
  none, some, List, [], ◌∷◌, arith, if◌then◌else◌, Bool-cases, All, subst, ap,
}
use scheduling_service.Base.Action.{Result, ok, err, ok_injective, Thrown, primitive}
use scheduling_service.Messages.Model.{ScheduledMessage, NewMessage, SendRequest, Outside}
use scheduling_service.Messages.Delivery.{lock_key}
use scheduling_service.Messages.Laws.{Database, Redis, IsWritten, updated}

pub record Memory : Type 0 where
  pub stored : Option ScheduledMessage
  pub lock : Option String
  pub clock : ℕ
  pub answers : List (Result Thrown (Unit {0}))
  pub deliveries : List SendRequest

abbrev pub keep_field {ℓ} : {A : Type ℓ} → Option A → Option A → Option A
keep_field none old = old
keep_field (some a) old = some a

abbrev pub written : ScheduledMessage → ScheduledMessage → ScheduledMessage
written m old = record m {
  user_id = keep_field m.user_id old.user_id;
  conversation_id = keep_field m.conversation_id old.conversation_id;
  scheduled_at = keep_field m.scheduled_at old.scheduled_at;
  retry_count = keep_field m.retry_count old.retry_count;
}

abbrev pub satisfying :
    (ScheduledMessage → Bool) → Option ScheduledMessage → Option ScheduledMessage
satisfying p none = none
satisfying p (some m) = if p m then some m else none

abbrev pub to_list : Option ScheduledMessage → List ScheduledMessage
to_list none = []
to_list (some m) = m ∷ []

abbrev pub save_into :
    Option ScheduledMessage → ScheduledMessage → Memory → Result Thrown ScheduledMessage × Memory
save_into none m w = (err primitive, w)
save_into (some old) m w =
    if str_eq old.id m.id
    then (ok m, record w { stored = some (written m old) })
    else (err primitive, w)

abbrev pub insert_into :
    Option ScheduledMessage → NewMessage → Memory → Result Thrown ScheduledMessage × Memory
insert_into (some old) n w = (err primitive, w)
insert_into none n w =
    let m : ScheduledMessage = record {
      id = "new";
      user_id = some n.user_id;
      conversation_id = some n.conversation_id;
      content = n.content;
      metadata = n.metadata;
      scheduled_at = some n.scheduled_at;
      status = n.status;
      retry_count = some 0;
      created_at = some w.clock;
      updated_at = some w.clock;
    } in
    (ok m, record w { stored = some m })

abbrev pub map_row :
    (ScheduledMessage → ScheduledMessage) → Option ScheduledMessage → Option ScheduledMessage
map_row f none = none
map_row f (some m) = some (f m)

abbrev pub answer :
    List (Result Thrown (Unit {0})) → SendRequest → Memory → Result Thrown (Unit {0}) × Memory
answer [] r w = (ok tt, record w { deliveries = r ∷ w.deliveries })
answer (ok _ ∷ rest) r w = (ok tt, record w { answers = rest; deliveries = r ∷ w.deliveries })
answer (err e ∷ rest) r w = (err e, record w { answers = rest })

abbrev pub lock_of : Memory → String → Option String
lock_of w key = if str_eq key lock_key then w.lock else none

abbrev pub set_lock : Option String → String → String → Memory → Result Thrown Bool × Memory
set_lock (some holder) key value w = (ok false, w)
set_lock none key value w =
    if str_eq key lock_key then (ok true, record w { lock = some value }) else (err primitive, w)

abbrev pub memory : Outside
memory = record {
  World = Memory;
  now = λ w. w.clock;
  timestamp = λ w. w.clock;
  find_one = λ p w. (ok (satisfying p w.stored), w);
  find = λ q w. (ok (to_list (satisfying q.matching w.stored)), w);
  insert = λ n w. insert_into w.stored n w;
  save = λ m w. save_into w.stored m w;
  update_returning = λ set p w. (
    ok (to_list (map_row set (satisfying p w.stored))),
    record w { stored = updated set p w.stored },
  );
  create = λ raw. raw;
  send = λ r w. answer w.answers r w;
  set_nx = λ key value ttl w. set_lock w.lock key value w;
  redis_get = lock_of;
  redis_del = λ key w. if str_eq key lock_key then record w { lock = none } else w;
  eval = λ script w. (ok (script w).0, (script w).1);
}

abbrev pub row_of : Option ScheduledMessage → String → Option ScheduledMessage
row_of stored j = satisfying (λ m. str_eq m.id j) stored

pub found_lem :
    (p : ScheduledMessage → Bool) (s : Option ScheduledMessage) (m : ScheduledMessage)
    → satisfying p s ≡ some m
    → (row_of s m.id ≡ some m) × (p m ≡ true)
found_lem p none m h = absurd (ground arith)
found_lem p (some x) m h = ground (arith, str_eq_refl x.id)

pub save_self_lem :
    (s : Option ScheduledMessage) (m : ScheduledMessage) (w : Memory) (saved : ScheduledMessage)
    → (save_into s m w).0 ≡ ok saved
    → (r : ScheduledMessage) × (row_of (save_into s m w).1.stored m.id ≡ some r) × IsWritten m r
save_self_lem none m w saved h = absurd (ground arith)
save_self_lem (some old) m w saved h = (
  written m old,
  ground (arith, str_eq_refl m.id),
  record {
    id = refl;
    content = refl;
    metadata = refl;
    status = refl;
    user_id = λ u e. ground arith;
    scheduled_at = λ t e. ground arith;
    retry_count = λ n e. ground arith;
  },
)

pub save_other_lem :
    (s : Option ScheduledMessage) (m : ScheduledMessage) (w : Memory) (j : String)
    → w.stored ≡ s
    → m.id ≢ j
    → row_of (save_into s m w).1.stored j ≡ row_of s j
save_other_lem none m w j e h = ground arith
save_other_lem (some old) m w j e h =
    ground (arith, str_eq_iff old.id m.id, str_eq_iff m.id j, str_eq_iff old.id j)

pub send_rows_lem :
    (answers : List (Result Thrown (Unit {0}))) (r : SendRequest) (w : Memory)
    → (answer answers r w).1.stored ≡ w.stored
send_rows_lem [] r w = refl
send_rows_lem (ok _ ∷ rest) r w = refl
send_rows_lem (err e ∷ rest) r w = refl

pub update_rows_lem :
    (set : ScheduledMessage → ScheduledMessage) (p : ScheduledMessage → Bool)
    (s : Option ScheduledMessage) (j : String)
    → ((m : ScheduledMessage) → (set m).id ≡ m.id)
    → row_of (updated set p s) j ≡ updated set p (row_of s j)
update_rows_lem set p none j h = refl
update_rows_lem set p (some m) j h = ground (arith, h m)

pub update_returned_lem :
    (set : ScheduledMessage → ScheduledMessage) (p : ScheduledMessage → Bool)
    (s : Option ScheduledMessage)
    → All
        (λ r. (m : ScheduledMessage) × (row_of s m.id ≡ some m) × (p m ≡ true) × (r ≡ set m))
        (to_list (map_row set (satisfying p s)))
update_returned_lem set p none = tt
update_returned_lem set p (some m) = elim (Bool-cases (p m)) [
  | inl e ↦ rw e ((m, rw (str_eq_refl m.id) refl, e, refl), tt)
  | inr e ↦ rw e tt
]

pub find_found_lem :
    (p : ScheduledMessage → Bool) (s : Option ScheduledMessage)
    → All (λ m. (row_of s m.id ≡ some m) × (p m ≡ true)) (to_list (satisfying p s))
find_found_lem p none = tt
find_found_lem p (some m) = elim (Bool-cases (p m)) [
  | inl e ↦ rw e ((rw (str_eq_refl m.id) refl, e), tt)
  | inr e ↦ rw e tt
]

pub missing_lem :
    (p : ScheduledMessage → Bool) (s : Option ScheduledMessage) (j : String) (m : ScheduledMessage)
    → satisfying p s ≡ none
    → row_of s j ≡ some m
    → p m ≡ false
missing_lem p none j m h e = absurd (ground arith)
missing_lem p (some x) j m h e = ground arith

pub row_id_lem :
    (s : Option ScheduledMessage) (j : String) (m : ScheduledMessage)
    → row_of s j ≡ some m
    → m.id ≡ j
row_id_lem none j m h = absurd (ground arith)
row_id_lem (some x) j m h = ground (arith, str_eq_iff x.id j)

abbrev pub memory_database : Database memory
memory_database = record {
  row = λ w j. row_of w.stored j;
  row_id = λ w i m. row_id_lem w.stored i m;
  find_one_rows = λ p w j. refl;
  find_one_found = λ p w m h. found_lem p w.stored m (ok_injective h);
  find_one_missing = λ p w j m h. missing_lem p w.stored j m (ok_injective h);
  find_rows = λ q w j. refl;
  find_found = λ q w ms h. subst (All _) (ok_injective h) (find_found_lem q.matching w.stored);
  save_self = λ m w saved. save_self_lem w.stored m w saved;
  save_other = λ m w j. save_other_lem w.stored m w j refl;
  update_rows = λ set p w raw j same h. update_rows_lem set p w.stored j same;
  update_returned =
      λ set p w raw h. subst (All _) (ok_injective h) (update_returned_lem set p w.stored);
  create_id = λ raw. refl;
  create_content = λ raw. refl;
  create_status = λ raw. refl;
  send_rows = λ r w j. ap (λ s. row_of s j) (send_rows_lem w.answers r w);
}

pub set_lock_set :
    (l : Option String) (key value : String) (w : Memory)
    → w.lock ≡ l
    → (set_lock l key value w).0 ≡ ok true
    → (lock_of w key ≡ none) × (lock_of (set_lock l key value w).1 key ≡ some value)
set_lock_set none key value w e h = ground arith
set_lock_set (some x) key value w e h = absurd (ground arith)

pub set_lock_held :
    (l : Option String) (key value : String) (w : Memory)
    → (set_lock l key value w).0 ≡ ok false
    → (set_lock l key value w).1 ≡ w
set_lock_held none key value w h = absurd (ground arith)
set_lock_held (some x) key value w h = refl

pub get_del_lem :
    (key j : String) (w : Memory)
    → lock_of (memory.redis_del key w) j ≡ (if str_eq key j then none else lock_of w j)
get_del_lem key j w =
    ground (arith, str_eq_iff key j, str_eq_iff key lock_key, str_eq_iff j lock_key)

abbrev pub memory_redis : Redis memory
memory_redis = record {
  set_nx_set = λ key value ttl w. set_lock_set w.lock key value w refl;
  set_nx_held = λ key value ttl w h j. ap (λ w'. lock_of w' j) (set_lock_held w.lock key value w h);
  get_del = get_del_lem;
  eval_atomic = λ script w. inl refl;
}
