-- ===== src/Messages/Lock.antt =====
-- The distributed lock of the cron job: who may take it, and who may give it back.
use scheduling_service.Base.{
  ℕ, ◌≡◌, ◌≢◌, inl, inr, true, String, str_eq_iff, str_eq_refl, none, some, arith, if◌then◌else◌,
}
use scheduling_service.Base.Action.{ok, Result-cases, ◌>>=◌}
use scheduling_service.Messages.Model.{Outside}
use scheduling_service.Messages.Laws.{Redis}
use scheduling_service.Messages.Delivery.{
  acquire_lock, release_lock, release_lock_lua, is_owner, claim_due_messages, send_all,
  process_due_messages, process_claimed, lock_key, lock_ttl_seconds,
}

pub process_claimed_ok :
    (o : Outside) (owner : String) (w : o.World) → (process_claimed o owner w).0 ≡ ok tt
unfolding process_claimed
process_claimed_ok o owner w =
    elim (Result-cases ((claim_due_messages o owner >>= send_all o owner) w).0) [
      | inl (r, e) ↦ ground arith
      | inr (x, e) ↦ ground arith
    ]

module _ (o : Outside) (redis : Redis o) where
  -- Once a process has taken the lock, no process takes it in the world right after.
  pub acquire_exclusive :
      (owner other : String) (key : String) (ttl : ℕ) (w : o.World)
      → (acquire_lock o owner key ttl w).0 ≡ ok true
      → (acquire_lock o other key ttl (acquire_lock o owner key ttl w).1).0 ≢ ok true
  unfolding acquire_lock
  acquire_exclusive owner other key ttl w h again = ground (
    arith,
    redis.set_nx_set key owner ttl w h,
    redis.set_nx_set key other ttl (o.set_nx key owner ttl w).1 again,
  )

  -- What the script leaves under the key that it is given.
  lua_lem :
      (owner key : String) (w : o.World)
      → o.redis_get (release_lock_lua o owner key w).1 key
        ≡ (if is_owner o owner (o.redis_get w key) then none else o.redis_get w key)
  unfolding release_lock_lua
  lua_lem owner key w = ground (arith, redis.get_del key key w, str_eq_refl key)

  -- Releasing a lock that another process holds leaves it held by that process.
  pub release_keeps_other :
      (owner other key : String) (w : o.World)
      → o.redis_get w key ≡ some other
      → other ≢ owner
      → o.redis_get (release_lock o owner key w) key ≡ some other
  unfolding release_lock
  release_keeps_other owner other key w h ne =
      elim (redis.eval_atomic (release_lock_lua o owner key) w) [
        | inl e ↦ ground (arith, lua_lem owner key w, str_eq_iff other owner)
        | inr (x, e, same) ↦ ground (arith, same key)
      ]

  release_frees_own :
      (owner key : String) (w : o.World) (n : ℕ)
      → (o.eval (release_lock_lua o owner key) w).0 ≡ ok n
      → o.redis_get (release_lock o owner key w) key ≢ some owner
  unfolding release_lock
  release_frees_own owner key w n ran held =
      elim (redis.eval_atomic (release_lock_lua o owner key) w) [
        | inl e ↦ ground (arith, lua_lem owner key w, str_eq_refl owner)
        | inr (x, e, same) ↦ ground arith
      ]

  -- A tick of the cron job that does not get the lock does nothing more; one that gets it never
  -- throws, and if the release script ran then this process no longer holds the lock when the
  -- tick ends.
  pub process_lem :
      (owner : String) (w : o.World) (n : ℕ)
      → let locked = acquire_lock o owner lock_key lock_ttl_seconds w in
        let worked = (process_claimed o owner locked.1).1 in
        (locked.0 ≢ ok true → (process_due_messages o owner w).1 ≡ locked.1)
        × (locked.0 ≡ ok true → (process_due_messages o owner w).0 ≡ ok tt)
        × (locked.0 ≡ ok true
            → (o.eval (release_lock_lua o owner lock_key) worked).0 ≡ ok n
            → o.redis_get (process_due_messages o owner w).1 lock_key ≢ some owner)
  unfolding process_due_messages
  process_lem owner w n = (
    λ h. ground arith,
    λ h.
        ground
          (arith, process_claimed_ok o owner (acquire_lock o owner lock_key lock_ttl_seconds w).1),
    λ h ran. ground (
      arith,
      release_frees_own owner lock_key
          (process_claimed o owner (acquire_lock o owner lock_key lock_ttl_seconds w).1).1 n ran,
    ),
  )
