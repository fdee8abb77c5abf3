-- ===== src/Messages/Progress.antt =====
-- Progress of the cron job: what a tick does for a message when the database and Redis are up.
use scheduling_service.Base.{
  ℕ, ◌<◌, ◌≤◌, ◌≡◌, refl, ◌⊎◌, inl, inr, subst, ◌∙◌, Bool, true, String, str_eq, str_eq_iff, none,
  some, arith, List, [], ◌∷◌, All, map, length, has_text, Bool-cases, ap, sym,
}
use scheduling_service.Base.Action.{ok, Result-cases}
use scheduling_service.Messages.Model.{ScheduledMessage, Query, sent, pending, Outside}
use scheduling_service.Messages.Laws.{Database}
use scheduling_service.Messages.Delivery.{
  send_message, send_all, send_request, after_failure, acquire_lock, release_lock, release_lock_lua,
  claim_due_messages, claim_candidates, process_claimed, process_due_messages, lock_key,
  lock_ttl_seconds, process_batch_size, is_due, is_claimable, set_processing, is_owner,
}
use scheduling_service.Messages.Claims.{IsClaimed, claim_candidates-IsClaimed}
use scheduling_service.Messages.Sending.{after_failure-id}
use scheduling_service.Messages.Lock.{process_claimed_ok}
use scheduling_service.Messages.Settled.{send_message_other}

abbrev ids_of : List ScheduledMessage → List String
ids_of = map (λ m. m.id)

-- PostgreSQL and Redis are up: no call of theirs throws. A query with a limit that it does not
-- reach has all rows that match, and an update returns every row that it changed.
pub record IsUp (o : Outside) (db : Database o) : Type 0 where
  pub set_free :
      (value : String) (ttl : ℕ) (w : o.World)
      → o.redis_get w lock_key ≡ none
      → (o.set_nx lock_key value ttl w).0 ≡ ok true
  pub set_rows :
      (value : String) (ttl : ℕ) (w : o.World) (j : String)
      → db.row (o.set_nx lock_key value ttl w).1 j ≡ db.row w j
  pub set_time :
      (value : String) (ttl : ℕ) (w : o.World) → o.now w ≤ o.now (o.set_nx lock_key value ttl w).1
  pub find_all :
      (q : Query) (w : o.World)
      → (ms : List ScheduledMessage) × ((o.find q w).0 ≡ ok ms)
        × ((n : ℕ)
            → q.limit ≡ some n
            → length ms < n
            → (j : String) (m : ScheduledMessage) → db.row w j ≡ some m
            → q.matching m ≡ true
            → has_text (ids_of ms) j ≡ true)
  pub update_all :
      (set : ScheduledMessage → ScheduledMessage) (p : ScheduledMessage → Bool) (w : o.World)
      → ((m : ScheduledMessage) → (set m).id ≡ m.id)
      → (raw : List ScheduledMessage) × ((o.update_returning set p w).0 ≡ ok raw)
        × ((j : String) (m : ScheduledMessage)
            → db.row w j ≡ some m
            → p m ≡ true
            → has_text (ids_of raw) j ≡ true)
  pub saves :
      (m r : ScheduledMessage) (w : o.World)
      → db.row w m.id ≡ some r
      → (s : ScheduledMessage) × ((o.save m w).0 ≡ ok s)
  pub del_rows :
      (key : String) (w : o.World) (j : String) → db.row (o.redis_del key w) j ≡ db.row w j
  pub eval_rows :
      (script : o.World → ℕ × o.World) (w : o.World) (j : String)
      → ((v : o.World) → db.row (script v).1 j ≡ db.row v j)
      → db.row (o.eval script w).1 j ≡ db.row w j

module _ (o : Outside) (db : Database o) (up : IsUp o db) (owner : String) where
  -- The row of that id is there, and sent.
  abbrev pub IsSent : o.World → String → Type 0
  IsSent w j = (r : ScheduledMessage) × (db.row w j ≡ some r) × (r.status ≡ sent)

  send_message_sends :
      (m r : ScheduledMessage) (w : o.World)
      → db.row w m.id ≡ some r
      → (o.send (send_request m) w).0 ≡ ok tt
      → IsSent (send_message o owner m w).1 m.id
  unfolding send_message
  send_message_sends m r w h e =
      let w' : o.World = (o.send (send_request m) w).1 in
      let m' : ScheduledMessage = record m { status = sent } in
      let (s, e') = up.saves m' r w' (db.send_rows (send_request m) w m.id ∙ h) in
      let (r', stored, written) = db.save_self m' w' s e' in (r', ground arith, written.status)

  -- Whether the call answers or throws, the attempt ends, and the message still has a row.
  send_message_ends :
      (m r : ScheduledMessage) (w : o.World)
      → db.row w m.id ≡ some r
      → ((send_message o owner m w).0 ≡ ok tt)
        × (r' : ScheduledMessage) × (db.row (send_message o owner m w).1 m.id ≡ some r')
  unfolding send_message
  send_message_ends m r w h =
      let w' : o.World = (o.send (send_request m) w).1 in
      let kept : db.row w' m.id ≡ some r = db.send_rows (send_request m) w m.id ∙ h in
      elim (Result-cases (o.send (send_request m) w).0) [
        | inl (_, e) ↦
            let m' : ScheduledMessage = record m { status = sent } in
            let (s, e') = up.saves m' r w' kept in
            let (r', stored, written) = db.save_self m' w' s e' in (ground arith, r', ground arith)
        | inr (x, e) ↦
            let m' : ScheduledMessage = after_failure x m in
            let same : m'.id ≡ m.id = after_failure-id o db owner x m in
            let (s, e') = up.saves m' r w' (ap (db.row w') same ∙ kept) in
            let (r', stored, written) = db.save_self m' w' s e' in
            let at_m : db.row (o.save m' w').1 m.id ≡ some r' =
              ap (db.row (o.save m' w').1) (sym same) ∙ stored in
            (ground arith, r', ground (arith, at_m))
      ]

  stays :
      (m r : ScheduledMessage) (ms : List ScheduledMessage) (w : o.World)
      → db.row w m.id ≡ some r
      → All (λ m'. (r' : ScheduledMessage) × (db.row w m'.id ≡ some r')) ms
      → All
          (λ m'. (r' : ScheduledMessage) × (db.row (send_message o owner m w).1 m'.id ≡ some r'))
          ms
  stays m r [] w h a = tt
  stays m r (m' ∷ ms) w h ((r', e), a) = (
    elim (Bool-cases (str_eq m.id m'.id)) [
      | inl t ↦
          let (_, x, stored) = send_message_ends m r w h in
          (x, ground (arith, str_eq_iff m.id m'.id, stored))
      | inr f ↦ (
        r',
        send_message_other o db owner m w m'.id (λ p. ground (arith, str_eq_iff m.id m'.id)) ∙ e,
      )
    ],
    stays m r ms w h a,
  )

  claimed_stored :
      (ids : List String) (w w' : o.World) (ms : List ScheduledMessage)
      → All (IsClaimed o db owner ids w w') ms
      → All (λ m. (r : ScheduledMessage) × (db.row w' m.id ≡ some r)) ms
  claimed_stored ids w w' [] c = tt
  claimed_stored ids w w' (m ∷ ms) (c, cs) =
      let (r, stored, status) = c.after in ((r, stored), claimed_stored ids w w' ms cs)

  -- The messaging service accepts the request of the entity that a claim makes of the row `x`, at any time.
  abbrev pub Accepts : ScheduledMessage → Type 0
  Accepts x =
      (t : ℕ) (v : o.World) → (o.send (send_request (o.create (set_processing t x))) v).0 ≡ ok tt

  created_ids : (raw : List ScheduledMessage) → ids_of (map o.create raw) ≡ ids_of raw
  created_ids [] = refl
  created_ids (x ∷ raw) = ground (arith, db.create_id x, created_ids raw)

  -- Only the entity that the claim makes of `x` has the id.
  abbrev IsOf : String → ScheduledMessage → ScheduledMessage → Type 0
  IsOf j x m = m.id ≡ j → (t : ℕ) × (m ≡ o.create (set_processing t x))

  created-IsOf :
      (ids : List String) (w : o.World) (j : String) (x : ScheduledMessage)
      (raw : List ScheduledMessage)
      → db.row w j ≡ some x
      → All
          (λ r.
            (m : ScheduledMessage) × (db.row w m.id ≡ some m)
            × (is_claimable ids m ≡ true)
            × (r ≡ set_processing (o.timestamp w) m))
          raw
      → All (IsOf j x) (map o.create raw)
  created-IsOf ids w j x [] stored h = tt
  created-IsOf ids w j x (r ∷ raw) stored ((m, of_m, c, e), rest) =
      (own, created-IsOf ids w j x raw stored rest)
    where
      own : IsOf j x (o.create r)
      own i =
          let at_j : m.id ≡ j = ap (λ y. y.id) (sym e) ∙ sym (db.create_id r) ∙ i in
          let same : m ≡ x = ground (arith, ap (db.row w) at_j) in
          (o.timestamp w, ap o.create (e ∙ ap (set_processing (o.timestamp w)) same))

  -- After one message, the id is among the rest or its row is sent.
  listed_or_IsSent :
      (m r x : ScheduledMessage) (ms : List ScheduledMessage) (w : o.World) (j : String)
      → db.row w m.id ≡ some r
      → IsOf j x m
      → Accepts x
      → (has_text (ids_of (m ∷ ms)) j ≡ true) ⊎ IsSent w j
      → (has_text (ids_of ms) j ≡ true) ⊎ IsSent (send_message o owner m w).1 j
  listed_or_IsSent m r x ms w j e own accepts h = elim (Bool-cases (str_eq m.id j)) [
    | inl t ↦
        let at_j : m.id ≡ j = (str_eq_iff m.id j).0 t in
        let (t', same) = own at_j in
        let answered : (o.send (send_request m) w).0 ≡ ok tt =
          ap (λ y. (o.send (send_request y) w).0) same ∙ accepts t' w in
        inr (subst (IsSent (send_message o owner m w).1) at_j (send_message_sends m r w e answered))
    | inr f ↦ elim h [
      | inl l ↦ inl (ground (arith, str_eq_iff m.id j, str_eq_iff j m.id))
      | inr (y, stored, status) ↦ inr (
        y,
        send_message_other o db owner m w j (λ p. ground (arith, str_eq_iff m.id j)) ∙ stored,
        status,
      )
    ]
  ]

  send_all_sends :
      (ms : List ScheduledMessage) (w : o.World) (j : String) (x : ScheduledMessage)
      → All (λ m. (r : ScheduledMessage) × (db.row w m.id ≡ some r)) ms
      → All (IsOf j x) ms
      → Accepts x
      → (has_text (ids_of ms) j ≡ true) ⊎ IsSent w j
      → ((send_all o owner ms w).0 ≡ ok tt) × IsSent (send_all o owner ms w).1 j
  unfolding send_all
  send_all_sends [] w j x a owns accepts (inl h) = absurd (ground arith)
  send_all_sends [] w j x a owns accepts (inr s) = (refl, s)
  send_all_sends (m ∷ ms) w j x ((r, e), a) (own, owns) accepts h =
      let w₁ : o.World = (send_message o owner m w).1 in
      let done = (send_message_ends m r w e).0 in
      let (rest, (y, stored, status)) =
        send_all_sends ms w₁ j x (stays m r ms w e a) owns accepts
          (listed_or_IsSent m r x ms w j e own accepts h) in
      (ground (arith, done, rest), (y, ground (arith, done, stored), status))

  -- A pending message among the candidates is claimed.
  claim_candidates_all :
      (cs : List ScheduledMessage) (w : o.World) (j : String) (m : ScheduledMessage)
      → db.row w j ≡ some m
      → m.status ≡ pending
      → has_text (ids_of cs) j ≡ true
      → (ms : List ScheduledMessage) × ((claim_candidates o owner cs w).0 ≡ ok ms)
        × (has_text (ids_of ms) j ≡ true)
        × All (IsOf j m) ms
  unfolding claim_candidates
  claim_candidates_all [] w j m e p h = absurd (ground arith)
  claim_candidates_all (c ∷ cs) w j m e p h =
      let ids : List String = ids_of (c ∷ cs) in
      let claimable : is_claimable ids m ≡ true = ground (arith, db.row_id w j m e) in
      let (raw, returned, all) =
        up.update_all (set_processing (o.timestamp w)) (is_claimable ids) w (λ x. refl) in
      (
        map o.create raw,
        ground (arith, returned),
        rw (created_ids raw) (all j m e claimable),
        created-IsOf ids w j m raw e
            (db.update_returned (set_processing (o.timestamp w)) (is_claimable ids) w raw returned),
      )

  abbrev pub due_query : o.World → Query
  due_query w = record { matching = is_due (o.now w); limit = some process_batch_size }

  claim_due_all :
      (w : o.World) (j : String) (m : ScheduledMessage)
      → db.row w j ≡ some m
      → is_due (o.now w) m ≡ true
      → ((cs : List ScheduledMessage)
          → (o.find (due_query w) w).0 ≡ ok cs
          → length cs < process_batch_size)
      → (ms : List ScheduledMessage) × ((claim_due_messages o owner w).0 ≡ ok ms)
        × (has_text (ids_of ms) j ≡ true)
        × All (IsOf j m) ms
        × All
            (λ m'.
              (r : ScheduledMessage) × (db.row (claim_due_messages o owner w).1 m'.id ≡ some r))
            ms
  unfolding claim_due_messages
  claim_due_all w j m e due few =
      let w₁ : o.World = (o.find (due_query w) w).1 in
      let (cs, found, all) = up.find_all (due_query w) w in
      let (ms, claimed, listed, own) =
        claim_candidates_all cs w₁ j m (db.find_rows (due_query w) w j ∙ e) (ground arith)
          (all process_batch_size refl (few cs found) j m e due) in
      (
        ms,
        ground (arith, found, claimed),
        listed,
        own,
        subst (λ v. All (λ m'. (r : ScheduledMessage) × (db.row v m'.id ≡ some r)) ms)
            (ground (arith, found))
            (claimed_stored (ids_of cs) w₁ _ ms
              (claim_candidates-IsClaimed o db owner cs w₁ ms claimed)),
      )

  process_claimed_sends :
      (w : o.World) (j : String) (m : ScheduledMessage)
      → db.row w j ≡ some m
      → is_due (o.now w) m ≡ true
      → ((cs : List ScheduledMessage)
          → (o.find (due_query w) w).0 ≡ ok cs
          → length cs < process_batch_size)
      → Accepts m
      → IsSent (process_claimed o owner w).1 j
  unfolding process_claimed
  process_claimed_sends w j m e due few accepts =
      let (ms, claimed, listed, own, stored) = claim_due_all w j m e due few in
      let (sends, (r, stored, status)) =
        send_all_sends ms (claim_due_messages o owner w).1 j m stored own accepts (inl listed) in
      (r, ground (arith, claimed, sends, stored), status)

  release_rows :
      (w : o.World) (j : String) → db.row (release_lock o owner lock_key w) j ≡ db.row w j
  unfolding release_lock release_lock_lua
  release_rows w j = up.eval_rows (release_lock_lua o owner lock_key) w j script_rows
    where
      script_rows : (v : o.World) → db.row (release_lock_lua o owner lock_key v).1 j ≡ db.row v j
      script_rows v = elim (Bool-cases (is_owner o owner (o.redis_get v lock_key))) [
        | inl t ↦ ground (arith, up.del_rows lock_key v j)
        | inr f ↦ ground arith
      ]

  due_later : (t u : ℕ) (m : ScheduledMessage) → t ≤ u → is_due t m ≡ true → is_due u m ≡ true
  due_later t u m h e = ground arith

  -- Where PostgreSQL and Redis are up, the lock is free, and fewer than a full batch of messages
  -- are due: a message that is pending and due is sent when the tick of the cron job ends, and
  -- the tick does not throw, if the messaging service accepts the request that the program builds
  -- of the entity that a claim makes of the message's row, at any time, whatever it answers for
  -- the other messages.
  pub due_message-IsSent :
      (w : o.World) (j : String) (m : ScheduledMessage)
      → db.row w j ≡ some m
      → is_due (o.now w) m ≡ true
      → o.redis_get w lock_key ≡ none
      → (let w₁ = (acquire_lock o owner lock_key lock_ttl_seconds w).1 in
          (cs : List ScheduledMessage)
          → (o.find (due_query w₁) w₁).0 ≡ ok cs
          → length cs < process_batch_size)
      → Accepts m
      → ((process_due_messages o owner w).0 ≡ ok tt) × IsSent (process_due_messages o owner w).1 j
  unfolding process_due_messages acquire_lock
  due_message-IsSent w j m e due free few accepts =
      let w₁ : o.World = (o.set_nx lock_key owner lock_ttl_seconds w).1 in
      let (r, stored, status) =
        process_claimed_sends w₁ j m (up.set_rows owner lock_ttl_seconds w j ∙ e)
          (due_later (o.now w) (o.now w₁) m (up.set_time owner lock_ttl_seconds w) due) few
          accepts in
      let acquired = up.set_free owner lock_ttl_seconds w free in
      let kept = release_rows (process_claimed o owner w₁).1 j in
      (
        ground (arith, acquired, process_claimed_ok o owner w₁),
        (r, ground (arith, acquired, kept, stored), status),
      )
