-- ===== src/Messages/Claims.antt =====
-- The claim of due messages: no message is claimed twice.
use scheduling_service.Base.{
  ℕ, ◌≡◌, refl, subst, ◌≢◌, inl, inr, Bool, true, String, str_eq_iff, some, arith, List, [], ◌∷◌,
  All, map, has_text,
}
use scheduling_service.Base.Action.{ok, Result-cases}
use scheduling_service.Messages.Model.{ScheduledMessage, processing, Outside, Query}
use scheduling_service.Messages.Laws.{Database, updated}
use scheduling_service.Messages.Delivery.{
  claim_candidates, claim_due_messages, is_claimable, set_processing, is_due, process_batch_size,
}

abbrev ids_of : List ScheduledMessage → List String
ids_of = map (λ m. m.id)

module _ (o : Outside) (db : Database o) (owner : String) where
  -- The claimed entity `m`: its row was pending before, with an id among `ids`, and is in processing
  -- after.
  pub record IsClaimed (ids : List String) (w w' : o.World) (m : ScheduledMessage) : Type 0 where
    pub before : (r : ScheduledMessage) × (db.row w m.id ≡ some r) × (is_claimable ids r ≡ true)
    pub after : (r : ScheduledMessage) × (db.row w' m.id ≡ some r) × (r.status ≡ processing)
    pub status : m.status ≡ processing

  rows-IsClaimed :
      (ids : List String) (w w' : o.World) (raw : List ScheduledMessage)
      → ((j : String)
          → db.row w' j ≡ updated (set_processing (o.timestamp w)) (is_claimable ids) (db.row w j))
      → All
          (λ r.
            (m : ScheduledMessage) × (db.row w m.id ≡ some m)
            × (is_claimable ids m ≡ true)
            × (r ≡ set_processing (o.timestamp w) m))
          raw
      → All (IsClaimed ids w w') (map o.create raw)
  rows-IsClaimed ids w w' [] rows h = tt
  rows-IsClaimed ids w w' (x ∷ raw) rows ((m, stored, claimable, e), rest) = (
    record {
      before = (m, ground (arith, db.create_id x), ground arith);
      after = (set_processing (o.timestamp w) m, ground (arith, db.create_id x, rows m.id), refl);
      status = ground (arith, db.create_status x);
    },
    rows-IsClaimed ids w w' raw rows rest,
  )

  pub claim_candidates-IsClaimed :
      (cs : List ScheduledMessage) (w : o.World) (ms : List ScheduledMessage)
      → (claim_candidates o owner cs w).0 ≡ ok ms
      → All (IsClaimed (ids_of cs) w (claim_candidates o owner cs w).1) ms
  unfolding claim_candidates
  claim_candidates-IsClaimed [] w [] h = tt
  claim_candidates-IsClaimed [] w (m ∷ ms) h = absurd (ground arith)
  claim_candidates-IsClaimed (c ∷ cs) w ms h =
      elim (Result-cases (o.update_returning (set_processing (o.timestamp w)) claimable w).0) [
        | inl (raw, e) ↦
            subst (All (IsClaimed ids w (claim_candidates o owner (c ∷ cs) w).1)) (same raw e) (
              rows-IsClaimed ids w _ raw
                (λ j. ground (
                  arith,
                  db.update_rows (set_processing (o.timestamp w)) claimable w raw j (λ m. refl) e,
                ))
                (db.update_returned (set_processing (o.timestamp w)) claimable w raw e))
        | inr (x, e) ↦ absurd (ground arith)
      ]
    where
      same :
          (raw : List ScheduledMessage)
          → (o.update_returning
              (set_processing (o.timestamp w))
              (is_claimable (map (λ m. m.id) (c ∷ cs)))
              w).0
            ≡ ok raw
          → map o.create raw ≡ ms
      same raw e = ground arith

      ids : List String
      ids = ids_of (c ∷ cs)

      claimable : ScheduledMessage → Bool
      claimable = is_claimable ids

  module _ (ids₁ ids₂ : List String) (w₀ w₁ w₂ : o.World) where
    distinct :
        (m₁ m₂ : ScheduledMessage)
        → IsClaimed ids₁ w₀ w₁ m₁
        → IsClaimed ids₂ w₁ w₂ m₂
        → m₁.id ≢ m₂.id
    distinct m₁ m₂ a b e = ground (arith, a.after, b.before)

    apart_from :
        (m : ScheduledMessage) (ms : List ScheduledMessage)
        → IsClaimed ids₁ w₀ w₁ m
        → All (IsClaimed ids₂ w₁ w₂) ms
        → All (λ m'. m.id ≢ m'.id) ms
    apart_from m [] a bs = tt
    apart_from m (m' ∷ ms) a bs = (distinct m m' a bs.0, apart_from m ms a bs.1)

    disjoint :
        (ms₁ ms₂ : List ScheduledMessage)
        → All (IsClaimed ids₁ w₀ w₁) ms₁
        → All (IsClaimed ids₂ w₁ w₂) ms₂
        → All (λ m. All (λ m'. m.id ≢ m'.id) ms₂) ms₁
    disjoint [] ms₂ hs bs = tt
    disjoint (m ∷ ms₁) ms₂ hs bs = (apart_from m ms₂ hs.0 bs, disjoint ms₁ ms₂ hs.1 bs)

  -- Two claims that follow one another, each for any list of candidates (stale ones included),
  -- return no message in common: if both succeed, no id is in both results.
  pub claims_disjoint :
      (cs₁ cs₂ ms₁ ms₂ : List ScheduledMessage) (w : o.World)
      → (claim_candidates o owner cs₁ w).0 ≡ ok ms₁
      → (claim_candidates o owner cs₂ (claim_candidates o owner cs₁ w).1).0 ≡ ok ms₂
      → All (λ m. All (λ m'. m.id ≢ m'.id) ms₂) ms₁
  claims_disjoint cs₁ cs₂ ms₁ ms₂ w h₁ h₂ =
      disjoint (ids_of cs₁) (ids_of cs₂) w _ _ ms₁ ms₂ (claim_candidates-IsClaimed cs₁ w ms₁ h₁)
        (claim_candidates-IsClaimed cs₂ _ ms₂ h₂)

  candidate_due :
      (now : ℕ) (w : o.World) (cs : List ScheduledMessage) (j : String) (r : ScheduledMessage)
      → All (λ m. (db.row w m.id ≡ some m) × (is_due now m ≡ true)) cs
      → has_text (ids_of cs) j ≡ true
      → db.row w j ≡ some r
      → is_due now r ≡ true
  candidate_due now w [] j r h i e = absurd (ground arith)
  candidate_due now w (c ∷ cs) j r h i e =
      ground (arith, str_eq_iff j c.id, candidate_due now w cs j r h.1)

  -- The row of `m` was pending and due before, and is in processing after.
  pub record IsDueClaim (w w' : o.World) (m : ScheduledMessage) : Type 0 where
    pub before : (r : ScheduledMessage) × (db.row w m.id ≡ some r) × (is_due (o.now w) r ≡ true)
    pub after : (r : ScheduledMessage) × (db.row w' m.id ≡ some r) × (r.status ≡ processing)

  listed :
      (ids : List String) (j : String) (r : ScheduledMessage)
      → r.id ≡ j
      → is_claimable ids r ≡ true
      → has_text ids j ≡ true
  listed ids j r e h = rw (← e) (ground arith)

  due_claims :
      (w w₁ w₂ : o.World) (cs ms : List ScheduledMessage)
      → ((j : String) → db.row w₁ j ≡ db.row w j)
      → All (λ m. (db.row w m.id ≡ some m) × (is_due (o.now w) m ≡ true)) cs
      → All (IsClaimed (ids_of cs) w₁ w₂) ms
      → All (IsDueClaim w w₂) ms
  due_claims w w₁ w₂ cs [] same found claims = tt
  due_claims w w₁ w₂ cs (m ∷ ms) same found (claim, claims) =
      let (r, stored, claimable) = claim.before in
      let stored' : db.row w m.id ≡ some r = ground (arith, same m.id) in
      (
        record {
          before = (
            r,
            stored',
            candidate_due (o.now w) w cs m.id r found
                (listed (ids_of cs) m.id r (db.row_id w₁ m.id r stored) claimable) stored',
          );
          after = claim.after;
        },
        due_claims w w₁ w₂ cs ms same found claims,
      )

  -- If the claim of due messages succeeds, then the row of each claimed message was pending and
  -- due by the clock before, and has the status processing after.
  pub claim_due-IsDueClaim :
      (w : o.World) (ms : List ScheduledMessage)
      → (claim_due_messages o owner w).0 ≡ ok ms
      → All (IsDueClaim w (claim_due_messages o owner w).1) ms
  unfolding claim_due_messages
  claim_due-IsDueClaim w ms h = elim (Result-cases (o.find query w).0) [
    | inl (cs, e) ↦
        let w₁ : o.World = (o.find query w).1 in
        let claimed : (claim_candidates o owner cs w₁).0 ≡ ok ms = ground arith in
        let world : (claim_candidates o owner cs w₁).1 ≡ (claim_due_messages o owner w).1 =
          ground arith in
        subst (λ w'. All (IsDueClaim w w') ms) world
          (due_claims w w₁ _ cs ms (db.find_rows query w) (db.find_found query w cs e)
            (claim_candidates-IsClaimed cs w₁ ms claimed))
    | inr (x, e) ↦ absurd (ground arith)
  ]
    where
      query : Query
      query = record { matching = is_due (o.now w); limit = some process_batch_size }
