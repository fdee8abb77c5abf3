-- ===== src/Jwks/Startup.antt =====
-- The attempts at startup.
use scheduling_service.Base.{
  ℕ, ◌≡◌, ◌⊎◌, inl, inr, true, false, String, Option, List, [], ◌∷◌, arith,
}
use scheduling_service.Base.Action.{ok, err, Result-cases}
use scheduling_service.Jwks.Model.{EcJwk, Fetched, LoadError}
use scheduling_service.Jwks.Service.{
  load_public_key, load_with_retry, on_module_init, no_keys, Started,
}

module _ (import_key : EcJwk → Option String) where
  -- How a start ends: with the keys of the first answer that loads, or in the background.
  abbrev pub Loaded : Started → List ℕ → Fetched → Type 0
  Loaded started slept answer =
      (load_public_key import_key answer ≡ ok started.keys)
      × (started.slept ≡ slept)
      × (started.in_background ≡ false)

  abbrev pub Fails : Fetched → Type 0
  Fails answer = (e : LoadError) × (load_public_key import_key answer ≡ err e)

  pub on_module_init_cases :
      (answers : ℕ → Fetched)
      → (let started = on_module_init import_key answers in
          Loaded started [] (answers 1)
          ⊎ (Fails (answers 1) × Loaded started (2_000 ∷ []) (answers 2))
          ⊎ (Fails (answers 1)
              × Fails (answers 2)
              × Loaded started (2_000 ∷ 4_000 ∷ []) (answers 3))
          ⊎ (Fails (answers 1)
              × Fails (answers 2)
              × Fails (answers 3)
              × (started
                  ≡ record { keys = no_keys; slept = 2_000 ∷ 4_000 ∷ []; in_background = true })))
  unfolding on_module_init load_with_retry
  on_module_init_cases answers = elim (Result-cases (load_public_key import_key (answers 1))) [
    | inl (k, e) ↦ inl (ground arith, ground arith, ground arith)
    | inr (x, e) ↦ elim (Result-cases (load_public_key import_key (answers 2))) [
      | inl (k, e') ↦ inr (inl ((x, e), (ground arith, ground arith, ground arith)))
      | inr (x', e') ↦ elim (Result-cases (load_public_key import_key (answers 3))) [
        | inl (k, e'') ↦
            inr (inr (inl ((x, e), (x', e'), (ground arith, ground arith, ground arith))))
        | inr (x'', e'') ↦ inr (inr (inr ((x, e), (x', e'), (x'', e''), ground arith)))
      ]
    ]
  ]
