-- ===== src/Migrations/Rollback.antt =====
-- Every state of the schema that the migrations pass through can be reached and left again.
use scheduling_service.Base.{ℕ, zero, suc, ◌≡◌, refl, some, List, [], ◌∷◌, ◌++◌, take}
use scheduling_service.Migrations.Schema.{Schema, Statement, apply, run, empty}
use scheduling_service.Migrations.Changes.{Migration, migrations}

-- The framework runs `up` in the order of the list, and `down` in the opposite order.
abbrev pub all_up : List Migration → List Statement
all_up [] = []
all_up (m ∷ ms) = m.up ++ all_up ms

abbrev pub all_down : List Migration → List Statement
all_down [] = []
all_down (m ∷ ms) = all_down ms ++ m.down

-- However many of the listed migrations are run on an empty schema, each in turn: all of their
-- statements succeed, with the effects on enums, tables, columns, indexes and foreign keys that
-- PostgreSQL documents, and the `down` methods in the opposite order then succeed and leave the
-- schema empty.
pub rollback :
    (n : ℕ)
    → (s : Schema) × (run (all_up (take n migrations)) empty ≡ some s)
      × (run (all_down (take n migrations)) s ≡ some empty)
unfolding run apply
rollback zero = (_, refl, refl)
rollback (suc zero) = (_, refl, refl)
rollback (suc (suc zero)) = (_, refl, refl)
rollback (suc (suc (suc zero))) = (_, refl, refl)
rollback (suc (suc (suc (suc zero)))) = (_, refl, refl)
rollback (suc (suc (suc (suc (suc zero))))) = (_, refl, refl)
rollback (suc (suc (suc (suc (suc (suc zero)))))) = (_, refl, refl)
rollback (suc (suc (suc (suc (suc (suc (suc n))))))) = (_, refl, refl)
