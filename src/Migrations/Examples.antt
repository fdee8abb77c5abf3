-- ===== src/Migrations/Examples.antt =====
-- A test of the migrations.
use scheduling_service.Migrations.Fit.{fits_after, entities_fit}
use scheduling_service.Base.{◌≡◌, false, some, take}
use scheduling_service.Migrations.Schema.{Schema, run, empty}
use scheduling_service.Migrations.Changes.{migrations}
use scheduling_service.Migrations.Rollback.{all_up, all_down, rollback}

rollback_example :
    (s : Schema) × (run (all_up (take 5 migrations)) empty ≡ some s)
    × (run (all_down (take 5 migrations)) s ≡ some empty)
rollback_example = rollback 5

entities_fit_example : fits_after (run (all_up (take 5 migrations)) empty) ≡ false
entities_fit_example = entities_fit 5
