-- ===== src/Config/Shutdown.antt =====
-- `CacheShutdownService` (modules/app/cache-shutdown.service.ts).
use scheduling_service.Base.{Bool, true, false}
use scheduling_service.Base.Action.{Action, Result, ok, err, Thrown}

-- `Promise.race` against the timer: where the timer comes first, it rejects.
abbrev pub close_in_time : Bool → Result Thrown (Unit {0}) → Bool
close_in_time true closed = false
close_in_time false (ok _) = true
close_in_time false (err e) = false

module _ {W : Type 0} (disconnect : Action W Thrown (Unit {0})) (times_out : W → Bool)
    (warn : W → W) where
  -- The warning of the `catch`.
  abbrev pub after_close : Bool → W → W
  after_close true w = w
  after_close false w = warn w

  abbrev pub close_cache : {E : Type 0} → Action W E (Unit {0})
  close_cache w =
      let (closed, v) = disconnect w in (ok tt, after_close (close_in_time (times_out w) closed) v)
