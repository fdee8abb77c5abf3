-- ===== src/Config/Examples.antt =====
-- The theorems on the configuration at concrete values.
use scheduling_service.Base.{ℕ, ◌≡◌, refl, false, str_eq, none, some, [], ◌∷◌, All, if◌then◌else◌}
use scheduling_service.Base.Action.{ok}
use scheduling_service.Base.Text.{Text, codes}
use scheduling_service.Config.Redis.{
  Variables, sentinel_options, sentinel_store, build_redis_options, cache_module_options_factory,
  redis_db,
}
use scheduling_service.Config.Instants.{iso_8601_with_offset}
use scheduling_service.Config.Sentinels.{IsHost, print_sentinels, sentinel_of}
use scheduling_service.Config.Clients.{clients_agree}

-- "2026-05-09T09:00:00.5+02:00" has an offset, and "2026-05-09T09:00:00" is refused.
naive_refused : iso_8601_with_offset (codes "2026-05-09T09:00:00") ≡ false
unfolding iso_8601_with_offset
naive_refused = refl

abbrev first : Text × ℕ
first = (codes "a", 26_379)

abbrev second : Text × ℕ
second = (codes "b", 26_380)

abbrev hosts : All (λ x. IsHost x.0) (first ∷ second ∷ [])
hosts = (
  record { no_comma = (refl, tt); no_colon = (refl, tt); no_space = (refl, tt) },
  (record { no_comma = (refl, tt); no_colon = (refl, tt); no_space = (refl, tt) }, tt),
)

abbrev variables : Variables
variables name =
    if str_eq name "REDIS_MODE"
    then some (codes "sentinel")
    else if str_eq name "REDIS_SENTINELS"
    then some (print_sentinels first [])
    else if str_eq name "REDIS_MASTER_NAME"
    then some (codes "m")
    else if str_eq name "CORS_ENABLED"
    then some (codes "true")
    else if str_eq name "CORS_ALLOWED_ORIGINS"
    then some (codes "x, y,")
    else none

clients_agree_example :
    (build_redis_options variables
      ≡ ok (
          sentinel_options
            (sentinel_of first ∷ [])
            (codes "m")
            (redis_db variables)
            none
            none
            none
            none))
    × (cache_module_options_factory (λ t. t) (λ n. []) variables
        ≡ sentinel_store (codes "m") (sentinel_of first ∷ []))
clients_agree_example =
    clients_agree (λ t. t) (λ n. []) variables first [] 109 [] (hosts.0, tt) refl refl refl refl
