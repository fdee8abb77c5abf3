-- ===== src/Config/Clients.antt =====
-- The Redis clients of the queues, the locks and the cache (config/redis.config.ts, modules/app/cache.ts): to
-- which nodes they connect.
use scheduling_service.Base.{
  ℕ, ◌≡◌, ◌⊎◌, refl, inl, inr, Bool, true, false, String, some, List, ◌∷◌, All, map, arith,
  if◌then◌else◌,
}
use scheduling_service.Base.Action.{Result, ok, err}
use scheduling_service.Base.Text.{Text, codes}
use scheduling_service.Config.Redis.{
  Variables, RedisOptions, sentinel_options, sentinel_store, build_redis_options,
  cache_module_options_factory, redis_db, Parsed, is_sentinel_mode, missing,
}
use scheduling_service.Config.Sentinels.{
  IsHost, print_sentinels, sentinel_of, parse-print_sentinels,
}

-- In sentinel mode with a master name, where REDIS_SENTINELS is a written list of hosts (without
-- comma, colon or white space) and ports, the options of the Redis clients and the store of the
-- cache both have exactly the hosts and ports of that list, and the same master.
pub clients_agree :
    (encode : Text → Text) (print : Parsed → Text) (get : Variables) (s : Text × ℕ)
    (ss : List (Text × ℕ)) (c : ℕ) (name : Text)
    → All (λ x. IsHost x.0) (s ∷ ss)
    → missing (some (print_sentinels s ss)) ≡ false
    → get "REDIS_MODE" ≡ some (codes "sentinel")
    → get "REDIS_SENTINELS" ≡ some (print_sentinels s ss)
    → get "REDIS_MASTER_NAME" ≡ some (c ∷ name)
    → (build_redis_options get
        ≡ ok (
            sentinel_options
              (map sentinel_of (s ∷ ss))
              (c ∷ name)
              (redis_db get)
              (get "REDIS_USERNAME")
              (get "REDIS_PASSWORD")
              (get "REDIS_SENTINEL_USERNAME")
              (get "REDIS_SENTINEL_PASSWORD")))
      × (cache_module_options_factory encode print get
          ≡ sentinel_store (c ∷ name) (map sentinel_of (s ∷ ss)))
unfolding build_redis_options cache_module_options_factory
clients_agree encode print get s ss c name hosts given mode sentinels master =
    let nodes = parse-print_sentinels s ss hosts in
    (rw (mode, sentinels, master, given, nodes) refl, rw (mode, sentinels, master, nodes) refl)

branch_err :
    (m s n : Bool) (x d : RedisOptions) (a b e : String)
    → ◌≡◌ {A = Result String RedisOptions}
        (if m then (if s then err a else if n then err b else ok x) else ok d)
        (err e)
    → (m ≡ true) × ((s ≡ true) ⊎ (n ≡ true))
branch_err true true n x d a b e h = (refl, inl refl)
branch_err true false true x d a b e h = (refl, inr refl)
branch_err true false false x d a b e h = absurd (ground arith)
branch_err false s n x d a b e h = absurd (ground arith)

-- The options are refused only in sentinel mode, for want of the sentinels or of the name of the master.
pub build_redis_options_err :
    (get : Variables) (e : String)
    → build_redis_options get ≡ err e
    → (is_sentinel_mode get ≡ true)
      × ((missing (get "REDIS_SENTINELS") ≡ true) ⊎ (missing (get "REDIS_MASTER_NAME") ≡ true))
unfolding build_redis_options
build_redis_options_err get e h =
    branch_err (is_sentinel_mode get) (missing (get "REDIS_SENTINELS"))
      (missing (get "REDIS_MASTER_NAME")) _ _ _ _ e h
