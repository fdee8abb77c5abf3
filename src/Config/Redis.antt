-- ===== src/Config/Redis.antt =====
-- config/redis.config.ts and modules/app/cache.ts. A variable's value is the list of its code units.
use scheduling_service.Base.{
  ℕ, ◌+◌, ◌-◌, ◌*◌, ◌==◌, Bool, true, false, ◌||◌, String, Option, none, some, get_or, List, [],
  ◌∷◌, ◌++◌, map, if◌then◌else◌,
}
use scheduling_service.Base.Action.{Result, ok, err}
use scheduling_service.Base.Text.{Text, codes, same_text, trim, trim_start, split_at, is_digit}

-- What `Number.parseInt(text, 10)` gives.
pub data Parsed : Type 0 where
  nan : Parsed
  whole negative : ℕ → Parsed

abbrev pub digits_value : ℕ → Text → ℕ
digits_value n [] = n
digits_value n (c ∷ cs) =
    let rest = digits_value (10 * n + (c - b'0')) cs in if is_digit c then rest else n

-- The digits at the front, if there is one at all.
abbrev pub leading_number : Text → Option ℕ
leading_number [] = none
leading_number (c ∷ cs) = if is_digit c then some (digits_value 0 (c ∷ cs)) else none

abbrev pub unsigned : Option ℕ → Parsed
unsigned none = nan
unsigned (some n) = whole n

abbrev pub negated : Option ℕ → Parsed
negated none = nan
negated (some n) = negative n

abbrev pub signed : Text → Parsed
signed [] = nan
signed (c ∷ cs) =
    if c == b'-'
    then negated (leading_number cs)
    else if c == b'+'
    then unsigned (leading_number cs)
    else unsigned (leading_number (c ∷ cs))

abbrev pub parse_int10 : Text → Parsed
parse_int10 t = signed (trim_start t)

pub record Sentinel : Type 0 where
  pub host : Text
  pub port : Parsed

-- `Number.parseInt(undefined, 10)` is `NaN`.
abbrev pub parse_port : List Text → Parsed
parse_port [] = nan
parse_port (port ∷ rest) = parse_int10 port

abbrev pub parse_sentinel : Text → Sentinel
parse_sentinel s =
    let (host, rest) = split_at b':' (trim s) in record { host = host; port = parse_port rest }

unfoldable pub parse_sentinels : Text → List Sentinel
parse_sentinels sentinels_str =
    let (first, rest) = split_at b',' sentinels_str in map parse_sentinel (first ∷ rest)

-- `configService.get(name)`.
abbrev pub Variables : Type 0
Variables = String → Option Text

pub data RedisOptions : Type 0 where
  sentinel_options :
      (sentinels : List Sentinel) (name : Text) (db : Parsed)
      (username password sentinel_username sentinel_password : Option Text)
      → RedisOptions
  direct_options : (host : Text) (port db : Parsed) (username password : Option Text) → RedisOptions

-- `!text`.
abbrev pub missing : Option Text → Bool
missing none = true
missing (some []) = true
missing (some (c ∷ cs)) = false

module _ (get : Variables) where
  abbrev pub redis_mode : Text
  redis_mode = get_or (get "REDIS_MODE") (codes "direct")

  abbrev pub redis_db : Parsed
  redis_db = parse_int10 (get_or (get "REDIS_DB") (codes "0"))

  abbrev pub is_sentinel_mode : Bool
  is_sentinel_mode = same_text redis_mode (codes "sentinel")

  abbrev pub sentinel_branch : Result String RedisOptions
  sentinel_branch =
      if missing (get "REDIS_SENTINELS")
      then err "REDIS_SENTINELS is required when REDIS_MODE=sentinel"
      else if missing (get "REDIS_MASTER_NAME")
      then err "REDIS_MASTER_NAME is required when REDIS_MODE=sentinel"
      else ok (
          sentinel_options (parse_sentinels (get_or (get "REDIS_SENTINELS") []))
            (get_or (get "REDIS_MASTER_NAME") []) redis_db (get "REDIS_USERNAME")
            (get "REDIS_PASSWORD") (get "REDIS_SENTINEL_USERNAME") (get "REDIS_SENTINEL_PASSWORD"))

  abbrev pub direct_branch : RedisOptions
  direct_branch =
      direct_options (get_or (get "REDIS_HOST") (codes "localhost"))
        (parse_int10 (get_or (get "REDIS_PORT") (codes "6379"))) redis_db (get "REDIS_USERNAME")
        (get "REDIS_PASSWORD")

  unfoldable pub build_redis_options : Result String RedisOptions
  build_redis_options = if is_sentinel_mode then sentinel_branch else ok direct_branch

-- The store of the cache: a sentinel client, or a URL.
pub data CacheStore : Type 0 where
  sentinel_store : (name : Text) (sentinel_root_nodes : List Sentinel) → CacheStore
  url_store : Text → CacheStore

-- `encode` is `encodeURIComponent`, and `print` writes a number of the database into a template.
module _ (encode : Text → Text) (print : Parsed → Text) (get : Variables) where
  abbrev pub given_text : Option Text → Bool
  given_text none = false
  given_text (some []) = false
  given_text (some (c ∷ cs)) = true

  abbrev pub cache_auth : Option Text → Option Text → Text
  cache_auth username password =
      if given_text username || given_text password
      then encode (get_or username []) ++ (codes ":" ++ (encode (get_or password []) ++ codes "@"))
      else []

  unfoldable pub cache_module_options_factory : CacheStore
  cache_module_options_factory =
      if is_sentinel_mode get
      then sentinel_store (get_or (get "REDIS_MASTER_NAME") (codes "mymaster"))
          (parse_sentinels (get_or (get "REDIS_SENTINELS") []))
      else url_store (
          codes "redis://"
          ++ (cache_auth (get "REDIS_USERNAME") (get "REDIS_PASSWORD")
              ++ (get_or (get "REDIS_HOST") (codes "redis")
                  ++ (codes ":"
                      ++ (get_or (get "REDIS_PORT") (codes "6379")
                          ++ (codes "/" ++ print (redis_db get)))))))
