-- ===== src/Config/Boot.antt =====
-- What main.ts, app.module.ts, typeorm.ts, grpc.module.ts and migration.config.ts read of the environment and pass to the
-- frameworks.
use scheduling_service.Base.{
  ℕ, ◌==◌, Bool, true, false, String, Option, none, some, get_or, List, [], ◌∷◌, ◌++◌,
  if◌then◌else◌,
}
use scheduling_service.Base.Action.{Result, ok, err}
use scheduling_service.Base.Text.{Text, codes, same_text}
use scheduling_service.Queue.Model.{JobsOptions}
use scheduling_service.Queue.Defaults.{app_defaults}
use scheduling_service.Migrations.Entities.{
  Entity, job_entity, schedule_entity, execution_entity, job_category_entity, execution_log_entity,
  recurring_job_entity, job_dependency_entity, entities,
}
use scheduling_service.Migrations.Changes.{Migration, migrations}
use scheduling_service.Config.Redis.{
  Variables, RedisOptions, build_redis_options, Parsed, parse_int10,
}
use scheduling_service.Config.Origins.{cors}
use scheduling_service.Config.Environment.{DatabaseConfig, get_env_database_config}

-- `configService.get(name, 'false') === 'true'`
abbrev pub is_enabled : Variables → String → Bool
is_enabled get name = same_text (get_or (get name) (codes "false")) (codes "true")

-- `contentSecurityPolicy` of helmet: its directives, or `undefined` for helmet's own.
abbrev pub content_security_policy : Bool → Option (List (String × List String))
content_security_policy false = none
content_security_policy true = some (
    ("defaultSrc", "'self'" ∷ [])
    ∷ ("scriptSrc", "'self'" ∷ "'unsafe-inline'" ∷ [])
    ∷ ("styleSrc", "'self'" ∷ "'unsafe-inline'" ∷ "https:" ∷ [])
    ∷ ("imgSrc", "'self'" ∷ "data:" ∷ [])
    ∷ [])

-- `crossOriginEmbedderPolicy`; `none` is `undefined`.
abbrev pub cross_origin_embedder_policy : Bool → Option Bool
cross_origin_embedder_policy swagger_enabled = if swagger_enabled then some false else none

abbrev pub cors_methods : List String
cors_methods = "GET" ∷ "POST" ∷ "PUT" ∷ "PATCH" ∷ "DELETE" ∷ "OPTIONS" ∷ []

abbrev pub cors_allowed_headers : List String
cors_allowed_headers =
    "Authorization" ∷ "Content-Type" ∷ "Accept" ∷ "Origin" ∷ "X-Requested-With" ∷ "X-Device-Type"
    ∷ []

abbrev pub proto_path : (exists : Bool) (dist src : Text) → Text
proto_path exists dist src = if exists then dist else src

abbrev pub grpc_url : Variables → Text
grpc_url get =
    get_or (get "GRPC_HOST") (codes "0.0.0.0")
    ++ (codes ":" ++ get_or (get "GRPC_PORT") (codes "3001"))

abbrev pub http_port : Variables → Text
http_port get = get_or (get "HTTP_PORT") (codes "3000")

abbrev pub messaging_url : Variables → Text
messaging_url get =
    get_or (get "MESSAGING_SERVICE_HOST") (codes "localhost")
    ++ (codes ":" ++ get_or (get "MESSAGING_SERVICE_PORT") (codes "40010"))

-- What `bootstrap` sets up before it listens; `cors_origins` is `none` where CORS is not enabled.
pub record Application : Type 0 where
  pub swagger : Bool
  pub policy : Option (List (String × List String))
  pub embedder_policy : Option Bool
  pub cors_origins : Option (Option (List Text))
  pub grpc : Text
  pub http : Text

abbrev pub bootstrap : Variables → Application
bootstrap get =
    let swagger_enabled : Bool = is_enabled get "SWAGGER_ENABLED" in
    record {
      swagger = swagger_enabled;
      policy = content_security_policy swagger_enabled;
      embedder_policy = cross_origin_embedder_policy swagger_enabled;
      cors_origins = cors get;
      grpc = grpc_url get;
      http = http_port get;
    }

-- `bullModuleAsyncOptions`: the connection is that of the other clients, with two fields set.
pub record BullOptions : Type 0 where
  pub connection : RedisOptions
  pub max_retries_per_request : Option ℕ
  pub enable_ready_check : Bool
  pub job_defaults : JobsOptions

abbrev pub bull_connection : Result String RedisOptions → Result String BullOptions
bull_connection (err e) = err e
bull_connection (ok connection) = ok (record {
  connection = connection;
  max_retries_per_request = none;
  enable_ready_check = false;
  job_defaults = app_defaults;
})

abbrev pub bull_options : Variables → Result String BullOptions
bull_options get = bull_connection (build_redis_options get)

pub record Throttler : Type 0 where
  pub name : String
  pub ttl : ℕ
  pub limit : ℕ

abbrev pub short_throttler : Throttler
short_throttler = record { name = "short"; ttl = 1000; limit = 3 }

abbrev pub medium_throttler : Throttler
medium_throttler = record { name = "medium"; ttl = 10_000; limit = 20 }

abbrev pub long_throttler : Throttler
long_throttler = record { name = "long"; ttl = 60_000; limit = 100 }

pub record DataSourceOptions : Type 0 where
  pub entity_classes : List Entity
  pub logging : Bool
  pub migration_classes : List Migration
  pub migrations_run : Bool
  pub synchronize : Bool

abbrev pub get_data_source_options : Variables → DataSourceOptions
get_data_source_options get = record {
  entity_classes = entities;
  logging = is_enabled get "DB_LOGGING";
  migration_classes = migrations;
  migrations_run = is_enabled get "DB_MIGRATIONS_RUN";
  synchronize = is_enabled get "DB_SYNCHRONIZE";
}

-- The class `URL`, which throws on a text that is no URL.
pub record ParsedUrl : Type 0 where
  pub hostname : Text
  pub port : Text
  pub username : Text
  pub password : Text
  pub pathname : Text

-- `parseInt(port, 10) || DEFAULT_POSTGRES_PORT`
abbrev pub port_or_default : Parsed → Parsed
port_or_default Parsed.nan = Parsed.whole 5432
port_or_default (Parsed.whole n) = if n == 0 then Parsed.whole 5432 else Parsed.whole n
port_or_default (Parsed.negative n) = if n == 0 then Parsed.whole 5432 else Parsed.negative n

abbrev pub without_first : Text → Text
without_first [] = []
without_first (c ∷ cs) = cs

-- The connection: its port is a number where it comes from a URL, and else a text.
pub data Connection : Type 0 where
  from_url : (host : Text) (port : Parsed) (username password database : Text) → Connection
  from_variables : DatabaseConfig → Connection

abbrev pub parsed_connection : Result String ParsedUrl → Result String Connection
parsed_connection (err e) = err e
parsed_connection (ok u) = ok (
    from_url u.hostname (port_or_default (parse_int10 u.port)) u.username u.password
      (without_first u.pathname))

module _ (parse_url : Text → Result String ParsedUrl) (get : Variables) where
  abbrev pub parse_database_url : Text → Result String Connection
  parse_database_url url = parsed_connection (parse_url url)

  -- `databaseUrl ? parseDatabaseUrl(databaseUrl) : getEnvDatabaseConfig(configService)`
  abbrev pub connection_of : Option Text → Result String Connection
  connection_of none = ok (from_variables (get_env_database_config get))
  connection_of (some []) = ok (from_variables (get_env_database_config get))
  connection_of (some (c ∷ cs)) = parse_database_url (c ∷ cs)

  abbrev pub with_options :
      Result String Connection → Result String (Connection × DataSourceOptions)
  with_options (err e) = err e
  with_options (ok connection) = ok (connection, get_data_source_options get)

  abbrev pub type_orm_module_options_factory : Result String (Connection × DataSourceOptions)
  type_orm_module_options_factory = with_options (connection_of (get "DB_URL"))

-- The entities of the command line's data source in migration.config.ts.
abbrev pub cli_entities : List Entity
cli_entities =
    job_entity ∷ schedule_entity ∷ execution_entity ∷ job_category_entity ∷ execution_log_entity
    ∷ recurring_job_entity ∷ job_dependency_entity ∷ []
