-- ===== src/Migrations/Entities.antt =====
-- The entities of modules/scheduler/entities and modules/scheduled-messages/entities, as their decorators declare the
-- columns and the relations.
use scheduling_service.Base.{ℕ, Bool, true, false, String, List, [], ◌∷◌}

-- `type` of `@Column`, with its length, or its values where it is an enum.
pub data EntityType : Type 0 where
  uuid text int boolean jsonb timestamp timestamptz : EntityType
  varchar : (length : ℕ) → EntityType
  enum : (values : List String) → EntityType

pub record EntityColumn : Type 0 where
  pub name : String
  pub type : EntityType
  pub is_nullable : Bool

-- `@ManyToOne` with `@JoinColumn`.
pub record Relation : Type 0 where
  pub column : String
  pub references : String
  pub on_delete : String

pub record Entity : Type 0 where
  pub table : String
  pub columns : List EntityColumn
  pub relations : List Relation

abbrev pub column : String → EntityType → EntityColumn
column name type = record { name = name; type = type; is_nullable = false }

abbrev pub nullable : String → EntityType → EntityColumn
nullable name type = record { name = name; type = type; is_nullable = true }

abbrev pub many_to_one : String → String → String → Relation
many_to_one column references on_delete = record {
  column = column;
  references = references;
  on_delete = on_delete;
}

-- The enums of enums.ts and of scheduled-message.entity.ts.
abbrev pub priority_values : List String
priority_values = "LOW" ∷ "MEDIUM" ∷ "HIGH" ∷ "CRITICAL" ∷ []

abbrev pub schedule_type_values : List String
schedule_type_values = "CRON" ∷ "INTERVAL" ∷ "ONCE" ∷ "IMMEDIATE" ∷ []

abbrev pub execution_status_values : List String
execution_status_values =
    "PENDING" ∷ "RUNNING" ∷ "COMPLETED" ∷ "FAILED" ∷ "CANCELLED" ∷ "TIMEOUT" ∷ []

abbrev pub log_level_values : List String
log_level_values = "DEBUG" ∷ "INFO" ∷ "WARN" ∷ "ERROR" ∷ "FATAL" ∷ []

abbrev pub dependency_type_values : List String
dependency_type_values = "SUCCESS" ∷ "COMPLETION" ∷ "FAILURE" ∷ []

abbrev pub message_status_values : List String
message_status_values = "pending" ∷ "processing" ∷ "sent" ∷ "cancelled" ∷ "failed" ∷ []

abbrev pub job_category_entity : Entity
job_category_entity = record {
  table = "job_categories";
  columns =
      column "id" uuid
      ∷ column "name" (varchar 100)
      ∷ nullable "description" text
      ∷ column "default_priority" (enum priority_values)
      ∷ column "default_timeout" int
      ∷ column "default_max_retries" int
      ∷ column "configuration" jsonb
      ∷ column "is_active" boolean
      ∷ column "created_at" timestamp
      ∷ column "updated_at" timestamp
      ∷ [];
  relations = [];
}

abbrev pub job_entity : Entity
job_entity = record {
  table = "jobs";
  columns =
      column "id" uuid
      ∷ column "name" (varchar 200)
      ∷ nullable "description" text
      ∷ nullable "category_id" uuid
      ∷ column "target_service" (varchar 100)
      ∷ column "target_method" (varchar 100)
      ∷ column "payload" jsonb
      ∷ column "priority" (enum priority_values)
      ∷ column "max_retries" int
      ∷ column "timeout_seconds" int
      ∷ column "is_active" boolean
      ∷ nullable "created_by" uuid
      ∷ column "created_at" timestamp
      ∷ column "updated_at" timestamp
      ∷ nullable "deleted_at" timestamp
      ∷ [];
  relations = many_to_one "category_id" "job_categories" "SET NULL" ∷ [];
}

abbrev pub schedule_entity : Entity
schedule_entity = record {
  table = "schedules";
  columns =
      column "id" uuid
      ∷ column "job_id" uuid
      ∷ column "schedule_type" (enum schedule_type_values)
      ∷ nullable "cron_expression" (varchar 100)
      ∷ nullable "interval_seconds" int
      ∷ nullable "scheduled_at" timestamp
      ∷ column "timezone" (varchar 50)
      ∷ nullable "starts_at" timestamp
      ∷ nullable "ends_at" timestamp
      ∷ column "is_active" boolean
      ∷ column "created_at" timestamp
      ∷ column "updated_at" timestamp
      ∷ [];
  relations = many_to_one "job_id" "jobs" "CASCADE" ∷ [];
}

abbrev pub execution_entity : Entity
execution_entity = record {
  table = "executions";
  columns =
      column "id" uuid
      ∷ column "job_id" uuid
      ∷ nullable "schedule_id" uuid
      ∷ column "status" (enum execution_status_values)
      ∷ column "started_at" timestamp
      ∷ nullable "completed_at" timestamp
      ∷ nullable "failed_at" timestamp
      ∷ column "attempt_number" int
      ∷ nullable "result_data" jsonb
      ∷ nullable "error_data" jsonb
      ∷ nullable "duration_ms" int
      ∷ nullable "worker_id" (varchar 100)
      ∷ nullable "correlation_id" (varchar 100)
      ∷ column "created_at" timestamp
      ∷ [];
  relations =
      many_to_one "job_id" "jobs" "NO ACTION"
      ∷ many_to_one "schedule_id" "schedules" "NO ACTION"
      ∷ [];
}

abbrev pub execution_log_entity : Entity
execution_log_entity = record {
  table = "execution_logs";
  columns =
      column "id" uuid
      ∷ column "execution_id" uuid
      ∷ column "log_level" (enum log_level_values)
      ∷ column "message" text
      ∷ column "context" jsonb
      ∷ column "logged_at" timestamp
      ∷ [];
  relations = many_to_one "execution_id" "executions" "CASCADE" ∷ [];
}

abbrev pub recurring_job_entity : Entity
recurring_job_entity = record {
  table = "recurring_jobs";
  columns =
      column "id" uuid
      ∷ column "name" (varchar 200)
      ∷ column "pattern_type" (varchar 50)
      ∷ column "pattern_config" jsonb
      ∷ column "template_job_id" uuid
      ∷ nullable "last_generated" timestamp
      ∷ nullable "next_generation" timestamp
      ∷ column "is_active" boolean
      ∷ column "created_at" timestamp
      ∷ column "updated_at" timestamp
      ∷ [];
  relations = many_to_one "template_job_id" "jobs" "NO ACTION" ∷ [];
}

abbrev pub job_dependency_entity : Entity
job_dependency_entity = record {
  table = "job_dependencies";
  columns =
      column "id" uuid
      ∷ column "job_id" uuid
      ∷ column "depends_on_job_id" uuid
      ∷ column "dependency_type" (enum dependency_type_values)
      ∷ column "dependency_config" jsonb
      ∷ column "created_at" timestamp
      ∷ [];
  relations =
      many_to_one "job_id" "jobs" "CASCADE" ∷ many_to_one "depends_on_job_id" "jobs" "CASCADE" ∷ [];
}

abbrev pub scheduled_message_entity : Entity
scheduled_message_entity = record {
  table = "scheduled_messages";
  columns =
      column "id" uuid
      ∷ column "user_id" uuid
      ∷ column "conversation_id" uuid
      ∷ column "content" text
      ∷ nullable "metadata" jsonb
      ∷ column "scheduled_at" timestamptz
      ∷ column "status" (enum message_status_values)
      ∷ column "retry_count" int
      ∷ column "created_at" timestamptz
      ∷ column "updated_at" timestamptz
      ∷ [];
  relations = [];
}

-- The list `ENTITIES` of modules/app/typeorm.ts.
abbrev pub entities : List Entity
entities =
    job_entity ∷ schedule_entity ∷ execution_entity ∷ job_category_entity ∷ execution_log_entity
    ∷ recurring_job_entity ∷ job_dependency_entity ∷ scheduled_message_entity ∷ []
