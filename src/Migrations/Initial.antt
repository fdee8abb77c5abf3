-- ===== src/Migrations/Initial.antt =====
-- `InitialSchema` (modules/app/migrations/1743070800000-InitialSchema.ts).
use scheduling_service.Base.{ℕ, true, false, String, List, [], ◌∷◌, ◌++◌}
use scheduling_service.Migrations.Schema.{
  ColumnType, character_varying, plain, enum, Column, Table, Statement, create_type, drop_type,
  create_table, drop_table, create_index, add_foreign_key, drop_foreign_key,
}

abbrev pub required : String → ColumnType → Column
required name type = record { name = name; type = type; is_nullable = false }

abbrev pub optional : String → ColumnType → Column
optional name type = record { name = name; type = type; is_nullable = true }

abbrev pub uuid : ColumnType
uuid = plain "uuid"

abbrev pub text : ColumnType
text = plain "text"

abbrev pub varchar : ℕ → ColumnType
varchar = character_varying

abbrev pub integer : ColumnType
integer = plain "integer"

abbrev pub jsonb : ColumnType
jsonb = plain "jsonb"

abbrev pub boolean : ColumnType
boolean = plain "boolean"

abbrev pub timestamp : ColumnType
timestamp = plain "TIMESTAMP"

abbrev pub create_enums : List Statement
create_enums =
    create_type "priority_enum" ("LOW" ∷ "MEDIUM" ∷ "HIGH" ∷ "CRITICAL" ∷ [])
    ∷ create_type "schedule_type_enum" ("CRON" ∷ "INTERVAL" ∷ "ONCE" ∷ "IMMEDIATE" ∷ [])
    ∷ create_type "execution_status_enum"
        ("PENDING" ∷ "RUNNING" ∷ "COMPLETED" ∷ "FAILED" ∷ "CANCELLED" ∷ "TIMEOUT" ∷ [])
    ∷ create_type "log_level_enum" ("DEBUG" ∷ "INFO" ∷ "WARN" ∷ "ERROR" ∷ "FATAL" ∷ [])
    ∷ create_type "dependency_type_enum" ("SUCCESS" ∷ "COMPLETION" ∷ "FAILURE" ∷ [])
    ∷ []

abbrev pub job_categories_table : Table
job_categories_table = record {
  name = "job_categories";
  columns =
      required "id" uuid
      ∷ required "name" (varchar 100)
      ∷ optional "description" text
      ∷ required "default_priority" (enum "priority_enum")
      ∷ required "default_timeout" integer
      ∷ required "default_max_retries" integer
      ∷ required "configuration" jsonb
      ∷ required "is_active" boolean
      ∷ required "created_at" timestamp
      ∷ required "updated_at" timestamp
      ∷ [];
}

abbrev pub jobs_table : Table
jobs_table = record {
  name = "jobs";
  columns =
      required "id" uuid
      ∷ required "name" (varchar 200)
      ∷ optional "description" text
      ∷ required "category_id" uuid
      ∷ required "target_service" (varchar 100)
      ∷ required "target_method" (varchar 100)
      ∷ required "payload" jsonb
      ∷ required "priority" (enum "priority_enum")
      ∷ required "max_retries" integer
      ∷ required "timeout_seconds" integer
      ∷ required "is_active" boolean
      ∷ optional "created_by" uuid
      ∷ required "created_at" timestamp
      ∷ required "updated_at" timestamp
      ∷ optional "deleted_at" timestamp
      ∷ [];
}

abbrev pub schedules_table : Table
schedules_table = record {
  name = "schedules";
  columns =
      required "id" uuid
      ∷ required "job_id" uuid
      ∷ required "schedule_type" (enum "schedule_type_enum")
      ∷ optional "cron_expression" (varchar 100)
      ∷ optional "interval_seconds" integer
      ∷ optional "scheduled_at" timestamp
      ∷ required "timezone" (varchar 50)
      ∷ optional "starts_at" timestamp
      ∷ optional "ends_at" timestamp
      ∷ required "is_active" boolean
      ∷ required "created_at" timestamp
      ∷ required "updated_at" timestamp
      ∷ [];
}

abbrev pub executions_table : Table
executions_table = record {
  name = "executions";
  columns =
      required "id" uuid
      ∷ required "job_id" uuid
      ∷ optional "schedule_id" uuid
      ∷ required "status" (enum "execution_status_enum")
      ∷ required "started_at" timestamp
      ∷ optional "completed_at" timestamp
      ∷ optional "failed_at" timestamp
      ∷ required "attempt_number" integer
      ∷ optional "result_data" jsonb
      ∷ optional "error_data" jsonb
      ∷ optional "duration_ms" integer
      ∷ optional "worker_id" (varchar 100)
      ∷ optional "correlation_id" (varchar 100)
      ∷ required "created_at" timestamp
      ∷ [];
}

abbrev pub execution_logs_table : Table
execution_logs_table = record {
  name = "execution_logs";
  columns =
      required "id" uuid
      ∷ required "execution_id" uuid
      ∷ required "log_level" (enum "log_level_enum")
      ∷ required "message" text
      ∷ required "context" jsonb
      ∷ required "logged_at" timestamp
      ∷ [];
}

abbrev pub recurring_jobs_table : Table
recurring_jobs_table = record {
  name = "recurring_jobs";
  columns =
      required "id" uuid
      ∷ required "name" (varchar 200)
      ∷ required "pattern_type" (varchar 50)
      ∷ required "pattern_config" jsonb
      ∷ required "template_job_id" uuid
      ∷ optional "last_generated" timestamp
      ∷ optional "next_generation" timestamp
      ∷ required "is_active" boolean
      ∷ required "created_at" timestamp
      ∷ required "updated_at" timestamp
      ∷ [];
}

abbrev pub job_dependencies_table : Table
job_dependencies_table = record {
  name = "job_dependencies";
  columns =
      required "id" uuid
      ∷ required "job_id" uuid
      ∷ required "depends_on_job_id" uuid
      ∷ required "dependency_type" (enum "dependency_type_enum")
      ∷ required "dependency_config" jsonb
      ∷ required "created_at" timestamp
      ∷ [];
}

abbrev pub foreign_key : String → String → String → String → String → Statement
foreign_key name table column references on_delete = add_foreign_key (record {
  name = name;
  table = table;
  column = column;
  references = references;
  on_delete = on_delete;
})

abbrev pub initial_up : List Statement
initial_up =
    create_enums
    ++ (create_table job_categories_table
        ∷ create_index "IDX_job_categories_is_active" "job_categories"
        ∷ create_table jobs_table
        ∷ create_index "IDX_jobs_is_active" "jobs"
        ∷ create_index "IDX_jobs_priority" "jobs"
        ∷ create_index "IDX_jobs_created_at" "jobs"
        ∷ foreign_key "FK_jobs_category_id" "jobs" "category_id" "job_categories" "NO ACTION"
        ∷ create_table schedules_table
        ∷ create_index "IDX_schedules_is_active" "schedules"
        ∷ create_index "IDX_schedules_schedule_type" "schedules"
        ∷ foreign_key "FK_schedules_job_id" "schedules" "job_id" "jobs" "CASCADE"
        ∷ create_table executions_table
        ∷ create_index "IDX_executions_job_id" "executions"
        ∷ create_index "IDX_executions_status" "executions"
        ∷ create_index "IDX_executions_started_at" "executions"
        ∷ foreign_key "FK_executions_job_id" "executions" "job_id" "jobs" "NO ACTION"
        ∷ foreign_key "FK_executions_schedule_id" "executions" "schedule_id" "schedules" "NO ACTION"
        ∷ create_table execution_logs_table
        ∷ create_index "IDX_execution_logs_execution_id" "execution_logs"
        ∷ create_index "IDX_execution_logs_log_level" "execution_logs"
        ∷ create_index "IDX_execution_logs_logged_at" "execution_logs"
        ∷ foreign_key "FK_execution_logs_execution_id" "execution_logs" "execution_id" "executions"
            "CASCADE"
        ∷ create_table recurring_jobs_table
        ∷ create_index "IDX_recurring_jobs_is_active" "recurring_jobs"
        ∷ create_index "IDX_recurring_jobs_next_generation" "recurring_jobs"
        ∷ foreign_key "FK_recurring_jobs_template_job_id" "recurring_jobs" "template_job_id" "jobs"
            "NO ACTION"
        ∷ create_table job_dependencies_table
        ∷ create_index "IDX_job_dependencies_job_id" "job_dependencies"
        ∷ create_index "IDX_job_dependencies_depends_on_job_id" "job_dependencies"
        ∷ foreign_key "FK_job_dependencies_job_id" "job_dependencies" "job_id" "jobs" "CASCADE"
        ∷ foreign_key "FK_job_dependencies_depends_on_job_id" "job_dependencies" "depends_on_job_id"
            "jobs" "NO ACTION"
        ∷ [])

abbrev pub initial_down : List Statement
initial_down =
    drop_foreign_key "job_dependencies" "FK_job_dependencies_depends_on_job_id"
    ∷ drop_foreign_key "job_dependencies" "FK_job_dependencies_job_id"
    ∷ drop_table "job_dependencies"
    ∷ drop_foreign_key "recurring_jobs" "FK_recurring_jobs_template_job_id"
    ∷ drop_table "recurring_jobs"
    ∷ drop_foreign_key "execution_logs" "FK_execution_logs_execution_id"
    ∷ drop_table "execution_logs"
    ∷ drop_foreign_key "executions" "FK_executions_schedule_id"
    ∷ drop_foreign_key "executions" "FK_executions_job_id"
    ∷ drop_table "executions"
    ∷ drop_foreign_key "schedules" "FK_schedules_job_id"
    ∷ drop_table "schedules"
    ∷ drop_foreign_key "jobs" "FK_jobs_category_id"
    ∷ drop_table "jobs"
    ∷ drop_table "job_categories"
    ∷ drop_type "dependency_type_enum"
    ∷ drop_type "log_level_enum"
    ∷ drop_type "execution_status_enum"
    ∷ drop_type "schedule_type_enum"
    ∷ drop_type "priority_enum"
    ∷ []
