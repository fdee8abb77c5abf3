-- ===== src/Migrations/Changes.antt =====
-- The migrations after the first, and their order (modules/app/migrations, modules/app/typeorm.ts).
use scheduling_service.Base.{true, false, List, [], ◌∷◌}
use scheduling_service.Migrations.Schema.{
  ColumnType, plain, enum, Table, Statement, create_type, add_value, drop_type, create_table,
  drop_table, create_index, drop_foreign_key, set_nullable, set_type, add_column, drop_column,
  delete_rows,
}
use scheduling_service.Migrations.Initial.{
  required, optional, uuid, text, integer, jsonb, timestamp, foreign_key, initial_up, initial_down,
}

pub record Migration : Type 0 where
  pub up : List Statement
  pub down : List Statement

abbrev pub initial_schema : Migration
initial_schema = record { up = initial_up; down = initial_down }

abbrev pub scheduled_messages_table : Table
scheduled_messages_table = record {
  name = "scheduled_messages";
  columns =
      required "id" uuid
      ∷ required "user_id" uuid
      ∷ required "conversation_id" uuid
      ∷ required "content" text
      ∷ optional "metadata" jsonb
      ∷ required "scheduled_at" timestamp
      ∷ required "status" (enum "scheduled_messages_status_enum")
      ∷ required "created_at" timestamp
      ∷ required "updated_at" timestamp
      ∷ [];
}

abbrev pub add_scheduled_messages : Migration
add_scheduled_messages = record {
  up =
      create_type "scheduled_messages_status_enum"
        ("pending" ∷ "sent" ∷ "cancelled" ∷ "failed" ∷ [])
      ∷ create_table scheduled_messages_table
      ∷ create_index "IDX_scheduled_messages_user_id" "scheduled_messages"
      ∷ create_index "IDX_scheduled_messages_status_scheduled_at" "scheduled_messages"
      ∷ create_index "IDX_scheduled_messages_conversation_id" "scheduled_messages"
      ∷ [];
  down = drop_table "scheduled_messages" ∷ drop_type "scheduled_messages_status_enum" ∷ [];
}

-- A value of an enum cannot be dropped, so `down` does nothing.
abbrev pub add_processing_status : Migration
add_processing_status = record {
  up = add_value "scheduled_messages_status_enum" "processing" ∷ [];
  down = [];
}

abbrev pub set_instants : ColumnType → List Statement
set_instants type =
    set_type "scheduled_messages" "scheduled_at" type
    ∷ set_type "scheduled_messages" "created_at" type
    ∷ set_type "scheduled_messages" "updated_at" type
    ∷ []

abbrev pub alter_timestamptz : Migration
alter_timestamptz = record {
  up = set_instants (plain "TIMESTAMPTZ");
  down = set_instants timestamp;
}

-- Going down deletes the jobs without a category.
abbrev pub category_set_null : Migration
category_set_null = record {
  up =
      drop_foreign_key "jobs" "FK_jobs_category_id"
      ∷ set_nullable "jobs" "category_id" true
      ∷ foreign_key "FK_jobs_category_id" "jobs" "category_id" "job_categories" "SET NULL"
      ∷ [];
  down =
      drop_foreign_key "jobs" "FK_jobs_category_id"
      ∷ delete_rows "jobs"
      ∷ set_nullable "jobs" "category_id" false
      ∷ foreign_key "FK_jobs_category_id" "jobs" "category_id" "job_categories" "NO ACTION"
      ∷ [];
}

abbrev pub add_retry_count : Migration
add_retry_count = record {
  up = add_column "scheduled_messages" (required "retry_count" integer) ∷ [];
  down = drop_column "scheduled_messages" "retry_count" ∷ [];
}

-- The list `migrations` of the data source.
abbrev pub migrations : List Migration
migrations =
    initial_schema ∷ add_scheduled_messages ∷ add_processing_status ∷ alter_timestamptz
    ∷ category_set_null ∷ add_retry_count ∷ []
