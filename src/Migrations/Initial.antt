-- ===== src/Migrations/Initial.antt =====
-- alembic/versions/20260819_0001_initial_schema.py.
use Prim.Native.String.{◌++◌}
use ticketflow.Base.{true, false, Option, none, some, List, [], ◌∷◌, String}
use ticketflow.Migrations.Objects.{
  EnumType, ColumnType, uuid, text, boolean, integer, jsonb, timestamp_with_time_zone, varchar,
  enum_type, Default, now, always_true, label, Column, restrict, cascade, primary_key, foreign_key,
  check, Table, Index, Catalog, Operation, create_enum, drop_enum, create_table, drop_table,
  create_index, run,
}

abbrev pub column : String → ColumnType → Column
column name type = record { name = name; type = type; nullable = false; server_default = none }

abbrev pub column_default : String → ColumnType → Default → Column
column_default name type default = record {
  name = name;
  type = type;
  nullable = false;
  server_default = some default;
}

abbrev pub optional_column : String → ColumnType → Column
optional_column name type = record {
  name = name;
  type = type;
  nullable = true;
  server_default = none;
}

abbrev pub index : (name table column : String) → Index
index name table column = record { name = name; table = table; column = column; unique = false }

abbrev pub unique_index : (name table column : String) → Index
unique_index name table column = record {
  name = name;
  table = table;
  column = column;
  unique = true;
}

-- The naming convention of app/db/base.py for checks, which `op.create_table` applies too.
abbrev pub check_name : (table constraint : String) → String
check_name table constraint = "ck_" ++ table ++ "_" ++ constraint

abbrev pub user_role : EnumType
user_role = record { name = "user_role"; labels = "CUSTOMER" ∷ "AGENT" ∷ [] }

abbrev pub ticket_category : EnumType
ticket_category = record {
  name = "ticket_category";
  labels = "BILLING" ∷ "TECHNICAL" ∷ "GENERAL" ∷ [];
}

abbrev pub ticket_priority : EnumType
ticket_priority = record { name = "ticket_priority"; labels = "LOW" ∷ "MEDIUM" ∷ "HIGH" ∷ [] }

abbrev pub ticket_status : EnumType
ticket_status = record {
  name = "ticket_status";
  labels = "OPEN" ∷ "IN_PROGRESS" ∷ "RESOLVED" ∷ "CLOSED" ∷ [];
}

abbrev pub webhook_event_type : EnumType
webhook_event_type = record {
  name = "webhook_event_type";
  labels = "TICKET_CREATED" ∷ "TICKET_STATUS_CHANGED" ∷ [];
}

abbrev pub users : Table
users = record {
  name = "users";
  columns =
      column "id" uuid
      ∷ column "email" (varchar 320)
      ∷ column "password_hash" (varchar 255)
      ∷ column "role" (enum_type "user_role")
      ∷ column_default "created_at" timestamp_with_time_zone now
      ∷ [];
  constraints = primary_key "pk_users" "id" ∷ [];
}

abbrev pub tickets : Table
tickets = record {
  name = "tickets";
  columns =
      column "id" uuid
      ∷ column "customer_id" uuid
      ∷ column "title" (varchar 200)
      ∷ column "description" text
      ∷ column "category" (enum_type "ticket_category")
      ∷ column "priority" (enum_type "ticket_priority")
      ∷ column_default "status" (enum_type "ticket_status") (label "OPEN")
      ∷ column_default "created_at" timestamp_with_time_zone now
      ∷ column_default "updated_at" timestamp_with_time_zone now
      ∷ [];
  constraints =
      foreign_key "fk_tickets_customer_id_users" "customer_id" "users" "id" restrict
      ∷ primary_key "pk_tickets" "id"
      ∷ [];
}

abbrev pub comments : Table
comments = record {
  name = "comments";
  columns =
      column "id" uuid
      ∷ column "ticket_id" uuid
      ∷ column "author_id" uuid
      ∷ column "author_role" (enum_type "user_role")
      ∷ column "body" text
      ∷ column_default "created_at" timestamp_with_time_zone now
      ∷ [];
  constraints =
      foreign_key "fk_comments_author_id_users" "author_id" "users" "id" restrict
      ∷ foreign_key "fk_comments_ticket_id_tickets" "ticket_id" "tickets" "id" cascade
      ∷ primary_key "pk_comments" "id"
      ∷ [];
}

abbrev pub webhook_registrations : Table
webhook_registrations = record {
  name = "webhook_registrations";
  columns =
      column "id" uuid
      ∷ column "url" (varchar 2048)
      ∷ column "secret" (varchar 255)
      ∷ column "event_type" (enum_type "webhook_event_type")
      ∷ column "created_by" uuid
      ∷ column_default "is_active" boolean always_true
      ∷ column_default "created_at" timestamp_with_time_zone now
      ∷ [];
  constraints =
      foreign_key "fk_webhook_registrations_created_by_users" "created_by" "users" "id" restrict
      ∷ primary_key "pk_webhook_registrations" "id"
      ∷ [];
}

abbrev pub webhook_delivery_logs : Table
webhook_delivery_logs = record {
  name = "webhook_delivery_logs";
  columns =
      column "id" uuid
      ∷ column "webhook_registration_id" uuid
      ∷ column "event_type" (enum_type "webhook_event_type")
      ∷ column "payload" jsonb
      ∷ column "success" boolean
      ∷ optional_column "response_code" integer
      ∷ optional_column "error_message" text
      ∷ column_default "attempted_at" timestamp_with_time_zone now
      ∷ [];
  constraints =
      check (check_name "webhook_delivery_logs" "response_code_valid")
        "response_code IS NULL OR response_code BETWEEN 100 AND 599"
      ∷ foreign_key "fk_delivery_logs_registration" "webhook_registration_id"
          "webhook_registrations" "id" restrict
      ∷ primary_key "pk_webhook_delivery_logs" "id"
      ∷ [];
}

abbrev pub upgrade_operations : List Operation
upgrade_operations =
    create_enum user_role
    ∷ create_enum ticket_category
    ∷ create_enum ticket_priority
    ∷ create_enum ticket_status
    ∷ create_enum webhook_event_type
    ∷ create_table users
    ∷ create_index (unique_index "ix_users_email" "users" "email")
    ∷ create_table tickets
    ∷ create_index (index "ix_tickets_category" "tickets" "category")
    ∷ create_index (index "ix_tickets_created_at" "tickets" "created_at")
    ∷ create_index (index "ix_tickets_customer_id" "tickets" "customer_id")
    ∷ create_index (index "ix_tickets_priority" "tickets" "priority")
    ∷ create_index (index "ix_tickets_status" "tickets" "status")
    ∷ create_table comments
    ∷ create_index (index "ix_comments_author_id" "comments" "author_id")
    ∷ create_index (index "ix_comments_created_at" "comments" "created_at")
    ∷ create_index (index "ix_comments_ticket_id" "comments" "ticket_id")
    ∷ create_table webhook_registrations
    ∷ create_index
        (index "ix_webhook_registrations_created_by" "webhook_registrations" "created_by")
    ∷ create_index
        (index "ix_webhook_registrations_event_type" "webhook_registrations" "event_type")
    ∷ create_index (index "ix_webhook_registrations_is_active" "webhook_registrations" "is_active")
    ∷ create_table webhook_delivery_logs
    ∷ create_index
        (index "ix_webhook_delivery_logs_attempted_at" "webhook_delivery_logs" "attempted_at")
    ∷ create_index
        (index "ix_webhook_delivery_logs_event_type" "webhook_delivery_logs" "event_type")
    ∷ create_index (
        index "ix_webhook_delivery_logs_webhook_registration_id" "webhook_delivery_logs"
          "webhook_registration_id")
    ∷ []

abbrev pub downgrade_operations : List Operation
downgrade_operations =
    drop_table "webhook_delivery_logs"
    ∷ drop_table "webhook_registrations"
    ∷ drop_table "comments"
    ∷ drop_table "tickets"
    ∷ drop_table "users"
    ∷ drop_enum "webhook_event_type"
    ∷ drop_enum "ticket_status"
    ∷ drop_enum "ticket_priority"
    ∷ drop_enum "ticket_category"
    ∷ drop_enum "user_role"
    ∷ []

unfoldable pub upgrade : Catalog → Option Catalog
upgrade = run upgrade_operations

unfoldable pub downgrade : Catalog → Option Catalog
downgrade = run downgrade_operations
