-- ===== src/Migrations/Metadata.antt =====
-- The tables that app/models declares: `Base.metadata`, with the names that the convention of
-- app/db/base.py gives.
use Prim.Native.String.{◌++◌}
use ticketflow.Base.{List, [], ◌∷◌, map, String}
use ticketflow.Models.{
  UserRole, TicketCategory, TicketPriority, TicketStatus, WebhookEventType, customer, agent,
  billing, technical, general, low, medium, high, opened, in_progress, resolved, closed,
  ticket_created, ticket_status_changed, status_value,
}
use ticketflow.Migrations.Objects.{
  EnumType, uuid, text, boolean, integer, jsonb, timestamp_with_time_zone, varchar, enum_type, now,
  always_true, label, OnDelete, restrict, cascade, Constraint, primary_key, foreign_key, check,
  Table, Index,
}
use ticketflow.Migrations.Initial.{
  column, column_default, optional_column, index, unique_index, check_name,
}

-- `NAMING_CONVENTION`
abbrev pub primary_key_name : (table : String) → String
primary_key_name table = "pk_" ++ table

abbrev pub foreign_key_name : (table column referred : String) → String
foreign_key_name table column referred = "fk_" ++ table ++ "_" ++ column ++ "_" ++ referred

-- `primary_key=True` on the column `id`, and a `ForeignKey` without a name of its own.
abbrev pub id_key : (table : String) → Constraint
id_key table = primary_key (primary_key_name table) "id"

abbrev pub refers : (table column referred : String) → OnDelete → Constraint
refers table column referred on_delete =
    foreign_key (foreign_key_name table column referred) column referred "id" on_delete

-- The labels of an enumeration are the names of its members, which are not always their values.
abbrev pub role_name : UserRole → String
role_name customer = "CUSTOMER"
role_name agent = "AGENT"

abbrev pub category_name : TicketCategory → String
category_name billing = "BILLING"
category_name technical = "TECHNICAL"
category_name general = "GENERAL"

abbrev pub priority_name : TicketPriority → String
priority_name low = "LOW"
priority_name medium = "MEDIUM"
priority_name high = "HIGH"

abbrev pub status_name : TicketStatus → String
status_name opened = "OPEN"
status_name in_progress = "IN_PROGRESS"
status_name resolved = "RESOLVED"
status_name closed = "CLOSED"

abbrev pub event_name : WebhookEventType → String
event_name ticket_created = "TICKET_CREATED"
event_name ticket_status_changed = "TICKET_STATUS_CHANGED"

abbrev pub declared_enums : List EnumType
declared_enums =
    record { name = "user_role"; labels = map role_name (customer ∷ agent ∷ []) }
    ∷ record {
      name = "ticket_category";
      labels = map category_name (billing ∷ technical ∷ general ∷ []);
    }
    ∷ record { name = "ticket_priority"; labels = map priority_name (low ∷ medium ∷ high ∷ []) }
    ∷ record {
      name = "ticket_status";
      labels = map status_name (opened ∷ in_progress ∷ resolved ∷ closed ∷ []);
    }
    ∷ record {
      name = "webhook_event_type";
      labels = map event_name (ticket_created ∷ ticket_status_changed ∷ []);
    }
    ∷ []

abbrev pub user_table : Table
user_table = record {
  name = "users";
  columns =
      column "id" uuid
      ∷ column "email" (varchar 320)
      ∷ column "password_hash" (varchar 255)
      ∷ column "role" (enum_type "user_role")
      ∷ column_default "created_at" timestamp_with_time_zone now
      ∷ [];
  constraints = id_key "users" ∷ [];
}

abbrev pub user_indexes : List Index
user_indexes = unique_index "ix_users_email" "users" "email" ∷ []

unfoldable pub ticket_table : Table
unfolding status_value
ticket_table = record {
  name = "tickets";
  columns =
      column "id" uuid
      ∷ column "customer_id" uuid
      ∷ column "title" (varchar 200)
      ∷ column "description" text
      ∷ column "category" (enum_type "ticket_category")
      ∷ column "priority" (enum_type "ticket_priority")
      ∷ column_default "status" (enum_type "ticket_status") (label (status_value opened))
      ∷ column_default "created_at" timestamp_with_time_zone now
      ∷ column_default "updated_at" timestamp_with_time_zone now
      ∷ [];
  constraints = id_key "tickets" ∷ refers "tickets" "customer_id" "users" restrict ∷ [];
}

abbrev pub ticket_indexes : List Index
ticket_indexes =
    index "ix_tickets_customer_id" "tickets" "customer_id"
    ∷ index "ix_tickets_status" "tickets" "status"
    ∷ index "ix_tickets_priority" "tickets" "priority"
    ∷ index "ix_tickets_category" "tickets" "category"
    ∷ index "ix_tickets_created_at" "tickets" "created_at"
    ∷ []

abbrev pub comment_table : Table
comment_table = record {
  name = "comments";
  columns =
      column "id" uuid
      ∷ column "ticket_id" uuid
      ∷ column "author_id" uuid
      ∷ column "author_role" (enum_type "user_role")
      ∷ column "body" text
      ∷ column_default "created_at" timestamp_with_time_zone now
      ∷ [];
  constraints =
      id_key "comments"
      ∷ refers "comments" "ticket_id" "tickets" cascade
      ∷ refers "comments" "author_id" "users" restrict
      ∷ [];
}

abbrev pub comment_indexes : List Index
comment_indexes =
    index "ix_comments_ticket_id" "comments" "ticket_id"
    ∷ index "ix_comments_author_id" "comments" "author_id"
    ∷ index "ix_comments_created_at" "comments" "created_at"
    ∷ []

abbrev pub registration_table : Table
registration_table = record {
  name = "webhook_registrations";
  columns =
      column "id" uuid
      ∷ column "url" (varchar 2048)
      ∷ column "secret" (varchar 255)
      ∷ column "event_type" (enum_type "webhook_event_type")
      ∷ column "created_by" uuid
      ∷ column_default "is_active" boolean always_true
      ∷ column_default "created_at" timestamp_with_time_zone now
      ∷ [];
  constraints =
      id_key "webhook_registrations"
      ∷ refers "webhook_registrations" "created_by" "users" restrict
      ∷ [];
}

abbrev pub registration_indexes : List Index
registration_indexes =
    index "ix_webhook_registrations_created_by" "webhook_registrations" "created_by"
    ∷ index "ix_webhook_registrations_event_type" "webhook_registrations" "event_type"
    ∷ index "ix_webhook_registrations_is_active" "webhook_registrations" "is_active"
    ∷ []

abbrev pub delivery_log_table : Table
delivery_log_table = record {
  name = "webhook_delivery_logs";
  columns =
      column "id" uuid
      ∷ column "webhook_registration_id" uuid
      ∷ column "event_type" (enum_type "webhook_event_type")
      ∷ column "payload" jsonb
      ∷ column "success" boolean
      ∷ optional_column "response_code" integer
      ∷ optional_column "error_message" text
      ∷ column_default "attempted_at" timestamp_with_time_zone now
      ∷ [];
  constraints =
      check (check_name "webhook_delivery_logs" "response_code_valid")
        "response_code IS NULL OR response_code BETWEEN 100 AND 599"
      ∷ id_key "webhook_delivery_logs"
      ∷ foreign_key "fk_delivery_logs_registration" "webhook_registration_id"
          "webhook_registrations" "id" restrict
      ∷ [];
}

abbrev pub delivery_log_indexes : List Index
delivery_log_indexes =
    index "ix_webhook_delivery_logs_webhook_registration_id" "webhook_delivery_logs"
      "webhook_registration_id"
    ∷ index "ix_webhook_delivery_logs_event_type" "webhook_delivery_logs" "event_type"
    ∷ index "ix_webhook_delivery_logs_attempted_at" "webhook_delivery_logs" "attempted_at"
    ∷ []
