-- ===== src/Tickets/Mutation.antt =====
-- The writing half of app/services/ticket_service.py: create, update, delete and the workflow.
use Prim.Native.String.{◌++◌}
use ticketflow.Base.{
  ℕ, Bool, false, not, Option, none, some, List, [], ◌∷◌, overwrite, delete_key, find, ◌==◌, nat_eq,
  if◌then◌else◌, String, string_eq,
}
use ticketflow.Base.Text.{Text}
use ticketflow.Exec.{
  Exec, pure, modify, raise_if, gets, ticket_not_found, ticket_state, or_raise, ◌>>=◌, ◌>>◌,
}
use ticketflow.Models.{
  User, Ticket, Comment, Db, TicketStatus, TicketPriority, TicketCategory, opened, in_progress,
  resolved, closed, status_eq, status_value,
}
use ticketflow.Tickets.Query.{get_accessible_ticket}

unfoldable pub create_ticket :
    (new_id now : ℕ)
    → User
    → (title description : Text) → TicketCategory
    → TicketPriority
    → Exec Db Ticket
create_ticket new_id now user title description category priority = do
  let ticket : Ticket = record {
    id = new_id;
    customer_id = user.id;
    title = title;
    description = description;
    category = category;
    priority = priority;
    status = opened;
    created_at = now;
    updated_at = now;
  }
  modify (λ db. record db { tickets = ticket ∷ db.tickets })
  pure ticket

-- The entries of the `updates` dictionary.
pub data FieldUpdate : Type 0 where
  title description : Text → FieldUpdate
  category : TicketCategory → FieldUpdate
  priority : TicketPriority → FieldUpdate

-- `setattr(ticket, field_name, value)`
unfoldable pub setattr : Ticket → FieldUpdate → Ticket
setattr t (title v) = record t { title = v }
setattr t (description v) = record t { description = v }
setattr t (category v) = record t { category = v }
setattr t (priority v) = record t { priority = v }

unfoldable pub setattrs : Ticket → List FieldUpdate → Ticket
unfolding setattr
setattrs t [] = t
setattrs t (u ∷ us) = setattrs (setattr t u) us

-- The flush of a changed ticket: the row of its identifier is overwritten.
unfoldable pub save : Ticket → Db → Db
save t db = record db { tickets = overwrite (λ (row : Ticket). row.id) t db.tickets }

unfoldable pub require_open : Ticket → (operation : String) → Exec Db Unit
require_open t operation = raise_if (not (t.status == opened)) (
    ticket_state ("Only OPEN tickets can be " ++ operation ++ " by their customer")
      (if operation == "updated" then "TICKET_NOT_EDITABLE" else "TICKET_NOT_DELETABLE"))

-- The statements that follow the loading of the ticket.
unfoldable pub update_loaded_ticket :
    (refreshed_at : ℕ) → List FieldUpdate → Ticket → Exec Db Ticket
unfolding setattrs save require_open
update_loaded_ticket refreshed_at updates ticket = do
  require_open ticket "updated"
  let saved : Ticket = record (setattrs ticket updates) { updated_at = refreshed_at }
  modify (save saved)
  pure saved

unfoldable pub update_open_ticket :
    (refreshed_at : ℕ) → ℕ → User → List FieldUpdate → Exec Db Ticket
update_open_ticket refreshed_at ticket_id user updates =
    get_accessible_ticket ticket_id user >>= update_loaded_ticket refreshed_at updates

-- Deletes the row; the foreign key of `comments` is declared with ON DELETE CASCADE.
unfoldable pub delete_row : Ticket → Db → Db
delete_row t db = record db {
  tickets = delete_key (λ (row : Ticket). row.id) t.id db.tickets;
  comments = delete_key (λ (row : Comment). row.ticket_id) t.id db.comments;
}

unfoldable pub delete_loaded_ticket : Ticket → Exec Db Unit
unfolding delete_row require_open
delete_loaded_ticket ticket = do require_open ticket "deleted"; modify (delete_row ticket)

unfoldable pub delete_open_ticket : ℕ → User → Exec Db Unit
delete_open_ticket ticket_id user = get_accessible_ticket ticket_id user >>= delete_loaded_ticket

-- `ALLOWED_STATUS_TRANSITIONS`
unfoldable pub allowed_status_transitions : TicketStatus → Option TicketStatus
allowed_status_transitions opened = some in_progress
allowed_status_transitions in_progress = some resolved
allowed_status_transitions resolved = some closed
allowed_status_transitions closed = none

pub record TicketStatusChange : Type 0 where
  pub ticket : Ticket
  pub old_status : TicketStatus

-- `new_status != expected_status`, where the expected one may be None.
unfoldable pub is_expected : TicketStatus → Option TicketStatus → Bool
is_expected new none = false
is_expected new (some expected) = new == expected

unfoldable pub change_ticket_status :
    (refreshed_at : ℕ) → ℕ → TicketStatus → Exec Db TicketStatusChange
unfolding allowed_status_transitions is_expected save
change_ticket_status refreshed_at ticket_id new_status = do
  found ← gets (λ db. find (λ t. t.id == ticket_id) db.tickets)
  ticket ← or_raise found ticket_not_found
  raise_if (not (is_expected new_status (allowed_status_transitions ticket.status))) (
      ticket_state
        ("Invalid status transition from "
          ++ status_value ticket.status
          ++ " to "
          ++ status_value new_status)
        "INVALID_STATUS_TRANSITION")
  let saved : Ticket = record ticket { status = new_status; updated_at = refreshed_at }
  modify (save saved)
  pure (record { ticket = saved; old_status = ticket.status })
