-- ===== src/Workflow.antt =====
-- Histories of the ticket and comment services: any sequence of calls, each one transaction on the
-- rows that the one before it left. A primary key admits one row for each identifier: a commit that
-- would store a second one raises, and stores nothing.
pub mod Steps
pub mod Refinement
pub mod Lifecycle
pub mod Rows
pub mod Progress
pub mod Advances
mod Tests
use ticketflow.Base.{ℕ, List, [], ◌∷◌, any, ◌==◌, nat_eq, if◌then◌else◌}
use ticketflow.Base.Text.{Text}
use ticketflow.Models.{User, Db, TicketCategory, TicketPriority, TicketStatus}
use ticketflow.Tickets.Mutation.{
  create_ticket, update_open_ticket, delete_open_ticket, change_ticket_status, FieldUpdate,
}
use ticketflow.Comments.{create_comment}

-- One call of a service that writes, with the identifiers and times that the environment chooses.
pub data Call : Type 0 where
  creates :
      (new_id now : ℕ) → User → (title description : Text) → TicketCategory → TicketPriority → Call
  updates : (refreshed_at ticket_id : ℕ) → User → List FieldUpdate → Call
  deletes : (ticket_id : ℕ) → User → Call
  moves : (refreshed_at ticket_id : ℕ) → TicketStatus → Call
  comments : (new_id now ticket_id : ℕ) → User → (body : Text) → Call

unfoldable pub call : Call → Db → Db
call (creates new_id now user title description category priority) db =
    if any (λ t. t.id == new_id) db.tickets
    then db
    else (create_ticket new_id now user title description category priority db).1
call (updates refreshed_at ticket_id user fields) db =
    (update_open_ticket refreshed_at ticket_id user fields db).1
call (deletes ticket_id user) db = (delete_open_ticket ticket_id user db).1
call (moves refreshed_at ticket_id new_status) db =
    (change_ticket_status refreshed_at ticket_id new_status db).1
call (comments new_id now ticket_id user body) db =
    if any (λ c. c.id == new_id) db.comments
    then db
    else (create_comment new_id now ticket_id user body db).1

unfoldable pub call_all : List Call → Db → Db
call_all [] db = db
call_all (c ∷ cs) db = call_all cs (call c db)
