-- ===== src/Comments.antt =====
-- app/services/comment_service.py: comments on accessible tickets, and the thread in order of time.

pub mod Thread
mod Tests
use ticketflow.Base.{ℕ, Bool, not, ◌&&◌, ◌||◌, List, ◌∷◌, filter, ltb, ◌==◌, nat_eq, order_by}
use ticketflow.Base.Text.{Text}
use ticketflow.Exec.{Exec, pure, modify, gets, ◌>>=◌, ◌>>◌}
use ticketflow.Models.{Ticket, User, Comment, Db}
use ticketflow.Tickets.Query.{get_accessible_ticket}

-- The statements that follow the loading of the ticket.
unfoldable pub add_comment : (new_id now : ℕ) → User → Text → Ticket → Exec Db Comment
add_comment new_id now user body ticket = do
  let comment : Comment = record {
    id = new_id;
    ticket_id = ticket.id;
    author_id = user.id;
    author_role = user.role;
    body = body;
    created_at = now;
  }
  modify (λ db. record db { comments = comment ∷ db.comments })
  pure comment

unfoldable pub create_comment : (new_id now : ℕ) → ℕ → User → Text → Exec Db Comment
create_comment new_id now ticket_id user body =
    get_accessible_ticket ticket_id user >>= add_comment new_id now user body

-- `Comment.created_at.asc(), Comment.id.asc()`
unfoldable pub oldest_first : Comment → Comment → Bool
oldest_first a b =
    ltb a.created_at b.created_at || (a.created_at == b.created_at && not (ltb b.id a.id))

unfoldable pub thread_of : Ticket → Exec Db (List Comment)
thread_of ticket =
    gets (λ db. order_by oldest_first (filter (λ c. c.ticket_id == ticket.id) db.comments))

unfoldable pub list_comments : ℕ → User → Exec Db (List Comment)
list_comments ticket_id user = get_accessible_ticket ticket_id user >>= thread_of
