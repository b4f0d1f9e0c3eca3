-- ===== src/Workflow/Steps.antt =====
-- The abstract view of the service calls: what one step may do to the tables of tickets and comments.
use ticketflow.Base.{◌+◌, ◌≤◌, ◌≡◌, ◌≢◌, ◌∷◌, Elem, All}
use ticketflow.Models.{Ticket, Comment, Db, opened}
use ticketflow.Tickets.Mutation.{save, delete_row}
use ticketflow.Tickets.Effects.{rank}

-- The ticket is the same one later: it moved forward or stayed, and if it had left OPEN its content
-- is what it was.
pub record Later (t t' : Ticket) : Type 0 where
  pub id : t'.id ≡ t.id
  pub customer_id : t'.customer_id ≡ t.customer_id
  pub created_at : t'.created_at ≡ t.created_at
  pub forward : rank t.status ≤ rank t'.status
  pub content :
      t.status ≢ opened
      → (t'.title ≡ t.title)
        × (t'.description ≡ t.description)
        × (t'.category ≡ t.category)
        × (t'.priority ≡ t.priority)

pub data Step (db : Db) : Db → Type 0 where
  stays : Step db db
  opens :
      (t : Ticket)
      → All (λ x. x.id ≢ t.id) db.tickets
      → t.status ≡ opened
      → Step db (record db { tickets = t ∷ db.tickets })
  evolves :
      (t t' : Ticket)
      → Elem t db.tickets
      → Later t t'
      → rank t'.status ≤ rank t.status + 1
      → Step db (save t' db)
  removes : (t : Ticket) → Elem t db.tickets → t.status ≡ opened → Step db (delete_row t db)
  says :
      (c : Comment) (t : Ticket)
      → All (λ x. x.id ≢ c.id) db.comments
      → Elem t db.tickets
      → t.id ≡ c.ticket_id
      → Step db (record db { comments = c ∷ db.comments })
