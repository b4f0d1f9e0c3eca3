-- ===== src/Comments/Thread.antt =====
-- Who can write and read a ticket's thread through app/services/comment_service.py, and what the
-- thread holds.
use ticketflow.Base.{
  ℕ, ◌≡◌, refl, ◌↔◌, true, false, List, ◌∷◌, arith, All, Elem, Elem-filter, filter_subset, All_at,
  filter_passes, filter, Distinct, order_by, order_by-IsOrdered, IsOrdered, Elem-order_by, ◌==◌,
  nat_eq, nat_beq_iff,
}
use ticketflow.Base.Text.{Text}
use ticketflow.Exec.{ok, err, ticket_not_found, bind_ok, bind_err}
use ticketflow.Models.{User, Ticket, Comment, Db}
use ticketflow.Tickets.Query.{get_accessible_ticket}
use ticketflow.Tickets.Access.{MaySee, get_accessible_ticket_iff, get_accessible_ticket_hides}
use ticketflow.Comments.{create_comment, add_comment, list_comments, thread_of, oldest_first}

pub oldest_first_total : (a b : Comment) → oldest_first a b ≡ false → oldest_first b a ≡ true
unfolding oldest_first
oldest_first_total a b h = ground arith

pub oldest_first_trans :
    (a b c : Comment) → oldest_first a b ≡ true → oldest_first b c ≡ true → oldest_first a c ≡ true
unfolding oldest_first
oldest_first_trans a b c h k = ground arith

-- The result lists the comments of the ticket, and of no other, from the oldest to the newest.
abbrev pub IsThreadOf : Ticket → Db → List Comment → Type 0
IsThreadOf t db cs =
    ((c : Comment) → Elem c cs ↔ (Elem c db.comments × (c.ticket_id ≡ t.id)))
    × IsOrdered oldest_first cs

module _ (t : Ticket) (user : User) (db : Db) (d : Distinct (λ (x : Ticket). x.id) db.tickets) where
  -- With unique identifiers of tickets, on a stored ticket that the user may see `list_comments` leaves the rows as they are and
  -- returns the comments of exactly that ticket, sorted by time and identifier from the oldest on.
  pub list_comments_exact :
      Elem t db.tickets
      → MaySee user t
      → (cs : List Comment) × (list_comments t.id user db ≡ (ok cs, db)) × IsThreadOf t db cs
  unfolding list_comments thread_of
  list_comments_exact m v =
      let mine = λ (c : Comment). c.ticket_id == t.id in
      let rows = filter mine db.comments in
      let sorted = Elem-order_by oldest_first rows in
      (
        order_by oldest_first rows,
        bind_ok (get_accessible_ticket t.id user) thread_of
            ((get_accessible_ticket_iff t.id user db d t).1 (m, refl, v)),
        (
          λ c. (
            λ k.
                let k' = (sorted c).0 k in
                (
                  filter_subset mine db.comments c k',
                  (nat_beq_iff c.ticket_id t.id).0
                      (All_at (λ x. mine x ≡ true) rows (filter_passes mine db.comments) c k'),
                ),
            λ h.
                (sorted c).1
                  (Elem-filter mine db.comments c h.0 ((nat_beq_iff c.ticket_id t.id).1 h.1)),
          ),
          order_by-IsOrdered oldest_first oldest_first_total oldest_first_trans rows,
        ),
      )

  module _ (new_id now : ℕ) (body : Text) where
    -- With unique identifiers of tickets, on a stored ticket that the user may see `create_comment` returns a comment of that ticket
    -- with the caller's identifier and database role as its author; it adds that comment to the rows
    -- and changes no other row.
    pub create_comment_exact :
        Elem t db.tickets
        → MaySee user t
        → (c : Comment) × (create_comment new_id now t.id user body db
            ≡ (ok c, record db { comments = c ∷ db.comments }))
          × (c.ticket_id ≡ t.id)
          × (c.author_id ≡ user.id)
          × (c.author_role ≡ user.role)
          × (c.body ≡ body)
          × (c.id ≡ new_id)
          × (c.created_at ≡ now)
    unfolding create_comment add_comment
    create_comment_exact m v = (
      _,
      bind_ok (get_accessible_ticket t.id user) (add_comment new_id now user body)
          ((get_accessible_ticket_iff t.id user db d t).1 (m, refl, v)),
      refl,
      refl,
      refl,
      refl,
      refl,
      refl,
    )

-- Where every ticket with the identifier is hidden from the user, neither call tells more than that
-- there is no such ticket: both raise TicketNotFoundError and no row changes.
pub comments_hidden :
    (ticket_id new_id now : ℕ) (user : User) (body : Text) (db : Db)
    → All (λ t. t.id ≡ ticket_id → ¬ MaySee user t) db.tickets
    → (create_comment new_id now ticket_id user body db ≡ (err ticket_not_found, db))
      × (list_comments ticket_id user db ≡ (err ticket_not_found, db))
unfolding create_comment list_comments
comments_hidden k new_id now user body db h =
    let e = (get_accessible_ticket_hides k user db).1 h in
    (
      bind_err (get_accessible_ticket k user) (add_comment new_id now user body) e,
      bind_err (get_accessible_ticket k user) thread_of e,
    )
