-- ===== src/Tickets/Access.antt =====
-- Who can read which ticket through app/services/ticket_service.py.
use ticketflow.Base.{
  ℕ, ◌≡◌, refl, sym, ap, ◌∙◌, ◌↔◌, ◌⊎◌, Bool, true, false, ◌&&◌, Option, none, some, List, [], ◌∷◌,
  arith, head?, fun_ext, filter, all, All, Elem, find, find_sound, find-none, find_complete,
  find_fails, Distinct, filter-filter, ◌==◌, nat_eq, All-mono,
}
use ticketflow.Base.Text.{Text}
use ticketflow.Exec.{ok, err, ticket_not_found, or_raise}
use ticketflow.Models.{User, Ticket, Db, customer, agent, role_eq}
use ticketflow.Tickets.Query.{
  get_accessible_ticket, scope_conditions, conditions, filter_conditions, matching, list_tickets,
  ListParameters,
}

-- The rule of the documents: agents see every ticket, customers their own.
abbrev pub MaySee : User → Ticket → Type 0
MaySee u t = (u.role ≡ agent) ⊎ (t.customer_id ≡ u.id)

abbrev pub asks_for : ℕ → User → Ticket → Bool
asks_for k u t = all (λ p. p t) ((λ t'. t'.id == k) ∷ scope_conditions u)

pub asks_for_iff :
    (k : ℕ) (u : User) (t : Ticket) → (asks_for k u t ≡ true) ↔ ((t.id ≡ k) × MaySee u t)
unfolding scope_conditions
asks_for_iff k u t = ground arith

asks_for-false :
    (k : ℕ) (u : User) (t : Ticket) → (asks_for k u t ≡ false) ↔ (t.id ≡ k → ¬ MaySee u t)
unfolding scope_conditions
asks_for-false k u t = ground arith

found_or_missing :
    (o : Option Ticket) (db : Db) (t : Ticket)
    → or_raise o ticket_not_found db ≡ (ok t, db)
    → o ≡ some t
found_or_missing none db t h = cc (ap (λ r. r.0) h)
found_or_missing (some s) db t h = cc (ap (λ r. r.0) h)

missing :
    (o : Option Ticket) (db : Db)
    → or_raise o ticket_not_found db ≡ (err ticket_not_found, db)
    → o ≡ none
missing none db h = refl
missing (some s) db h = cc (ap (λ r. r.0) h)

reply_only :
    (o : Option Ticket) (db db' : Db)
    → (or_raise o ticket_not_found db).0 ≡ (or_raise o ticket_not_found db').0
reply_only none db db' = refl
reply_only (some t) db db' = refl

module _ (ticket_id : ℕ) (user : User) (db : Db) where
  -- Where the identifiers of the tickets are distinct, `get_accessible_ticket` returns a ticket,
  -- leaving the rows as they are, exactly when the ticket is a row with the identifier asked for
  -- and the user is an agent or owns it.
  pub get_accessible_ticket_iff :
      Distinct (λ (t : Ticket). t.id) db.tickets
      → (t : Ticket)
      → (get_accessible_ticket ticket_id user db ≡ (ok t, db))
        ↔ (Elem t db.tickets × (t.id ≡ ticket_id) × MaySee user t)
  unfolding get_accessible_ticket
  get_accessible_ticket_iff d t = (
    λ h.
        let (m, q) =
          find_sound (asks_for ticket_id user) db.tickets t (found_or_missing _ db t h) in
        let (e, v) = (asks_for_iff ticket_id user t).0 q in (m, e, v),
    λ h. rw (
        find_complete (λ x. x.id) (asks_for ticket_id user) db.tickets t d h.0
          ((asks_for_iff ticket_id user t).1 (h.1, h.2))
          (λ x q. ((asks_for_iff ticket_id user x).0 q).0 ∙ sym h.1)),
  )

  -- It raises TicketNotFoundError, leaving the rows as they are, exactly when every row with that
  -- identifier is hidden from the user: a foreign ticket and a missing one are answered alike.
  pub get_accessible_ticket_hides :
      (get_accessible_ticket ticket_id user db ≡ (err ticket_not_found, db))
      ↔ All (λ t. t.id ≡ ticket_id → ¬ MaySee user t) db.tickets
  unfolding get_accessible_ticket
  get_accessible_ticket_hides = (
    λ h.
        All-mono (λ t q. (asks_for-false ticket_id user t).0 q) db.tickets
          (find-none (asks_for ticket_id user) db.tickets (missing _ db h)),
    λ h. rw (
        find_fails (asks_for ticket_id user) db.tickets
          (All-mono (λ t q. (asks_for-false ticket_id user t).1 q) db.tickets h)),
  )

abbrev pub own : User → List Ticket → List Ticket
own u = filter (λ t. t.customer_id == u.id)

scope_customer :
    (u : User) → u.role ≡ customer → scope_conditions u ≡ (λ t. t.customer_id == u.id) ∷ []
unfolding scope_conditions
scope_customer u h = rw h

matching-own :
    (ilike : Text → Text → Bool) (u : User) (p : ListParameters) (db : Db)
    → u.role ≡ customer
    → matching ilike u p db
      ≡ filter (λ t. all (λ c. c t) (filter_conditions ilike p)) (own u db.tickets)
unfolding matching conditions
matching-own ilike u p db h = rw (scope_customer u h) (
    filter-filter (λ t. t.customer_id == u.id) (λ t. all (λ c. c t) (filter_conditions ilike p))
      db.tickets)

find-own :
    (k : ℕ) (u : User) (rows : List Ticket)
    → u.role ≡ customer
    → find (asks_for k u) rows ≡ find (λ t. t.id == k) (own u rows)
find-own k u rows h =
    rw (fun_ext (swapped u h))
      (ap head? (filter-filter (λ t. t.customer_id == u.id) (λ t. t.id == k) rows))
  where
    swapped :
        (v : User)
        → v.role ≡ customer
        → (t : Ticket) → asks_for k v t ≡ (t.customer_id == v.id && t.id == k)
    swapped v h t = rw (scope_customer v h) (ground arith)

-- What a customer reads depends on the customer's own rows alone: in two databases that hold the
-- same tickets of that customer, in the same order, `list_tickets` returns the same page, and
-- `get_accessible_ticket` the same ticket or error, whatever the other rows are.
pub customer_noninterference :
    (ilike : Text → Text → Bool) (u : User) (p : ListParameters) (ticket_id : ℕ) (db db' : Db)
    → u.role ≡ customer
    → own u db.tickets ≡ own u db'.tickets
    → (list_tickets ilike u p db ≡ list_tickets ilike u p db')
      × ((get_accessible_ticket ticket_id u db).0 ≡ (get_accessible_ticket ticket_id u db').0)
unfolding list_tickets get_accessible_ticket
customer_noninterference ilike u p k db db' h same = (
  rw (matching-own ilike u p db h, matching-own ilike u p db' h, same),
  rw (find-own k u db.tickets h, find-own k u db'.tickets h, same)
      (reply_only (find (λ t. t.id == k) (own u db'.tickets)) db db'),
)
