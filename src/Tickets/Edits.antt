-- ===== src/Tickets/Edits.antt =====
-- What `update_open_ticket` and `delete_open_ticket` of app/services/ticket_service.py do to the rows, on
-- every branch.
use ticketflow.Base.{
  ap, subst, ℕ, ◌≡◌, ◌≢◌, refl, sym, ◌↔◌, true, List, [], ◌∷◌, Elem, Distinct, overwrite_self,
  overwrite_only, overwrite, delete_key_iff, ◌==◌, nat_eq, String,
}
use ticketflow.Exec.{Result, bind_ok, ok, err, ticket_state}
use ticketflow.Base.Text.{Text}
use ticketflow.Models.{
  TicketCategory, TicketPriority, User, Ticket, Comment, Db, TicketStatus, opened, status_beq_iff,
  status_eq,
}
use ticketflow.Tickets.Query.{get_accessible_ticket}
use ticketflow.Tickets.Mutation.{
  save, update_open_ticket, delete_open_ticket, update_loaded_ticket, delete_loaded_ticket,
  FieldUpdate, setattrs, setattr,
}
use ticketflow.Tickets.Access.{MaySee, get_accessible_ticket_iff}
use ticketflow.Tickets.Effects.{ticket_key, OthersSame, save-OthersSame, not_true}

-- What no update of a ticket's fields touches.
pub record SameTicket (t t' : Ticket) : Type 0 where
  pub id : t'.id ≡ t.id
  pub customer_id : t'.customer_id ≡ t.customer_id
  pub status : t'.status ≡ t.status
  pub created_at : t'.created_at ≡ t.created_at

pub setattrs-SameTicket : (t : Ticket) (us : List FieldUpdate) → SameTicket t (setattrs t us)
unfolding setattrs
setattrs-SameTicket t [] = record {
  id = refl;
  customer_id = refl;
  status = refl;
  created_at = refl;
}
setattrs-SameTicket t (u ∷ us) = onward u (setattrs-SameTicket (setattr t u) us)
  where
    onward :
        (u : FieldUpdate)
        → SameTicket (setattr t u) (setattrs (setattr t u) us)
        → SameTicket t (setattrs (setattr t u) us)
    onward (FieldUpdate.title v) h = record {
      id = h.id;
      customer_id = h.customer_id;
      status = h.status;
      created_at = h.created_at;
    }
    onward (FieldUpdate.description v) h = record {
      id = h.id;
      customer_id = h.customer_id;
      status = h.status;
      created_at = h.created_at;
    }
    onward (FieldUpdate.category v) h = record {
      id = h.id;
      customer_id = h.customer_id;
      status = h.status;
      created_at = h.created_at;
    }
    onward (FieldUpdate.priority v) h = record {
      id = h.id;
      customer_id = h.customer_id;
      status = h.status;
      created_at = h.created_at;
    }

pub opened_iff : (s : TicketStatus) → ((s == opened) ≡ true) ↔ (s ≡ opened)
opened_iff s = status_beq_iff s opened

-- What a field is after the updates: the last of its new values, or the old one.
abbrev pub last_title : List FieldUpdate → Text → Text
last_title [] v = v
last_title (FieldUpdate.title w ∷ us) v = last_title us w
last_title (FieldUpdate.description w ∷ us) v = last_title us v
last_title (FieldUpdate.category w ∷ us) v = last_title us v
last_title (FieldUpdate.priority w ∷ us) v = last_title us v

abbrev pub last_description : List FieldUpdate → Text → Text
last_description [] v = v
last_description (FieldUpdate.title w ∷ us) v = last_description us v
last_description (FieldUpdate.description w ∷ us) v = last_description us w
last_description (FieldUpdate.category w ∷ us) v = last_description us v
last_description (FieldUpdate.priority w ∷ us) v = last_description us v

abbrev pub last_category : List FieldUpdate → TicketCategory → TicketCategory
last_category [] v = v
last_category (FieldUpdate.title w ∷ us) v = last_category us v
last_category (FieldUpdate.description w ∷ us) v = last_category us v
last_category (FieldUpdate.category w ∷ us) v = last_category us w
last_category (FieldUpdate.priority w ∷ us) v = last_category us v

abbrev pub last_priority : List FieldUpdate → TicketPriority → TicketPriority
last_priority [] v = v
last_priority (FieldUpdate.title w ∷ us) v = last_priority us v
last_priority (FieldUpdate.description w ∷ us) v = last_priority us v
last_priority (FieldUpdate.category w ∷ us) v = last_priority us v
last_priority (FieldUpdate.priority w ∷ us) v = last_priority us w

-- The ticket with its new content.
abbrev pub edited : (at : ℕ) → List FieldUpdate → Ticket → Ticket
edited at us t = record t {
  title = last_title us t.title;
  description = last_description us t.description;
  category = last_category us t.category;
  priority = last_priority us t.priority;
  updated_at = at;
}

setattrs-edited :
    (at : ℕ) (us : List FieldUpdate) (t : Ticket)
    → record (setattrs t us) { updated_at = at } ≡ edited at us t
unfolding setattrs
setattrs-edited at [] t = refl
setattrs-edited at (FieldUpdate.title v ∷ us) t = setattrs-edited at us (record t { title = v })
setattrs-edited at (FieldUpdate.description v ∷ us) t =
    setattrs-edited at us (record t { description = v })
setattrs-edited at (FieldUpdate.category v ∷ us) t =
    setattrs-edited at us (record t { category = v })
setattrs-edited at (FieldUpdate.priority v ∷ us) t =
    setattrs-edited at us (record t { priority = v })

update_opened :
    (at : ℕ) (us : List FieldUpdate) (t : Ticket) (db : Db)
    → t.status ≡ opened
    → update_loaded_ticket at us t db ≡ (ok (edited at us t), save (edited at us t) db)
unfolding update_loaded_ticket
update_opened at us t db is_open =
    let stored : Ticket → Result Ticket × Db = λ x. (ok x, save x db) in
    rw ((opened_iff t.status).1 is_open) (ap stored (setattrs-edited at us t))

module _ (t : Ticket) (user : User) (db : Db) where
  module _ (at : ℕ) (updates : List FieldUpdate) where
    -- With unique identifiers, `update_open_ticket` on a stored ticket that the user may see: if it is OPEN, the
    -- call returns the ticket with the last new value of every field that is updated, the refreshed
    -- `updated_at` and nothing else changed, this is the one row of its identifier, and every other row of the
    -- database is unchanged; else it raises TicketStateError with the code TICKET_NOT_EDITABLE and no row
    -- changes.
    pub update_open_ticket_exact :
        Distinct ticket_key db.tickets
        → Elem t db.tickets
        → MaySee user t
        → let (r, db') = update_open_ticket at t.id user updates db in
          let after = edited at updates t in
          (t.status ≡ opened
            → (r ≡ ok after)
              × ((x : Ticket) → x.id ≡ t.id → Elem x db'.tickets ↔ (x ≡ after))
              × OthersSame t.id db db')
          × (t.status ≢ opened
              → (db' ≡ db)
                × ((message : String) × (r ≡ err (ticket_state message "TICKET_NOT_EDITABLE"))))
    unfolding update_open_ticket update_loaded_ticket save
    update_open_ticket_exact d m v =
        let after = edited at updates t in
        rw
          (
            bind_ok (get_accessible_ticket t.id user) (update_loaded_ticket at updates)
                ((get_accessible_ticket_iff t.id user db d t).1 (m, refl, v)),
            update_open_ticket,
          )
          (
            λ is_open.
                let e = update_opened at updates t db is_open in
                (
                  ap (λ r. r.0) e,
                  λ x same. (
                    λ k.
                        overwrite_only ticket_key after x db.tickets
                          (subst (λ (r : Result Ticket × Db). Elem x r.1.tickets) e k) same,
                    λ q.
                        subst (λ (r : Result Ticket × Db). Elem x r.1.tickets) (sym e)
                          (subst (λ y. Elem y (overwrite ticket_key after db.tickets)) (sym q)
                            (overwrite_self ticket_key after t db.tickets m refl)),
                  ),
                  subst (λ (r : Result Ticket × Db). OthersSame t.id db r.1) (sym e)
                      (save-OthersSame after db),
                ),
            λ other.
                rw (not_true (t.status == opened) (λ p. other ((opened_iff t.status).0 p)))
                  (refl, (_, refl)),
          )

  -- The rows but for one ticket and its comments are the same before and after.
  pub record Removed (ticket_id : ℕ) (db' : Db) : Type 0 where
    pub tickets : (x : Ticket) → Elem x db'.tickets ↔ (Elem x db.tickets × (x.id ≢ ticket_id))
    pub comments :
        (c : Comment) → Elem c db'.comments ↔ (Elem c db.comments × (c.ticket_id ≢ ticket_id))
    pub users : db'.users ≡ db.users
    pub registrations : db'.webhook_registrations ≡ db.webhook_registrations
    pub logs : db'.webhook_delivery_logs ≡ db.webhook_delivery_logs

  -- With unique identifiers, `delete_open_ticket` on a stored ticket that the user may see: if it is OPEN, exactly its row
  -- and its comments are gone afterwards; else the call raises TicketStateError with the code
  -- TICKET_NOT_DELETABLE and no row changes.
  pub delete_open_ticket_exact :
      Distinct ticket_key db.tickets
      → Elem t db.tickets
      → MaySee user t
      → let (r, db') = delete_open_ticket t.id user db in
        (t.status ≡ opened → (r ≡ ok tt) × Removed t.id db')
        × (t.status ≢ opened
            → (db' ≡ db)
              × ((message : String) × (r ≡ err (ticket_state message "TICKET_NOT_DELETABLE"))))
  unfolding delete_open_ticket delete_loaded_ticket
  delete_open_ticket_exact d m v =
      rw
        (
          bind_ok (get_accessible_ticket t.id user) delete_loaded_ticket
              ((get_accessible_ticket_iff t.id user db d t).1 (m, refl, v)),
          delete_open_ticket,
        )
        (
          λ is_open. rw ((opened_iff t.status).1 is_open) (
            refl,
            record {
              tickets = λ x. delete_key_iff ticket_key t.id x db.tickets;
              comments = λ c. delete_key_iff (λ (row : Comment). row.ticket_id) t.id c db.comments;
              users = refl;
              registrations = refl;
              logs = refl;
            },
          ),
          λ other.
              rw (not_true (t.status == opened) (λ p. other ((opened_iff t.status).0 p)))
                (refl, (_, refl)),
        )
