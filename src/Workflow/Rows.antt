-- ===== src/Workflow/Rows.antt =====
-- What every stored ticket and every stored comment satisfies, through calls of app/services/ticket_service.py
-- and app/services/comment_service.py.
use ticketflow.Base.{
  All-overwrite, ℕ, inl, inr, List, any, find, find_sound, All, All_at, All-filter, Elem,
  Bool-cases, Option-cases, ◌==◌, nat_eq,
}
use ticketflow.Exec.{bind_ok, bind_err}
use ticketflow.Models.{Ticket, Comment, Db, TicketStatus, opened, status_eq}
use ticketflow.Tickets.Query.{get_accessible_ticket}
use ticketflow.Tickets.Mutation.{
  FieldUpdate, setattrs, save, create_ticket, update_open_ticket, update_loaded_ticket,
  delete_open_ticket, delete_loaded_ticket, change_ticket_status, is_expected,
  allowed_status_transitions,
}
use ticketflow.Comments.{create_comment, add_comment}
use ticketflow.Workflow.{Call, creates, updates, deletes, moves, comments, call}
use ticketflow.Workflow.Refinement.{loaded_cases}

module _ (P : Ticket → Type 0) (Q : Comment → Type 0) where
  pub record AllRows (db : Db) : Type 0 where
    pub tickets : All P db.tickets
    pub comments : All Q db.comments

  -- What a call must see to: the rows that it may store satisfy the predicates, where the stored ones do.
  unfoldable pub Obliges : Call → Type 0
  Obliges (creates new_id now user title description category priority) = P (record {
    id = new_id;
    customer_id = user.id;
    title = title;
    description = description;
    category = category;
    priority = priority;
    status = opened;
    created_at = now;
    updated_at = now;
  })
  Obliges (updates at k user us) =
      (t : Ticket) → P t → P (record (setattrs t us) { updated_at = at })
  Obliges (deletes k user) = Unit
  Obliges (moves at k new) = (t : Ticket) → P t → P (record t { status = new; updated_at = at })
  Obliges (comments new_id now k user body) =
      (ticket_id : ℕ)
      → Q (record {
        id = new_id;
        ticket_id = ticket_id;
        author_id = user.id;
        author_role = user.role;
        body = body;
        created_at = now;
      })

  save-AllRows : (t : Ticket) (db : Db) → P t → AllRows db → AllRows (save t db)
  unfolding save
  save-AllRows t db f h = record {
    tickets = All-overwrite P (λ (row : Ticket). row.id) t db.tickets f h.tickets;
    comments = h.comments;
  }

  update-AllRows :
      (at : ℕ) (us : List FieldUpdate) (t : Ticket) (db : Db)
      → ((x : Ticket) → P x → P (record (setattrs x us) { updated_at = at }))
      → Elem t db.tickets
      → AllRows db
      → AllRows (update_loaded_ticket at us t db).1
  unfolding update_loaded_ticket
  update-AllRows at us t db f m h =
      let k = f t (All_at P db.tickets h.tickets t m) in
      elim (Bool-cases (t.status == opened)) [
        | inl e ↦ rw e (save-AllRows _ db k h)
        | inr e ↦ rw e h
      ]

  delete-AllRows : (t : Ticket) (db : Db) → AllRows db → AllRows (delete_loaded_ticket t db).1
  unfolding delete_loaded_ticket
  delete-AllRows t db h = elim (Bool-cases (t.status == opened)) [
    | inl e ↦ rw e (record {
      tickets = All-filter P _ db.tickets h.tickets;
      comments = All-filter Q _ db.comments h.comments;
    })
    | inr e ↦ rw e h
  ]

  move-AllRows :
      (at k : ℕ) (new : TicketStatus) (db : Db)
      → ((x : Ticket) → P x → P (record x { status = new; updated_at = at }))
      → AllRows db
      → AllRows (change_ticket_status at k new db).1
  unfolding change_ticket_status
  move-AllRows at k new db f h = elim (Option-cases (find (λ (t : Ticket). t.id == k) db.tickets)) [
    | inl e ↦ rw e h
    | inr (t, e) ↦
        let m = (find_sound (λ (x : Ticket). x.id == k) db.tickets t e).0 in
        let p = All_at P db.tickets h.tickets t m in
        rw e (elim (Bool-cases (is_expected new (allowed_status_transitions t.status))) [
          | inr wrong ↦ rw wrong h
          | inl next ↦ rw next (save-AllRows _ db (f t p) h)
        ])
  ]

  pub call-AllRows : (c : Call) (db : Db) → Obliges c → AllRows db → AllRows (call c db)
  unfolding call create_ticket update_open_ticket delete_open_ticket create_comment add_comment
      Obliges
  call-AllRows (creates new_id now user title description category priority) db f h =
      elim (Bool-cases (any (λ (t : Ticket). t.id == new_id) db.tickets)) [
        | inl e ↦ rw e h
        | inr e ↦ rw e (record { tickets = (f, h.tickets); comments = h.comments })
      ]
  call-AllRows (updates at k user us) db f h = elim (loaded_cases k user db) [
    | inl (t, e, m, _) ↦
        rw
          (
            bind_ok (get_accessible_ticket k user) (update_loaded_ticket at us) e,
            call,
            update_open_ticket,
          )
          (update-AllRows at us t db f m h)
    | inr e ↦
        rw
          (
            bind_err (get_accessible_ticket k user) (update_loaded_ticket at us) e,
            call,
            update_open_ticket,
          )
          h
  ]
  call-AllRows (deletes k user) db f h = elim (loaded_cases k user db) [
    | inl (t, e, m, _) ↦
        rw (bind_ok (get_accessible_ticket k user) delete_loaded_ticket e, call, delete_open_ticket)
          (delete-AllRows t db h)
    | inr e ↦
        rw
          (bind_err (get_accessible_ticket k user) delete_loaded_ticket e, call, delete_open_ticket)
          h
  ]
  call-AllRows (moves at k new) db f h = move-AllRows at k new db f h
  call-AllRows (comments new_id now k user body) db f h =
      elim (Bool-cases (any (λ c. c.id == new_id) db.comments)) [
        | inl e ↦ rw e h
        | inr fresh ↦ rw fresh (elim (loaded_cases k user db) [
          | inl (t, e, m, _) ↦
              rw
                (
                  bind_ok (get_accessible_ticket k user) (add_comment new_id now user body) e,
                  call,
                  create_comment,
                )
                (record { tickets = h.tickets; comments = (f t.id, h.comments) })
          | inr e ↦
              rw
                (
                  bind_err (get_accessible_ticket k user) (add_comment new_id now user body) e,
                  call,
                  create_comment,
                )
                h
        ])
      ]
