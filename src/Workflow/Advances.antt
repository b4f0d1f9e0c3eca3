-- ===== src/Workflow/Advances.antt =====
-- How often a ticket moves: `change_ticket_status` of app/services/ticket_service.py among the other calls.
use ticketflow.Base.{
  ℕ, suc, ◌&&◌, ◌+◌, ◌≤◌, ◌≡◌, refl, sym, ap, ◌∙◌, inl, inr, Bool, true, false, Option, none, some,
  List, [], ◌∷◌, arith, any, find, find_sound, find_fails, All-mono, Distinct, Elem, Bool-cases,
  Option-cases, if◌then◌else◌, ◌==◌, nat_eq, nat_beq_iff,
}
use Prim.Native.String.{◌++◌}
use ticketflow.Base.Text.{Text}
use ticketflow.Exec.{Error, ticket_not_found, ticket_state, Result, ok, err, bind_ok, bind_err}
use ticketflow.Models.{Ticket, User, Db, TicketStatus, opened, status_eq, status_value}
use ticketflow.Tickets.Query.{get_accessible_ticket}
use ticketflow.Tickets.Effects.{rank, ticket_key, expected_iff}
use ticketflow.Tickets.Edits.{opened_iff, setattrs-SameTicket}
use ticketflow.Tickets.Mutation.{
  FieldUpdate, TicketStatusChange, save, create_ticket, update_open_ticket, update_loaded_ticket,
  delete_open_ticket, delete_loaded_ticket, change_ticket_status, is_expected,
  allowed_status_transitions,
}
use ticketflow.Comments.{create_comment, add_comment}
use ticketflow.Workflow.{Call, creates, updates, deletes, moves, comments, call, call_all}
use ticketflow.Workflow.Refinement.{call-Step, loaded_cases, any-none}
use ticketflow.Workflow.Lifecycle.{IsValid, Step-IsValid}
use ticketflow.Workflow.Progress.{
  has_id, place, progress, found_row, saved_progress, removed_progress, placed,
}

-- The call succeeds in moving the ticket.
unfoldable pub succeeds : ℕ → Call → Db → Bool
succeeds k (moves refreshed_at j status) db =
    j == k
    && elim (change_ticket_status refreshed_at j status db).0 [ ok change ↦ true | err e ↦ false ]
succeeds k _ db = false

-- How many calls of a history succeed in moving the ticket.
unfoldable pub advances : ℕ → List Call → Db → ℕ
advances k [] db = 0
advances k (c ∷ cs) db =
    let rest = advances k cs (call c db) in if succeeds k c db then suc rest else rest

comment_tickets :
    (new_id now j : ℕ) (user : User) (body : Text) (db : Db)
    → (call (comments new_id now j user body) db).tickets ≡ db.tickets
unfolding call create_comment add_comment
comment_tickets new_id now j user body db =
    elim (Bool-cases (any (λ c. c.id == new_id) db.comments)) [
      | inl e ↦ rw e refl
      | inr fresh ↦ rw fresh (elim (loaded_cases j user db) [
        | inl (t, e, _, _) ↦
            ap (λ p. p.1.tickets)
              (bind_ok (get_accessible_ticket j user) (add_comment new_id now user body) e)
        | inr e ↦
            ap (λ p. p.1.tickets)
              (bind_err (get_accessible_ticket j user) (add_comment new_id now user body) e)
      ])
    ]

module _ (k : ℕ) where
  updated_progress :
      (at : ℕ) (us : List FieldUpdate) (t : Ticket) (db : Db)
      → Distinct ticket_key db.tickets
      → Elem t db.tickets
      → progress k (update_loaded_ticket at us t db).1 ≡ progress k db
  unfolding update_loaded_ticket progress
  updated_progress at us t db d m =
      let same = setattrs-SameTicket t us in
      elim (Bool-cases (t.status == opened)) [
        | inr e ↦ rw e refl
        | inl e ↦
            let stays : (if t.id == k then rank t.status else progress k db) ≡ progress k db =
              elim (Bool-cases (t.id == k)) [
                | inl p ↦ rw (p, progress, found_row k t db d m ((nat_beq_iff t.id k).0 p)) refl
                | inr p ↦ rw p refl
              ] in
            rw (e, update_loaded_ticket)
              (saved_progress k t _ db d m same.id
                ∙ ap (λ s. if t.id == k then rank s else progress k db) same.status
                ∙ stays)
      ]

  deleted_progress :
      (t : Ticket) (db : Db)
      → Distinct ticket_key db.tickets
      → Elem t db.tickets
      → progress k (delete_loaded_ticket t db).1 ≡ progress k db
  unfolding delete_loaded_ticket
  deleted_progress t db d m = elim (Bool-cases (t.status == opened)) [
    | inr e ↦ rw e refl
    | inl e ↦ rw e (removed_progress k t db d m ((opened_iff t.status).0 e))
  ]

  gained : Call → Db → ℕ
  gained c db = if succeeds k c db then 1 else 0

  moved_progress :
      (at j : ℕ) (new : TicketStatus) (db : Db)
      → Distinct ticket_key db.tickets
      → progress k (call (moves at j new) db) ≡ gained (moves at j new) db + progress k db
  unfolding gained succeeds call change_ticket_status
  moved_progress at j new db d =
      let after : Result TicketStatusChange × Db → ℕ = λ p. progress k p.1 in
      let counted : Result TicketStatusChange × Db → ℕ = λ p.
        (if j == k && elim p.0 [ ok change ↦ true | err e ↦ false ] then 1 else 0)
        + progress k db in
      elim (Option-cases (find (has_id j) db.tickets)) [
        | inl e ↦
            let r : change_ticket_status at j new db ≡ (err ticket_not_found, db) = rw e refl in
            ap after r ∙ ground arith ∙ sym (ap counted r)
        | inr (t, e) ↦
            let (m, q) = find_sound (has_id j) db.tickets t e in
            let same : t.id ≡ j = (nat_beq_iff t.id j).0 q in
            elim (Bool-cases (is_expected new (allowed_status_transitions t.status))) [
              | inr wrong ↦
                  let refused : Error =
                    ticket_state
                      ("Invalid status transition from "
                        ++ status_value t.status
                        ++ " to "
                        ++ status_value new)
                      "INVALID_STATUS_TRANSITION" in
                  let r : change_ticket_status at j new db ≡ (err refused, db) =
                    rw (e, wrong) refl in
                  ap after r ∙ ground arith ∙ sym (ap counted r)
              | inl next ↦
                  let up = (expected_iff t.status new).0 next in
                  let t' : Ticket = record t { status = new; updated_at = at } in
                  let r : change_ticket_status at j new db
                      ≡ (ok (record { ticket = t'; old_status = t.status }), save t' db) =
                    rw (e, next) refl in
                  ap after r
                  ∙ saved_progress k t t' db d m refl
                  ∙ placed k t new db d m up
                  ∙ ap (λ i. (if i == k && true then 1 else 0) + progress k db) same
                  ∙ sym (ap counted r)
            ]
      ]

  progress-call :
      (c : Call) (db : Db)
      → Distinct ticket_key db.tickets
      → progress k (call c db) ≡ gained c db + progress k db
  unfolding call create_ticket update_open_ticket delete_open_ticket create_comment add_comment
      gained succeeds progress
  progress-call (creates new_id now user title description category priority) db d =
      elim (Bool-cases (any (λ (t : Ticket). t.id == new_id) db.tickets)) [
        | inl e ↦ rw e (omega arith)
        | inr e ↦ rw e (elim (Bool-cases (new_id == k)) [
          | inl p ↦
              let absent : find (has_id k) db.tickets ≡ none = find_fails (has_id k) db.tickets (
                All-mono (λ t n. ground arith) db.tickets
                  (any-none ticket_key new_id db.tickets e)) in
              rw (p, absent) refl
          | inr p ↦ rw p (omega arith)
        ])
      ]
  progress-call (updates at j user us) db d = elim (loaded_cases j user db) [
    | inl (t, e, m, _) ↦
        rw
          (
            bind_ok (get_accessible_ticket j user) (update_loaded_ticket at us) e,
            call,
            update_open_ticket,
          )
          (updated_progress at us t db d m ∙ omega arith)
    | inr e ↦
        rw
          (
            bind_err (get_accessible_ticket j user) (update_loaded_ticket at us) e,
            call,
            update_open_ticket,
          )
          (omega arith)
  ]
  progress-call (deletes j user) db d = elim (loaded_cases j user db) [
    | inl (t, e, m, _) ↦
        rw (bind_ok (get_accessible_ticket j user) delete_loaded_ticket e, call, delete_open_ticket)
          (deleted_progress t db d m ∙ omega arith)
    | inr e ↦
        rw
          (bind_err (get_accessible_ticket j user) delete_loaded_ticket e, call, delete_open_ticket)
          (omega arith)
  ]
  progress-call (moves at j new) db d = moved_progress at j new db d
  progress-call (comments new_id now j user body) db d =
      ap (λ ts. place (find (has_id k) ts)) (comment_tickets new_id now j user body db)
      ∙ omega arith

  counted :
      (cs : List Call) (db : Db)
      → IsValid db
      → progress k (call_all cs db) ≡ advances k cs db + progress k db
  unfolding call_all advances gained
  counted [] db v = omega arith
  counted (c ∷ cs) db v =
      let step = progress-call c db v.tickets in
      let rest = counted cs (call c db) (Step-IsValid (call-Step c db) v) in
      elim (Bool-cases (succeeds k c db)) [
        | inl e ↦ let one = rw e at step in rw e (omega (arith, rest, one))
        | inr e ↦ let same = rw e at step in rw e (omega (arith, rest, same))
      ]

  place_bound : (o : Option Ticket) → place o ≤ 3
  place_bound none = omega arith
  place_bound (some t) = ground arith

  -- With well-formed tables, the calls of any history that succeed in moving a ticket count up its place in
  -- the lifecycle exactly, whatever other calls do in between and also if the ticket is deleted and its
  -- identifier given again; so at most three of them ever do.
  pub advances_exact :
      (cs : List Call) (db : Db)
      → IsValid db
      → (progress k (call_all cs db) ≡ advances k cs db + progress k db) × (advances k cs db ≤ 3)
  unfolding progress
  advances_exact cs db v =
      let e = counted cs db v in
      let most = place_bound (find (has_id k) (call_all cs db).tickets) in (e, omega arith)
