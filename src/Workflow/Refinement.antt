-- ===== src/Workflow/Refinement.antt =====
-- The service calls of app/services/ticket_service.py and app/services/comment_service.py against the
-- abstract steps.
use ticketflow.Base.{
  ℕ, ◌+◌, ◌≡◌, ◌≢◌, refl, ◌⊎◌, inl, inr, true, false, List, [], ◌∷◌, arith, All, Elem, any, find,
  find_sound, Bool-cases, Option-cases, ◌==◌, nat_eq, nat_beq_iff,
}
use ticketflow.Exec.{ok, err, bind_ok, bind_err, ticket_not_found}
use ticketflow.Models.{User, Ticket, Db, TicketStatus, opened, status_eq}
use ticketflow.Tickets.Query.{get_accessible_ticket}
use ticketflow.Tickets.Mutation.{
  create_ticket, update_open_ticket, update_loaded_ticket, delete_open_ticket, delete_loaded_ticket,
  change_ticket_status, setattrs, FieldUpdate, is_expected, allowed_status_transitions,
}
use ticketflow.Tickets.Access.{asks_for, asks_for_iff}
use ticketflow.Tickets.Effects.{rank, expected_iff}
use ticketflow.Tickets.Edits.{SameTicket, setattrs-SameTicket, opened_iff}
use ticketflow.Comments.{create_comment, add_comment}
use ticketflow.Workflow.{Call, creates, updates, deletes, moves, comments, call}
use ticketflow.Workflow.Steps.{Later, Step, stays, opens, evolves, removes, says}

pub any-none :
    {A : Type 0} (key : A → ℕ) (k : ℕ) (xs : List A)
    → any (λ x. key x == k) xs ≡ false
    → All (λ x. key x ≢ k) xs
any-none key k [] h = tt
any-none key k (x ∷ xs) h = elim (Bool-cases (key x == k)) [
  | inl e ↦ let c : true ≡ false = rw e at h in cc
  | inr e ↦ (
    (λ p. let q : (key x == k) ≡ true = (nat_beq_iff (key x) k).1 p in cc),
    any-none key k xs (rw e at h),
  )
]

-- `get_accessible_ticket` loads a stored ticket, or raises; it writes nothing.
pub loaded_cases :
    (k : ℕ) (user : User) (db : Db)
    → ((t : Ticket) × (get_accessible_ticket k user db ≡ (ok t, db))
        × Elem t db.tickets
        × (t.id ≡ k))
      ⊎ (get_accessible_ticket k user db ≡ (err ticket_not_found, db))
unfolding get_accessible_ticket
loaded_cases k user db = elim (Option-cases (find (asks_for k user) db.tickets)) [
  | inl e ↦ inr (rw e refl)
  | inr (t, e) ↦
      let (m, q) = find_sound (asks_for k user) db.tickets t e in
      inl (t, rw e refl, m, ((asks_for_iff k user t).0 q).0)
]

evolved :
    (t t' : Ticket) (at : ℕ)
    → t.status ≡ opened
    → SameTicket t t'
    → Later t (record t' { updated_at = at })
evolved t t' at is_open s = record {
  id = s.id;
  customer_id = s.customer_id;
  created_at = s.created_at;
  forward = rw s.status (omega arith);
  content = λ h. absurd (h is_open);
}

-- The statements of `update_open_ticket` that follow the loading.
update-Step :
    (at : ℕ) (us : List FieldUpdate) (t : Ticket) (db : Db)
    → Elem t db.tickets
    → Step db (update_loaded_ticket at us t db).1
unfolding update_loaded_ticket
update-Step at us t db m =
    let s = setattrs-SameTicket t us in
    elim (Bool-cases (t.status == opened)) [
      | inl e ↦ rw e (
          evolves t _ m (evolved t (setattrs t us) at ((opened_iff t.status).0 e) s)
            (rw s.status (omega arith)))
      | inr e ↦ rw e stays
    ]

delete-Step : (t : Ticket) (db : Db) → Elem t db.tickets → Step db (delete_loaded_ticket t db).1
unfolding delete_loaded_ticket
delete-Step t db m = elim (Bool-cases (t.status == opened)) [
  | inl e ↦ rw e (removes t m ((opened_iff t.status).0 e))
  | inr e ↦ rw e stays
]

move-Step : (at k : ℕ) (new : TicketStatus) (db : Db) → Step db (change_ticket_status at k new db).1
unfolding change_ticket_status
move-Step at k new db = elim (Option-cases (find (λ (t : Ticket). t.id == k) db.tickets)) [
  | inl e ↦ rw e stays
  | inr (t, e) ↦ rw e (elim (Bool-cases (is_expected new (allowed_status_transitions t.status))) [
    | inr wrong ↦ rw wrong stays
    | inl next ↦
        let r : rank new ≡ rank t.status + 1 = (expected_iff t.status new).0 next in
        rw next (
          evolves t _ (find_sound (λ (x : Ticket). x.id == k) db.tickets t e).0
            (record {
              id = refl;
              customer_id = refl;
              created_at = refl;
              forward = omega arith;
              content = λ _. (refl, refl, refl, refl);
            })
            (omega arith))
  ])
]

pub call-Step : (c : Call) (db : Db) → Step db (call c db)
unfolding call create_ticket update_open_ticket delete_open_ticket create_comment add_comment
call-Step (creates new_id now user title description category priority) db =
    elim (Bool-cases (any (λ (t : Ticket). t.id == new_id) db.tickets)) [
      | inl e ↦ rw e stays
      | inr e ↦ rw e (opens _ (any-none (λ (t : Ticket). t.id) new_id db.tickets e) refl)
    ]
call-Step (updates at k user us) db = elim (loaded_cases k user db) [
  | inl (t, e, m, _) ↦
      rw
        (
          bind_ok (get_accessible_ticket k user) (update_loaded_ticket at us) e,
          call,
          update_open_ticket,
        )
        (update-Step at us t db m)
  | inr e ↦
      rw
        (
          bind_err (get_accessible_ticket k user) (update_loaded_ticket at us) e,
          call,
          update_open_ticket,
        )
        stays
]
call-Step (deletes k user) db = elim (loaded_cases k user db) [
  | inl (t, e, m, _) ↦
      rw (bind_ok (get_accessible_ticket k user) delete_loaded_ticket e, call, delete_open_ticket)
        (delete-Step t db m)
  | inr e ↦
      rw (bind_err (get_accessible_ticket k user) delete_loaded_ticket e, call, delete_open_ticket)
        stays
]
call-Step (moves at k new) db = move-Step at k new db
call-Step (comments new_id now k user body) db =
    elim (Bool-cases (any (λ c. c.id == new_id) db.comments)) [
      | inl e ↦ rw e stays
      | inr fresh ↦ rw fresh (elim (loaded_cases k user db) [
        | inl (t, e, m, _) ↦
            rw
              (
                bind_ok (get_accessible_ticket k user) (add_comment new_id now user body) e,
                call,
                create_comment,
              )
              (says _ t (any-none (λ c. c.id) new_id db.comments fresh) m refl)
        | inr e ↦
            rw
              (
                bind_err (get_accessible_ticket k user) (add_comment new_id now user body) e,
                call,
                create_comment,
              )
              stays
      ])
    ]
