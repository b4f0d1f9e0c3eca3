-- ===== src/Workflow/Tests.antt =====
-- A history at the sample rows: tickets are moved, edited, deleted and commented on, and refused.
use ticketflow.Base.{◌+◌, ◌≤◌, ℕ, ◌≡◌, refl, inl, inr, List, [], ◌∷◌, arith, map}
use ticketflow.Models.{TicketStatus, billing, low, opened, resolved, closed}
use ticketflow.Models.Samples.{ann, bob, eve, first, second, desk}
use ticketflow.Tickets.Mutation.{FieldUpdate}
use ticketflow.Workflow.{Call, creates, updates, deletes, moves, comments, call, call_all}
use ticketflow.Workflow.Progress.{progress}
use ticketflow.Workflow.Advances.{advances, advances_exact}
use ticketflow.Workflow.Lifecycle.{IsValid, IsKept, call_all-IsKept}

abbrev history : List Call
history =
    moves 300 11 resolved
    ∷ updates 301 11 ann (FieldUpdate.title (120 ∷ []) ∷ [])
    ∷ deletes 11 ann
    ∷ comments 21 302 11 eve (121 ∷ [])
    ∷ deletes 10 ann
    ∷ creates 13 303 bob (97 ∷ []) (98 ∷ []) billing low
    ∷ moves 304 11 opened
    ∷ moves 305 11 closed
    ∷ []

-- ann's first ticket is gone, the second one is closed, and bob has two.
history_left :
    map {B = ℕ × TicketStatus} (λ t. (t.id, t.status)) (call_all history desk).tickets
    ≡ (13, opened) ∷ (11, closed) ∷ (12, opened) ∷ []
unfolding call_all call ticketflow.Tickets.Mutation.change_ticket_status
    ticketflow.Tickets.Mutation.delete_open_ticket ticketflow.Tickets.Query.get_accessible_ticket
    ticketflow.Tickets.Mutation.update_open_ticket ticketflow.Tickets.Query.scope_conditions
    ticketflow.Tickets.Mutation.update_loaded_ticket
    ticketflow.Tickets.Mutation.delete_loaded_ticket ticketflow.Comments.create_comment
    ticketflow.Comments.add_comment ticketflow.Tickets.Mutation.create_ticket
history_left = refl

desk-IsValid : IsValid desk
desk-IsValid = record {
  tickets = omega arith;
  comments = (tt, tt);
  owned = λ c m. elim m [ inl p ↦ rw p (first, inl refl, refl) | inr k ↦ absurd k ];
}

call_all-IsKept_example : IsKept second desk (call_all history desk)
call_all-IsKept_example =
    call_all-IsKept history desk second desk-IsValid (inr (inl refl)) (ground arith)

advances_exact_example :
    (progress 11 (call_all history desk) ≡ advances 11 history desk + progress 11 desk)
    × (advances 11 history desk ≤ 3)
advances_exact_example = advances_exact 11 history desk desk-IsValid
