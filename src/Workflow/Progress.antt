-- ===== src/Workflow/Progress.antt =====
-- The place of a ticket in the lifecycle of app/services/ticket_service.py, under the writes to its table.
use ticketflow.Base.{
  ℕ, ◌&&◌, ◌+◌, ◌≡◌, refl, sym, ap, ◌∙◌, inl, inr, Bool, true, false, Option, none, some, List, [],
  ◌∷◌, arith, find, find_complete, Distinct, Elem, overwrite, delete_key, Option_map, Bool-cases,
  if◌then◌else◌, ◌==◌, nat_eq, nat_beq_iff,
}
use ticketflow.Models.{Ticket, Db, TicketStatus, opened, status_eq}
use ticketflow.Tickets.Effects.{rank, ticket_key}
use ticketflow.Tickets.Mutation.{save, delete_row}

abbrev pub has_id : ℕ → Ticket → Bool
has_id k t = t.id == k

abbrev pub place : Option Ticket → ℕ
place none = 0
place (some t) = rank t.status

-- The place of a ticket in the lifecycle, 0 where it is not stored.
unfoldable pub progress : ℕ → Db → ℕ
progress k db = place (find (has_id k) db.tickets)

find-overwrite :
    (k : ℕ) (a : Ticket) (ts : List Ticket)
    → find (has_id k) (overwrite ticket_key a ts)
      ≡ (if a.id == k then Option_map (λ t. a) (find (has_id k) ts) else find (has_id k) ts)
find-overwrite k a [] = ground arith
find-overwrite k a (t ∷ ts) =
    let rest = find-overwrite k a ts in
    elim (Bool-cases (t.id == a.id)) [
      | inl e ↦ elim (Bool-cases (a.id == k)) [
        | inl f ↦ let g : (t.id == k) ≡ true = grind arith in rw (e, f, g) refl
        | inr f ↦ let g : (t.id == k) ≡ false = grind arith in rw (e, f, g) (rw f at rest)
      ]
      | inr e ↦ elim (Bool-cases (t.id == k)) [
        | inl g ↦ let f : (a.id == k) ≡ false = grind arith in rw (e, f, g) refl
        | inr g ↦ rw (e, g) rest
      ]
    ]

find-delete_key :
    (k j : ℕ) (ts : List Ticket)
    → find (has_id k) (delete_key ticket_key j ts) ≡ (if k == j then none else find (has_id k) ts)
find-delete_key k j [] = ground arith
find-delete_key k j (t ∷ ts) =
    let rest = find-delete_key k j ts in
    elim (Bool-cases (t.id == j)) [
      | inl e ↦ elim (Bool-cases (k == j)) [
        | inl f ↦ rw (e, f) (rw f at rest)
        | inr f ↦ let g : (t.id == k) ≡ false = grind arith in rw (e, f, g) (rw f at rest)
      ]
      | inr e ↦ elim (Bool-cases (t.id == k)) [
        | inl g ↦ let f : (k == j) ≡ false = grind arith in rw (e, f, g) refl
        | inr g ↦ rw (e, g) rest
      ]
    ]

module _ (k : ℕ) where
  pub found_row :
      (t : Ticket) (db : Db)
      → Distinct ticket_key db.tickets
      → Elem t db.tickets
      → t.id ≡ k
      → find (has_id k) db.tickets ≡ some t
  found_row t db d m e =
      find_complete ticket_key (has_id k) db.tickets t d m ((nat_beq_iff t.id k).1 e)
        (λ x h. (nat_beq_iff x.id k).0 h ∙ sym e)

  pub saved_progress :
      (t t' : Ticket) (db : Db)
      → Distinct ticket_key db.tickets
      → Elem t db.tickets
      → t'.id ≡ t.id
      → progress k (save t' db) ≡ (if t.id == k then rank t'.status else progress k db)
  unfolding progress save
  saved_progress t t' db d m same = elim (Bool-cases (t.id == k)) [
    | inl e ↦
        let f : (t'.id == k) ≡ true = grind arith in
        let row = found_row t db d m ((nat_beq_iff t.id k).0 e) in
        let written = rw f at (find-overwrite k t' db.tickets) in
        rw e (ap place written ∙ ap (λ o. place (Option_map (λ x. t') o)) row)
    | inr e ↦
        let f : (t'.id == k) ≡ false = grind arith in
        let written = rw f at (find-overwrite k t' db.tickets) in rw e (ap place written)
  ]

  -- The deletion itself, of an OPEN ticket.
  pub removed_progress :
      (t : Ticket) (db : Db)
      → Distinct ticket_key db.tickets
      → Elem t db.tickets
      → t.status ≡ opened
      → progress k (delete_row t db) ≡ progress k db
  unfolding delete_row progress
  removed_progress t db d m is_open = elim (Bool-cases (k == t.id)) [
    | inl p ↦
        let row = found_row t db d m (sym ((nat_beq_iff k t.id).0 p)) in
        ap place (rw p at (find-delete_key k t.id db.tickets))
        ∙ sym (ap place row ∙ ap rank is_open)
    | inr p ↦ ap place (rw p at (find-delete_key k t.id db.tickets))
  ]

  -- The ticket that moves has advanced by one place, and no other by any.
  pub placed :
      (t : Ticket) (new : TicketStatus) (db : Db)
      → Distinct ticket_key db.tickets
      → Elem t db.tickets
      → rank new ≡ rank t.status + 1
      → (if t.id == k then rank new else progress k db)
        ≡ (if t.id == k && true then 1 else 0) + progress k db
  unfolding progress
  placed t new db d m up = elim (Bool-cases (t.id == k)) [
    | inl e ↦ rw (e, found_row t db d m ((nat_beq_iff t.id k).0 e)) (omega (arith, up))
    | inr e ↦ rw e (omega arith)
  ]
