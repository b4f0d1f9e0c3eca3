-- ===== src/Schemas/Columns.antt =====
-- Histories of requests to app/api/v1/tickets.py and app/api/v1/comments.py: a body that its schema
-- refuses changes nothing, any other is handed to the service; and the texts that the calls may store.
use ticketflow.Base.{
  ℕ, String, ◌≤◌, ◌≡◌, refl, sym, ap, ◌∙◌, inl, inr, Option, none, some, List, [], ◌∷◌, All, Elem,
  length,
}
use ticketflow.Base.Text.{Text, strip, strip-strip}
use ticketflow.Models.{User, Ticket, Comment, Db}
use ticketflow.Tickets.Mutation.{FieldUpdate, setattr, setattrs}
use ticketflow.Workflow.{Call, creates, updates, deletes, moves, comments, call}
use ticketflow.Workflow.Rows.{AllRows, Obliges, call-AllRows}
use ticketflow.Schemas.Values.{Body, Pydantic, ◌>>=◌}
use ticketflow.Schemas.Requests.{
  ticket_create_request, update_fields, ticket_status_update_request, comment_create_request,
}
use ticketflow.Schemas.Reading.{Stripped}

-- A request with a body, its user checked, and what the environment chooses for it.
pub data Submission : Type 0 where
  creating : (new_id now : ℕ) → User → Body → Submission
  updating : (refreshed_at ticket_id : ℕ) → User → Body → Submission
  deleting : (ticket_id : ℕ) → User → Submission
  moving : (refreshed_at ticket_id : ℕ) → Body → Submission
  commenting : (new_id now ticket_id : ℕ) → User → Body → Submission

-- A text that is neither blank nor padded nor longer than its bound.
abbrev pub Fits : ℕ → Text → Type 0
Fits most s = (1 ≤ length s) × (length s ≤ most) × (strip s ≡ s)

pub record TicketFits (t : Ticket) : Type 0 where
  pub title : Fits 200 t.title
  pub description : Fits 10000 t.description

abbrev pub CommentFits : Comment → Type 0
CommentFits c = Fits 5000 c.body

pub record IsTidy (db : Db) : Type 0 where
  pub tickets : All TicketFits db.tickets
  pub comments : All CommentFits db.comments

module _ (pydantic : Pydantic) where
  -- The call that the handler makes of the service, where the body is accepted.
  unfoldable pub service_call : Submission → Option Call
  service_call (creating new_id now user body) = ticket_create_request pydantic body >>= λ r.
      some (creates new_id now user r.title r.description r.category r.priority)
  service_call (updating refreshed_at ticket_id user body) =
      update_fields pydantic body >>= λ us. some (updates refreshed_at ticket_id user us)
  service_call (deleting ticket_id user) = some (deletes ticket_id user)
  service_call (moving refreshed_at ticket_id body) =
      ticket_status_update_request pydantic body >>= λ r.
      some (moves refreshed_at ticket_id r.status)
  service_call (commenting new_id now ticket_id user body) =
      comment_create_request pydantic body >>= λ r. some (comments new_id now ticket_id user r.body)

  unfoldable pub serve : Submission → Db → Db
  serve r db = elim (service_call r) [ none ↦ db | some c ↦ call c db ]

  unfoldable pub serve_all : List Submission → Db → Db
  unfolding serve
  serve_all [] db = db
  serve_all (r ∷ rs) db = serve_all rs (serve r db)

unfoldable pub UpdateFits : FieldUpdate → Type 0
UpdateFits (FieldUpdate.title t) = Fits 200 t
UpdateFits (FieldUpdate.description t) = Fits 10000 t
UpdateFits (FieldUpdate.category c) = Unit
UpdateFits (FieldUpdate.priority p) = Unit

unfoldable pub CallFits : Call → Type 0
CallFits (creates new_id now user title description category priority) =
    Fits 200 title × Fits 10000 description
CallFits (updates at k user us) = (u : FieldUpdate) → Elem u us → UpdateFits u
CallFits (deletes k user) = Unit
CallFits (moves at k new) = Unit
CallFits (comments new_id now k user body) = Fits 5000 body

pub Stripped-Fits :
    (most : ℕ) (name : String) (body : Body) (t : Text) → Stripped 1 most name body t → Fits most t
Stripped-Fits most name body t (s, e, q, a, b) = (a, b, ap strip q ∙ strip-strip s ∙ sym q)

setattrs-TicketFits :
    (us : List FieldUpdate) (t : Ticket)
    → ((u : FieldUpdate) → Elem u us → UpdateFits u)
    → TicketFits t
    → TicketFits (setattrs t us)
unfolding setattrs UpdateFits
setattrs-TicketFits [] t f h = h
setattrs-TicketFits (u ∷ us) t f h =
    setattrs-TicketFits us (setattr t u) (λ v m. f v (inr m)) (step u (f u (inl refl)))
  where
    step : (u : FieldUpdate) → UpdateFits u → TicketFits (setattr t u)
    step (FieldUpdate.title v) k = record { title = k; description = h.description }
    step (FieldUpdate.description v) k = record { title = h.title; description = k }
    step (FieldUpdate.category v) k = record { title = h.title; description = h.description }
    step (FieldUpdate.priority v) k = record { title = h.title; description = h.description }

CallFits-Obliges : (c : Call) → CallFits c → Obliges TicketFits CommentFits c
unfolding CallFits Obliges
CallFits-Obliges (creates new_id now user title description category priority) f = record {
  title = f.0;
  description = f.1;
}
CallFits-Obliges (updates at k user us) f = λ t h.
    let k = setattrs-TicketFits us t f h in record { title = k.title; description = k.description }
CallFits-Obliges (deletes k user) f = tt
CallFits-Obliges (moves at k new) f = λ t h. record { title = h.title; description = h.description }
CallFits-Obliges (comments new_id now k user body) f = λ ticket_id. f

pub call-IsTidy : (c : Call) (db : Db) → CallFits c → IsTidy db → IsTidy (call c db)
call-IsTidy c db f h =
    let rows : AllRows TicketFits CommentFits db = record {
      tickets = h.tickets;
      comments = h.comments;
    } in
    let rows' = call-AllRows TicketFits CommentFits c db (CallFits-Obliges c f) rows in
    record { tickets = rows'.tickets; comments = rows'.comments }
