-- ===== src/Schemas/Stored.antt =====
-- What the columns of texts hold after any history of requests to app/api/v1/tickets.py and
-- app/api/v1/comments.py.
use ticketflow.Base.{◌≡◌, subst, inl, inr, some, List, [], ◌∷◌, Option-cases, nat_eq}
use ticketflow.Models.{Db, status_eq}
use ticketflow.Tickets.Mutation.{FieldUpdate}
use ticketflow.Workflow.{Call}
use ticketflow.Schemas.Values.{Body, Pydantic}
use ticketflow.Schemas.Requests.{
  ticket_create_request, update_fields, ticket_status_update_request, comment_create_request,
}
use ticketflow.Schemas.Reading.{some_bind_iff}
use ticketflow.Schemas.Acceptance.{
  some-injective, ticket_create_request_iff, comment_create_request_iff,
}
use ticketflow.Schemas.Patches.{Sets}
use ticketflow.Schemas.Patching.{update_fields_exact}
use ticketflow.Schemas.Columns.{
  Submission, creating, updating, deleting, moving, commenting, IsTidy, service_call, serve,
  serve_all, UpdateFits, CallFits, Stripped-Fits, call-IsTidy,
}

module _ (pydantic : Pydantic) where
  update-UpdateFits : (body : Body) (u : FieldUpdate) → Sets body u → UpdateFits u
  unfolding UpdateFits
  update-UpdateFits body (FieldUpdate.title t) s = Stripped-Fits 200 "title" body t s
  update-UpdateFits body (FieldUpdate.description t) s = Stripped-Fits 10000 "description" body t s
  update-UpdateFits body (FieldUpdate.category c) s = tt
  update-UpdateFits body (FieldUpdate.priority p) s = tt

  service_call-CallFits :
      (r : Submission) (c : Call) → service_call pydantic r ≡ some c → CallFits c
  unfolding service_call CallFits
  service_call-CallFits (creating new_id now user body) c h =
      let (r, e, q) = (some_bind_iff (ticket_create_request pydantic body) _ c).0 h in
      let d = (ticket_create_request_iff pydantic body r).0 e in
      subst CallFits (some-injective _ c q) (
        Stripped-Fits 200 "title" body r.title d.title,
        Stripped-Fits 10000 "description" body r.description d.description,
      )
  service_call-CallFits (updating at k user body) c h =
      let (us, e, q) = (some_bind_iff (update_fields pydantic body) _ c).0 h in
      subst CallFits (some-injective _ c q)
        (λ u m. update-UpdateFits body u (((update_fields_exact pydantic body).1 us e u).0 m))
  service_call-CallFits (deleting k user) c h = subst CallFits (some-injective _ c h) tt
  service_call-CallFits (moving at k body) c h =
      let (r, e, q) = (some_bind_iff (ticket_status_update_request pydantic body) _ c).0 h in
      subst CallFits (some-injective _ c q) tt
  service_call-CallFits (commenting new_id now k user body) c h =
      let (r, e, q) = (some_bind_iff (comment_create_request pydantic body) _ c).0 h in
      subst CallFits (some-injective _ c q)
        (Stripped-Fits 5000 "body" body r.body ((comment_create_request_iff pydantic body r).0 e).1)

  serve-IsTidy : (r : Submission) (db : Db) → IsTidy db → IsTidy (serve pydantic r db)
  unfolding serve
  serve-IsTidy r db h = elim (Option-cases (service_call pydantic r)) [
    | inl e ↦ rw (e, serve) h
    | inr (c, e) ↦ rw (e, serve) (call-IsTidy c db (service_call-CallFits r c e) h)
  ]

  -- Where every stored ticket has a title of 1 to 200 characters and a description of 1 to 10000, every
  -- stored comment a body of 1 to 5000, and none of them begins or ends with white space, this is so after
  -- any sequence of requests, whatever their bodies are and whether their calls raise.
  pub serve_all-IsTidy :
      (rs : List Submission) (db : Db) → IsTidy db → IsTidy (serve_all pydantic rs db)
  unfolding serve_all
  serve_all-IsTidy [] db h = h
  serve_all-IsTidy (r ∷ rs) db h = serve_all-IsTidy rs (serve pydantic r db) (serve-IsTidy r db h)
