-- ===== src/Schemas/Acceptance.antt =====
-- Which bodies the request schemas of app/schemas/ticket.py and app/schemas/comment.py accept, and as
-- what.
use ticketflow.Base.{
  ℕ, subst, inl, inr, ◌≡◌, refl, sym, ap, ◌∙◌, ◌↔◌, Option, some, [], ◌∷◌, String,
}
use ticketflow.Base.Text.{Text, strip, strip-strip}
use ticketflow.Models.{
  category_members, priority_members, status_members, TicketCategory, TicketPriority,
}
use ticketflow.Schemas.Values.{
  Json, Body, string, lookup, Pydantic, strip_text, forbid_extra, required,
}
use ticketflow.Schemas.Requests.{
  TicketCreateRequest, ticket_create_request, ticket_fields, CommentCreateRequest,
  comment_create_request, TicketStatusUpdateRequest, ticket_status_update_request,
}
use ticketflow.Schemas.Reading.{
  some_bind_iff, OnlyNames, forbid_extra_iff, Stripped, Names, text_field_iff, member_field_iff,
}

-- The body of a ticket is the request.
pub record Describes (body : Body) (r : TicketCreateRequest) : Type 0 where
  pub names : OnlyNames ticket_fields body
  pub title : Stripped 1 200 "title" body r.title
  pub description : Stripped 1 10000 "description" body r.description
  pub category : Names category_members "category" body r.category
  pub priority : Names priority_members "priority" body r.priority

-- The request, written as a body.
unfoldable pub body_of : TicketCreateRequest → Body
body_of r =
    ("title", string r.title)
    ∷ ("description", string r.description)
    ∷ ("category", string (category_members.value r.category))
    ∷ ("priority", string (priority_members.value r.priority))
    ∷ []

pub some-injective : {A : Type 0} (a b : A) → some a ≡ some b → a ≡ b
some-injective a b h = cc

-- A text that was stripped once stays as it is.
again :
    {lo hi : ℕ} (name : String) (body body' : Body) (t : Text)
    → lookup name body' ≡ some (string t)
    → Stripped lo hi name body t
    → Stripped lo hi name body' t
again name body body' t e (s, f, q, a, b) = (t, e, q ∙ sym (strip-strip s) ∙ ap strip (sym q), a, b)

module _ (pydantic : Pydantic) where
  abbrev strip_check : ℕ → Json → Option Text
  strip_check most v = pydantic.str_field 1 most (strip_text v)

  abbrev category_check : Json → Option TicketCategory
  category_check = pydantic.enum_field category_members

  abbrev priority_check : Json → Option TicketPriority
  priority_check = pydantic.enum_field priority_members

  -- A body is accepted as a new ticket exactly if it has no other fields than title, description,
  -- category and priority, the title and the description are strings that have 1 to 200 and 1 to 10000
  -- characters once they are stripped, and the others are values of their enumerations; the request
  -- then has the stripped texts and those members.
  pub ticket_create_request_iff :
      (body : Body) (r : TicketCreateRequest)
      → (ticket_create_request pydantic body ≡ some r) ↔ Describes body r
  unfolding ticket_create_request
  ticket_create_request_iff body r = (
    λ h.
        let (u, a, h1) = (some_bind_iff (forbid_extra ticket_fields body) _ r).0 h in
        let (t, b, h2) = (some_bind_iff (required (strip_check 200) "title" body) _ r).0 h1 in
        let (d, c, h3) =
          (some_bind_iff (required (strip_check 10000) "description" body) _ r).0 h2 in
        let (k, e, h4) = (some_bind_iff (required category_check "category" body) _ r).0 h3 in
        let (p, f, h5) = (some_bind_iff (required priority_check "priority" body) _ r).0 h4 in
        let made : TicketCreateRequest = record {
          title = t;
          description = d;
          category = k;
          priority = p;
        } in
        subst (Describes body) (some-injective made r h5) (record {
          names = (forbid_extra_iff ticket_fields body).0 a;
          title = (text_field_iff pydantic 1 200 "title" body t).0 b;
          description = (text_field_iff pydantic 1 10000 "description" body d).0 c;
          category = (member_field_iff pydantic category_members "category" body k).0 e;
          priority = (member_field_iff pydantic priority_members "priority" body p).0 f;
        }),
    λ h.
        rw
          (
            (forbid_extra_iff ticket_fields body).1 h.names,
            (text_field_iff pydantic 1 200 "title" body r.title).1 h.title,
            (text_field_iff pydantic 1 10000 "description" body r.description).1 h.description,
            (member_field_iff pydantic category_members "category" body r.category).1 h.category,
            (member_field_iff pydantic priority_members "priority" body r.priority).1 h.priority,
          )
          refl,
  )

  -- A body is accepted as a new comment exactly if its only field is a body of 1 to 5000 characters once
  -- it is stripped, and the request has the stripped text.
  pub comment_create_request_iff :
      (body : Body) (r : CommentCreateRequest)
      → (comment_create_request pydantic body ≡ some r)
        ↔ (OnlyNames ("body" ∷ []) body × Stripped 1 5000 "body" body r.body)
  unfolding comment_create_request
  comment_create_request_iff body r = (
    λ h.
        let (u, a, h1) = (some_bind_iff (forbid_extra ("body" ∷ []) body) _ r).0 h in
        let (t, b, h2) = (some_bind_iff (required (strip_check 5000) "body" body) _ r).0 h1 in
        let made : CommentCreateRequest = record { body = t } in
        (
          (forbid_extra_iff ("body" ∷ []) body).0 a,
          subst (λ (x : CommentCreateRequest). Stripped 1 5000 "body" body x.body)
              (some-injective made r h2) ((text_field_iff pydantic 1 5000 "body" body t).0 b),
        ),
    λ h.
        rw
          (
            (forbid_extra_iff ("body" ∷ []) body).1 h.0,
            (text_field_iff pydantic 1 5000 "body" body r.body).1 h.1,
          )
          refl,
  )

  -- A status body is accepted exactly if its only field is the value of a status.
  pub ticket_status_update_request_iff :
      (body : Body) (r : TicketStatusUpdateRequest)
      → (ticket_status_update_request pydantic body ≡ some r)
        ↔ (OnlyNames ("status" ∷ []) body × Names status_members "status" body r.status)
  unfolding ticket_status_update_request
  ticket_status_update_request_iff body r = (
    λ h.
        let (u, a, h1) = (some_bind_iff (forbid_extra ("status" ∷ []) body) _ r).0 h in
        let (s, b, h2) =
          (some_bind_iff (required (pydantic.enum_field status_members) "status" body) _ r).0 h1 in
        let made : TicketStatusUpdateRequest = record { status = s } in
        (
          (forbid_extra_iff ("status" ∷ []) body).0 a,
          subst (λ (x : TicketStatusUpdateRequest). Names status_members "status" body x.status)
              (some-injective made r h2)
              ((member_field_iff pydantic status_members "status" body s).0 b),
        ),
    λ h.
        rw
          (
            (forbid_extra_iff ("status" ∷ []) body).1 h.0,
            (member_field_iff pydantic status_members "status" body r.status).1 h.1,
          )
          refl,
  )

  -- What is accepted as a new ticket is accepted, as the same request, when it is sent again as it was
  -- understood.
  pub ticket_create_request-again :
      (body : Body) (r : TicketCreateRequest)
      → ticket_create_request pydantic body ≡ some r
      → ticket_create_request pydantic (body_of r) ≡ some r
  unfolding body_of
  ticket_create_request-again body r h =
      let d = (ticket_create_request_iff body r).0 h in
      (ticket_create_request_iff (body_of r) r).1 (record {
        names =
            (inl refl, (inr (inl refl), (inr (inr (inl refl)), (inr (inr (inr (inl refl))), tt))));
        title = again "title" body (body_of r) r.title refl d.title;
        description = again "description" body (body_of r) r.description refl d.description;
        category = refl;
        priority = refl;
      })
