-- ===== src/Api/Comments.antt =====
-- app/api/v1/comments.py: `create`, after the dependencies and the validation of the body.
use ticketflow.Base.{ℕ, String, ◌≡◌, refl, [], ◌∷◌, ◌++◌, Elem, All, Distinct, subst}
use ticketflow.Base.Text.{Text}
use ticketflow.Exec.{Exec, ok, err, pure, ticket_not_found, bind_ok, bind_err, ◌>>=◌, ◌>>◌}
use ticketflow.Models.{User, Ticket, Comment, JsonObject, uuid, text, word, instant, role_value}
use ticketflow.Tickets.Access.{MaySee}
use ticketflow.Tickets.Effects.{ticket_key}
use ticketflow.Comments.{create_comment}
use ticketflow.Comments.Thread.{create_comment_exact, comments_hidden}
use ticketflow.Websockets.{dashboard_channel, ticket_channel, members, broadcast}
use ticketflow.Api.App.{App, Event, Traffic, in_db, broadcast_event}
use ticketflow.Api.Announcements.{in_db-ok, in_db-err}

-- `CommentResponse.model_dump(mode="json")`
unfoldable pub comment_fields : Comment → JsonObject
comment_fields c =
    ("id", uuid c.id)
    ∷ ("ticket_id", uuid c.ticket_id)
    ∷ ("author_id", uuid c.author_id)
    ∷ ("author_role", word (role_value c.author_role))
    ∷ ("body", text c.body)
    ∷ ("created_at", instant c.created_at)
    ∷ []

module _ {Counters Cache : Type 0} (uuid_str : ℕ → String) (to_ticket to_dashboard : Traffic) where
  -- `create_comment` has committed.
  unfoldable pub announce_comment : ℕ → Comment → Exec (App Counters Cache) Comment
  unfolding comment_fields broadcast_event
  announce_comment ticket_id comment = do
    let event : Event = record {
      event = "comment.created";
      ticket_id = ticket_id;
      fields = comment_fields comment;
    }
    broadcast_event to_ticket (ticket_channel uuid_str ticket_id) event
    broadcast_event to_dashboard dashboard_channel event
    pure comment

  unfoldable pub create : (new_id now : ℕ) → ℕ → User → Text → Exec (App Counters Cache) Comment
  create new_id now ticket_id current_user body =
      in_db (create_comment new_id now ticket_id current_user body) >>= announce_comment ticket_id

  module _ (new_id now ticket_id : ℕ) (user : User) (body : Text) (app : App Counters Cache) where
    -- What a request that succeeds has done.
    pub record Posted (c : Comment) (app' : App Counters Cache) : Type 0 where
      pub place :
          (c.ticket_id ≡ ticket_id)
          × (c.author_id ≡ user.id)
          × (c.author_role ≡ user.role)
          × (c.body ≡ body)
          × (c.id ≡ new_id)
          × (c.created_at ≡ now)
      pub db : app'.db ≡ record app.db { comments = c ∷ app.db.comments }
      pub sendings :
          let event : Event = record {
            event = "comment.created";
            ticket_id = ticket_id;
            fields =
                ("id", uuid c.id)
                ∷ ("ticket_id", uuid c.ticket_id)
                ∷ ("author_id", uuid c.author_id)
                ∷ ("author_role", word (role_value c.author_role))
                ∷ ("body", text c.body)
                ∷ ("created_at", instant c.created_at)
                ∷ [];
          } in
          let channel = ticket_channel uuid_str ticket_id in
          let after_first =
            (broadcast to_ticket.outcome to_ticket.meanwhile channel app.connections).connections in
          app'.sendings
          ≡ app.sendings
            ++ (record {
              channel = channel;
              event = event;
              receivers = members channel app.connections;
            }
                ∷ [])
            ++ (record {
              channel = dashboard_channel;
              event = event;
              receivers = members dashboard_channel after_first;
            }
                ∷ [])
      pub cache : app'.cache ≡ app.cache
      pub tasks : app'.tasks ≡ app.tasks

  -- What `create` does on this ticket.
  abbrev Found : (new_id now ticket_id : ℕ) → User → Text → App Counters Cache → Type 0
  Found new_id now ticket_id user body app =
      let (r, app') = create new_id now ticket_id user body app in
      (c : Comment) × (r ≡ ok c) × Posted new_id now ticket_id user body app c app'

  found :
      (new_id now : ℕ) (t : Ticket) (user : User) (body : Text) (app : App Counters Cache)
      → Distinct ticket_key app.db.tickets
      → Elem t app.db.tickets
      → MaySee user t
      → Found new_id now t.id user body app
  unfolding create announce_comment comment_fields members broadcast
  found new_id now t user body app d m v =
      let (c, e, a, b, g, f, new, made) =
        create_comment_exact t user app.db d new_id now body m v in
      rw
        (
          bind_ok (in_db (create_comment new_id now t.id user body)) (announce_comment t.id)
              (in_db-ok (create_comment new_id now t.id user body) app e),
          create,
        )
        (
          c,
          refl,
          record {
            place = (a, b, g, f, new, made);
            db = refl;
            sendings = refl;
            cache = refl;
            tasks = refl;
          },
        )

  module _ (new_id now ticket_id : ℕ) (user : User) (body : Text) (app : App Counters Cache) where
    -- With unique identifiers of tickets, `create` on a stored ticket that the user may see adds one comment
    -- with the user as its author, in the role that the database has, changes no other row, and sends that
    -- comment to the sockets of the ticket and then to those of the dashboard; where every ticket with the
    -- identifier is hidden from the user it raises TicketNotFoundError, stores nothing and sends nothing.
    pub posted_exact :
        Distinct ticket_key app.db.tickets
        → let (r, app') = create new_id now ticket_id user body app in
          ((t : Ticket)
            → Elem t app.db.tickets
            → t.id ≡ ticket_id
            → MaySee user t
            → (c : Comment) × (r ≡ ok c) × Posted new_id now ticket_id user body app c app')
          × (All (λ t. t.id ≡ ticket_id → ¬ MaySee user t) app.db.tickets
              → (r ≡ err ticket_not_found) × (app' ≡ app))
    unfolding create
    posted_exact d = (
      λ t m same v.
          subst (λ k. Found new_id now k user body app) same
            (found new_id now t user body app d m v),
      λ h.
          rw
            (
              bind_err (in_db (create_comment new_id now ticket_id user body))
                  (announce_comment ticket_id)
                  (in_db-err (create_comment new_id now ticket_id user body) app
                    (comments_hidden ticket_id new_id now user body app.db h).0),
              create,
            )
            (refl, refl),
    )
