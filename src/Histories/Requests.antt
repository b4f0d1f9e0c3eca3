-- ===== src/Histories/Requests.antt =====
-- Requests behind the dependencies of app/core/deps.py: who makes them, and what they keep of the integrity
-- of the tables.
use ticketflow.Base.{ℕ, ◌≡◌, refl, sym, ap, ◌∙◌, inl, inr, Option, Elem, nat_eq, subst}
use ticketflow.Exec.{Result, ok, err}
use ticketflow.Models.{User, Db, customer, agent, role_eq}
use ticketflow.Tickets.Edits.{setattrs-SameTicket}
use ticketflow.Auth.Libraries.{Jwt, Uuids, Letters, Settings}
use ticketflow.Auth.Deps.{Credentials}
use ticketflow.Auth.Guards.{Reads, user-Reads, agent-Reads, customer-Reads, let_through}
use ticketflow.Auth.Roles.{looked_up}
use ticketflow.Workflow.{Call, creates, updates, deletes, moves, comments, call}
use ticketflow.Workflow.Rows.{Obliges}
use ticketflow.Histories.{
  Request, opening, editing, withdrawing, moving, commenting, subscribing, unsubscribing, act,
  dependency, answer,
}
use ticketflow.Histories.Integrity.{
  IsSound, TicketStands, CommentStands, call_registrations, call-IsSound,
}
use ticketflow.Histories.Subscriptions.{Extends, subscribe-IsSound, unsubscribe-IsSound}

-- The role that the request needs.
abbrev pub Permits : Request → User → Type 0
Permits (opening _ _ _ _ _) u = u.role ≡ customer
Permits (editing _ _ _) u = u.role ≡ customer
Permits (withdrawing _) u = u.role ≡ customer
Permits (moving _ _ _) u = u.role ≡ agent
Permits (commenting _ _ _) u = Unit
Permits (subscribing _ _ _ _) u = u.role ≡ agent
Permits (unsubscribing _) u = u.role ≡ agent

abbrev pub Kept : Db → Db → Type 0
Kept db db' = IsSound db' × Extends db.webhook_registrations db'.webhook_registrations

called-Kept :
    (c : Call) (db : Db)
    → Obliges (TicketStands db.users) (CommentStands db.users) c
    → IsSound db
    → Kept db (call c db)
called-Kept c db f s = (
  call-IsSound c db f s,
  λ k event h. let (r, m, e, q) = h in (r, subst (Elem r) (sym (call_registrations c db)) m, e, q),
)

-- What a stored user of the needed role asks for keeps the tables sound.
pub act-Kept :
    (now : ℕ) (r : Request) (u : User) (db : Db)
    → Elem u db.users
    → Permits r u
    → IsSound db
    → Kept db (act now r u db)
unfolding act Obliges
act-Kept now (opening new_id title description category priority) u db m role s =
    called-Kept (creates new_id now u title description category priority) db (u, m, refl, role) s
act-Kept now (editing at k us) u db m role s =
    called-Kept (updates at k u us) db
      (λ t h. let (v, mv, e, q) = h in (v, mv, e ∙ sym (setattrs-SameTicket t us).customer_id, q)) s
act-Kept now (withdrawing k) u db m role s = called-Kept (deletes k u) db tt s
act-Kept now (moving at k new) u db m role s = called-Kept (moves at k new) db (λ t h. h) s
act-Kept now (commenting new_id k body) u db m role s =
    called-Kept (comments new_id now k u body) db (λ ticket_id. (u, m, refl, refl)) s
act-Kept now (subscribing new_id secret url event) u db m role s =
    subscribe-IsSound now new_id secret url event u db m role s
act-Kept now (unsubscribing k) u db m role s = unsubscribe-IsSound now k u db s

module _ (jwt : Jwt) (uuids : Uuids) (settings : Settings) (letters : Letters) where
  module _ (now : ℕ) (credentials : Option (Credentials jwt.Token)) (db : Db) where
    -- The dependency of an endpoint reads, and lets through whom the request permits.
    dependency_lem :
        (r : Request)
        → let m = dependency jwt uuids settings letters r now credentials in
          Reads m db × ((u : User) → m db ≡ (ok u, db) → Elem u db.users × Permits r u)
    unfolding dependency
    dependency_lem (opening _ _ _ _ _) = (
      customer-Reads jwt uuids settings letters now credentials db,
      λ u. (let_through jwt uuids settings letters now credentials db u).1,
    )
    dependency_lem (editing _ _ _) = (
      customer-Reads jwt uuids settings letters now credentials db,
      λ u. (let_through jwt uuids settings letters now credentials db u).1,
    )
    dependency_lem (withdrawing _) = (
      customer-Reads jwt uuids settings letters now credentials db,
      λ u. (let_through jwt uuids settings letters now credentials db u).1,
    )
    dependency_lem (moving _ _ _) = (
      agent-Reads jwt uuids settings letters now credentials db,
      λ u. (let_through jwt uuids settings letters now credentials db u).0,
    )
    dependency_lem (commenting _ _ _) = (
      user-Reads jwt uuids settings letters now credentials db,
      λ u h. ((looked_up jwt uuids settings letters now credentials db u h).0, tt),
    )
    dependency_lem (subscribing _ _ _ _) = (
      agent-Reads jwt uuids settings letters now credentials db,
      λ u. (let_through jwt uuids settings letters now credentials db u).0,
    )
    dependency_lem (unsubscribing _) = (
      agent-Reads jwt uuids settings letters now credentials db,
      λ u. (let_through jwt uuids settings letters now credentials db u).0,
    )

    pub answer-Kept :
        (r : Request)
        → IsSound db
        → Kept db (answer jwt uuids settings letters now credentials r db)
    unfolding answer
    answer-Kept r s =
        let (reads, permits) = dependency_lem r in
        let after : Result User × Db → Db =
          λ p. elim p.0 [ ok user ↦ act now r user p.1 | err e ↦ p.1 ] in
        elim reads [
          | inl (u, e) ↦
              let (m, role) = permits u e in
              subst (Kept db) (sym (ap after e)) (act-Kept now r u db m role s)
          | inr (x, e) ↦ subst (Kept db) (sym (ap after e)) (s, λ k event h. h)
        ]
