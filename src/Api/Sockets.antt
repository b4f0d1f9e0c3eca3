-- ===== src/Api/Sockets.antt =====
-- app/api/v1/ws.py: which channel a new socket joins. A socket that joins none is closed with the code
-- 1008 (policy violation).
use ticketflow.Base.{
  ℕ, String, ◌≤◌, leb, ◌&&◌, Bool, true, arith, ◌≡◌, refl, sym, ap, ◌∙◌, inl, inr, ◌↔◌, Option,
  none, some, Option-cases, Bool-cases, Elem, find_sound, find_complete, Distinct, ◌==◌, nat_eq,
  nat_beq_iff, if◌then◌else◌,
}
use ticketflow.Exec.{ok, err}
use ticketflow.Models.{User, Ticket, Db, agent, role_eq, role_beq_iff}
use ticketflow.Tickets.Query.{get_accessible_ticket}
use ticketflow.Tickets.Access.{MaySee, get_accessible_ticket_iff}
use ticketflow.Tickets.Effects.{ticket_key}
use ticketflow.Auth.Libraries.{Jwt, Uuids, Settings}
use ticketflow.Auth.Security.{decode_token, access}
use ticketflow.Auth.Service.{get_user_by_id}
use ticketflow.Auth.Sessions.{user_key}
use ticketflow.Workflow.Refinement.{loaded_cases}
use ticketflow.Websockets.{ticket_channel, dashboard_channel}

-- `characters` is the length of a token's text.
module _ (jwt : Jwt) (uuids : Uuids) (settings : Settings) (uuid_str : ℕ → String)
    (characters : jwt.Token → ℕ) where
  -- `Query(min_length=1, max_length=4096)`: FastAPI closes a socket with another token, with 1008 too, and
  -- its handler does not run.
  unfoldable pub token_fits : Option jwt.Token → Bool
  token_fits none = true
  token_fits (some token) = leb 1 (characters token) && leb (characters token) 4096

  unfoldable pub user_of : Option ℕ → Db → Option User
  user_of none db = none
  user_of (some user_id) db = get_user_by_id user_id db.users

  -- `_authenticate`
  unfoldable pub authenticate : (now : ℕ) → Option jwt.Token → Db → Option User
  unfolding user_of
  authenticate now none db = none
  authenticate now (some token) db = user_of (decode_token jwt uuids settings now token access) db

  -- The validated token, then `_authenticate`.
  unfoldable pub admit : (now : ℕ) → Option jwt.Token → Db → Option User
  unfolding token_fits authenticate
  admit now token db = if token_fits token then authenticate now token db else none

  -- `ticket_updates`, up to `_serve_channel`
  unfoldable pub ticket_updates : (now : ℕ) → Option jwt.Token → ℕ → Db → Option String
  ticket_updates now token ticket_id db = elim (admit now token db) [
    | none ↦ none
    | some current_user ↦ elim (get_accessible_ticket ticket_id current_user db).0 [
      | ok ticket ↦ some (ticket_channel uuid_str ticket_id)
      | err e ↦ none
    ]
  ]

  -- `dashboard_updates`, up to `_serve_channel`
  unfoldable pub dashboard_updates : (now : ℕ) → Option jwt.Token → Db → Option String
  dashboard_updates now token db = elim (admit now token db) [
    | none ↦ none
    | some current_user ↦ if current_user.role == agent then some dashboard_channel else none
  ]

  -- The token has 1 to 4096 characters and is an access token that is valid now and names the stored user.
  abbrev pub Admits : (now : ℕ) → Option jwt.Token → Db → User → Type 0
  Admits now token db u =
      Elem u db.users
      × ((t : jwt.Token) × (token ≡ some t)
          × (1 ≤ characters t)
          × (characters t ≤ 4096)
          × (decode_token jwt uuids settings now t access ≡ some u.id))

  authenticated :
      (now : ℕ) (token : Option jwt.Token) (db : Db) (u : User)
      → Distinct user_key db.users
      → Admits now token db u
      → admit now token db ≡ some u
  unfolding admit authenticate user_of get_user_by_id token_fits
  authenticated now token db u d (m, (t, e, least, most, f)) =
      let fits : leb 1 (characters t) && leb (characters t) 4096 ≡ true = ground arith in
      rw (e, admit, fits, authenticate, f)
        (find_complete user_key (λ x. x.id == u.id) db.users u d m ((nat_beq_iff u.id u.id).1 refl)
          (λ x q. (nat_beq_iff x.id u.id).0 q))

  admitted :
      (now : ℕ) (token : Option jwt.Token) (db : Db) (u : User)
      → admit now token db ≡ some u
      → Admits now token db u
  unfolding admit authenticate user_of get_user_by_id token_fits
  admitted now none db u h = cc
  admitted now (some t) db u h =
      elim (Bool-cases (leb 1 (characters t) && leb (characters t) 4096)) [
        | inr wrong ↦ let c : none ≡ some u = rw (wrong, admit) at h in cc
        | inl fits ↦ elim (Option-cases (decode_token jwt uuids settings now t access)) [
          | inl e ↦ let c : none ≡ some u = rw (fits, e, admit) at h in cc
          | inr (k, e) ↦
              let (m, q) =
                find_sound (λ (x : User). x.id == k) db.users u (rw (fits, e, admit) at h) in
              (
                m,
                (t, refl, ground arith, ground arith, e ∙ ap some (sym ((nat_beq_iff u.id k).0 q))),
              )
        ]
      ]

  module _ (now : ℕ) (token : Option jwt.Token) (db : Db) where
    -- With unique identifiers of users and tickets: a socket joins the channel of a ticket exactly if its
    -- query token has 1 to 4096 characters and is a valid access token of a stored user, and the ticket is stored and visible to that
    -- user; it joins the dashboard's exactly if the token is such a one of a stored agent.
    pub sockets_exact :
        (ticket_id : ℕ)
        → Distinct user_key db.users
        → Distinct ticket_key db.tickets
        → ((ticket_updates now token ticket_id db ≡ some (ticket_channel uuid_str ticket_id)) ↔ (
            (u : User) × (t : Ticket) × Admits now token db u
            × Elem t db.tickets
            × (t.id ≡ ticket_id)
            × MaySee u t))
          × ((dashboard_updates now token db ≡ some dashboard_channel)
              ↔ ((u : User) × Admits now token db u × (u.role ≡ agent)))
    unfolding ticket_updates dashboard_updates
    sockets_exact ticket_id du dt = (
      (
        λ h. elim (Option-cases (admit now token db)) [
          | inl e ↦
              let c : none ≡ some (ticket_channel uuid_str ticket_id) =
                rw (e, ticket_updates) at h in
              cc
          | inr (u, e) ↦ elim (loaded_cases ticket_id u db) [
            | inl (t, f, m, q) ↦ (
              u,
              t,
              admitted now token db u e,
              m,
              q,
              ((get_accessible_ticket_iff ticket_id u db dt t).0 f).2,
            )
            | inr f ↦
                let c : none ≡ some (ticket_channel uuid_str ticket_id) =
                  rw (e, ticket_updates, f) at h in
                cc
          ]
        ],
        λ (u, t, a, m, q, v).
            rw
              (
                authenticated now token db u du a,
                ticket_updates,
                (get_accessible_ticket_iff ticket_id u db dt t).1 (m, q, v),
              )
              refl,
      ),
      (
        λ h. elim (Option-cases (admit now token db)) [
          | inl e ↦ let c : none ≡ some dashboard_channel = rw (e, dashboard_updates) at h in cc
          | inr (u, e) ↦ elim (Bool-cases (u.role == agent)) [
            | inl r ↦ (u, admitted now token db u e, (role_beq_iff u.role agent).0 r)
            | inr r ↦
                let c : none ≡ some dashboard_channel = rw (e, dashboard_updates, r) at h in cc
          ]
        ],
        λ (u, a, r). rw (authenticated now token db u du a, dashboard_updates, r) refl,
      ),
    )
