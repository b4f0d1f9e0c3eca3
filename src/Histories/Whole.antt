-- ===== src/Histories/Whole.antt =====
-- Histories of app/ keep the integrity of the tables of app/models.
use ticketflow.Base.{
  ℕ, sym, inl, inr, List, [], ◌∷◌, ◌++◌, any, All, All-mono, All-append, Bool-cases, Option-cases,
  ◌==◌, nat_eq, subst,
}
use ticketflow.Base.Text.{Text}
use ticketflow.Models.{User, Db, WebhookRegistration}
use ticketflow.Auth.Libraries.{Jwt, Uuids, Letters, Passwords, Settings}
use ticketflow.Auth.Seed.{Chances}
use ticketflow.Webhooks.{Codec, Dispatch, WebhookDeliveryTarget}
use ticketflow.Histories.{
  World, Transaction, requests, registers, seeds, schedules, dispatches, committed, register, seed,
  take_task, perform, perform_all,
}
use ticketflow.Histories.Accounts.{
  AreSeparate, Grown, same-Grown, committed-AreSeparate, registered-Grown, seeded-Grown,
}
use ticketflow.Histories.Integrity.{IsWhole, Captured, Subscribes, Grown-IsSound}
use ticketflow.Histories.Subscriptions.{Extends}
use ticketflow.Histories.Deliveries.{taken_All, scheduled-Captured, dispatch-IsSound}
use ticketflow.Histories.Requests.{answer-Kept}

module _ (letters : Letters) (passwords : Passwords) where
  register-Grown :
      (new_id now salt : ℕ) (others : List User) (email password : Text) (db : Db)
      → AreSeparate db.users
      → Grown db (register letters passwords new_id now salt others email password db)
  unfolding register
  register-Grown new_id now salt others email password db s =
      elim (Bool-cases (any (λ u. u.id == new_id) (committed others db.users ++ db.users))) [
        | inl e ↦ rw e (same-Grown db s)
        | inr e ↦ rw e (
            registered-Grown letters passwords new_id now salt (committed others db.users) email
              password db e s (committed-AreSeparate others db.users s))
      ]

  seed-Grown :
      (email password : Text) (c : Chances) (db : Db)
      → AreSeparate db.users
      → Grown db (seed letters passwords email password c db)
  unfolding seed
  seed-Grown email password c db s =
      let others = committed c.meanwhile db.users in
      elim (Bool-cases (any (λ u. u.id == c.new_id) (others ++ db.users))) [
        | inl e ↦ rw e (same-Grown db s)
        | inr e ↦ rw e (
            seeded-Grown letters passwords email password (record c { meanwhile = others }) db e s
              (committed-AreSeparate c.meanwhile db.users s))
      ]

-- What was captured stays captured where every subscription is still stored.
Captured-after :
    (rs rs' : List WebhookRegistration) (ds : List Dispatch)
    → Extends rs rs'
    → All (Captured rs) ds
    → All (Captured rs') ds
Captured-after rs rs' ds f h =
    All-mono {P = Captured rs} {Q = Captured rs'}
      (λ d k.
        All-mono {P = λ (t : WebhookDeliveryTarget). Subscribes rs t.registration_id t.event_type}
          {Q = λ (t : WebhookDeliveryTarget). Subscribes rs' t.registration_id t.event_type}
          (λ t. f t.registration_id t.event_type) d.targets k)
      ds h

Grown-IsWhole :
    (w : World) (db' : Db) → Grown w.db db' → IsWhole w → IsWhole (record w { db = db' })
Grown-IsWhole w db' g h = record {
  db = Grown-IsSound w.db db' g h.db;
  tasks =
      subst (λ (x : Db). All (Captured x.webhook_registrations) w.tasks) (sym g.written) h.tasks;
}

module _ (jwt : Jwt) (uuids : Uuids) (settings : Settings) (letters : Letters)
    (passwords : Passwords) (codec : Codec) (str : ℕ → Text)
    (seeded_agent_email seeded_agent_password : Text) where
  perform-IsWhole :
      (t : Transaction jwt.Token) (w : World)
      → IsWhole w
      → IsWhole (
          perform jwt uuids settings letters passwords codec str seeded_agent_email
            seeded_agent_password t w)
  unfolding perform
  perform-IsWhole (requests now credentials r) w h =
      let (s, f) = answer-Kept jwt uuids settings letters now credentials w.db r h.db in
      record { db = s; tasks = Captured-after w.db.webhook_registrations _ w.tasks f h.tasks }
  perform-IsWhole (registers new_id now salt others email password) w h =
      Grown-IsWhole w _
        (register-Grown letters passwords new_id now salt others email password w.db h.db.accounts)
        h
  perform-IsWhole (seeds c) w h =
      Grown-IsWhole w _
        (seed-Grown letters passwords seeded_agent_email seeded_agent_password c w.db h.db.accounts)
        h
  perform-IsWhole (schedules event_id now event fields) w h = record {
    db = h.db;
    tasks =
        All-append (Captured w.db.webhook_registrations) w.tasks _ h.tasks
          (scheduled-Captured codec str event_id now event fields w.db);
  }
  perform-IsWhole (dispatches position env) w h = elim (Option-cases (take_task position w.tasks)) [
    | inl e ↦ rw (e, perform) h
    | inr ((d, rest), e) ↦
        let P = Captured w.db.webhook_registrations in
        let (captured, left) = taken_All P position w.tasks d rest e h.tasks in
        let (s, same) = dispatch-IsSound codec str env d w.db captured h.db in
        rw (e, perform)
          (record { db = s; tasks = subst (λ rs. All (Captured rs) rest) (sym same) left })
  ]

  -- Where identifiers and addresses are unique and every foreign key is stored, tickets belonging to
  -- customers, comments to accounts of the role that they bear, subscriptions to agents, and the delivery
  -- log and the waiting deliveries to subscriptions of their event, so it is after any sequence of requests
  -- with any credentials, registrations, seed runs and background deliveries, whatever raises.
  pub perform_all-IsWhole :
      (ts : List (Transaction jwt.Token)) (w : World)
      → IsWhole w
      → IsWhole (
          perform_all jwt uuids settings letters passwords codec str seeded_agent_email
            seeded_agent_password ts w)
  unfolding perform_all
  perform_all-IsWhole [] w h = h
  perform_all-IsWhole (t ∷ ts) w h = perform_all-IsWhole ts _ (perform-IsWhole t w h)
