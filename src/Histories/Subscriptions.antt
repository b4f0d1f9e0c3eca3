-- ===== src/Histories/Subscriptions.antt =====
-- What the subscriptions of app/services/webhook_service.py keep of the integrity of the tables.
use ticketflow.Base.{
  Bool, ◌⊎◌, ℕ, ◌≡◌, refl, sym, ap, ◌∙◌, inl, inr, false, List, ◌∷◌, any, find, find_sound, All,
  All_at, All-mono, All-overwrite, Elem, Distinct, Distinct-map, overwrite, Distinct-unique,
  overwrite_self, overwrite_others, Bool-cases, Option-cases, ℕ_discrete, ◌==◌, ◌&&◌, nat_eq, subst,
}
use ticketflow.Base.Text.{Text}
use ticketflow.Models.{User, Db, WebhookRegistration, WebhookEventType, agent}
use ticketflow.Webhooks.{
  registration_key, create_webhook_registration, deactivate_webhook_registration,
}
use ticketflow.Workflow.Refinement.{any-none}
use ticketflow.Workflow.Lifecycle.{overwrite_key}
use ticketflow.Histories.{subscribing, unsubscribing, act}
use ticketflow.Histories.Integrity.{IsSound, Subscribes, LogStands, RegistrationStands}

-- Every subscription of before is stored, with its event.
abbrev pub Extends : List WebhookRegistration → List WebhookRegistration → Type 0
Extends rs rs' = (k : ℕ) (event : WebhookEventType) → Subscribes rs k event → Subscribes rs' k event

registrations-IsSound :
    (db : Db) (rs : List WebhookRegistration)
    → Distinct registration_key rs
    → All (RegistrationStands db.users) rs
    → Extends db.webhook_registrations rs
    → IsSound db
    → IsSound (record db { webhook_registrations = rs })
registrations-IsSound db rs d made f s = record {
  accounts = s.accounts;
  valid = record { tickets = s.valid.tickets; comments = s.valid.comments; owned = s.valid.owned };
  tickets = s.tickets;
  comments = s.comments;
  registration_ids = d;
  registrations = made;
  logs =
      All-mono {P = LogStands db.webhook_registrations} {Q = LogStands rs}
        (λ log h. f log.webhook_registration_id log.event_type h) db.webhook_delivery_logs s.logs;
}

pub subscribe-IsSound :
    (now new_id : ℕ) (secret url : Text) (event : WebhookEventType) (u : User) (db : Db)
    → Elem u db.users
    → u.role ≡ agent
    → IsSound db
    → let db' = act now (subscribing new_id secret url event) u db in
      IsSound db' × Extends db.webhook_registrations db'.webhook_registrations
unfolding act create_webhook_registration
subscribe-IsSound now new_id secret url event u db m role s =
    elim (Bool-cases (any (λ r. r.id == new_id) db.webhook_registrations)) [
      | inl e ↦ rw e (s, λ k event h. h)
      | inr e ↦
          let more : (r : WebhookRegistration)
              → Extends db.webhook_registrations (r ∷ db.webhook_registrations) =
            λ r k event (x, mx, p, q). (x, inr mx, p, q) in
          rw e (
            registrations-IsSound db _
                (any-none registration_key new_id db.webhook_registrations e, s.registration_ids)
                ((u, m, refl, role), s.registrations) (more _) s,
            more _,
          )
    ]

-- An overwritten subscription is found under its identifier with its event, and so is every other.
overwritten-Extends :
    (r r' : WebhookRegistration) (rs : List WebhookRegistration)
    → Distinct registration_key rs
    → Elem r rs
    → r'.id ≡ r.id
    → r'.event_type ≡ r.event_type
    → Extends rs (overwrite registration_key r' rs)
overwritten-Extends r r' rs d m same kind k event (x, mx, p, q) = elim (ℕ_discrete x.id r'.id) [
  | yes e ↦
      let it : x ≡ r = Distinct-unique registration_key rs x r d mx m (e ∙ same) in
      (
        r',
        overwrite_self registration_key r' r rs m (sym same),
        sym e ∙ p,
        kind ∙ ap (λ (y : WebhookRegistration). y.event_type) (sym it) ∙ q,
      )
  | no n ↦ (x, (overwrite_others registration_key r' x rs n).1 mx, p, q)
]

-- A deactivation writes nothing, or one row with its flag taken away.
deactivated_cases :
    (k : ℕ) (db : Db)
    → ((deactivate_webhook_registration k db).1 ≡ db)
      ⊎ ((r : WebhookRegistration) × Elem r db.webhook_registrations
          × ((deactivate_webhook_registration k db).1 ≡ record db {
            webhook_registrations =
                overwrite registration_key
                  (record r { is_active = false })
                  db.webhook_registrations;
          }))
unfolding deactivate_webhook_registration
deactivated_cases k db =
    let asked : WebhookRegistration → Bool = λ r. r.id == k && r.is_active in
    elim (Option-cases (find asked db.webhook_registrations)) [
      | inl e ↦ inl (rw e refl)
      | inr (r, e) ↦ inr (r, (find_sound asked db.webhook_registrations r e).0, rw e refl)
    ]

pub unsubscribe-IsSound :
    (now k : ℕ) (u : User) (db : Db)
    → IsSound db
    → let db' = act now (unsubscribing k) u db in
      IsSound db' × Extends db.webhook_registrations db'.webhook_registrations
unfolding act
unsubscribe-IsSound now k u db s =
    let rs = db.webhook_registrations in
    let P : Db → Type 0 = λ x. IsSound x × Extends rs x.webhook_registrations in
    elim (deactivated_cases k db) [
      | inl e ↦ subst P (sym e) (s, λ k' event h. h)
      | inr (r, m, e) ↦
          let r' : WebhookRegistration = record r { is_active = false } in
          let kept = overwritten-Extends r r' rs s.registration_ids m refl refl in
          subst P (sym e) (
            registrations-IsSound db _
                (Distinct-map registration_key _ (overwrite_key registration_key r') rs
                  s.registration_ids)
                (All-overwrite (RegistrationStands db.users) registration_key r' rs
                  (All_at (RegistrationStands db.users) rs s.registrations r m) s.registrations)
                kept s,
            kept,
          )
    ]
