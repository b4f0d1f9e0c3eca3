-- ===== src/Webhooks/Scheduling.antt =====
-- Who is sent an event: the active registrations of its type, in app/services/webhook_service.py.
use ticketflow.Base.{
  ℕ, ◌≡◌, ◌≢◌, refl, sym, ap, ◌∙◌, ◌↔◌, Bool, true, false, ◌&&◌, List, [], ◌∷◌, ◌++◌, map,
  overwrite_only, Elem-map_iff, All-mono, find_complete, find_fails, arith, All, Elem, Elem-filter,
  filter_subset, filter_passes, All_at, Distinct, overwrite, overwrite_others, ◌==◌, nat_eq,
}
use mathlib.Core.List.{append-nil}
use ticketflow.Exec.{ok, err, webhook_not_found}
use ticketflow.Models.{Db, WebhookRegistration, WebhookEventType, JsonObject, event_eq}
use ticketflow.Webhooks.{
  WebhookDeliveryTarget, Codec, Dispatch, schedule_webhook_event, active_registrations, target_of,
  registration_key, deactivate_webhook_registration,
}

-- The targets of everything that is scheduled.
abbrev pub all_targets : List Dispatch → List WebhookDeliveryTarget
all_targets [] = []
all_targets (d ∷ ds) = d.targets ++ all_targets ds

abbrev pub Subscribed : WebhookEventType → WebhookRegistration → Type 0
Subscribed event r = (r.event_type ≡ event) × (r.is_active ≡ true)

abbrev takes : WebhookEventType → WebhookRegistration → Bool
takes event r = r.event_type == event && r.is_active

takes_iff :
    (event : WebhookEventType) (r : WebhookRegistration)
    → (takes event r ≡ true) ↔ Subscribed event r
takes_iff event r = ground arith

active_iff :
    (event : WebhookEventType) (db : Db) (r : WebhookRegistration)
    → Elem r (active_registrations event db)
      ↔ (Elem r db.webhook_registrations × Subscribed event r)
unfolding active_registrations
active_iff event db r = (
  λ m. (
    filter_subset (takes event) db.webhook_registrations r m,
    (takes_iff event r).0 (
        All_at (λ x. takes event x ≡ true) (active_registrations event db)
          (filter_passes (takes event) db.webhook_registrations) r m),
  ),
  λ h. Elem-filter (takes event) db.webhook_registrations r h.0 ((takes_iff event r).1 h.1),
)

-- What is scheduled is one dispatch or none.
abbrev Scheduled :
    Codec → WebhookEventType → JsonObject → List WebhookRegistration → List Dispatch → Type 0
Scheduled codec event fields [] ds = ds ≡ []
Scheduled codec event fields (r ∷ rs) ds =
    (d : Dispatch) × (ds ≡ d ∷ [])
    × (d.targets ≡ map target_of (r ∷ rs))
    × (d.body ≡ codec.serialize d.envelope)
    × (d.envelope.event ≡ event)
    × (d.envelope.fields ≡ fields)

module _ (codec : Codec) (event_id now : ℕ) (event : WebhookEventType) (fields : JsonObject) where
  abbrev pub scheduled : Db → List Dispatch
  scheduled db = schedule_webhook_event codec event_id now event fields db

  all_targets-eq :
      (db : Db) → all_targets (scheduled db) ≡ map target_of (active_registrations event db)
  unfolding schedule_webhook_event
  all_targets-eq db = go (active_registrations event db) refl
    where
      go :
          (rs : List WebhookRegistration)
          → active_registrations event db ≡ rs
          → all_targets (scheduled db) ≡ map target_of rs
      go [] e = rw (e, schedule_webhook_event)
      go (r ∷ rs) e = rw (e, schedule_webhook_event) (append-nil (map target_of (r ∷ rs)))

  bodies :
      (db : Db)
      → All
          (λ d.
            (d.body ≡ codec.serialize d.envelope)
            × (d.envelope.event ≡ event)
            × (d.envelope.fields ≡ fields))
          (scheduled db)
  unfolding schedule_webhook_event
  bodies db = go (active_registrations event db) refl
    where
      go :
          (rs : List WebhookRegistration)
          → active_registrations event db ≡ rs
          → All
              (λ d.
                (d.body ≡ codec.serialize d.envelope)
                × (d.envelope.event ≡ event)
                × (d.envelope.fields ≡ fields))
              (scheduled db)
      go [] e = rw (e, schedule_webhook_event) tt
      go (r ∷ rs) e = rw (e, schedule_webhook_event) ((refl, refl, refl), tt)

  -- The scheduled targets are the active registrations of the event's type, with their data, and no
  -- others; every scheduled dispatch carries the given event and data, and the bytes that are to be
  -- signed and sent are the serialisation of the very envelope that is logged.
  pub schedule_webhook_event_exact :
      (db : Db)
      → ((target : WebhookDeliveryTarget)
          → Elem target (all_targets (scheduled db)) ↔ (
              (r : WebhookRegistration) × (Elem r db.webhook_registrations × Subscribed event r)
              × (target ≡ record {
                registration_id = r.id;
                url = r.url;
                secret = r.secret;
                event_type = r.event_type;
              })))
        × All
            (λ d.
              (d.body ≡ codec.serialize d.envelope)
              × (d.envelope.event ≡ event)
              × (d.envelope.fields ≡ fields))
            (scheduled db)
  unfolding target_of
  schedule_webhook_event_exact db = (
    λ target. rw (all_targets-eq db) (
      λ m.
          let (r, k, e) = (Elem-map_iff target_of (active_registrations event db) target).0 m in
          (r, (active_iff event db r).0 k, e),
      λ (r, h, e).
          (Elem-map_iff target_of (active_registrations event db) target).1
            (r, (active_iff event db r).1 h, e),
    ),
    bodies db,
  )

asked : ℕ → WebhookRegistration → Bool
asked k r = r.id == k && r.is_active

asked_iff :
    (k : ℕ) (r : WebhookRegistration) → (asked k r ≡ true) ↔ ((r.id ≡ k) × (r.is_active ≡ true))
unfolding asked
asked_iff k r = ground arith

module _ (r : WebhookRegistration) (db : Db) where
  -- With unique identifiers, `deactivate_webhook_registration` of an active registration succeeds; from then on no event is
  -- scheduled for it, the other registrations are as before, and so are the delivery log and all
  -- other tables.
  pub deactivate_exact :
      Distinct registration_key db.webhook_registrations
      → Elem r db.webhook_registrations
      → r.is_active ≡ true
      → let (result, db') = deactivate_webhook_registration r.id db in
        (result ≡ ok tt)
        × ((codec : Codec) (event_id now : ℕ) (event : WebhookEventType) (fields : JsonObject)
              (target : WebhookDeliveryTarget)
            → Elem target (all_targets (scheduled codec event_id now event fields db'))
            → target.registration_id ≢ r.id)
        × ((x : WebhookRegistration)
            → x.id ≢ r.id
            → Elem x db'.webhook_registrations ↔ Elem x db.webhook_registrations)
        × (db'.webhook_delivery_logs ≡ db.webhook_delivery_logs)
  unfolding deactivate_webhook_registration asked target_of
  deactivate_exact d m active =
      let inactive : WebhookRegistration = record r { is_active = false } in
      rw
        (find_complete registration_key (asked r.id) db.webhook_registrations r d m
          ((asked_iff r.id r).1 (refl, active)) (λ x e. ((asked_iff r.id x).0 e).0))
        (
          refl,
          λ codec event_id now event fields target k p.
              let (x, (here, (same, on)), e) =
                ((schedule_webhook_event_exact codec event_id now event fields (record db {
                  webhook_registrations =
                      overwrite registration_key inactive db.webhook_registrations;
                })).0
                    target).0
                  k in
              let is_it : x ≡ inactive =
                overwrite_only registration_key inactive x db.webhook_registrations here
                  (ap (λ (t : WebhookDeliveryTarget). t.registration_id) (sym e) ∙ p) in
              cc (ap (λ (y : WebhookRegistration). y.is_active) is_it, on),
          λ x h. overwrite_others registration_key inactive x db.webhook_registrations h,
          refl,
        )

-- Where no active registration has the identifier, whether it is unknown or was deactivated before,
-- the call raises WebhookNotFoundError and changes nothing.
pub deactivate_inactive :
    (k : ℕ) (db : Db)
    → All (λ r. r.id ≡ k → r.is_active ≡ false) db.webhook_registrations
    → deactivate_webhook_registration k db ≡ (err webhook_not_found, db)
unfolding deactivate_webhook_registration asked
deactivate_inactive k db h = rw (
    find_fails (asked k) db.webhook_registrations
      (All-mono (λ r p. not_asked r p) db.webhook_registrations h))
  where
    not_asked : (r : WebhookRegistration) → (r.id ≡ k → r.is_active ≡ false) → asked k r ≡ false
    not_asked r p = ground arith
