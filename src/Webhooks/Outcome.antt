-- ===== src/Webhooks/Outcome.antt =====
-- What app/services/webhook_service.py leaves behind after a dispatch.
use ticketflow.Base.{
  ℕ, suc, ◌≡◌, refl, sym, ap, ◌∙◌, ◌⊎◌, inl, inr, Bool, true, false, some, List, [], ◌∷◌,
  Option-cases, Bool-cases,
}
use ticketflow.Base.Text.{Text}
use ticketflow.Models.{Db, WebhookEventEnvelope, WebhookDeliveryLog}
use ticketflow.Webhooks.{WebhookDeliveryTarget, Codec, Dispatch}
use ticketflow.Webhooks.Delivery.{
  Attempt, row_of, request_of, record_delivery, response_code_valid, deliver_to_target, deliver_all,
  dispatch_webhook_event,
}

-- The other tables of the database, and its registrations, are as before.
pub record OnlyLogs (db db' : Db) : Type 0 where
  pub users : db'.users ≡ db.users
  pub tickets : db'.tickets ≡ db.tickets
  pub comments : db'.comments ≡ db.comments
  pub registrations : db'.webhook_registrations ≡ db.webhook_registrations

-- The rows are put in front of the log, one after the other.
abbrev pub put : List WebhookDeliveryLog → List WebhookDeliveryLog → List WebhookDeliveryLog
put [] logs = logs
put (row ∷ rows) logs = put rows (row ∷ logs)

module _ (codec : Codec) (str : ℕ → Text) where
  -- The row that one attempt stores: none if it raises, or if the table refuses its response code.
  abbrev pub Stores :
      Attempt → WebhookDeliveryTarget → WebhookEventEnvelope → Text → WebhookDeliveryLog → Type 0
  Stores a target payload body row =
      (row_of codec str a target payload (a.post (request_of codec str a target body)) ≡ some row)
      × (response_code_valid row.response_code ≡ true)

  module _ (a : Attempt) (target : WebhookDeliveryTarget) (payload : WebhookEventEnvelope)
      (body : Text) (db : Db) where
    abbrev pub result : Bool × Db
    result = deliver_to_target codec str a target payload body db

    -- One delivery either stores one row in front of the log and returns, or raises and stores none.
    pub deliver_cases :
        ((row : WebhookDeliveryLog) × Stores a target payload body row
          × (result ≡ (true, record db { webhook_delivery_logs = row ∷ db.webhook_delivery_logs })))
        ⊎ (((row : WebhookDeliveryLog) → ¬ Stores a target payload body row)
            × (result ≡ (false, db)))
    unfolding deliver_to_target record_delivery
    deliver_cases =
        elim (Option-cases
          (row_of codec str a target payload (a.post (request_of codec str a target body)))) [
            | inl e ↦ inr (λ row (p, q). cc, rw (e, deliver_to_target))
            | inr (row, e) ↦ elim (Bool-cases (response_code_valid row.response_code)) [
              | inl ok_code ↦ inl (row, (e, ok_code), rw (e, deliver_to_target, ok_code))
              | inr bad_code ↦ inr (
                λ row' (p, q).
                    let same : row ≡ row' = cc in
                    let clash : false ≡ true =
                      sym bad_code
                      ∙ ap (λ (r : WebhookDeliveryLog). response_code_valid r.response_code) same
                      ∙ q in
                    cc,
                rw (e, deliver_to_target, bad_code),
              )
            ]
          ]

  module _ (env : ℕ → Attempt) (payload : WebhookEventEnvelope) (body : Text) where
    -- What became of the targets, the first at position `i`, one by one: each has its row stored, or is
    -- reported by the identifier of its registration.
    pub data Settled
        : ℕ → List WebhookDeliveryTarget → List WebhookDeliveryLog → List ℕ → Type 0 where
      done : {i : ℕ} → Settled i [] [] []
      stored :
          {i : ℕ} {t : WebhookDeliveryTarget} {ts : List WebhookDeliveryTarget}
          {row : WebhookDeliveryLog} {rows : List WebhookDeliveryLog} {failures : List ℕ}
          → Stores (env i) t payload body row
          → Settled (suc i) ts rows failures
          → Settled i (t ∷ ts) (row ∷ rows) failures
      failed :
          {i : ℕ} {t : WebhookDeliveryTarget} {ts : List WebhookDeliveryTarget}
          {rows : List WebhookDeliveryLog} {failures : List ℕ}
          → ((row : WebhookDeliveryLog) → ¬ Stores (env i) t payload body row)
          → Settled (suc i) ts rows failures
          → Settled i (t ∷ ts) rows (t.registration_id ∷ failures)

    abbrev pub Accounts : ℕ → List WebhookDeliveryTarget → Db → List ℕ × Db → Type 0
    Accounts i targets db (failures, db') =
        ((rows : List WebhookDeliveryLog) × Settled i targets rows failures
          × (db'.webhook_delivery_logs ≡ put rows db.webhook_delivery_logs))
        × OnlyLogs db db'

    deliver_all-Accounts :
        (i : ℕ) (targets : List WebhookDeliveryTarget) (db : Db)
        → Accounts i targets db (deliver_all codec str env i targets payload body db)
    unfolding deliver_all
    deliver_all-Accounts i [] db = (
      ([], done, refl),
      record { users = refl; tickets = refl; comments = refl; registrations = refl },
    )
    deliver_all-Accounts i (t ∷ ts) db = elim (deliver_cases (env i) t payload body db) [
      | inl (row, s, e) ↦
          let ((rows, settled, logs), same) =
            deliver_all-Accounts (suc i) ts
              (record db { webhook_delivery_logs = row ∷ db.webhook_delivery_logs }) in
          rw e (
            (row ∷ rows, stored s settled, logs),
            record {
              users = same.users;
              tickets = same.tickets;
              comments = same.comments;
              registrations = same.registrations;
            },
          )
      | inr (no_row, e) ↦
          let ((rows, settled, logs), same) = deliver_all-Accounts (suc i) ts db in
          rw e ((rows, failed no_row settled, logs), same)
    ]

  -- A dispatch goes through its targets one by one: for each, either the row of its attempt is put in front
  -- of the delivery log, or its attempt stores none and the identifier of its registration is reported, in
  -- the order of the targets. The log is otherwise as before, and no other table changes.
  pub dispatch-Accounts :
      (env : ℕ → Attempt) (d : Dispatch) (db : Db)
      → Accounts env d.envelope d.body 0 d.targets db (dispatch_webhook_event codec str env d db)
  unfolding dispatch_webhook_event
  dispatch-Accounts env d db = deliver_all-Accounts env d.envelope d.body 0 d.targets db
