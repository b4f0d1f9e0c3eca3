-- ===== src/Webhooks/Attempts.antt =====
-- The rows of single attempts of app/services/webhook_service.py.
use ticketflow.Base.{
  Bool, false, inl, inr, ◌∷◌, ℕ, ◌≤◌, ◌<◌, ◌≡◌, refl, sym, ◌↔◌, true, Option, none, some, arith,
  subst,
}
use mathlib.Core.Option.{some-injective}
use ticketflow.Base.Text.{Text}
use ticketflow.Models.{Db, WebhookEventEnvelope, WebhookDeliveryLog}
use ticketflow.Webhooks.{WebhookDeliveryTarget, Codec}
use ticketflow.Webhooks.Delivery.{
  Attempt, Posted, response, http_error, other_exception, row_of, request_of, response_code_valid,
  is_success, deliver_to_target,
}
use ticketflow.Webhooks.Outcome.{Stores, deliver_cases}

-- A response with a status of the 2xx class.
abbrev pub Is2xx : Posted → Type 0
Is2xx (response code) = (200 ≤ code) × (code < 300)
Is2xx _ = ⊥

-- What the caller's code can record: an HTTPError, or a response whose code the table admits.
abbrev pub IsRecordable : Posted → Type 0
IsRecordable (response code) = (100 ≤ code) × (code ≤ 599)
IsRecordable (http_error name message) = Unit
IsRecordable other_exception = ⊥

abbrev pub code_of : Posted → Option ℕ
code_of (response code) = some code
code_of _ = none

-- What the row of an attempt with this outcome says.
abbrev pub Reports :
    Attempt → WebhookDeliveryTarget → WebhookEventEnvelope → Posted → WebhookDeliveryLog → Type 0
Reports a target payload posted row =
    (row.id ≡ a.delivery_id)
    × (row.webhook_registration_id ≡ target.registration_id)
    × (row.event_type ≡ target.event_type)
    × (row.payload ≡ payload)
    × (row.response_code ≡ code_of posted)
    × ((row.success ≡ true) ↔ Is2xx posted)
    × ((row.error_message ≡ none) ↔ Is2xx posted)

module _ (codec : Codec) (str : ℕ → Text) (a : Attempt) (target : WebhookDeliveryTarget)
    (payload : WebhookEventEnvelope) (body : Text) where
  row-Reports :
      (posted : Posted) (row : WebhookDeliveryLog)
      → row_of codec str a target payload posted ≡ some row
      → Reports a target payload posted row
  unfolding row_of is_success
  row-Reports (response code) row h =
      subst (Reports a target payload (response code)) (some-injective _ _ h)
        (refl, refl, refl, refl, refl, ground arith, ground arith)
  row-Reports (http_error name message) row h =
      subst (Reports a target payload (http_error name message)) (some-injective _ _ h)
        (refl, refl, refl, refl, refl, ground arith, ground arith)
  row-Reports other_exception row h = cc

  -- The row that an attempt stores bears the attempt's UUID, its target and the payload, and the code of
  -- the response if there was one; it counts as a success exactly for a response of the 2xx class, and
  -- exactly then it has no error message.
  pub stored_row-Reports :
      (row : WebhookDeliveryLog)
      → Stores codec str a target payload body row
      → Reports a target payload (a.post (request_of codec str a target body)) row
  stored_row-Reports row s = row-Reports (a.post (request_of codec str a target body)) row s.0

  recordable :
      (posted : Posted)
      → ((row : WebhookDeliveryLog) × (row_of codec str a target payload posted ≡ some row)
          × (response_code_valid row.response_code ≡ true))
        ↔ IsRecordable posted
  unfolding row_of response_code_valid
  recordable (response code) = (
    λ (row, e, v).
        let w : response_code_valid (some code) ≡ true =
          subst (λ (r : WebhookDeliveryLog). response_code_valid r.response_code ≡ true)
            (sym (some-injective _ _ e)) v in
        ground arith,
    λ h. (_, refl, ground arith),
  )
  recordable (http_error name message) = (λ h. tt, λ h. (_, refl, refl))
  recordable other_exception = (λ (row, e, v). cc, λ h. absurd h)

  -- What the delivery answers: whether it returned, and the database that it leaves.
  abbrev pub delivered : Db → Bool × Db
  delivered db = deliver_to_target codec str a target payload body db

  -- An attempt whose call raised an HTTPError or returned a response with a code from 100 to 599 returns and
  -- puts one row in front of the log, which reports the attempt, and changes nothing else. Any other
  -- exception, and a response with another code, which the table's check refuses, make it raise and leave the
  -- database as it was.
  pub deliver_to_target_exact :
      (db : Db)
      → let posted = a.post (request_of codec str a target body) in
        (IsRecordable posted
          → (row : WebhookDeliveryLog) × Reports a target payload posted row
            × (delivered db
                ≡ (true, record db { webhook_delivery_logs = row ∷ db.webhook_delivery_logs })))
        × (¬ IsRecordable posted → delivered db ≡ (false, db))
  deliver_to_target_exact db =
      let posted = a.post (request_of codec str a target body) in
      let can_store = recordable posted in
      elim (deliver_cases codec str a target payload body db) [
        | inl (row, s, e) ↦ (
          λ _. (row, stored_row-Reports row s, e),
          λ refused. absurd (refused (can_store.0 (row, s.0, s.1))),
        )
        | inr (none_stored, e) ↦
            (λ k. let (row, s, v) = can_store.1 k in absurd (none_stored row (s, v)), λ _. e)
      ]
