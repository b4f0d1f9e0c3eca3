-- ===== src/Webhooks/Delivery.antt =====
-- The background half of app/services/webhook_service.py: one attempt for each captured target, its
-- log row, and the text of a network error. The check of the response code is that of the table in
-- app/models/webhook.py.
use ticketflow.Base.{
  ℕ, suc, Bool, true, false, ◌&&◌, Option, none, some, List, [], ◌∷◌, ◌++◌, take, ltb, leb,
  if◌then◌else◌, String,
}
use ticketflow.Base.Text.{Text, is_space}
use ticketflow.Models.{Db, WebhookEventEnvelope, WebhookDeliveryLog, event_value}
use ticketflow.Webhooks.{WebhookDeliveryTarget, Codec, Dispatch, sign_webhook_payload}

-- `str.split()`: the runs of characters that are not white space.
unfoldable pub emit : Text → List Text → List Text
emit [] rest = rest
emit (c ∷ w) rest = (c ∷ w) ∷ rest

unfoldable pub split_from : Text → Text → List Text
unfolding emit
split_from word [] = emit word []
split_from word (c ∷ s) =
    let rest = split_from (if is_space c then [] else word ++ c ∷ []) s in
    if is_space c then emit word rest else rest

unfoldable pub split : Text → List Text
unfolding split_from
split s = split_from [] s

-- `" ".join(words)`
unfoldable pub join_spaces : List Text → Text
join_spaces [] = []
join_spaces (w ∷ []) = w
join_spaces (w ∷ v ∷ ws) = w ++ 32 ∷ join_spaces (v ∷ ws)

-- What `client.post` did: a response, an `httpx.HTTPError` with its class name and text, or another
-- exception.
pub data Posted : Type 0 where
  response : (status_code : ℕ) → Posted
  http_error : (name message : Text) → Posted
  other_exception : Posted

unfoldable pub sanitize_delivery_error : (name message : Text) → Text
sanitize_delivery_error name message = take 1000 (name ++ 58 ∷ 32 ∷ join_spaces (split message))

pub record Request : Type 0 where
  pub url : Text
  pub content : Text
  pub signature : Text
  pub event : String
  pub delivery_id : ℕ

-- The environment of one attempt: the UUID, the time of the row, and the network.
pub record Attempt : Type 0 where
  pub delivery_id : ℕ
  pub attempted_at : ℕ
  pub post : Request → Posted

unfoldable pub is_success : ℕ → Bool
is_success status_code = leb 200 status_code && ltb status_code 300

-- `CHECK (response_code IS NULL OR response_code BETWEEN 100 AND 599)`
unfoldable pub response_code_valid : Option ℕ → Bool
response_code_valid none = true
response_code_valid (some code) = leb 100 code && leb code 599

-- The row is stored, or the commit raises and nothing is.
unfoldable pub record_delivery : WebhookDeliveryLog → Db → Bool × Db
record_delivery row db =
    if response_code_valid row.response_code
    then (true, record db { webhook_delivery_logs = row ∷ db.webhook_delivery_logs })
    else (false, db)

-- `Webhook endpoint returned HTTP …`, the number printed by `str`, an argument.
unfoldable pub http_message : (ℕ → Text) → ℕ → Text
http_message str status_code =
    87
    ∷ 101
    ∷ 98
    ∷ 104
    ∷ 111
    ∷ 111
    ∷ 107
    ∷ 32
    ∷ 101
    ∷ 110
    ∷ 100
    ∷ 112
    ∷ 111
    ∷ 105
    ∷ 110
    ∷ 116
    ∷ 32
    ∷ 114
    ∷ 101
    ∷ 116
    ∷ 117
    ∷ 114
    ∷ 110
    ∷ 101
    ∷ 100
    ∷ 32
    ∷ 72
    ∷ 84
    ∷ 84
    ∷ 80
    ∷ 32
    ∷ str status_code

module _ (codec : Codec) (str : ℕ → Text) where
  unfoldable pub request_of : Attempt → WebhookDeliveryTarget → (body : Text) → Request
  request_of a target body = record {
    url = target.url;
    content = body;
    signature = sign_webhook_payload codec target.secret body;
    event = event_value target.event_type;
    delivery_id = a.delivery_id;
  }

  -- The log row of an attempt; none where an exception other than an HTTPError ends it.
  unfoldable pub row_of :
      Attempt → WebhookDeliveryTarget → WebhookEventEnvelope → Posted → Option WebhookDeliveryLog
  row_of a target payload (response code) = some (record {
    id = a.delivery_id;
    webhook_registration_id = target.registration_id;
    event_type = target.event_type;
    payload = payload;
    success = is_success code;
    response_code = some code;
    error_message = if is_success code then none else some (http_message str code);
    attempted_at = a.attempted_at;
  })
  row_of a target payload (http_error name message) = some (record {
    id = a.delivery_id;
    webhook_registration_id = target.registration_id;
    event_type = target.event_type;
    payload = payload;
    success = false;
    response_code = none;
    error_message = some (sanitize_delivery_error name message);
    attempted_at = a.attempted_at;
  })
  row_of a target payload other_exception = none

  -- `_deliver_to_target`: the flag says whether it returned or raised.
  unfoldable pub deliver_to_target :
      Attempt → WebhookDeliveryTarget → WebhookEventEnvelope → (body : Text) → Db → Bool × Db
  deliver_to_target a target payload body db =
      elim (row_of a target payload (a.post (request_of a target body))) [
        | none ↦ (false, db)
        | some row ↦ record_delivery row db
      ]

  -- `dispatch_webhook_event`: `gather` runs every delivery, whatever the others do; the attempts
  -- commit independently, here in the order of the targets. The result lists the registrations whose
  -- delivery raised, which are logged as errors.
  unfoldable pub deliver_all :
      (ℕ → Attempt)
      → ℕ
      → List WebhookDeliveryTarget
      → WebhookEventEnvelope
      → (body : Text) → Db
      → List ℕ × Db
  deliver_all env i [] payload body db = ([], db)
  deliver_all env i (target ∷ targets) payload body db =
      let (returned, db') = deliver_to_target (env i) target payload body db in
      let (failures, db'') = deliver_all env (suc i) targets payload body db' in
      (if returned then failures else target.registration_id ∷ failures, db'')

  unfoldable pub dispatch_webhook_event : (ℕ → Attempt) → Dispatch → Db → List ℕ × Db
  unfolding deliver_all
  dispatch_webhook_event env d db = deliver_all env 0 d.targets d.envelope d.body db
