-- ===== src/Histories/Deliveries.antt =====
-- What the deliveries of app/services/webhook_service.py keep of the integrity of the tables.
use mathlib.Core.Option.{some-injective}
use ticketflow.Base.{
  Elem_front, prefix_grows, ℕ, suc, zero, ◌≡◌, sym, ap, ◌∙◌, inl, inr, none, some, Option, List, [],
  ◌∷◌, All, All_of, Elem, Option-cases, subst,
}
use ticketflow.Base.Text.{Text}
use ticketflow.Models.{
  Db, WebhookRegistration, WebhookEventType, WebhookEventEnvelope, WebhookDeliveryLog, JsonObject,
}
use ticketflow.Webhooks.{Codec, Dispatch, WebhookDeliveryTarget, schedule_webhook_event, target_of}
use ticketflow.Webhooks.Delivery.{Attempt, dispatch_webhook_event}
use ticketflow.Webhooks.Outcome.{Settled, done, stored, failed, put, OnlyLogs, dispatch-Accounts}
use ticketflow.Webhooks.Attempts.{stored_row-Reports}
use ticketflow.Webhooks.Scheduling.{schedule_webhook_event_exact, all_targets}
use ticketflow.Histories.{take_task}
use ticketflow.Histories.Integrity.{IsSound, Captured, LogStands, Subscribes}

-- The task that is taken and those that are left were waiting.
pub taken_All :
    (P : Dispatch → Type 0) (k : ℕ) (ds : List Dispatch) (d : Dispatch) (rest : List Dispatch)
    → take_task k ds ≡ some (d, rest)
    → All P ds
    → P d × All P rest
unfolding take_task
taken_All P k [] d rest e h = cc
taken_All P zero (x ∷ ds) d rest e h =
    let same : Path (Dispatch × List Dispatch) (x, ds) (d, rest) = some-injective _ _ e in
    subst (λ (p : Dispatch × List Dispatch). P p.0 × All P p.1) same h
taken_All P (suc k) (x ∷ ds) d rest e h = elim (Option-cases (take_task k ds)) [
  | inl f ↦
      let c : Path (Option (Dispatch × List Dispatch)) none (some (d, rest)) =
        rw (f, take_task) at e in
      cc
  | inr ((found, left), f) ↦
      let (p, ps) = taken_All P k ds found left f h.1 in
      let same : Path (Dispatch × List Dispatch) (found, x ∷ left) (d, rest) =
        some-injective _ _ (rw (f, take_task) at e) in
      subst (λ (p : Dispatch × List Dispatch). P p.0 × All P p.1) same (p, (h.0, ps))
]

target_of_all :
    (ds : List Dispatch) (d : Dispatch) (t : WebhookDeliveryTarget)
    → Elem d ds
    → Elem t d.targets
    → Elem t (all_targets ds)
target_of_all [] d t m k = absurd m
target_of_all (x ∷ ds) d t (inl e) k =
    Elem_front t x.targets (all_targets ds) (subst (λ (y : Dispatch). Elem t y.targets) e k)
target_of_all (x ∷ ds) d t (inr m) k =
    prefix_grows x.targets (all_targets ds) t (target_of_all ds d t m k)

logs-IsSound :
    (db db' : Db)
    → OnlyLogs db db'
    → All (LogStands db.webhook_registrations) db'.webhook_delivery_logs
    → IsSound db
    → IsSound db'
logs-IsSound db db' same logs s =
    let written : db' ≡ record db { webhook_delivery_logs = db'.webhook_delivery_logs } = λ i.
      record {
        users = same.users i;
        tickets = same.tickets i;
        comments = same.comments i;
        webhook_registrations = same.registrations i;
        webhook_delivery_logs = db'.webhook_delivery_logs;
      } in
    subst IsSound (sym written) (record {
      accounts = s.accounts;
      valid = record {
        tickets = s.valid.tickets;
        comments = s.valid.comments;
        owned = s.valid.owned;
      };
      tickets = s.tickets;
      comments = s.comments;
      registration_ids = s.registration_ids;
      registrations = s.registrations;
      logs = logs;
    })

All-put :
    (P : WebhookDeliveryLog → Type 0) (rows logs : List WebhookDeliveryLog)
    → All P rows
    → All P logs
    → All P (put rows logs)
All-put P [] logs h k = k
All-put P (row ∷ rows) logs h k = All-put P rows (row ∷ logs) h.1 (h.0, k)

module _ (codec : Codec) (str : ℕ → Text) where
  settled-LogStands :
      (env : ℕ → Attempt) (payload : WebhookEventEnvelope) (body : Text)
      (rs : List WebhookRegistration) {i : ℕ} {ts : List WebhookDeliveryTarget}
      {rows : List WebhookDeliveryLog} {failures : List ℕ}
      → Settled codec str env payload body i ts rows failures
      → All (λ (t : WebhookDeliveryTarget). Subscribes rs t.registration_id t.event_type) ts
      → All (LogStands rs) rows
  settled-LogStands env payload body rs done h = tt
  settled-LogStands env payload body rs (stored {i} {t} {ts} {row} s rest) h =
      let (_, registration, event, _, _, _, _) =
        stored_row-Reports codec str (env i) t payload body row s in
      let (r, m, p, q) = h.0 in
      ((r, m, p ∙ sym registration, q ∙ sym event), settled-LogStands env payload body rs rest h.1)
  settled-LogStands env payload body rs (failed none_stored rest) h =
      settled-LogStands env payload body rs rest h.1

  pub scheduled-Captured :
      (event_id now : ℕ) (event : WebhookEventType) (fields : JsonObject) (db : Db)
      → All
          (Captured db.webhook_registrations)
          (schedule_webhook_event codec event_id now event fields db)
  unfolding target_of
  scheduled-Captured event_id now event fields db =
      let ds = schedule_webhook_event codec event_id now event fields db in
      All_of ds (λ d m. All_of d.targets (λ t k.
        let (r, (here, _), e) =
          ((schedule_webhook_event_exact codec event_id now event fields db).0 t).0
            (target_of_all ds d t m k) in
        (
          r,
          here,
          ap (λ (x : WebhookDeliveryTarget). x.registration_id) (sym e),
          ap (λ (x : WebhookDeliveryTarget). x.event_type) (sym e),
        )))

  pub dispatch-IsSound :
      (env : ℕ → Attempt) (d : Dispatch) (db : Db)
      → Captured db.webhook_registrations d
      → IsSound db
      → let db' = (dispatch_webhook_event codec str env d db).1 in
        IsSound db' × (db'.webhook_registrations ≡ db.webhook_registrations)
  dispatch-IsSound env d db h s =
      let db' = (dispatch_webhook_event codec str env d db).1 in
      let P = LogStands db.webhook_registrations in
      let ((rows, settled, e), same) = dispatch-Accounts codec str env d db in
      let rows_stand = settled-LogStands env d.envelope d.body db.webhook_registrations settled h in
      let logs : All P db'.webhook_delivery_logs =
        subst (All P) (sym e) (All-put P rows db.webhook_delivery_logs rows_stand s.logs) in
      (logs-IsSound db db' same logs s, same.registrations)
