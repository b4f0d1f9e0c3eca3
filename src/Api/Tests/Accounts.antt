-- ===== src/Api/Tests/Accounts.antt =====
-- Logins, secrets and deliveries at the sample rows.
use Prim.Native.Nat.{min}
use ticketflow.Base.{
  ℕ, ◌-◌, ◌≡◌, refl, inl, inr, arith, Bool, true, false, none, some, List, [], ◌∷◌, String,
}
use ticketflow.Base.Text.{Text}
use ticketflow.Exec.{Error, err}
use ticketflow.Tickets.Query.{get_accessible_ticket, list_tickets, ListParameters}
use ticketflow.Comments.{list_comments}
use ticketflow.Webhooks.{list_webhook_registrations, list_webhook_deliveries}
use ticketflow.Api.Order.{SameTables, reads_forget_order}
use ticketflow.Models.{User, Db, WebhookRegistration, WebhookDeliveryLog, ticket_created}
use ticketflow.Models.Samples.{ann, bob, eve, desk, first, second, other}
use ticketflow.RateLimit.{works, login_rate_limit_key}
use ticketflow.RateLimit.Table.{Table, table}
use ticketflow.Cache.Table.{State}
use ticketflow.Auth.Samples.{jwt, uuids, settings, letters, passwords}
use ticketflow.Schemas.Requests.{EmailPasswordRequest}
use ticketflow.Api.App.{App}
use ticketflow.Api.Tickets.{rate_limit_exception, or_one}
use ticketflow.Api.Auth.{get_me}
use ticketflow.Api.Webhooks.{get_list}
use ticketflow.Api.Clients.{Attempt, looked_from, tries_from}
use ticketflow.Api.Logins.{attempt, attempts, checked, limited, login_exact, attempts_quota}
use ticketflow.Api.Secrets.{SameAccount, SameButSecrets, responses_keep_secrets}
use ticketflow.Api.Failures.{
  Documented, IsRaised, PydanticError, handle, domain, invalid, unforeseen, handle-Documented,
}

abbrev served : Db → App Table State
served db = record {
  counters = λ k. (0, none);
  cache = λ k. none;
  db = db;
  connections = [];
  sendings = [];
  tasks = [];
}

abbrev right_password : EmailPasswordRequest
right_password = record { email = 97 ∷ []; password = 1 ∷ [] }

abbrev wrong_password : EmailPasswordRequest
wrong_password = record { email = 97 ∷ []; password = 9 ∷ [] }

login_exact_example :
    let (r, app') =
      attempt table {Cache = State} jwt uuids settings letters passwords works 400
        (some "10.0.0.1")
        right_password
        (served desk) in
    let (decision, counters) = limited table works (some "10.0.0.1") (served desk).counters in
    (app' ≡ record (served desk) { counters = counters })
    × (decision.allowed ≡ true
        → r ≡ (checked jwt uuids settings letters passwords 400 right_password desk).0)
    × (decision.allowed ≡ false
        → r ≡ err (rate_limit_exception (or_one decision.retry_after_seconds)))
login_exact_example =
    login_exact table {Cache = State} jwt uuids settings letters passwords works 400
      (some "10.0.0.1") right_password (served desk)

abbrev guesses : List Attempt
guesses =
    record { now = 400; client = some "10.0.0.1"; payload = wrong_password }
    ∷ record { now = 401; client = none; payload = wrong_password }
    ∷ record { now = 402; client = some "10.0.0.1"; payload = right_password }
    ∷ []

-- The first and the last attempt come from the address.
address_known : ¬ Path String "10.0.0.1" "unknown"
address_known h = cc

attempts_quota_example :
    let (outcomes, app') =
      attempts table {Cache = State} jwt uuids settings letters passwords guesses (served desk) in
    (looked_from "10.0.0.1" outcomes
      ≡ min
          (tries_from "10.0.0.1" guesses)
          (5 - table.count (login_rate_limit_key "10.0.0.1") (served desk).counters))
    × (app'.db ≡ desk)
attempts_quota_example =
    attempts_quota table {Cache = State} jwt uuids settings letters passwords "10.0.0.1" guesses
      (served desk) address_known

abbrev subscription : Text → WebhookRegistration
subscription secret = record {
  id = 60;
  url = 117 ∷ [];
  secret = secret;
  event_type = ticket_created;
  created_by = 3;
  is_active = true;
  created_at = 5;
}

abbrev with_secret : Text → Db
with_secret secret = record desk { webhook_registrations = subscription secret ∷ [] }

secrets_differ : SameButSecrets (with_secret (1 ∷ [])) (with_secret (2 ∷ []))
secrets_differ = record {
  users = (same_user ann, (same_user bob, (same_user eve, tt)));
  registrations = (
    record {
      id = refl;
      url = refl;
      event_type = refl;
      created_by = refl;
      is_active = refl;
      created_at = refl;
    },
    tt,
  );
}
  where
    same_user : (u : User) → SameAccount u u
    same_user u = record { id = refl; email = refl; role = refl; created_at = refl }

responses_keep_secrets_example :
    ((get_list (served (with_secret (1 ∷ [])))).0 ≡ (get_list (served (with_secret (2 ∷ [])))).0)
    × ((get_me jwt uuids settings letters 400 none (served (with_secret (1 ∷ [])))).0
        ≡ (get_me jwt uuids settings letters 400 none (served (with_secret (2 ∷ [])))).0)
responses_keep_secrets_example =
    responses_keep_secrets jwt uuids settings letters 400 none (served (with_secret (1 ∷ [])))
      (served (with_secret (2 ∷ []))) secrets_differ

abbrev log_at : ℕ → WebhookDeliveryLog
log_at at = record {
  id = at;
  webhook_registration_id = 60;
  event_type = ticket_created;
  payload = record { id = 1; event = ticket_created; timestamp = at; fields = [] };
  success = true;
  response_code = some 200;
  error_message = none;
  attempted_at = at;
}

abbrev logged : Db
logged = record desk { webhook_delivery_logs = log_at 5 ∷ log_at 9 ∷ log_at 7 ∷ [] }

abbrev digits : ℕ → String
digits n = "7"

handle-Documented_example :
    ((e : Error) → IsRaised e → Documented (handle digits (domain e)))
    × ((errors : List PydanticError) → Documented (handle digits (invalid errors)))
    × ((exception : String) → Documented (handle digits (unforeseen exception)))
handle-Documented_example = handle-Documented digits

-- The same desk, its tickets stored in another order.
abbrev shuffled : Db
shuffled = record desk { tickets = other ∷ first ∷ second ∷ [] }

shuffled_same : SameTables desk shuffled
shuffled_same = record {
  tickets = record {
    left = omega arith;
    right = omega arith;
    same = λ a. (
      λ m. elim m [
        | inl p ↦ inr (inl p)
        | inr (inl p) ↦ inr (inr (inl p))
        | inr (inr (inl p)) ↦ inl p
        | inr (inr (inr k)) ↦ absurd k
      ],
      λ m. elim m [
        | inl p ↦ inr (inr (inl p))
        | inr (inl p) ↦ inl p
        | inr (inr (inl p)) ↦ inr (inl p)
        | inr (inr (inr k)) ↦ absurd k
      ],
    );
  };
  comments = record { left = (tt, tt); right = (tt, tt); same = λ a. (λ m. m, λ m. m) };
  registrations = record { left = tt; right = tt; same = λ a. (λ m. m, λ m. m) };
  logs = record { left = tt; right = tt; same = λ a. (λ m. m, λ m. m) };
}

reads_forget_order_example :
    ((ilike : Text → Text → Bool) (user : User) (p : ListParameters)
      → list_tickets ilike user p desk ≡ list_tickets ilike user p shuffled)
    × ((ticket_id : ℕ) (user : User)
        → ((get_accessible_ticket ticket_id user desk).0
            ≡ (get_accessible_ticket ticket_id user shuffled).0)
          × ((list_comments ticket_id user desk).0 ≡ (list_comments ticket_id user shuffled).0))
    × (list_webhook_registrations desk ≡ list_webhook_registrations shuffled)
    × ((limit : ℕ) → list_webhook_deliveries limit desk ≡ list_webhook_deliveries limit shuffled)
reads_forget_order_example = reads_forget_order desk shuffled shuffled_same
