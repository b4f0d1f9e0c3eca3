-- ===== src/Histories/Tests.antt =====
-- A history of the whole program at the sample rows.
use ticketflow.Base.{ℕ, ◌+◌, refl, inl, inr, arith, true, none, some, List, [], ◌∷◌, ◌++◌}
use ticketflow.Base.Text.{Text}
use ticketflow.Models.{billing, low, in_progress, ticket_created}
use ticketflow.Models.Samples.{ann, bob, first, desk}
use ticketflow.Auth.Libraries.{Payload}
use ticketflow.Auth.Security.{create_access_token}
use ticketflow.Auth.Samples.{jwt, uuids, settings, letters, passwords}
use ticketflow.Auth.Deps.{Credentials, bearer}
use ticketflow.Webhooks.{Codec}
use ticketflow.Webhooks.Delivery.{response}
use ticketflow.Histories.{
  World, Transaction, requests, registers, seeds, schedules, dispatches, opening, moving,
  commenting, subscribing, unsubscribing, perform_all,
}
use ticketflow.Histories.Integrity.{IsWhole}
use ticketflow.Histories.Whole.{perform_all-IsWhole}

abbrev plain : Codec
plain = record { serialize = λ e. e.id ∷ []; hmac_sha256_hex = λ secret body. secret ++ body }

abbrev credentials_of : ℕ → Credentials (Text × Payload)
credentials_of k = record { scheme = bearer; token = create_access_token jwt uuids settings 400 k }

-- eve subscribes, which ann may not; ann opens a ticket, whose event is scheduled and delivered after eve has
-- unsubscribed; eve moves a ticket and bob comments on his own; carl registers twice, and the agent is
-- seeded.
abbrev history : List (Transaction (Text × Payload))
history =
    requests 401 (some (credentials_of 3)) (subscribing 60 (1 ∷ []) (117 ∷ []) ticket_created)
    ∷ requests 402 (some (credentials_of 1)) (subscribing 61 (1 ∷ []) (117 ∷ []) ticket_created)
    ∷ requests 403 (some (credentials_of 1)) (opening 13 (97 ∷ []) (98 ∷ []) billing low)
    ∷ schedules 70 404 ticket_created []
    ∷ requests 405 (some (credentials_of 3)) (unsubscribing 60)
    ∷ requests 406 (some (credentials_of 3)) (moving 406 10 in_progress)
    ∷ requests 407 (some (credentials_of 2)) (commenting 21 12 (99 ∷ []))
    ∷ requests 408 none (commenting 22 12 (99 ∷ []))
    ∷ dispatches 0
        (λ i. record { delivery_id = 80 + i; attempted_at = 409; post = λ r. response 204 })
    ∷ registers 4 410 0 [] (99 ∷ []) (5 ∷ [])
    ∷ registers 5 411 0 [] (99 ∷ []) (6 ∷ [])
    ∷ seeds (record { new_id = 6; now = 412; salt = 0; reached = true; meanwhile = [] })
    ∷ []

abbrev start : World
start = record { db = desk; tasks = [] }

abbrev after : World
after =
    perform_all jwt uuids settings letters passwords plain (λ n. n ∷ []) (103 ∷ []) (7 ∷ []) history
      start

start-IsWhole : IsWhole start
start-IsWhole = record {
  db = record {
    accounts = record { ids = omega arith; emails = (ground arith, ground arith) };
    valid = record {
      tickets = omega arith;
      comments = (tt, tt);
      owned = λ c m. elim m [ inl p ↦ rw p (first, inl refl, refl) | inr k ↦ absurd k ];
    };
    tickets = (
      (ann, inl refl, refl, refl),
      ((ann, inl refl, refl, refl), ((bob, inr (inl refl), refl, refl), tt)),
    );
    comments = ((ann, inl refl, refl, refl), tt);
    registration_ids = tt;
    registrations = tt;
    logs = tt;
  };
  tasks = tt;
}

perform_all-IsWhole_example : IsWhole after
perform_all-IsWhole_example =
    perform_all-IsWhole jwt uuids settings letters passwords plain (λ n. n ∷ []) (103 ∷ []) (7 ∷ [])
      history start start-IsWhole
