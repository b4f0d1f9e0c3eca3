-- ===== src/Api/Clients.antt =====
-- The counters that app/services/rate_limit_service.py keeps for the clients of app/api/v1/auth.py.
use text.Mathlib.TextEquality.{eq_iff}
use text.Mathlib.TextLemmas.{append_cancel_left}
use ticketflow.Base.{
  ◌+◌, ◌≢◌, sym, ap, ◌∙◌, none, some, string_eq, if◌then◌else◌, ℕ, String, ◌≡◌, refl, inl, inr,
  Bool, true, false, Option, List, [], ◌∷◌, map, Bool-cases, ◌==◌, nat_eq,
}
use ticketflow.Base.Text.{text_eq}
use ticketflow.RateLimit.{login_rate_limit_key}
use ticketflow.RateLimit.Quota.{requests, admitted}
use ticketflow.Schemas.Requests.{EmailPasswordRequest}
use ticketflow.Api.Auth.{client_ip}

pub record Attempt : Type 0 where
  pub now : ℕ
  pub client : Option String
  pub payload : EmailPasswordRequest

abbrev pub key_of : Attempt → String
key_of a = login_rate_limit_key (client_ip a.client)

-- The client has this address.
abbrev pub is_from : String → Option String → Bool
is_from host none = false
is_from host (some address) = address == host

abbrev pub tries_from : String → List Attempt → ℕ
tries_from host [] = 0
tries_from host (a ∷ rest) = (if is_from host a.client then 1 else 0) + tries_from host rest

-- How many of the outcomes of an address are looks at its credentials.
abbrev pub looked_from : String → List (Option String × Bool) → ℕ
looked_from host [] = 0
looked_from host ((client, looked) ∷ rest) =
    (if is_from host client then (if looked then 1 else 0) else 0) + looked_from host rest

abbrev pub keyed : Option String × Bool → String × Bool
keyed (client, looked) = (login_rate_limit_key (client_ip client), looked)

true_not_false : ¬ (true ≡ false)
true_not_false h = cc

-- Addresses have separate counters.
key-is_from :
    (host : String) (client : Option String)
    → host ≢ "unknown"
    → (login_rate_limit_key (client_ip client) == login_rate_limit_key host) ≡ is_from host client
unfolding login_rate_limit_key client_ip
key-is_from host none known =
    elim (Bool-cases (login_rate_limit_key "unknown" == login_rate_limit_key host)) [
      | inr e ↦ e
      | inl e ↦ absurd (
          known (
            sym (
              append_cancel_left "rate_limit:login:" "unknown" host
                ((eq_iff (login_rate_limit_key "unknown") (login_rate_limit_key host)).0 e))))
    ]
key-is_from host (some address) known = elim (Bool-cases (address == host)) [
  | inl e ↦
      (eq_iff (login_rate_limit_key address) (login_rate_limit_key host)).1
        (ap login_rate_limit_key ((eq_iff address host).0 e))
      ∙ sym e
  | inr e ↦ elim (Bool-cases (login_rate_limit_key address == login_rate_limit_key host)) [
    | inr f ↦ f ∙ sym e
    | inl f ↦
        let same : address ≡ host =
          append_cancel_left "rate_limit:login:" address host
            ((eq_iff (login_rate_limit_key address) (login_rate_limit_key host)).0 f) in
        absurd (true_not_false (sym ((eq_iff address host).1 same) ∙ e))
  ]
]

pub admitted_from :
    (host : String)
    → host ≢ "unknown"
    → (outcomes : List (Option String × Bool))
    → admitted (login_rate_limit_key host) (map keyed outcomes) ≡ looked_from host outcomes
admitted_from host known [] = refl
admitted_from host known ((client, looked) ∷ rest) =
    rw (key-is_from host client known, admitted_from host known rest) refl

pub requests_from :
    (host : String)
    → host ≢ "unknown"
    → (tries : List Attempt)
    → requests (login_rate_limit_key host) (map key_of tries) ≡ tries_from host tries
requests_from host known [] = refl
requests_from host known (a ∷ rest) =
    rw (key-is_from host a.client known, requests_from host known rest) refl
