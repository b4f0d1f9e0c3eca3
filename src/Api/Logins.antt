-- ===== src/Api/Logins.antt =====
-- What the limiter of app/api/v1/auth.py does to logins, and what its responses tell of an account.
use Prim.Native.Nat.{min}
use ticketflow.Base.{
  ◌≢◌, sym, ap, ◌∙◌, string_eq, ℕ, String, ◌-◌, ◌≡◌, refl, ◌⊎◌, inl, inr, Bool, true, false, not,
  Option, List, [], ◌∷◌, map, find, Bool-cases, Option-cases, ◌==◌, nat_eq,
}
use ticketflow.Base.Text.{text_eq}
use ticketflow.Exec.{
  unknown_hash, Exec, Result, ok, err, pure, api_exception, authentication, bind_ok, bind_err,
}
use ticketflow.Models.{User, Db}
use ticketflow.Auth.Libraries.{Jwt, Uuids, Letters, Passwords, Settings}
use ticketflow.Auth.Security.{verify_password}
use ticketflow.Auth.Service.{
  TokenPair, login_user, token_pair, authenticate_user, get_user_by_email, normalize_email,
}
use ticketflow.RateLimit.{
  RateLimitDecision, Link, works, consume_rate_limit, login_rate_limit, login_rate_limit_key,
  rate_limit_window_seconds,
}
use ticketflow.RateLimit.Commands
use ticketflow.RateLimit.Quota.{admitted, run, run_quota}
use ticketflow.Schemas.Requests.{EmailPasswordRequest}
use ticketflow.Api.App.{App, consume}
use ticketflow.Api.Tickets.{rate_limit_exception, or_one}
use ticketflow.Api.Auth.{login, client_ip}
use ticketflow.Api.Clients.{
  Attempt, key_of, tries_from, looked_from, keyed, admitted_from, requests_from,
}

-- The response 429.
abbrev pub is_limited : {A : Type 0} → Result A → Bool
is_limited (ok a) = false
is_limited (err (api_exception status code message headers)) = status == 429
is_limited (err e) = false

module _ (jwt : Jwt) (uuids : Uuids) (settings : Settings) (letters : Letters)
    (passwords : Passwords) where
  abbrev pub checked : ℕ → EmailPasswordRequest → Db → Result (TokenPair jwt) × Db
  checked now payload =
      login_user jwt uuids settings letters passwords now payload.email payload.password

  authenticate_user_cases :
      (payload : EmailPasswordRequest) (db : Db)
      → let m = authenticate_user letters passwords payload.email payload.password in
        ((u : User) × (m db ≡ (ok u, db)))
        ⊎ ((m db ≡ (err authentication, db)) ⊎ (m db ≡ (err unknown_hash, db)))
  unfolding authenticate_user get_user_by_email
  authenticate_user_cases payload db =
      elim (Option-cases
        (find (λ (u : User). u.email == normalize_email letters payload.email) db.users)) [
          | inl e ↦ inr (inl (rw (e, authenticate_user) refl))
          | inr (u, e) ↦
              elim (Option-cases (verify_password passwords payload.password u.password_hash)) [
                | inl v ↦ inr (inr (rw (e, authenticate_user, v) refl))
                | inr (true, v) ↦ inl (u, rw (e, authenticate_user, v) refl)
                | inr (false, v) ↦ inr (inl (rw (e, authenticate_user, v) refl))
              ]
        ]

  -- A login returns tokens or raises AuthenticationError or UnknownHashError, and writes nothing.
  login_user_cases :
      (now : ℕ) (payload : EmailPasswordRequest) (db : Db)
      → ((pair : TokenPair jwt) × (checked now payload db ≡ (ok pair, db)))
        ⊎ ((checked now payload db ≡ (err authentication, db))
            ⊎ (checked now payload db ≡ (err unknown_hash, db)))
  unfolding login_user
  login_user_cases now payload db =
      let m = authenticate_user letters passwords payload.email payload.password in
      let next : User → Exec Db (TokenPair jwt) =
        λ user. pure (token_pair jwt uuids settings now user) in
      elim (authenticate_user_cases payload db) [
        | inl (u, e) ↦ inl (token_pair jwt uuids settings now u, bind_ok m next e)
        | inr (inl e) ↦ inr (inl (bind_err m next e))
        | inr (inr e) ↦ inr (inr (bind_err m next e))
      ]

-- The limiter's decision on the client's address, and the counters after it.
abbrev pub limited :
    (limiter : Commands.Redis)
    → Link
    → Option String
    → limiter.State
    → RateLimitDecision × limiter.State
limited limiter link client =
    consume_rate_limit limiter link (login_rate_limit_key (client_ip client)) login_rate_limit
      rate_limit_window_seconds

module _ (limiter : Commands.Redis) {Cache : Type 0} (jwt : Jwt) (uuids : Uuids)
    (settings : Settings) (letters : Letters) (passwords : Passwords) where
  abbrev pub attempt :
      Link
      → ℕ
      → Option String
      → EmailPasswordRequest
      → Exec (App limiter.State Cache) (TokenPair jwt)
  attempt = login limiter {Cache = Cache} jwt uuids settings letters passwords

  -- The limiter decides by the client's address and its counter alone, before the credentials are
  -- looked at: a login that it refuses ends in the 429 response, whatever the credentials are; one that
  -- it admits ends as `login_user` does. Either way nothing changes but the limiter's counters.
  pub login_exact :
      (link : Link) (now : ℕ) (client : Option String) (payload : EmailPasswordRequest)
      (app : App limiter.State Cache)
      → let (r, app') = attempt link now client payload app in
        let (decision, counters) = limited limiter link client app.counters in
        (app' ≡ record app { counters = counters })
        × (decision.allowed ≡ true
            → r ≡ (checked jwt uuids settings letters passwords now payload app.db).0)
        × (decision.allowed ≡ false
            → r ≡ err (rate_limit_exception (or_one decision.retry_after_seconds)))
  unfolding login consume
  login_exact link now client payload app =
      let (decision, counters) = limited limiter link client app.counters in
      elim (Bool-cases decision.allowed) [
        | inl good ↦
            elim (login_user_cases jwt uuids settings letters passwords now payload app.db) [
              | inl (pair, e) ↦ rw (good, e) (refl, (λ _. refl), λ h. cc)
              | inr (inl e) ↦ rw (good, e) (refl, (λ _. refl), λ h. cc)
              | inr (inr e) ↦ rw (good, e) (refl, (λ _. refl), λ h. cc)
            ]
        | inr bad ↦ rw bad (refl, (λ h. cc), λ _. refl)
      ]

  -- Attempts one after the other, within one window and with Redis at work: from which client, and
  -- whether the credentials were looked at.
  abbrev pub attempts :
      List Attempt → App limiter.State Cache → List (Option String × Bool) × App limiter.State Cache
  attempts [] app = ([], app)
  attempts (a ∷ rest) app =
      let (r, app') = attempt works a.now a.client a.payload app in
      let (later, app'') = attempts rest app' in ((a.client, not (is_limited r)) ∷ later, app'')

  looked_at :
      (a : Attempt) (app : App limiter.State Cache)
      → not (is_limited (attempt works a.now a.client a.payload app).0)
        ≡ (limited limiter works a.client app.counters).0.allowed
  looked_at a app =
      let d = (limited limiter works a.client app.counters).0 in
      let (_, admits, refuses) = login_exact works a.now a.client a.payload app in
      elim (Bool-cases d.allowed) [
        | inl good ↦
            elim (login_user_cases jwt uuids settings letters passwords a.now a.payload app.db) [
              | inl (pair, e) ↦ rw (admits good, e, good) refl
              | inr (inl e) ↦ rw (admits good, e, good) refl
              | inr (inr e) ↦ rw (admits good, e, good) refl
            ]
        | inr bad ↦ rw (refuses bad, bad) refl
      ]

  attempts-run :
      (tries : List Attempt) (app : App limiter.State Cache)
      → (map keyed (attempts tries app).0
          ≡ (run limiter login_rate_limit rate_limit_window_seconds
              (map key_of tries)
              app.counters).0)
        × ((attempts tries app).1.db ≡ app.db)
  attempts-run [] app = (refl, refl)
  attempts-run (a ∷ rest) app =
      let (moved, _, _) = login_exact works a.now a.client a.payload app in
      let look = looked_at a app in
      let ih =
        attempts-run rest
          (record app { counters = (limited limiter works a.client app.counters).1 }) in
      rw (moved, look, ih.0) (refl, ih.1)

  -- Within a window, whatever accounts are tried with whatever passwords and from wherever: of the
  -- attempts from one address exactly as many have their credentials looked at as there are, or as its
  -- counter leaves of five if that is less; no attempt changes a row. Clients without an address share
  -- the counter of the address "unknown", which is left out.
  pub attempts_quota :
      (host : String) (tries : List Attempt) (app : App limiter.State Cache)
      → host ≢ "unknown"
      → let (outcomes, app') = attempts tries app in
        (looked_from host outcomes
          ≡ min
              (tries_from host tries)
              (5 - limiter.count (login_rate_limit_key host) app.counters))
        × (app'.db ≡ app.db)
  attempts_quota host tries app known =
      let (same, rows) = attempts-run tries app in
      let key = login_rate_limit_key host in
      (
        sym (admitted_from host known (attempts tries app).0)
            ∙ ap (admitted key) same
            ∙ run_quota limiter login_rate_limit rate_limit_window_seconds key (map key_of tries)
                app.counters
            ∙ ap (λ n. min n (5 - limiter.count key app.counters)) (requests_from host known tries),
        rows,
      )
