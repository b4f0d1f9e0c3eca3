-- ===== src/Api/Secrets.antt =====
-- What the responses of app/api/v1/webhooks.py and app/api/v1/auth.py tell of the secrets that are stored.
use ticketflow.Base.{
  Option-cases, ℕ, ◌≡◌, refl, sym, ap, ◌∙◌, inl, inr, ◌⊎◌, Bool, not, ◌&&◌, ◌||◌, Option, none,
  some, List, [], ◌∷◌, ltb, map, find, ◌==◌, nat_eq, map-order_by, map-find, Option_map, order_by,
}
use ticketflow.Exec.{Exec, Result, ok, err, pure, bind_ok, bind_err}
use ticketflow.Models.{User, Db, WebhookRegistration}
use ticketflow.Auth.Libraries.{Jwt, Uuids, Letters, Settings}
use ticketflow.Auth.Service.{get_user_by_id}
use ticketflow.Auth.Security.{decode_token, access}
use ticketflow.Auth.Deps.{Credentials, get_current_user, authentication_exception, bearer_token}
use ticketflow.Webhooks.{latest_registration, list_webhook_registrations}
use ticketflow.Api.App.{App, in_db}
use ticketflow.Api.Announcements.{in_db-ok, in_db-err}
use ticketflow.Api.Webhooks.{WebhookRegistrationResponse, registration_response, get_list}
use ticketflow.Api.Auth.{CurrentUserResponse, current_user_response, get_me}

-- The rows of two tables, one by one.
abbrev pub Alike : {A : Type 0} → (A → A → Type 0) → List A → List A → Type 0
Alike R [] [] = Unit
Alike R [] (y ∷ ys) = ⊥
Alike R (x ∷ xs) [] = ⊥
Alike R (x ∷ xs) (y ∷ ys) = R x y × Alike R xs ys

-- The accounts may differ in the password hash alone.
pub record SameAccount (u u' : User) : Type 0 where
  pub id : u'.id ≡ u.id
  pub email : u'.email ≡ u.email
  pub role : u'.role ≡ u.role
  pub created_at : u'.created_at ≡ u.created_at

-- The subscriptions may differ in the secret alone.
pub record SameSubscription (r r' : WebhookRegistration) : Type 0 where
  pub id : r'.id ≡ r.id
  pub url : r'.url ≡ r.url
  pub event_type : r'.event_type ≡ r.event_type
  pub created_by : r'.created_by ≡ r.created_by
  pub is_active : r'.is_active ≡ r.is_active
  pub created_at : r'.created_at ≡ r.created_at

-- What the two databases may differ in are the secrets of registrations and the password hashes, and the
-- tables that are not read here.
pub record SameButSecrets (db db' : Db) : Type 0 where
  pub users : Alike SameAccount db.users db'.users
  pub registrations : Alike SameSubscription db.webhook_registrations db'.webhook_registrations

map-Alike :
    {A B : Type 0} (R : A → A → Type 0) (f : A → B)
    → ((x y : A) → R x y → f x ≡ f y)
    → (xs ys : List A) → Alike R xs ys
    → map f xs ≡ map f ys
map-Alike R f same [] [] h = refl
map-Alike R f same [] (y ∷ ys) h = absurd h
map-Alike R f same (x ∷ xs) [] h = absurd h
map-Alike R f same (x ∷ xs) (y ∷ ys) h = rw (same x y h.0, map-Alike R f same xs ys h.1) refl

same_account : (u u' : User) → SameAccount u u' → current_user_response u ≡ current_user_response u'
unfolding current_user_response
same_account u u' s = rw (s.id, s.email, s.role, s.created_at) refl

same_subscription :
    (r r' : WebhookRegistration)
    → SameSubscription r r'
    → registration_response r ≡ registration_response r'
unfolding registration_response
same_subscription r r' s =
    rw (s.id, s.url, s.event_type, s.created_by, s.is_active, s.created_at) refl

responses_of_users :
    (db db' : Db)
    → SameButSecrets db db'
    → map current_user_response db.users ≡ map current_user_response db'.users
responses_of_users db db' s =
    map-Alike SameAccount current_user_response same_account db.users db'.users s.users

responses_of_registrations :
    (db db' : Db)
    → SameButSecrets db db'
    → map registration_response db.webhook_registrations
      ≡ map registration_response db'.webhook_registrations
responses_of_registrations db db' s =
    map-Alike SameSubscription registration_response same_subscription db.webhook_registrations
      db'.webhook_registrations s.registrations

-- The order of the responses.
latest : WebhookRegistrationResponse → WebhookRegistrationResponse → Bool
latest a b = ltb b.created_at a.created_at || (b.created_at == a.created_at && not (ltb a.id b.id))

listed :
    (rs : List WebhookRegistration)
    → map registration_response (order_by latest_registration rs)
      ≡ order_by latest (map registration_response rs)
unfolding latest latest_registration registration_response
listed rs = map-order_by registration_response latest_registration latest (λ x y. refl) rs

module _ {Counters Cache : Type 0} where
  get_list-same :
      (app app' : App Counters Cache)
      → SameButSecrets app.db app'.db
      → (get_list app).0 ≡ (get_list app').0
  unfolding get_list list_webhook_registrations
  get_list-same app app' s = ap ok (
      listed app.db.webhook_registrations
      ∙ ap (order_by latest) (responses_of_registrations app.db app'.db s)
      ∙ sym (listed app'.db.webhook_registrations))

answer : Option CurrentUserResponse → Result CurrentUserResponse
answer none = err authentication_exception
answer (some r) = ok r

module _ (jwt : Jwt) (uuids : Uuids) (settings : Settings) (letters : Letters) (now : ℕ)
    (credentials : Option (Credentials jwt.Token)) where
  -- The answer of `get_me`, read off the responses that the accounts have.
  answer_for_user : Option ℕ → List CurrentUserResponse → Result CurrentUserResponse
  answer_for_user none rs = err authentication_exception
  answer_for_user (some user_id) rs = answer (find (λ r. r.id == user_id) rs)

  answer_for_token : Option jwt.Token → List CurrentUserResponse → Result CurrentUserResponse
  answer_for_token none rs = err authentication_exception
  answer_for_token (some token) rs =
      answer_for_user (decode_token jwt uuids settings now token access) rs

  abbrev expected : List CurrentUserResponse → Result CurrentUserResponse
  expected = answer_for_token (bearer_token jwt uuids settings letters credentials)

  found :
      (user_id : ℕ) (users : List User)
      → find (λ r. r.id == user_id) (map current_user_response users)
        ≡ Option_map current_user_response (get_user_by_id user_id users)
  unfolding get_user_by_id current_user_response
  found user_id users = sym (map-find current_user_response (λ r. r.id == user_id) users)

  get_current_user_cases :
      (db : Db)
      → let m = get_current_user jwt uuids settings letters now credentials in
        let answered = expected (map current_user_response db.users) in
        ((u : User) × (m db ≡ (ok u, db)) × (answered ≡ ok (current_user_response u)))
        ⊎ ((m db ≡ (err authentication_exception, db)) × (answered ≡ err authentication_exception))
  unfolding get_current_user answer_for_token answer_for_user answer
  get_current_user_cases db =
      elim (Option-cases (bearer_token jwt uuids settings letters credentials)) [
        | inl e ↦ inr (rw (e, get_current_user) refl, rw e refl)
        | inr (token, e) ↦ elim (Option-cases (decode_token jwt uuids settings now token access)) [
          | inl f ↦ inr (rw (e, get_current_user, f) refl, rw (e, f) refl)
          | inr (user_id, f) ↦ elim (Option-cases (get_user_by_id user_id db.users)) [
            | inl g ↦
                inr (rw (e, get_current_user, f, g) refl, rw (e, f, found user_id db.users, g) refl)
            | inr (u, g) ↦
                inl (
                  u,
                  rw (e, get_current_user, f, g) refl,
                  rw (e, f, found user_id db.users, g) refl,
                )
          ]
        ]
      ]

  get_me-eq :
      {Counters Cache : Type 0} (app : App Counters Cache)
      → (get_me jwt uuids settings letters now credentials app).0
        ≡ expected (map current_user_response app.db.users)
  unfolding get_me
  get_me-eq {Counters} {Cache} app =
      let m = get_current_user jwt uuids settings letters now credentials in
      let next : User → Exec (App Counters Cache) CurrentUserResponse =
        λ user. pure (current_user_response user) in
      elim (get_current_user_cases app.db) [
        | inl (u, e, f) ↦ ap (λ r. r.0) (bind_ok (in_db m) next (in_db-ok m app e)) ∙ sym f
        | inr (e, f) ↦ ap (λ r. r.0) (bind_err (in_db m) next (in_db-err m app e)) ∙ sym f
      ]

  get_me-same :
      {Counters Cache : Type 0} (app app' : App Counters Cache)
      → SameButSecrets app.db app'.db
      → (get_me jwt uuids settings letters now credentials app).0
        ≡ (get_me jwt uuids settings letters now credentials app').0
  get_me-same app app' s =
      get_me-eq app ∙ ap expected (responses_of_users app.db app'.db s) ∙ sym (get_me-eq app')

-- The list of subscriptions and the account that `/me` returns are the same for two databases that differ
-- in the secrets of registrations and the password hashes only, whoever asks.
pub responses_keep_secrets :
    {Counters Cache : Type 0} (jwt : Jwt) (uuids : Uuids) (settings : Settings) (letters : Letters)
    (now : ℕ) (credentials : Option (Credentials jwt.Token)) (app app' : App Counters Cache)
    → SameButSecrets app.db app'.db
    → ((get_list app).0 ≡ (get_list app').0)
      × ((get_me jwt uuids settings letters now credentials app).0
          ≡ (get_me jwt uuids settings letters now credentials app').0)
responses_keep_secrets jwt uuids settings letters now credentials app app' s =
    (get_list-same app app' s, get_me-same jwt uuids settings letters now credentials app app' s)
