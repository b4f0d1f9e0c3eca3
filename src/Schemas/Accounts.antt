-- ===== src/Schemas/Accounts.antt =====
-- Which bodies the request schemas of app/schemas/auth.py and app/schemas/webhook.py accept.
use ticketflow.Base.{
  ℕ, ◌≤◌, ◌≡◌, refl, ap, ◌∙◌, subst, ◌↔◌, not, ◌||◌, Option, none, some, [], ◌∷◌, String, length,
  if◌then◌else◌,
}
use ticketflow.Base.Text.{Text}
use ticketflow.Models.{event_members}
use ticketflow.Schemas.Values.{
  Json, Body, string, lookup, Pydantic, HttpUrl, strip_text, forbid_extra, required, ◌>>=◌,
}
use ticketflow.Schemas.Requests.{
  EmailPasswordRequest, email_password_request, WebhookCreateRequest, webhook_create_request,
  reject_url_credentials, is_none,
}
use ticketflow.Schemas.Reading.{some_bind_iff, OnlyNames, forbid_extra_iff, Names, member_field_iff}
use ticketflow.Schemas.Acceptance.{some-injective}

reject_iff :
    (url out : HttpUrl)
    → (reject_url_credentials url ≡ some out)
      ↔ ((url ≡ out) × (url.username ≡ none) × (url.password ≡ none))
unfolding reject_url_credentials
reject_iff url out = go url.username url.password
  where
    go :
        (u p : Option Text)
        → ((if not (is_none u) || not (is_none p) then none else some url) ≡ some out)
          ↔ ((url ≡ out) × (u ≡ none) × (p ≡ none))
    go none none = (λ h. (some-injective url out h, refl, refl), λ (a, b, c). ap some a)
    go none (some p) = (λ h. cc, λ (a, b, c). cc)
    go (some u) p = (λ h. cc, λ (a, b, c). cc)

module _ (pydantic : Pydantic) where
  -- A field is a string between its bounds, as it is.
  abbrev pub Plain : (min_length max_length : ℕ) → String → Body → Text → Type 0
  Plain min_length max_length name body t =
      (lookup name body ≡ some (string t)) × (min_length ≤ length t) × (length t ≤ max_length)

  kept_field_iff :
      (lo hi : ℕ) (name : String) (body : Body) (t : Text)
      → (required (pydantic.str_field lo hi) name body ≡ some t) ↔ Plain lo hi name body t
  kept_field_iff lo hi name body t =
      let f = some_bind_iff (lookup name body) (pydantic.str_field lo hi) t in
      (
        λ h.
            let (v, e, c) = f.0 h in
            let (q, a, b) = (pydantic.str_field_iff lo hi v t).0 c in (e ∙ ap some q, a, b),
        λ (e, a, b). f.1 (string t, e, (pydantic.str_field_iff lo hi (string t) t).1 (refl, a, b)),
      )

  -- The field is an address once it is stripped.
  abbrev pub Address : Body → Text → Type 0
  Address body email =
      (v : Json) × (lookup "email" body ≡ some v)
      × (pydantic.email_field (strip_text v) ≡ some email)

  -- A body is accepted for registration or login exactly if its only fields are an email, which is an
  -- address once it is stripped, and a password of 8 to 128 characters, which is taken as it is, with its
  -- white space.
  pub email_password_request_iff :
      (body : Body) (r : EmailPasswordRequest)
      → (email_password_request pydantic body ≡ some r) ↔ (
          OnlyNames ("email" ∷ "password" ∷ []) body
          × Address body r.email
          × Plain 8 128 "password" body r.password)
  unfolding email_password_request
  email_password_request_iff body r =
      let email = some_bind_iff (lookup "email" body) (λ v. pydantic.email_field (strip_text v)) in
      (
        λ h.
            let (u, a, h1) =
              (some_bind_iff (forbid_extra ("email" ∷ "password" ∷ []) body) _ r).0 h in
            let (t, b, h2) =
              (some_bind_iff (required (λ v. pydantic.email_field (strip_text v)) "email" body) _
                  r).0
                h1 in
            let (p, c, h3) =
              (some_bind_iff (required (pydantic.str_field 8 128) "password" body) _ r).0 h2 in
            let made : EmailPasswordRequest = record { email = t; password = p } in
            let same = some-injective made r h3 in
            (
              (forbid_extra_iff ("email" ∷ "password" ∷ []) body).0 a,
              subst (λ (x : EmailPasswordRequest). Address body x.email) same ((email t).0 b),
              subst (λ (x : EmailPasswordRequest). Plain 8 128 "password" body x.password) same
                  ((kept_field_iff 8 128 "password" body p).0 c),
            ),
        λ (a, b, c).
            rw
              (
                (forbid_extra_iff ("email" ∷ "password" ∷ []) body).1 a,
                (email r.email).1 b,
                (kept_field_iff 8 128 "password" body r.password).1 c,
              )
              refl,
      )

  -- The field is a URL that is short enough and without credentials.
  abbrev pub CleanUrl : Body → HttpUrl → Type 0
  CleanUrl body url =
      (v : Json) × (lookup "url" body ≡ some v)
      × (pydantic.url_field 2048 v ≡ some url)
      × (url.username ≡ none)
      × (url.password ≡ none)

  -- A body is accepted as a subscription exactly if its only fields are a URL of at most 2048 characters
  -- that names no user and no password, and the value of an event type.
  pub webhook_create_request_iff :
      (body : Body) (r : WebhookCreateRequest)
      → (webhook_create_request pydantic body ≡ some r) ↔ (
          OnlyNames ("url" ∷ "event_type" ∷ []) body
          × CleanUrl body r.url
          × Names event_members "event_type" body r.event_type)
  unfolding webhook_create_request
  webhook_create_request_iff body r =
      let url_check : Json → Option HttpUrl =
        λ v. pydantic.url_field 2048 v >>= reject_url_credentials in
      let event_check = pydantic.enum_field event_members in
      let url = some_bind_iff (lookup "url" body) url_check in
      (
        λ h.
            let (u, a, h1) =
              (some_bind_iff (forbid_extra ("url" ∷ "event_type" ∷ []) body) _ r).0 h in
            let (t, b, h2) = (some_bind_iff (required url_check "url" body) _ r).0 h1 in
            let (k, c, h3) = (some_bind_iff (required event_check "event_type" body) _ r).0 h2 in
            let (v, d, e) = (url t).0 b in
            let (x, f, g) =
              (some_bind_iff (pydantic.url_field 2048 v) reject_url_credentials t).0 e in
            let (q, no_user, no_password) = (reject_iff x t).0 g in
            let made : WebhookCreateRequest = record { url = t; event_type = k } in
            let same = some-injective made r h3 in
            (
              (forbid_extra_iff ("url" ∷ "event_type" ∷ []) body).0 a,
              subst (λ (w : WebhookCreateRequest). CleanUrl body w.url) same
                  (
                    v,
                    d,
                    f ∙ ap some q,
                    subst (λ (w : HttpUrl). w.username ≡ none) q no_user,
                    subst (λ (w : HttpUrl). w.password ≡ none) q no_password,
                  ),
              subst
                  (λ (w : WebhookCreateRequest). Names event_members "event_type" body w.event_type)
                  same ((member_field_iff pydantic event_members "event_type" body k).0 c),
            ),
        λ (a, (v, d, f, no_user, no_password), c).
            let clean = (reject_iff r.url r.url).1 (refl, no_user, no_password) in
            let read =
              (some_bind_iff (pydantic.url_field 2048 v) reject_url_credentials r.url).1
                (r.url, f, clean) in
            rw
              (
                (forbid_extra_iff ("url" ∷ "event_type" ∷ []) body).1 a,
                (url r.url).1 (v, d, read),
                (member_field_iff pydantic event_members "event_type" body r.event_type).1 c,
              )
              refl,
      )
