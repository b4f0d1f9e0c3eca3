-- ===== src/Schemas/Checks.antt =====
-- Pydantic's documented checks as functions, for concrete bodies.
use ticketflow.Base.{
  ℕ, ◌≤◌, ◌≡◌, refl, ap, ◌↔◌, inl, inr, true, ◌&&◌, Option, none, some, if◌then◌else◌, leb, length,
  arith, Bool-cases, Option-cases, subst,
}
use ticketflow.Base.Text.{Text}
use ticketflow.Models.{Enumeration, by_value, by_value_iff, category_members, priority_members}
use ticketflow.Schemas.Values.{Json, null, string, compound, Pydantic, HttpUrl}
use ticketflow.Schemas.Acceptance.{some-injective}

unfoldable pub within_bounds : ℕ → ℕ → Json → Option Text
within_bounds lo hi (string t) = if leb lo (length t) && leb (length t) hi then some t else none
within_bounds lo hi null = none
within_bounds lo hi compound = none

pub within_bounds_iff :
    (lo hi : ℕ) (v : Json) (t : Text)
    → (within_bounds lo hi v ≡ some t) ↔ ((v ≡ string t) × (lo ≤ length t) × (length t ≤ hi))
unfolding within_bounds
within_bounds_iff lo hi null t = (λ h. cc, λ (e, a, b). cc)
within_bounds_iff lo hi compound t = (λ h. cc, λ (e, a, b). cc)
within_bounds_iff lo hi (string s) t = elim (Bool-cases (leb lo (length s) && leb (length s) hi)) [
  | inl e ↦ rw e (
    λ h.
        let q : s ≡ t = some-injective s t h in
        (ap string q, rw (← q) (ground arith), rw (← q) (ground arith)),
    λ (p, a, b). let q : s ≡ t = cc in ap some q,
  )
  | inr e ↦ rw e (
    λ h. cc,
    λ (p, a, b).
        let q : s ≡ t = cc in
        let a' : lo ≤ length s = rw q a in
        let b' : length s ≤ hi = rw q b in
        let c : leb lo (length s) && leb (length s) hi ≡ true = ground arith in cc,
  )
]

unfoldable pub member : {A : Type 0} → Enumeration A → Json → Option A
member enum (string t) = by_value ⦃enum = enum⦄ t
member enum null = none
member enum compound = none

pub member_iff :
    {A : Type 0} (enum : Enumeration A) (v : Json) (a : A)
    → (member enum v ≡ some a) ↔ (v ≡ string (enum.value a))
unfolding member
member_iff enum null a = (λ h. cc, λ e. cc)
member_iff enum compound a = (λ h. cc, λ e. cc)
member_iff enum (string t) a =
    let f = by_value_iff ⦃enum = enum⦄ t a in (λ h. ap string (f.0 h), λ e. f.1 cc)

unfoldable pub any_text : Json → Option Text
any_text (string t) = some t
any_text null = none
any_text compound = none

unfoldable pub plain_url : ℕ → Json → Option HttpUrl
unfolding within_bounds
plain_url most v = elim (within_bounds 1 most v) [
  | none ↦ none
  | some t ↦ some (record { text = t; username = none; password = none })
]

pub any_text-some : (v : Json) (t : Text) → any_text v ≡ some t → (s : Text) × (v ≡ string s)
unfolding any_text
any_text-some (string s) t h = (s, refl)
any_text-some null t h = cc
any_text-some compound t h = cc

pub plain_url-bounded :
    (most : ℕ) (v : Json) (url : HttpUrl) → plain_url most v ≡ some url → length url.text ≤ most
unfolding plain_url
plain_url-bounded most v url h = elim (Option-cases (within_bounds 1 most v)) [
  | inl e ↦ let c : none ≡ some url = rw (e, plain_url) at h in cc
  | inr (t, e) ↦
      let made : HttpUrl = record { text = t; username = none; password = none } in
      let q : made ≡ url = some-injective made url (rw (e, plain_url) at h) in
      let (_, a, b) = (within_bounds_iff 1 most v t).0 e in
      subst (λ (x : HttpUrl). length x.text ≤ most) q b
]

abbrev pub checks : Pydantic
checks = record {
  str_field = within_bounds;
  str_field_iff = within_bounds_iff;
  enum_field = member;
  enum_field_iff = member_iff;
  email_field = any_text;
  email_field_text = any_text-some;
  url_field = plain_url;
  url_field_bounded = plain_url-bounded;
}
