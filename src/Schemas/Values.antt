-- ===== src/Schemas/Values.antt =====
-- What a request schema of app/schemas reads: a JSON body, and the field types of pydantic, which are an
-- interface with what is documented of them.
use ticketflow.Base.{
  ℕ, ◌≤◌, ◌≡◌, ◌↔◌, Bool, true, false, Option, none, some, List, [], ◌∷◌, String, ◌==◌, string_eq,
  if◌then◌else◌, any, all, length,
}
use ticketflow.Base.Text.{Text, strip}
use ticketflow.Models.{Enumeration}

-- A JSON value; numbers, Booleans, lists and objects are not told apart, since no field takes one.
pub data Json : Type 0 where
  null : Json
  string : Text → Json
  compound : Json

-- The body of a request is an object: a Python dictionary from the names of its fields.
abbrev pub Body : Type 0
Body = List (String × Json)

abbrev pub lookup : String → Body → Option Json
lookup name [] = none
lookup name ((k, v) ∷ body) = let rest = lookup name body in if k == name then some v else rest

infixl 5 ◌>>=◌ ◌>>◌
abbrev pub ◌>>=◌ : {A B : Type 0} → Option A → (A → Option B) → Option B
none >>= f = none
some a >>= f = f a

abbrev pub ◌>>◌ : {A B : Type 0} → Option A → Option B → Option B
m >> k = m >>= λ _. k

abbrev pub pure : {A : Type 0} → A → Option A
pure a = some a

abbrev pub guard : Bool → Option (Unit {0})
guard true = some tt
guard false = none

-- What `pydantic.HttpUrl` tells of an accepted URL.
pub record HttpUrl : Type 0 where
  pub text : Text
  pub username : Option Text
  pub password : Option Text

-- The text of accepted JSON for a `str` field with bounds on its length, an enumeration field, an
-- `EmailStr` field and an `HttpUrl` field with a maximal length; `none` where pydantic refuses it.
pub record Pydantic : Type 1 where
  pub str_field : (min_length max_length : ℕ) → Json → Option Text
  pub str_field_iff :
      (min_length max_length : ℕ) (v : Json) (t : Text)
      → (str_field min_length max_length v ≡ some t)
        ↔ ((v ≡ string t) × (min_length ≤ length t) × (length t ≤ max_length))
  pub enum_field : {A : Type 0} → Enumeration A → Json → Option A
  pub enum_field_iff :
      {A : Type 0} (enum : Enumeration A) (v : Json) (a : A)
      → (enum_field enum v ≡ some a) ↔ (v ≡ string (enum.value a))
  pub email_field : Json → Option Text
  pub email_field_text :
      (v : Json) (t : Text) → email_field v ≡ some t → (s : Text) × (v ≡ string s)
  pub url_field : (max_length : ℕ) → Json → Option HttpUrl
  pub url_field_bounded :
      (max_length : ℕ) (v : Json) (url : HttpUrl)
      → url_field max_length v ≡ some url
      → length url.text ≤ max_length

-- `value.strip() if isinstance(value, str) else value`
unfoldable pub strip_text : Json → Json
strip_text (string s) = string (strip s)
strip_text null = null
strip_text compound = compound

-- `extra="forbid"`
unfoldable pub forbid_extra : List String → Body → Option (Unit {0})
forbid_extra names body = guard (all (λ (k, v). any (λ name. k == name) names) body)

-- A field without a default.
abbrev pub required : {A : Type 0} → (Json → Option A) → String → Body → Option A
required check name body = lookup name body >>= check

-- A field `… | None` with the default None.
abbrev pub or_null : {A : Type 0} → (Json → Option A) → Json → Option (Option A)
or_null check null = some none
or_null check (string s) = check (string s) >>= λ a. some (some a)
or_null check compound = check compound >>= λ a. some (some a)

abbrev pub optional : {A : Type 0} → (Json → Option A) → String → Body → Option (Option A)
optional check name body = elim (lookup name body) [ none ↦ some none | some v ↦ or_null check v ]
