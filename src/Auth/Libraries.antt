-- ===== src/Auth/Libraries.antt =====
-- The libraries that app/core/security.py and app/services/auth_service.py call, as interfaces with
-- what is documented of them: pwdlib, PyJWT, `uuid` and `str.lower`.
use ticketflow.Base.{ℕ, ◌≤◌, ◌<◌, ◌≡◌, Option, some}
use ticketflow.Base.Text.{Text, strip}

-- A claim of a decoded token: a JSON string, or another JSON value.
pub data Claim : Type 0 where
  string : Text → Claim
  not_a_string : Claim

-- The claims that the program requires; PyJWT refuses a token without one of them.
pub record Payload : Type 0 where
  pub sub : Claim
  pub token_type : Claim
  pub iat : ℕ
  pub exp : ℕ

-- `jwt.encode` and `jwt.decode` with HS256; a refused token is `none`. A token that was signed with the
-- secret decodes to its claims, from the second it was issued until it expires.
pub record Jwt : Type 1 where
  pub Token : Type 0
  pub encode : (secret : Text) → Payload → Token
  pub decode : (secret : Text) (now : ℕ) → Token → Option Payload
  pub decode-encode :
      (secret : Text) (now : ℕ) (p : Payload)
      → p.iat ≤ now
      → now < p.exp
      → decode secret now (encode secret p) ≡ some p

-- What `PasswordHash.verify` does: it answers, raises ValueError for a malformed hash, or UnknownHashError,
-- which is no ValueError, for one that is not of its schemes.
pub data Verdict : Type 0 where
  matches differs value_error unknown_hash_error : Verdict

pub record Passwords : Type 0 where
  pub hash : (salt : ℕ) → Text → Text
  pub verify : (password hashed : Text) → Verdict
  pub verify-hash : (salt : ℕ) (password : Text) → verify password (hash salt password) ≡ matches

-- `str(uuid)` and `uuid.UUID(text)`, which raises ValueError for a text that is none.
pub record Uuids : Type 0 where
  pub str : ℕ → Text
  pub parse : Text → Option ℕ
  pub parse-str : (u : ℕ) → parse (str u) ≡ some u

-- `str.lower`: what is in lower case stays, and white space is no letter.
pub record Letters : Type 0 where
  pub lower : Text → Text
  pub lower-lower : (s : Text) → lower (lower s) ≡ lower s
  pub strip-lower : (s : Text) → strip (lower s) ≡ lower (strip s)

pub record Settings : Type 0 where
  pub jwt_secret : Text
  pub access_token_expire_minutes : ℕ
  pub refresh_token_expire_days : ℕ
