-- ===== src/Auth/Samples.antt =====
-- Simple libraries that keep the documented rules, which shows that what is assumed can be met.
use ticketflow.Base.{
  ℕ, ◌≤◌, ◌<◌, ◌≡◌, refl, true, ◌&&◌, Option, none, some, [], ◌∷◌, arith, leb, ltb, ◌==◌,
  if◌then◌else◌,
}
use ticketflow.Base.Text.{Text, text_eq, text_beq_iff}
use ticketflow.Auth.Libraries.{
  Jwt, Uuids, Letters, Passwords, Settings, Payload, Verdict, matches, differs,
}

-- A token that carries the secret and the claims.
abbrev pub read : (secret : Text) (now : ℕ) → Text × Payload → Option Payload
read secret now (signed, p) =
    if signed == secret && (leb p.iat now && ltb now p.exp) then some p else none

pub read_signed :
    (secret : Text) (now : ℕ) (p : Payload)
    → p.iat ≤ now
    → now < p.exp
    → read secret now (secret, p) ≡ some p
read_signed secret now p h k =
    let e : (secret == secret) ≡ true = (text_beq_iff secret secret).1 refl in rw e (ground arith)

abbrev pub jwt : Jwt
jwt = record {
  Token = Text × Payload;
  encode = λ secret p. (secret, p);
  decode = read;
  decode-encode = read_signed;
}

abbrev first_char : Text → Option ℕ
first_char [] = none
first_char (c ∷ s) = some c

abbrev pub uuids : Uuids
uuids = record { str = λ u. u ∷ []; parse = first_char; parse-str = λ u. refl }

abbrev pub letters : Letters
letters = record { lower = λ s. s; lower-lower = λ s. refl; strip-lower = λ s. refl }

abbrev pub compared : Text → Text → Verdict
compared password hashed = if password == hashed then matches else differs

pub compared_same : (password : Text) → compared password password ≡ matches
compared_same password =
    let e : (password == password) ≡ true = (text_beq_iff password password).1 refl in rw e refl

abbrev pub passwords : Passwords
passwords = record {
  hash = λ salt p. p;
  verify = compared;
  verify-hash = λ salt p. compared_same p;
}

abbrev pub settings : Settings
settings = record {
  jwt_secret = 7 ∷ 8 ∷ [];
  access_token_expire_minutes = 15;
  refresh_token_expire_days = 7;
}
