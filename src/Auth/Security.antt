-- ===== src/Auth/Security.antt =====
-- app/core/security.py: passwords and the two kinds of JWT. Instants are counted in seconds, as in
-- the claims.
use ticketflow.Base.{
  ℕ, ◌+◌, ◌*◌, Bool, true, false, Option, none, some, [], ◌∷◌, ◌==◌, if◌then◌else◌,
}
use ticketflow.Base.Text.{Text, text_eq}
use ticketflow.Auth.Libraries.{
  Jwt, Passwords, Uuids, Settings, Payload, Claim, string, not_a_string, matches, differs,
  value_error, unknown_hash_error,
}

pub data TokenType : Type 0 where
  access refresh : TokenType

unfoldable pub token_type_value : TokenType → Text
token_type_value access = 97 ∷ 99 ∷ 99 ∷ 101 ∷ 115 ∷ 115 ∷ []
token_type_value refresh = 114 ∷ 101 ∷ 102 ∷ 114 ∷ 101 ∷ 115 ∷ 104 ∷ []

-- Nothing if an exception leaves it.
unfoldable pub verify_password : Passwords → (plain_password password_hash : Text) → Option Bool
verify_password passwords plain password_hash = elim (passwords.verify plain password_hash) [
  | matches ↦ some true
  | differs ↦ some false
  | value_error ↦ some false
  | unknown_hash_error ↦ none
]

-- `payload.get("type") != expected_type.value`
unfoldable pub has_type : Claim → TokenType → Bool
has_type (string t) expected = t == token_type_value expected
has_type not_a_string expected = false

module _ (jwt : Jwt) (uuids : Uuids) (settings : Settings) where
  unfoldable pub create_token : (now user_id : ℕ) → TokenType → (expires_delta : ℕ) → jwt.Token
  create_token now user_id token_type expires_delta = jwt.encode settings.jwt_secret (record {
    sub = string (uuids.str user_id);
    token_type = string (token_type_value token_type);
    iat = now;
    exp = now + expires_delta;
  })

  unfoldable pub create_access_token : (now user_id : ℕ) → jwt.Token
  create_access_token now user_id =
      create_token now user_id access (settings.access_token_expire_minutes * 60)

  unfoldable pub create_refresh_token : (now user_id : ℕ) → jwt.Token
  create_refresh_token now user_id =
      create_token now user_id refresh (settings.refresh_token_expire_days * 86400)

  unfoldable pub subject_of : Claim → Option ℕ
  subject_of (string t) = uuids.parse t
  subject_of not_a_string = none

  unfoldable pub check_payload : TokenType → Payload → Option ℕ
  unfolding subject_of
  check_payload expected_type payload =
      if has_type payload.token_type expected_type then subject_of payload.sub else none

  -- TokenValidationError is `none`: its callers do not read the message.
  unfoldable pub decode_token : (now : ℕ) → jwt.Token → TokenType → Option ℕ
  unfolding check_payload
  decode_token now token expected_type = elim (jwt.decode settings.jwt_secret now token) [
    | none ↦ none
    | some payload ↦ check_payload expected_type payload
  ]
