-- ===== src/Auth/Tokens.antt =====
-- What `decode_token` of app/core/security.py accepts.
use ticketflow.Base.{
  ℕ, ◌+◌, ◌≤◌, ◌<◌, ◌≡◌, refl, Bool, true, false, none, some, Bool-cases, Option-cases, inl, inr,
  if◌then◌else◌,
}
use ticketflow.Base.Text.{text_eq, text_beq_iff}
use ticketflow.Auth.Libraries.{Jwt, Uuids, Settings, Payload, Claim, string, not_a_string}
use ticketflow.Auth.Security.{
  TokenType, access, refresh, token_type_value, has_type, create_token, check_payload, subject_of,
  decode_token,
}

abbrev pub same_type : TokenType → TokenType → Bool
same_type access access = true
same_type refresh refresh = true
same_type _ _ = false

has_type-value : (a b : TokenType) → has_type (string (token_type_value a)) b ≡ same_type a b
unfolding has_type token_type_value
has_type-value access access = refl
has_type-value access refresh = refl
has_type-value refresh access = refl
has_type-value refresh refresh = refl

-- No claim names two types.
one_type : (c : Claim) (a b : TokenType) → has_type c a ≡ true → has_type c b ≡ same_type a b
unfolding has_type
one_type (string t) a b h = rw ((text_beq_iff t (token_type_value a)).0 h) (has_type-value a b)
one_type not_a_string a b h = cc

module _ (jwt : Jwt) (uuids : Uuids) (settings : Settings) where
  -- A token that is created for a user is accepted, from the second of its creation until its lifetime
  -- is over, exactly for its own purpose, and then names that user.
  pub decode_token-create_token :
      (now later user_id lifetime : ℕ) (token_type expected : TokenType)
      → now ≤ later
      → later < now + lifetime
      → decode_token jwt uuids settings later
          (create_token jwt uuids settings now user_id token_type lifetime)
          expected
        ≡ (if same_type token_type expected then some user_id else none)
  unfolding decode_token create_token check_payload subject_of
  decode_token-create_token now later user_id lifetime token_type expected h k =
      rw
        (
          jwt.decode-encode settings.jwt_secret later
              (record {
                sub = string (uuids.str user_id);
                token_type = string (token_type_value token_type);
                iat = now;
                exp = now + lifetime;
              })
              h k,
          decode_token,
          create_token,
          has_type-value token_type expected,
          uuids.parse-str user_id,
        )
        refl

  checked_once :
      (p : Payload) (a b : TokenType) (u : ℕ)
      → check_payload jwt uuids settings a p ≡ some u
      → same_type a b ≡ false
      → check_payload jwt uuids settings b p ≡ none
  unfolding check_payload
  checked_once p a b u h other = elim (Bool-cases (has_type p.token_type a)) [
    | inl e ↦ rw (one_type p.token_type a b e, other) refl
    | inr e ↦ let c : none ≡ some u = rw e at h in cc
  ]

  -- Whatever the token, also one that the program did not create: at no instant is it accepted both
  -- as an access token and as a refresh token.
  pub decode_token_exclusive :
      (now user_id : ℕ) (token : jwt.Token) (a b : TokenType)
      → decode_token jwt uuids settings now token a ≡ some user_id
      → same_type a b ≡ false
      → decode_token jwt uuids settings now token b ≡ none
  unfolding decode_token
  decode_token_exclusive now user_id token a b h other =
      elim (Option-cases (jwt.decode settings.jwt_secret now token)) [
        | inl e ↦ rw (e, decode_token) refl
        | inr (p, e) ↦
            rw (e, decode_token) (checked_once p a b user_id (rw (e, decode_token) at h) other)
      ]
