-- ===== src/Api/Failures.antt =====
-- The handlers of app/api/errors.py for the framework's errors, for invalid requests and for exceptions
-- that nobody expected; app/schemas/error.py.
use Prim.Native.String.{◌++◌}
use ticketflow.Base.{
  ℕ, ◌≡◌, refl, ◌↔◌, inl, inr, Option, none, some, List, [], ◌∷◌, String, map, find, ◌==◌, nat_eq,
  Elem, arith,
}
use ticketflow.Exec.{
  Error, Header, www_authenticate_bearer, retry_after, ticket_not_found, ticket_state,
  duplicate_email, authentication, invalid_refresh_token, webhook_not_found, unknown_hash,
}
use ticketflow.Auth.Deps.{authentication_exception, agent_required, customer_required}
use ticketflow.Api.Tickets.{rate_limit_exception}
use ticketflow.Api.Errors.{Response, respond, authentication_response}

pub record ValidationErrorDetail : Type 0 where
  pub field : String
  pub message : String

-- The envelope: the code and message are those of the response.
pub record ErrorResponse : Type 0 where
  pub response : Response
  pub details : Option (List ValidationErrorDetail)

-- `_DEFAULT_HTTP_ERROR_CODES`
abbrev pub default_http_error_codes : List (ℕ × String)
default_http_error_codes =
    (400, "BAD_REQUEST")
    ∷ (401, "AUTHENTICATION_REQUIRED")
    ∷ (403, "FORBIDDEN")
    ∷ (404, "RESOURCE_NOT_FOUND")
    ∷ (409, "CONFLICT")
    ∷ (429, "RATE_LIMIT_EXCEEDED")
    ∷ (422, "VALIDATION_ERROR")
    ∷ (500, "INTERNAL_SERVER_ERROR")
    ∷ (503, "SERVICE_UNAVAILABLE")
    ∷ []

-- The statuses of `COMMON_ERROR_RESPONSES`.
abbrev pub common_error_responses : List ℕ
common_error_responses = 401 ∷ 403 ∷ 404 ∷ 409 ∷ 429 ∷ 422 ∷ 500 ∷ []

-- A `StarletteHTTPException`; an `APIException` is one that has a code, and the detail of one may be no
-- string.
pub record HttpException : Type 0 where
  pub status_code : ℕ
  pub code : Option String
  pub detail : Option String
  pub headers : List Header

abbrev pub or_else : {A : Type 0} → A → Option A → A
or_else default none = default
or_else default (some a) = a

-- `_DEFAULT_HTTP_ERROR_CODES.get(status_code, "REQUEST_FAILED")`
unfoldable pub default_code : ℕ → String
default_code status_code = elim (find (λ e. e.0 == status_code) default_http_error_codes) [
  | none ↦ "REQUEST_FAILED"
  | some e ↦ e.1
]

unfoldable pub http_exception_handler : HttpException → ErrorResponse
unfolding default_code
http_exception_handler exc = record {
  response = record {
    status_code = exc.status_code;
    code = or_else (default_code exc.status_code) exc.code;
    message = or_else "Request failed" exc.detail;
    headers = exc.headers;
  };
  details = none;
}

-- One of `exc.errors()`; a part of a location is a name or an index.
pub data Part : Type 0 where
  name : String → Part
  index : ℕ → Part

pub record PydanticError : Type 0 where
  pub loc : Option (List Part)
  pub msg : Option String

module _ (int_str : ℕ → String) where
  abbrev pub part_str : Part → String
  part_str (name s) = s
  part_str (index n) = int_str n

  -- `".".join(str(part) for part in …)`
  unfoldable pub join_dots : List Part → String
  join_dots [] = ""
  join_dots (p ∷ ps) =
      let rest = join_dots ps in elim ps [ [] ↦ part_str p | q ∷ qs ↦ part_str p ++ "." ++ rest ]

  unfoldable pub detail_of : PydanticError → ValidationErrorDetail
  unfolding join_dots
  detail_of error = record {
    field = join_dots (or_else [] error.loc);
    message = or_else "Invalid value" error.msg;
  }

  unfoldable pub validation_exception_handler : List PydanticError → ErrorResponse
  unfolding detail_of
  validation_exception_handler errors = record {
    response = record {
      status_code = 422;
      code = "VALIDATION_ERROR";
      message = "Request validation failed";
      headers = [];
    };
    details = some (map detail_of errors);
  }

-- What the log line tells is not part of the response.
unfoldable pub unexpected_exception_handler : (exception : String) → ErrorResponse
unexpected_exception_handler exception = record {
  response = record {
    status_code = 500;
    code = "INTERNAL_SERVER_ERROR";
    message = "An unexpected error occurred";
    headers = [];
  };
  details = none;
}

pub data Raised : Type 0 where
  domain : Error → Raised
  http : HttpException → Raised
  invalid : List PydanticError → Raised
  unforeseen : (exception : String) → Raised

-- `register_exception_handlers`: which handler an exception has.
unfoldable pub handle : (ℕ → String) → Raised → ErrorResponse
unfolding http_exception_handler validation_exception_handler unexpected_exception_handler
handle int_str (domain e) = record { response = respond e; details = none }
handle int_str (http exc) = http_exception_handler exc
handle int_str (invalid errors) = validation_exception_handler int_str errors
handle int_str (unforeseen exception) = unexpected_exception_handler exception

-- The errors that the services, the dependencies and the limiter raise.
pub data IsRaised : Error → Type 0 where
  missing_ticket : IsRaised ticket_not_found
  ticket_conflict : (message code : String) → IsRaised (ticket_state message code)
  known_email : IsRaised duplicate_email
  bad_credentials : IsRaised authentication
  bad_refresh_token : IsRaised invalid_refresh_token
  missing_webhook : IsRaised webhook_not_found
  foreign_hash : IsRaised unknown_hash
  no_user : IsRaised authentication_exception
  no_agent : IsRaised agent_required
  no_customer : IsRaised customer_required
  too_many : (seconds : ℕ) → IsRaised (rate_limit_exception seconds)

-- What a client may rely on.
pub record Documented (e : ErrorResponse) : Type 0 where
  pub status : Elem e.response.status_code common_error_responses
  pub challenge : (e.response.status_code ≡ 401) ↔ Elem www_authenticate_bearer e.response.headers
  pub delay :
      (e.response.status_code ≡ 429)
      ↔ ((seconds : ℕ) × Elem (retry_after seconds) e.response.headers)
  pub details :
      (e.response.status_code ≡ 422)
      ↔ ((details : List ValidationErrorDetail) × (e.details ≡ some details))

plain :
    (status_code : ℕ) (code message : String)
    → Elem status_code common_error_responses
    → ¬ (status_code ≡ 401)
    → ¬ (status_code ≡ 429)
    → ¬ (status_code ≡ 422)
    → Documented (record {
      response = record { status_code = status_code; code = code; message = message; headers = [] };
      details = none;
    })
plain status_code code message m a b c = record {
  status = m;
  challenge = (λ e. absurd (a e), λ k. absurd k);
  delay = (λ e. absurd (b e), λ (n, k). absurd k);
  details = (λ e. absurd (c e), λ (ds, k). cc);
}

challenged :
    (code message : String)
    → Documented (record { response = authentication_response code message; details = none })
unfolding authentication_response
challenged code message = record {
  status = inl refl;
  challenge = (λ e. inl refl, λ k. refl);
  delay = (λ e. absurd (omega (arith, e)), λ (n, k). elim k [ inl e ↦ cc | inr z ↦ absurd z ]);
  details = (λ e. absurd (omega (arith, e)), λ (ds, k). cc);
}

limited :
    (seconds : ℕ)
    → Documented (record { response = respond (rate_limit_exception seconds); details = none })
unfolding respond
limited seconds = record {
  status = inr (inr (inr (inr (inl refl))));
  challenge = (λ e. absurd (omega (arith, e)), λ k. elim k [ inl e ↦ cc | inr z ↦ absurd z ]);
  delay = (λ e. (seconds, inl refl), λ k. refl);
  details = (λ e. absurd (omega (arith, e)), λ (ds, k). cc);
}

refused :
    (int_str : ℕ → String) (errors : List PydanticError)
    → Documented (validation_exception_handler int_str errors)
unfolding validation_exception_handler
refused int_str errors = record {
  status = inr (inr (inr (inr (inr (inl refl)))));
  challenge = (λ e. absurd (omega (arith, e)), λ k. absurd k);
  delay = (λ e. absurd (omega (arith, e)), λ (n, k). absurd k);
  details = (λ e. (map (detail_of int_str) errors, refl), λ k. refl);
}

-- Every error that the program raises itself, every refused request and every unexpected exception is
-- answered with a status that the API declares; exactly the answers 401 carry the bearer challenge,
-- exactly the answers 429 a time to wait, and exactly the answers 422 details.
pub handle-Documented :
    (int_str : ℕ → String)
    → ((e : Error) → IsRaised e → Documented (handle int_str (domain e)))
      × ((errors : List PydanticError) → Documented (handle int_str (invalid errors)))
      × ((exception : String) → Documented (handle int_str (unforeseen exception)))
unfolding handle respond unexpected_exception_handler authentication_response
handle-Documented int_str = (
  λ e r. raised e r,
  λ errors. refused int_str errors,
  λ exception.
      plain 500 _ _ (inr (inr (inr (inr (inr (inr (inl refl))))))) (λ e. omega (arith, e))
        (λ e. omega (arith, e)) (λ e. omega (arith, e)),
)
  where
    raised : (e : Error) → IsRaised e → Documented (handle int_str (domain e))
    raised _ missing_ticket =
        plain 404 _ _ (inr (inr (inl refl))) (λ e. omega (arith, e)) (λ e. omega (arith, e))
          (λ e. omega (arith, e))
    raised _ (ticket_conflict message code) =
        plain 409 _ _ (inr (inr (inr (inl refl)))) (λ e. omega (arith, e)) (λ e. omega (arith, e))
          (λ e. omega (arith, e))
    raised _ known_email =
        plain 409 _ _ (inr (inr (inr (inl refl)))) (λ e. omega (arith, e)) (λ e. omega (arith, e))
          (λ e. omega (arith, e))
    raised _ bad_credentials = challenged _ _
    raised _ bad_refresh_token = challenged _ _
    raised _ missing_webhook =
        plain 404 _ _ (inr (inr (inl refl))) (λ e. omega (arith, e)) (λ e. omega (arith, e))
          (λ e. omega (arith, e))
    raised _ foreign_hash =
        plain 500 _ _ (inr (inr (inr (inr (inr (inr (inl refl))))))) (λ e. omega (arith, e))
          (λ e. omega (arith, e)) (λ e. omega (arith, e))
    raised _ no_user = challenged _ _
    raised _ no_agent =
        plain 403 _ _ (inr (inl refl)) (λ e. omega (arith, e)) (λ e. omega (arith, e))
          (λ e. omega (arith, e))
    raised _ no_customer =
        plain 403 _ _ (inr (inl refl)) (λ e. omega (arith, e)) (λ e. omega (arith, e))
          (λ e. omega (arith, e))
    raised _ (too_many seconds) = limited seconds
