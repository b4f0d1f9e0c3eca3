-- ===== src/Cache/Libraries.antt =====
-- What app/services/cache_service.py calls: Redis, the JSON of pydantic, and the hash of a canonical
-- JSON text, as interfaces with their documented rules.
use ticketflow.Base.{ℕ, ◌+◌, ◌≡◌, ◌≢◌, Option, none, some, All, ◌==◌, if◌then◌else◌}
use ticketflow.Base.Text.{Text, text_eq}
use ticketflow.Models.{TicketStatus, TicketPriority, TicketCategory}

-- A stored string: the decimal form of a number, or a JSON document.
pub data Stored (Document : Type 0) : Type 0 where
  number : ℕ → Stored Document
  json : Document → Stored Document

-- INCR on what is stored: 1 where there is nothing; a string that is no number is left alone.
abbrev pub bump : {D : Type 0} → Option (Stored D) → Option (Stored D)
bump none = some (number 1)
bump (some (number n)) = some (number (n + 1))
bump (some (json t)) = some (json t)

abbrev pub kept_or : {D : Type 0} → Stored D → Option (Stored D) → Option (Stored D)
kept_or v none = some v
kept_or v (some old) = some old

pub record Redis : Type 1 where
  pub Document : Type 0
  pub State : Type 0
  pub get : Text → State → Option (Stored Document)
  pub set : Text → Stored Document → State → State
  pub set_nx : Text → Stored Document → State → State
  pub incr : Text → State → State
  pub delete : Text → State → State
  pub get-set :
      (j k : Text) (v : Stored Document) (s : State)
      → get j (set k v s) ≡ (if j == k then some v else get j s)
  pub get-set_nx :
      (j k : Text) (v : Stored Document) (s : State)
      → get j (set_nx k v s) ≡ (if j == k then kept_or v (get j s) else get j s)
  pub get-incr :
      (j k : Text) (s : State) → get j (incr k s) ≡ (if j == k then bump (get j s) else get j s)
  pub get-delete :
      (j k : Text) (s : State) → get j (delete k s) ≡ (if j == k then none else get j s)

-- `model_dump_json` and `model_validate_json`; an invalid document is `none`.
pub record Json (Document A : Type 0) : Type 0 where
  pub dump : A → Document
  pub validate : Document → Option A
  pub validate-dump : (a : A) → validate (dump a) ≡ some a

-- The dictionary `canonical_parameters`.
pub record Canonical : Type 0 where
  pub category : Option TicketCategory
  pub page : ℕ
  pub page_size : ℕ
  pub priority : Option TicketPriority
  pub q : Option Text
  pub status : Option TicketStatus

-- No character of the text is a colon.
abbrev pub NoColon : Text → Type 0
NoColon = All (λ c. c ≢ 58)

-- `str` of numbers and UUIDs, and `sha256(json.dumps(…)).hexdigest()`, taken to have no collisions.
pub record Printer : Type 0 where
  pub str_int : ℕ → Text
  pub str_uuid : ℕ → Text
  pub filter_hash : Canonical → Text
  pub int-NoColon : (n : ℕ) → NoColon (str_int n)
  pub uuid-NoColon : (u : ℕ) → NoColon (str_uuid u)
  pub int-injective : (m n : ℕ) → str_int m ≡ str_int n → m ≡ n
  pub uuid-injective : (u v : ℕ) → str_uuid u ≡ str_uuid v → u ≡ v
  pub hash-injective : (c d : Canonical) → filter_hash c ≡ filter_hash d → c ≡ d

-- How one call of Redis fares: it runs and answers, it is not made, or the answer is lost.
pub data Fault : Type 0 where
  works down lost : Fault

-- How the calls of one list request fare: SET NX and GET of the version, GET and SET of the list.
pub record Faults : Type 0 where
  pub setting : Fault
  pub getting : Fault
  pub reading : Fault
  pub writing : Fault
