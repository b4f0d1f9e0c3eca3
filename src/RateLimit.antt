-- ===== src/RateLimit.antt =====
-- app/services/rate_limit_service.py: the fixed-window limiter. Its Lua script calls Redis, which is
-- an interface here: the commands INCR, EXPIRE and TTL with their documented effects, and the
-- passing of time.
pub mod Commands
pub mod Quota
pub mod Table
mod Tests
use Prim.Native.Nat.{max}
use Prim.Native.String.{◌++◌}
use ticketflow.Base.{
  ℕ, ◌+◌, ◌≡◌, Bool, true, false, Option, none, some, List, [], ◌∷◌, String, leb, ◌==◌, nat_eq,
  if◌then◌else◌,
}
use ticketflow.Base.Int.{ℤ, pos, negsuc}
use Commands.{Redis}

abbrev pub login_rate_limit : ℕ
login_rate_limit = 5

abbrev pub ticket_create_rate_limit : ℕ
ticket_create_rate_limit = 30

abbrev pub rate_limit_window_seconds : ℕ
rate_limit_window_seconds = 60

pub record RateLimitDecision : Type 0 where
  pub allowed : Bool
  pub retry_after_seconds : Option ℕ

unfoldable pub login_rate_limit_key : String → String
login_rate_limit_key client_ip = "rate_limit:login:" ++ client_ip

-- `str(uuid)` is an argument.
unfoldable pub ticket_create_rate_limit_key : (ℕ → String) → ℕ → String
ticket_create_rate_limit_key uuid_str customer_id =
    "rate_limit:ticket_create:" ++ uuid_str customer_id

-- What `redis.eval` hands back, as `int(…)` sees its items: an item is a number or is not one.
pub data Item : Type 0 where
  number : ℤ → Item
  not_a_number : Item

pub data Reply : Type 0 where
  items : List Item → Reply
  not_a_list : Reply
  redis_error : Reply

abbrev at_least_one : ℤ → ℕ
at_least_one (pos n) = max n 1
at_least_one (negsuc n) = 1

abbrev is_within : ℤ → ℕ → Bool
is_within (pos n) limit = leb n limit
is_within (negsuc n) limit = true

-- The part of `consume_rate_limit` after the call: every unusable reply admits the request.
unfoldable pub decide : ℕ → Reply → RateLimitDecision
decide limit (items (number count ∷ number ttl ∷ [])) =
    if is_within count limit
    then record { allowed = true; retry_after_seconds = none }
    else record { allowed = false; retry_after_seconds = some (at_least_one ttl) }
decide limit _ = record { allowed = true; retry_after_seconds = none }

-- How one call of Redis fares: it runs and answers, it is not made, or the answer is lost.
pub data Link : Type 0 where
  works down lost : Link

module _ (R : Redis) where
  open R use {State, incr, expire, ttl}

  -- The rest of the script after INCR and the first EXPIRE.
  unfoldable pub with_ttl : String → (window count : ℕ) → ℤ → State → ℕ × ℤ × State
  with_ttl key window count (pos n) s = (count, pos n, s)
  with_ttl key window count (negsuc n) s = (count, pos window, expire key window s)

  -- `_FIXED_WINDOW_SCRIPT`
  unfoldable pub fixed_window_script : String → ℕ → State → ℕ × ℤ × State
  unfolding with_ttl
  fixed_window_script key window s =
      let (count, s') = incr key s in
      let s'' = if count == 1 then expire key window s' else s' in
      with_ttl key window count (ttl key s'') s''

  unfoldable pub consume_rate_limit :
      Link → String → (limit window : ℕ) → State → RateLimitDecision × State
  consume_rate_limit works key limit window s =
      let (count, left, s') = fixed_window_script key window s in
      (decide limit (items (number (pos count) ∷ number left ∷ [])), s')
  consume_rate_limit down key limit window s = (decide limit redis_error, s)
  consume_rate_limit lost key limit window s =
      let (count, left, s') = fixed_window_script key window s in (decide limit redis_error, s')
