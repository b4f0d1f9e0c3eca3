-- ===== src/RateLimit/Tests.antt =====
-- The limiter on the model of the commands.
use Prim.Native.Nat.{min}
use ticketflow.Base.{
  ◌-◌, ◌≡◌, refl, true, false, none, some, List, [], ◌∷◌, String, ◌==◌, nat_eq, string_eq,
  if◌then◌else◌, arith,
}
use ticketflow.RateLimit.Table.{Table, table}
use ticketflow.RateLimit.Quota.{retry_after_suffices, run, requests, admitted, run_quota}
use ticketflow.RateLimit.{works, consume_rate_limit, decide, fixed_window_script, with_ttl}

abbrev empty : Table
empty k = (0, none)

-- Five requests of one address, with 42.4 seconds of the window left.
abbrev busy : Table
busy k = if "a" == k then (5, some 42400) else (0, none)

told : (consume_rate_limit table works "a" 5 60 busy).0.retry_after_seconds ≡ some 42
unfolding consume_rate_limit fixed_window_script with_ttl decide
told = refl

-- At the second that it was told, the client is refused again.
too_early :
    (consume_rate_limit table works "a" 5 60
      (table.elapse 42000 (consume_rate_limit table works "a" 5 60 busy).1)).0.allowed
    ≡ false
unfolding consume_rate_limit fixed_window_script with_ttl decide
too_early = refl

retry_after_suffices_example :
    let s' = table.elapse 42500 (consume_rate_limit table works "a" 5 60 busy).1 in
    (consume_rate_limit table works "a" 5 60 s').0.allowed ≡ true
retry_after_suffices_example =
    retry_after_suffices table "a" 5 60 42 42500 busy (omega arith) told (omega arith)

abbrev traffic : List String
traffic = "a" ∷ "b" ∷ "a" ∷ "a" ∷ []

run_quota_example :
    admitted "a" (run table 2 60 traffic empty).0 ≡ min (requests "a" traffic) (2 - (empty "a").0)
run_quota_example = run_quota table 2 60 "a" traffic empty
