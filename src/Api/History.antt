-- ===== src/Api/History.antt =====
-- The delivery history of app/api/v1/webhooks.py.
use ticketflow.Base.Int.{ℤ, pos, negsuc}
use ticketflow.Base.{ℕ, ◌≤◌, ◌≡◌, ◌⊎◌, true, false, Option, none, some, List, arith, nat_eq}
use ticketflow.Models.{WebhookDeliveryLog}
use ticketflow.Webhooks.{latest_attempt}
use ticketflow.Api.App.{App}

pub latest_attempt_total :
    (a b : WebhookDeliveryLog) → latest_attempt a b ≡ false → latest_attempt b a ≡ true
unfolding latest_attempt
latest_attempt_total a b h = ground arith

pub latest_attempt_trans :
    (a b c : WebhookDeliveryLog)
    → latest_attempt a b ≡ true
    → latest_attempt b c ≡ true
    → latest_attempt a c ≡ true
unfolding latest_attempt
latest_attempt_trans a b c h k = ground arith

-- The limit that a request asks for: 100 where it names none, else the number itself, from 1 to 200.
abbrev pub Asked : Option ℤ → ℕ → Type 0
Asked none limit = limit ≡ 100
Asked (some z) limit = (z ≡ pos limit) × (1 ≤ limit) × (limit ≤ 200)

-- The number is no limit.
abbrev pub IsRefused : Option ℤ → Type 0
IsRefused none = ⊥
IsRefused (some (pos n)) = (n ≡ 0) ⊎ (201 ≤ n)
IsRefused (some (negsuc n)) = Unit
