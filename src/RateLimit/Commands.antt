-- ===== src/RateLimit/Commands.antt =====
-- The commands of Redis that the limiter's script calls, with what Redis documents of them.
use ticketflow.Base.{
  ℕ, ◌+◌, ◌*◌, ◌/◌, ◌≤◌, ◌≡◌, ◌≢◌, Option, none, some, String, ◌==◌, string_eq, if◌then◌else◌,
}
use ticketflow.Base.Int.{ℤ, pos, negsuc}

pub record Redis : Type 1 where
  pub State : Type 0
  -- The counter under a key, 0 where there is none.
  pub count : String → State → ℕ
  -- The milliseconds that a key has to live; none without an expiry.
  pub remaining : String → State → Option ℕ
  pub incr : String → State → ℕ × State
  pub expire : String → ℕ → State → State
  pub ttl : String → State → ℤ
  -- Milliseconds pass.
  pub elapse : ℕ → State → State
  pub incr_reply : (k : String) (s : State) → (incr k s).0 ≡ count k s + 1
  pub count-incr :
      (k j : String) (s : State)
      → count j (incr k s).1 ≡ (if k == j then count k s + 1 else count j s)
  pub remaining-incr : (k j : String) (s : State) → remaining j (incr k s).1 ≡ remaining j s
  pub count-expire : (k j : String) (n : ℕ) (s : State) → count j (expire k n s) ≡ count j s
  -- EXPIRE takes seconds, and acts on a key that exists, as it does after INCR.
  pub remaining-expire :
      (k j : String) (n : ℕ) (s : State)
      → count k s ≢ 0
      → remaining j (expire k n s) ≡ (if k == j then some (1000 * n) else remaining j s)
  -- TTL answers with the nearest second.
  pub ttl_some :
      (k : String) (n : ℕ) (s : State) → remaining k s ≡ some n → ttl k s ≡ pos ((n + 500) / 1000)
  pub ttl_none : (k : String) (s : State) → remaining k s ≡ none → (n : ℕ) × (ttl k s ≡ negsuc n)
  -- A key whose time is over is gone.
  pub elapse_over :
      (k : String) (n m : ℕ) (s : State) → remaining k s ≡ some m → m ≤ n → count k (elapse n s) ≡ 0
