-- ===== src/RateLimit/Quota.antt =====
-- What the limiter admits.
use Prim.Native.Nat.{max, min}
use text.Mathlib.TextEquality.{eq_iff}
use text.Mathlib.TextPositions.{eq_refl}
use mathlib.Core.Option.{some-injective}
use ticketflow.Base.{
  ◌*◌, ◌/◌, sym, ap, false, ℕ, ◌+◌, ◌-◌, ◌≤◌, ◌≡◌, ◌≢◌, refl, ◌∙◌, inl, inr, Bool, true, none, some,
  List, [], ◌∷◌, String, ◌==◌, nat_eq, string_eq, ltb, if◌then◌else◌, arith, Bool-cases,
  Option-cases,
}
use ticketflow.Base.Int.{pos}
use ticketflow.RateLimit.Commands.{Redis}
use ticketflow.RateLimit.{
  decide, works, down, lost, with_ttl, fixed_window_script, consume_rate_limit,
}

quota_step :
    (c r limit : ℕ)
    → (if ltb c limit then 1 else 0) + min r (limit - (c + 1)) ≡ min (1 + r) (limit - c)
quota_step c r limit = ground arith

told_seconds :
    (b : Bool) (n seconds : ℕ) → (if b then none else some n) ≡ some seconds → n ≡ seconds
told_seconds true n seconds h = cc
told_seconds false n seconds h = some-injective _ _ h

abbrev pub requests : String → List String → ℕ
requests j [] = 0
requests j (key ∷ keys) = (if key == j then 1 else 0) + requests j keys

abbrev pub admitted : String → List (String × Bool) → ℕ
admitted j [] = 0
admitted j ((key, allowed) ∷ rest) =
    (if key == j then (if allowed then 1 else 0) else 0) + admitted j rest

module _ (R : Redis) where
  open R use {State, count, remaining, incr, expire, ttl, elapse}

  module _ (key : String) (window : ℕ) (s : State) where
    abbrev bumped : State
    bumped = (incr key s).1

    abbrev opened_window : State
    opened_window = if (incr key s).0 == 1 then expire key window bumped else bumped

    count_opened :
        (j : String) → count j opened_window ≡ (if key == j then count key s + 1 else count j s)
    count_opened j = elim (Bool-cases ((incr key s).0 == 1)) [
      | inl e ↦ rw (e, R.count-expire key j window bumped, R.count-incr key j s)
      | inr e ↦ rw (e, R.count-incr key j s)
    ]

    count_opened_self : count key opened_window ≡ count key s + 1
    count_opened_self = count_opened key ∙ rw eq_refl

    opened_ne_zero : count key opened_window ≢ 0
    opened_ne_zero h = absurd (omega (arith, count_opened_self, h))

    -- Where the key has an expiry already, the script is done; else it sets one.
    script_timed :
        (n : ℕ)
        → remaining key opened_window ≡ some n
        → fixed_window_script R key window s
          ≡ ((incr key s).0, pos ((n + 500) / 1000), opened_window)
    unfolding fixed_window_script with_ttl
    script_timed n h = rw (R.ttl_some key n opened_window h, with_ttl)

    script_untimed :
        remaining key opened_window ≡ none
        → fixed_window_script R key window s
          ≡ ((incr key s).0, pos window, expire key window opened_window)
    unfolding fixed_window_script with_ttl
    script_untimed h = let (n, e) = R.ttl_none key opened_window h in rw (e, with_ttl)

    rounded : (n : ℕ) → (1000 * n + 500) / 1000 ≡ n
    rounded n = omega arith

    -- The counter is bumped, no other counter changes, and afterwards the key has an expiry in milliseconds,
    -- of which the reply reports the nearest second.
    pub script_lem :
        (n : ℕ) × let (reply, left, s') = fixed_window_script R key window s in
          (reply ≡ count key s + 1)
          × (left ≡ pos ((n + 500) / 1000))
          × (remaining key s' ≡ some n)
          × ((j : String) → count j s' ≡ (if key == j then count key s + 1 else count j s))
    script_lem = elim (Option-cases (remaining key opened_window)) [
      | inl h ↦ (
        1000 * window,
        rw (script_untimed h) (
          R.incr_reply key s,
          ap pos (sym (rounded window)),
          R.remaining-expire key key window opened_window opened_ne_zero ∙ rw eq_refl,
          λ j. R.count-expire key j window opened_window ∙ count_opened j,
        ),
      )
      | inr (n, h) ↦ (n, rw (script_timed n h) (R.incr_reply key s, refl, h, count_opened))
    ]

  module _ (key : String) (limit window : ℕ) (s : State) where
    -- One request through a working link is admitted exactly when the counter was below the limit.
    -- It bumps the counter of its key and of no other, and afterwards the key has an expiry, also if
    -- it had none before; a refusal says to retry after that time, to the nearest second and at least one.
    pub consume_rate_limit_exact :
        (n : ℕ) × let (decision, s') = consume_rate_limit R works key limit window s in
          (decision.allowed ≡ ltb (count key s) limit)
          × (decision.retry_after_seconds
              ≡ (if ltb (count key s) limit then none else some (max ((n + 500) / 1000) 1)))
          × (remaining key s' ≡ some n)
          × ((j : String) → count j s' ≡ (if key == j then count key s + 1 else count j s))
    unfolding consume_rate_limit decide
    consume_rate_limit_exact =
        let (n, (reply, left, timed, counts)) = script_lem key window s in
        (n, (rw (reply, left) (ground arith), rw (reply, left) (ground arith), timed, counts))

    -- Without a usable answer the request is admitted.
    pub consume_rate_limit_fails_open :
        ((consume_rate_limit R down key limit window s).0.allowed ≡ true)
        × ((consume_rate_limit R down key limit window s).1 ≡ s)
        × ((consume_rate_limit R lost key limit window s).0.allowed ≡ true)
    unfolding consume_rate_limit decide
    consume_rate_limit_fails_open = (refl, refl, refl)

  -- With a positive limit, a refused client is admitted if it comes back half a second after the seconds
  -- that it was told, or later: TTL rounds to the nearest second.
  pub retry_after_suffices :
      (key : String) (limit window seconds wait : ℕ) (s : State)
      → 1 ≤ limit
      → (consume_rate_limit R works key limit window s).0.retry_after_seconds ≡ some seconds
      → 1000 * seconds + 500 ≤ wait
      → let s' = elapse wait (consume_rate_limit R works key limit window s).1 in
        (consume_rate_limit R works key limit window s').0.allowed ≡ true
  retry_after_suffices key limit window seconds wait s h told late =
      let (n, (allowed, retry, timed, counts)) = consume_rate_limit_exact key limit window s in
      let said =
        told_seconds (ltb (count key s) limit) (max ((n + 500) / 1000) 1) seconds
          (sym retry ∙ told) in
      let s' = elapse wait (consume_rate_limit R works key limit window s).1 in
      let gone : count key s' ≡ 0 =
        R.elapse_over key wait n (consume_rate_limit R works key limit window s).1 timed
          (omega (arith, said, late)) in
      let (n', (allowed', r', t', c')) = consume_rate_limit_exact key limit window s' in
      allowed' ∙ rw gone (ground arith)

  module _ (limit window : ℕ) where
    -- Requests for several keys, one after the other, within one window and with Redis at work.
    abbrev pub run : List String → State → List (String × Bool) × State
    run [] s = ([], s)
    run (key ∷ keys) s =
        let (decision, s') = consume_rate_limit R works key limit window s in
        let (rest, s'') = run keys s' in ((key, decision.allowed) ∷ rest, s'')

    -- Of the requests for one key exactly as many are admitted as there are, or as the quota has left
    -- if that is less, whatever requests for other keys come between.
    pub run_quota :
        (j : String) (keys : List String) (s : State)
        → admitted j (run keys s).0 ≡ min (requests j keys) (limit - count j s)
    run_quota j [] s = omega arith
    run_quota j (key ∷ keys) s =
        let (n, (allowed, retry, timed, counts)) = consume_rate_limit_exact key limit window s in
        let ih = run_quota j keys (consume_rate_limit R works key limit window s).1 in
        elim (Bool-cases (key == j)) [
          | inl e ↦
              let same : key ≡ j = (eq_iff key j).0 e in
              rw (e, allowed, ih, counts j, e, same)
                (quota_step (count j s) (requests j keys) limit)
          | inr e ↦ rw (e, ih, counts j, e) (omega arith)
        ]
