-- ===== src/RateLimit/Table.antt =====
-- A model of the Redis commands of the limiter, which shows that what is assumed of them can be met.
use text.Mathlib.TextEquality.{eq_iff}
use ticketflow.Base.{
  ℕ, ◌*◌, ◌/◌, ◌+◌, ◌-◌, ◌≤◌, ◌≡◌, refl, ap, Option, none, some, String, leb, ◌==◌, nat_eq,
  string_eq, if◌then◌else◌, arith,
}
use ticketflow.Base.Int.{ℤ, pos, negsuc}
use ticketflow.RateLimit.Commands.{Redis}

-- The counter and the milliseconds to live under each key.
abbrev pub Table : Type 0
Table = String → ℕ × Option ℕ

abbrev table_incr : String → Table → ℕ × Table
table_incr k s = ((s k).0 + 1, λ j. if k == j then ((s k).0 + 1, (s k).1) else s j)

abbrev table_expire : String → ℕ → Table → Table
table_expire k n s = λ j. if k == j then ((s j).0, some (1000 * n)) else s j

abbrev seconds_left : Option ℕ → ℤ
seconds_left none = negsuc 0
seconds_left (some n) = pos ((n + 500) / 1000)

abbrev after : ℕ → ℕ × Option ℕ → ℕ × Option ℕ
after n (c, none) = (c, none)
after n (c, some m) = if leb m n then (0, none) else (c, some (m - n))

pub count-incr :
    (k j : String) (s : Table)
    → ((table_incr k s).1 j).0 ≡ (if k == j then (s k).0 + 1 else (s j).0)
count-incr k j s = ground arith

pub remaining-incr : (k j : String) (s : Table) → ((table_incr k s).1 j).1 ≡ (s j).1
remaining-incr k j s = ground (arith, eq_iff k j)

pub count-expire : (k j : String) (n : ℕ) (s : Table) → (table_expire k n s j).0 ≡ (s j).0
count-expire k j n s = ground arith

pub remaining-expire :
    (k j : String) (n : ℕ) (s : Table)
    → (table_expire k n s j).1 ≡ (if k == j then some (1000 * n) else (s j).1)
remaining-expire k j n s = ground arith

pub elapse_over : (n m : ℕ) (e : ℕ × Option ℕ) → e.1 ≡ some m → m ≤ n → (after n e).0 ≡ 0
elapse_over n m (c, none) h k = cc
elapse_over n m (c, some l) h k = ground arith

abbrev pub table : Redis
table = record {
  State = Table;
  count = λ k s. (s k).0;
  remaining = λ k s. (s k).1;
  incr = table_incr;
  expire = table_expire;
  ttl = λ k s. seconds_left (s k).1;
  elapse = λ n s k. after n (s k);
  incr_reply = λ k s. refl;
  count-incr = count-incr;
  remaining-incr = remaining-incr;
  count-expire = count-expire;
  remaining-expire = λ k j n s h. remaining-expire k j n s;
  ttl_some = λ k n s h. ap seconds_left h;
  ttl_none = λ k s h. (0, ap seconds_left h);
  elapse_over = λ k n m s h l. elapse_over n m (s k) h l;
}
