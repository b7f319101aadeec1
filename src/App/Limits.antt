-- ===== src/App/Limits.antt =====
-- `RateLimiter` of backend/app/limits.py: a fixed window for each client. The lock makes `check`
-- one step. A reading of the clock is a whole number of milliseconds.
pub mod Client
pub mod Steps
pub mod Quota
use p_r_i_s_m.Prelude.{
  ℕ, suc, ◌+◌, ◌-◌, ◌*◌, ◌/◌, max, Option, none, some, String, Bool, Eq-String, ltb, leb, length,
  if◌then◌else◌,
}
use p_r_i_s_m.Dict.{Dict, lookup, assign, keys_where, remove_all}
use p_r_i_s_m.TtlCache.{second}

pub record Window : Type 0 where
  pub start : ℕ
  pub count : ℕ

pub record RateLimiter : Type 0 where
  pub limit : ℕ
  pub window : ℕ
  pub buckets : Dict String Window

-- `now - w.start >= self.window`
unfoldable pub is_over : RateLimiter → ℕ → Window → Bool
is_over l now w = leb (w.start + l.window * second) now

-- `_sweep`
pub sweep : ℕ → RateLimiter → RateLimiter
unfolding keys_where remove_all is_over
sweep now l =
    if ltb (length l.buckets) 1024
    then l
    else record l { buckets = remove_all (keys_where (is_over l now) l.buckets) l.buckets }

-- `max(1, int(w.start + self.window - now))`, in seconds
unfoldable pub retry_after : RateLimiter → ℕ → Window → ℕ
retry_after l now w = max 1 ((w.start + l.window * second - now) / second)

open_window : String → ℕ → RateLimiter → RateLimiter × Option ℕ
open_window key now l =
    (record l { buckets = assign key (record { start = now; count = 1 }) l.buckets }, none)

-- the rest of `check`, once the table has been swept
pub count_hit : String → ℕ → RateLimiter → RateLimiter × Option ℕ
unfolding is_over retry_after open_window
count_hit key now l = elim (lookup key l.buckets) [
  | none ↦ open_window key now l
  | some w ↦
      if is_over l now w
      then open_window key now l
      else if leb l.limit w.count
      then (l, some (retry_after l now w))
      else (record l { buckets = assign key (record w { count = w.count + 1 }) l.buckets }, none)
]

-- `check`: `none` is "allowed", and a number is the seconds to wait
unfoldable pub check : String → ℕ → RateLimiter → RateLimiter × Option ℕ
unfolding sweep count_hit
check key now l = if ltb 0 l.limit then count_hit key now (sweep now l) else (l, none)
