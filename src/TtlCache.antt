-- ===== src/TtlCache.antt =====
-- `TTLCache` of backend/utils/ttl_cache.py. Its lock makes each method one step. A reading of the
-- clock is a whole number of milliseconds, and is an argument of the method.
pub mod Freshness
pub mod Values
use p_r_i_s_m.Prelude.{ℕ, ◌+◌, ◌*◌, Option, none, some, [], Eq, ltb, length, if◌then◌else◌}
use p_r_i_s_m.Dict.{Dict, lookup, assign, remove, move_to_end, evict}

-- One second, in readings of the clock.
abbrev pub second : ℕ
second = 1000

pub record TtlCache (K V : Type 0) : Type 0 where
  pub max_size : ℕ
  pub ttl : ℕ
  pub entries : Dict K (ℕ × V)

unfoldable pub new : {K V : Type 0} → ℕ → ℕ → TtlCache K V
new max_size ttl_seconds = record { max_size = max_size; ttl = ttl_seconds; entries = [] }

module _ {K V : Type 0} ⦃e : Eq K⦄ where
  -- `get`, with the reading of the clock
  unfoldable pub get : ℕ → K → TtlCache K V → TtlCache K V × Option V
  get now key c = elim (lookup key c.entries) [
    | none ↦ (c, none)
    | some (ts, value) ↦
        if ltb (ts + c.ttl * second) now
        then (record c { entries = remove key c.entries }, none)
        else (record c { entries = move_to_end key c.entries }, some value)
  ]

  -- `put`, with the reading of the clock
  unfoldable pub put : ℕ → K → V → TtlCache K V → TtlCache K V
  put now key value c = record c {
    entries = evict c.max_size (move_to_end key (assign key (now, value) c.entries));
  }

  -- `__len__`
  pub size : TtlCache K V → ℕ
  size c = length c.entries
