-- ===== src/TtlCache/Values.antt =====
-- What holds of every value in a cache, and of what is put, holds of what is read from it.
use p_r_i_s_m.Prelude.{ℕ, ◌+◌, ◌*◌, Option, none, some, inl, inr, Eq, ltb, Bool-cases, Option-cases}
use p_r_i_s_m.Dict.{lookup}
use p_r_i_s_m.Dict.Entries.{
  AllEntries, AllEntries-lookup, AllEntries-remove, AllEntries-assign, AllEntries-move_to_end,
  AllEntries-evict,
}
use p_r_i_s_m.TtlCache.{TtlCache, get, put, second}

module _ {K V : Type 0} ⦃e : Eq K⦄ (P : K → V → Type 0) where
  abbrev Stamped : K → ℕ × V → Type 0
  Stamped k entry = P k entry.1

  abbrev pub AllValues : TtlCache K V → Type 0
  AllValues c = AllEntries Stamped c.entries

  pub AllValues-put :
      (now : ℕ) (k : K) (v : V) (c : TtlCache K V) → P k v → AllValues c → AllValues (put now k v c)
  unfolding put
  AllValues-put now k v c p h =
      AllEntries-evict Stamped c.max_size _
        (AllEntries-move_to_end Stamped k _ (AllEntries-assign Stamped k (now, v) c.entries p h))

  -- What a reading leaves in the cache, and what it returns.
  abbrev pub Read : K → TtlCache K V × Option V → Type 0
  Read k (c, none) = AllValues c
  Read k (c, some v) = AllValues c × P k v

  pub AllValues-get : (now : ℕ) (k : K) (c : TtlCache K V) → AllValues c → Read k (get now k c)
  unfolding get
  AllValues-get now k c h = elim (Option-cases (lookup k c.entries)) [
    | inl missing ↦ rw (missing, get) h
    | inr ((ts, v), found) ↦ elim (Bool-cases (ltb (ts + c.ttl * second) now)) [
      | inl late ↦ rw (found, get) (rw late (AllEntries-remove Stamped k c.entries h))
      | inr fresh ↦
          rw (found, get)
            (rw fresh (
              AllEntries-move_to_end Stamped k c.entries h,
              AllEntries-lookup Stamped k c.entries h found,
            ))
    ]
  ]
