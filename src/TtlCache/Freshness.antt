-- ===== src/TtlCache/Freshness.antt =====
-- The cache is bounded, returns what was put, never returns what has expired, and evicts the
-- entry used longest ago.
use p_r_i_s_m.Prelude.{
  ℕ, suc, ◌+◌, ◌-◌, ◌*◌, ◌≤◌, ◌<◌, [], ◌∷◌, ◌++◌, none, some, ◌≡◌, refl, ap, ◌∙◌, inl, inr, arith,
  Eq, ltb, length, length-append, Bool-cases, Option-cases, if◌then◌else◌, eq_self,
}
use p_r_i_s_m.Dict.{Dict, lookup, remove, evict, lookup-append, lookup-move_to_end}
use p_r_i_s_m.Dict.Order.{
  Distinct, remove-Distinct, evict-Distinct, evict_absent, lookup-remove_self,
  remove-append-Distinct, move_to_end-Distinct, remove_absent, length-remove-le, length-evict-le,
  evict_first, evict-append, move_to_end-assign,
}
use p_r_i_s_m.TtlCache.{TtlCache, get, put, second}

module _ {K V : Type 0} ⦃e : Eq K⦄ where
  pub record IsValid (c : TtlCache K V) : Type 0 where
    pub distinct : Distinct c.entries
    pub bounded : length c.entries ≤ c.max_size

  entries-put :
      (now : ℕ) (k : K) (v : V) (c : TtlCache K V)
      → (put now k v c).entries ≡ evict c.max_size (remove k c.entries ++ (k, (now, v)) ∷ [])
  unfolding put
  entries-put now k v c = ap (evict c.max_size) (move_to_end-assign k (now, v) c.entries)

  pub put-IsValid :
      (now : ℕ) (k : K) (v : V) (c : TtlCache K V) → Distinct c.entries → IsValid (put now k v c)
  unfolding put
  put-IsValid now k v c h = record {
    distinct =
        rw (move_to_end-assign k (now, v) c.entries)
          (evict-Distinct c.max_size _ (remove-append-Distinct k (now, v) c.entries h));
    bounded = rw (move_to_end-assign k (now, v) c.entries) (length-evict-le c.max_size _);
  }

  pub get-IsValid : (now : ℕ) (k : K) (c : TtlCache K V) → IsValid c → IsValid (get now k c).0
  unfolding get
  get-IsValid now k c h = elim (Option-cases (lookup k c.entries)) [
    | inl missing ↦ rw (missing, get) h
    | inr ((ts, v), found) ↦ elim (Bool-cases (ltb (ts + c.ttl * second) now)) [
      | inl late ↦
          rw (found, get)
            (rw late (record {
              distinct = remove-Distinct k c.entries h.distinct;
              bounded = omega (arith, h.bounded, length-remove-le k c.entries);
            }))
      | inr fresh ↦
          let kept = move_to_end-Distinct k (ts, v) c.entries found h.distinct in
          rw (found, get)
            (rw fresh (record { distinct = kept.0; bounded = omega (arith, h.bounded, kept.1) }))
    ]
  ]

  lookup-put :
      (now : ℕ) (k : K) (v : V) (c : TtlCache K V)
      → 0 < c.max_size
      → lookup k (put now k v c).entries ≡ some (now, v)
  lookup-put now k v c room =
      let r = remove k c.entries in
      let n = c.max_size - 1 in
      let size : c.max_size ≡ suc n = omega arith in
      ap (lookup k) (
        entries-put now k v c
        ∙ ap (λ (m : ℕ). evict m (r ++ (k, (now, v)) ∷ [])) size
        ∙ evict-append n r (k, (now, v)))
      ∙ lookup-append k (evict n r) ((k, (now, v)) ∷ [])
      ∙ rw (evict_absent n k r (lookup-remove_self k c.entries))
          (unfold lookup in rw (eq_self k) refl)

  get_found :
      (now ts : ℕ) (k : K) (v : V) (c : TtlCache K V)
      → lookup k c.entries ≡ some (ts, v)
      → (get now k c).1 ≡ (if ltb (ts + c.ttl * second) now then none else some v)
  unfolding get
  get_found now ts k v c found = rw (found, get) (ground arith)

  -- The value that was put is returned until its time to live has passed, and not after that.
  pub get-put :
      (now now' : ℕ) (k : K) (v : V) (c : TtlCache K V)
      → 0 < c.max_size
      → (get now' k (put now k v c)).1 ≡ (if ltb (now + c.ttl * second) now' then none else some v)
  get-put now now' k v c room =
      get_found now' now k v (put now k v c) (lookup-put now k v c room) ∙ (unfold put in refl)

  -- A value is returned only while its entry is alive: it is the one stored under the key, and its
  -- time to live has not passed. The reading leaves what is stored under every other key.
  pub get_alive :
      (now : ℕ) (k : K) (c : TtlCache K V) (v : V)
      → (get now k c).1 ≡ some v
      → ((ts : ℕ) × (lookup k c.entries ≡ some (ts, v)) × (now ≤ ts + c.ttl * second))
        × ((j : K) → lookup j (get now k c).0.entries ≡ lookup j c.entries)
  unfolding get
  get_alive now k c v h = elim (Option-cases (lookup k c.entries)) [
    | inl missing ↦ absurd (ground arith)
    | inr ((ts, w), found) ↦ elim (Bool-cases (ltb (ts + c.ttl * second) now)) [
      | inl late ↦ absurd (ground arith)
      | inr fresh ↦ (
        (ts, ground arith, ground arith),
        λ j. rw (found, get) (rw fresh (lookup-move_to_end k j c.entries)),
      )
    ]
  ]

  -- A new key in a full cache takes the place of the entry used longest ago, which is the first.
  pub put_evicts_oldest :
      (now : ℕ) (k : K) (v : V) (c : TtlCache K V) (oldest : K × (ℕ × V)) (others : Dict K (ℕ × V))
      → c.entries ≡ oldest ∷ others
      → length c.entries ≡ c.max_size
      → lookup k c.entries ≡ none
      → (put now k v c).entries ≡ others ++ (k, (now, v)) ∷ []
  put_evicts_oldest now k v c oldest others is full absent =
      let kept = remove_absent k c.entries absent in
      entries-put now k v c
      ∙ ap (λ (d : Dict K (ℕ × V)). evict c.max_size (d ++ (k, (now, v)) ∷ [])) (kept ∙ is)
      ∙ evict_first c.max_size oldest (others ++ (k, (now, v)) ∷ []) (
          omega (
            arith,
            length-append others ((k, (now, v)) ∷ []),
            ap (λ (d : Dict K (ℕ × V)). length d) is,
          ))
