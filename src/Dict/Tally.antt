-- ===== src/Dict/Tally.antt =====
-- A dict of counts: `counts[k] = counts.get(k, 0) + 1`, and sums over the keys that pass a test.
use p_r_i_s_m.Prelude.{
  ℕ, suc, ◌+◌, List, [], ◌∷◌, Bool, ◌≡◌, ◌==◌, Eq, inl, inr, Bool-cases, if◌then◌else◌, arith, ap,
}
use p_r_i_s_m.Dict.{Dict, assign}

module _ {K : Type 0} ⦃e : Eq K⦄ where
  -- `counts.get(k, 0)`
  unfoldable pub get_count : K → Dict K ℕ → ℕ
  get_count k [] = 0
  get_count k ((j, n) ∷ d) = if j == k then n else get_count k d

  unfoldable pub tally : K → Dict K ℕ → Dict K ℕ
  unfolding assign get_count
  tally k d = assign k (get_count k d + 1) d

  unfoldable pub sum_where : (K → Bool) → List (K × ℕ) → ℕ
  sum_where p [] = 0
  sum_where p ((k, n) ∷ d) = if p k then n + sum_where p d else sum_where p d

  get_count-assign :
      (k j : K) (n : ℕ) (d : Dict K ℕ)
      → get_count j (assign k n d) ≡ (if k == j then n else get_count j d)
  unfolding get_count assign
  get_count-assign k j n [] = ground arith
  get_count-assign k j n ((i, m) ∷ d) =
      ground (arith, e.beq_iff k j, e.beq_iff i k, e.beq_iff i j, get_count-assign k j n d)

  pub get_count-tally :
      (k j : K) (d : Dict K ℕ)
      → get_count j (tally k d) ≡ (if k == j then suc (get_count j d) else get_count j d)
  unfolding tally
  get_count-tally k j d = ground (arith, get_count-assign k j (get_count k d + 1) d, e.beq_iff k j)

  sum_where-assign :
      (p : K → Bool) (k : K) (n : ℕ) (d : Dict K ℕ)
      → sum_where p (assign k n d) + (if p k then get_count k d else 0)
        ≡ sum_where p d + (if p k then n else 0)
  unfolding sum_where assign get_count
  sum_where-assign p k n [] = ground arith
  sum_where-assign p k n ((j, m) ∷ d) = elim (Bool-cases (j == k)) [
    | inl t ↦ let same : p j ≡ p k = ap p ((e.beq_iff j k).0 t) in ground arith
    | inr f ↦ ground (arith, sum_where-assign p k n d)
  ]

  pub sum_where-tally :
      (p : K → Bool) (k : K) (d : Dict K ℕ)
      → sum_where p (tally k d) ≡ (if p k then suc (sum_where p d) else sum_where p d)
  unfolding tally
  sum_where-tally p k d = ground (arith, sum_where-assign p k (get_count k d + 1) d)
