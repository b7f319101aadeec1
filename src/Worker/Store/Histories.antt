-- ===== src/Worker/Store/Histories.antt =====
-- Any sequence of calls on the job store.
use p_r_i_s_m.Prelude.{ℕ, List, [], ◌∷◌, Option, String, Eq-String, arith}
use p_r_i_s_m.Worker.Store.{JobStore, Fields, create, get, update, sweep}
use p_r_i_s_m.Worker.Store.Lifecycle.{
  IsValid, create-IsValid, get-IsValid, update-IsValid, sweep-Distinct, sweep_exact,
}

-- A call, with the reading of the clock and the arguments.
pub data Call (R : Type 0) : Type 0 where
  creating : ℕ → String → Option String → Call R
  getting : ℕ → String → Call R
  updating : ℕ → String → Fields R → Call R
  sweeping : ℕ → Call R

module _ {R : Type 0} where
  unfoldable pub apply : Call R → JobStore R → JobStore R
  apply (creating now id owner) s = (create now id owner s).0
  apply (getting now id) s = (get now id s).0
  apply (updating now id f) s = update now id f s
  apply (sweeping now) s = (sweep now s).0

  unfoldable pub apply_all : List (Call R) → JobStore R → JobStore R
  unfolding apply
  apply_all [] s = s
  apply_all (c ∷ calls) s = apply_all calls (apply c s)

  sweep-IsValid : (now : ℕ) (s : JobStore R) → IsValid s → IsValid (sweep now s).0
  unfolding sweep
  sweep-IsValid now s v = record {
    distinct = sweep-Distinct now s v.distinct;
    bounded = omega (arith, v.bounded, (sweep_exact now s v.distinct).1);
  }

  apply-IsValid : (c : Call R) (s : JobStore R) → IsValid s → IsValid (apply c s)
  unfolding apply
  apply-IsValid (creating now id owner) s v = create-IsValid now id owner s v
  apply-IsValid (getting now id) s v = get-IsValid now id s v
  apply-IsValid (updating now id f) s v = update-IsValid now id f s v
  apply-IsValid (sweeping now) s v = sweep-IsValid now s v

  -- Whatever is called in whatever order, and whatever the clock shows, a store with distinct ids
  -- and no more jobs than its limit stays one.
  pub apply_all-IsValid :
      (calls : List (Call R)) (s : JobStore R) → IsValid s → IsValid (apply_all calls s)
  unfolding apply_all
  apply_all-IsValid [] s v = v
  apply_all-IsValid (c ∷ calls) s v = apply_all-IsValid calls (apply c s) (apply-IsValid c s v)
