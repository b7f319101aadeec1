-- ===== src/Matcher/Paraphrase/Closest.antt =====
-- `argmax` finds a sentence than which none is closer.
use p_r_i_s_m.Prelude.{
  ℕ, suc, ◌+◌, ◌<◌, ◌≡◌, refl, sym, ap, ◌∙◌, subst, inl, inr, List, [], ◌∷◌, some, false, length,
  get_elem?, arith, Bool-cases, lt_suc_cases,
}
use p_r_i_s_m.Matcher.Paraphrase.{Similarities, SourceSentence, argmax}

module _ (sim : Similarities) where
  -- The sentence at position `j`, which no sentence of those before `n` is closer than.
  pub record IsClosest (row : ℕ → sim.Score) (all : List SourceSentence) (n j : ℕ)
      (s : SourceSentence) : Type 0 where
    pub there : get_elem? all j ≡ some s
    pub closest : (k : ℕ) → k < n → sim.less (row j) (row k) ≡ false

  -- The sentences from position `i` on, behind those that were seen.
  abbrev Behind : List SourceSentence → ℕ → List SourceSentence → Type 0
  Behind all i rest = (k : ℕ) → get_elem? rest k ≡ get_elem? all (i + k)

  argmax-IsClosest :
      (row : ℕ → sim.Score) (all : List SourceSentence) (j : ℕ) (best : SourceSentence) (i : ℕ)
      (rest : List SourceSentence)
      → Behind all i rest
      → IsClosest row all i j best
      → let (j', s) = argmax sim row j best i rest in IsClosest row all (i + length rest) j' s
  unfolding argmax
  argmax-IsClosest row all j best i [] b h =
      subst (λ (n : ℕ). IsClosest row all n j best) (omega arith) h
  argmax-IsClosest row all j best i (s ∷ rest) b h =
      let next : Behind all (suc i) rest = (λ k. b (suc k) ∙ ap (get_elem? all) (omega arith)) in
      let size : suc i + length rest ≡ i + suc (length rest) = omega arith in
      elim (Bool-cases (sim.less (row j) (row i))) [
        | inl closer ↦
            let at_i : get_elem? all i ≡ some s = ap (get_elem? all) (omega arith) ∙ sym (b 0) in
            rw (closer, argmax)
              (subst
                (λ (n : ℕ).
                  IsClosest row all n (argmax sim row i s (suc i) rest).0
                    (argmax sim row i s (suc i) rest).1)
                size
                (argmax-IsClosest row all i s (suc i) rest next (record {
                  there = at_i;
                  closest = λ k hk. elim (lt_suc_cases k i hk) [
                    | inl old ↦ sim.less_above (row j) (row i) (row k) closer (h.closest k old)
                    | inr here ↦
                        subst (λ (x : ℕ). sim.less (row i) (row x) ≡ false) (sym here)
                          (sim.less_irrefl (row i))
                  ];
                })))
        | inr farther ↦
            rw (farther, argmax)
              (subst
                (λ (n : ℕ).
                  IsClosest row all n (argmax sim row j best (suc i) rest).0
                    (argmax sim row j best (suc i) rest).1)
                size
                (argmax-IsClosest row all j best (suc i) rest next (record {
                  there = h.there;
                  closest = λ k hk. elim (lt_suc_cases k i hk) [
                    | inl old ↦ h.closest k old
                    | inr here ↦
                        subst (λ (x : ℕ). sim.less (row j) (row x) ≡ false) (sym here) farther
                  ];
                })))
      ]

  pub IsClosest-of_all :
      (row : ℕ → sim.Score) (first : SourceSentence) (rest : List SourceSentence)
      → let (j, s) = argmax sim row 0 first 1 rest in
        IsClosest row (first ∷ rest) (1 + length rest) j s
  IsClosest-of_all row first rest =
      let behind : Behind (first ∷ rest) 1 rest =
        (λ k. let e : suc k ≡ 1 + k = omega arith in ap (get_elem? (first ∷ rest)) e) in
      argmax-IsClosest row (first ∷ rest) 0 first 1 rest behind (record {
        there = refl;
        closest = λ k hk.
            let at_start : 0 ≡ k = omega arith in
            subst (λ (x : ℕ). sim.less (row 0) (row x) ≡ false) at_start (sim.less_irrefl (row 0));
      })
