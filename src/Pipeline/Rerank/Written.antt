-- ===== src/Pipeline/Rerank/Written.antt =====
-- Which scores the loop of the reranking has written when it is over: one for each candidate that the
-- model has answered.
use p_r_i_s_m.Prelude.{
  ℕ, zero, suc, List, [], ◌∷◌, ◌≡◌, refl, some, inl, inr, length, take, get_elem?, All,
  Option-cases, arith, subst,
}
use mathlib.Core.Option.{some-injective}
use p_r_i_s_m.Matcher.Types.{Match}
use p_r_i_s_m.Pipeline.Rerank.{Scores, score_match, modify, score_all}
use p_r_i_s_m.Pipeline.Rerank.Described.{StandsScored}

-- There is a match at the place.
unfoldable pub Stands : List Match → ℕ × Match → Type 0
Stands ns e = (n : Match) × (get_elem? ns e.0 ≡ some n)

module _ (sc : Scores) (cutoff : ℕ) where
  Stands-modify :
      (x : sc.Score) (i j : ℕ) (m : Match) (ns : List Match)
      → Stands ns (j, m)
      → Stands (modify sc (score_match sc cutoff x) i ns) (j, m)
  unfolding Stands modify
  Stands-modify x i j m [] h = h
  Stands-modify x zero zero m (n ∷ ns) h = (_, refl)
  Stands-modify x zero (suc j) m (n ∷ ns) h = h
  Stands-modify x (suc i) zero m (n ∷ ns) h = h
  Stands-modify x (suc i) (suc j) m (n ∷ ns) h = Stands-modify x i j m ns h

  StandsScored-modify :
      (x : sc.Score) (i j : ℕ) (m : Match) (ns : List Match)
      → StandsScored ns (j, m)
      → StandsScored (modify sc (score_match sc cutoff x) i ns) (j, m)
  unfolding StandsScored modify score_match
  StandsScored-modify x i j m [] h = h
  StandsScored-modify x zero zero m (n ∷ ns) h = (_, _, refl, refl)
  StandsScored-modify x zero (suc j) m (n ∷ ns) h = h
  StandsScored-modify x (suc i) zero m (n ∷ ns) h = h
  StandsScored-modify x (suc i) (suc j) m (n ∷ ns) h = StandsScored-modify x i j m ns h

  StandsScored-modify_self :
      (x : sc.Score) (i : ℕ) (m : Match) (ns : List Match)
      → Stands ns (i, m)
      → StandsScored (modify sc (score_match sc cutoff x) i ns) (i, m)
  unfolding Stands StandsScored modify score_match
  StandsScored-modify_self x i m [] (n, h) = cc
  StandsScored-modify_self x zero m (n ∷ ns) h = (_, _, refl, refl)
  StandsScored-modify_self x (suc i) m (n ∷ ns) h = StandsScored-modify_self x i m ns h

  All-Stands-modify :
      (x : sc.Score) (i : ℕ) (cand : List (ℕ × Match)) (ns : List Match)
      → All (Stands ns) cand
      → All (Stands (modify sc (score_match sc cutoff x) i ns)) cand
  All-Stands-modify x i [] ns h = tt
  All-Stands-modify x i ((j, m) ∷ cand) ns h =
      (Stands-modify x i j m ns h.0, All-Stands-modify x i cand ns h.1)

  -- A score that is there stays.
  StandsScored-score_all :
      (cand : List (ℕ × Match)) (left : List sc.Raw) (ns after : List Match) (j : ℕ) (k : Match)
      → StandsScored ns (j, k)
      → score_all sc cutoff cand left ns ≡ some after
      → StandsScored after (j, k)
  unfolding score_all
  StandsScored-score_all [] left ns after j k h e =
      subst (λ l. StandsScored l (j, k)) (some-injective ns after e) h
  StandsScored-score_all ((i, m) ∷ cand) [] ns after j k h e =
      subst (λ l. StandsScored l (j, k)) (some-injective ns after e) h
  StandsScored-score_all ((i, m) ∷ cand) (s ∷ left) ns after j k h e =
      elim (Option-cases (sc.to_float s)) [
        | inl failed ↦ absurd (ground arith)
        | inr (x, number) ↦
            StandsScored-score_all cand left _ after j k (StandsScored-modify x i j k ns h)
              (rw (number, score_all) at e)
      ]

  pub score_all-StandsScored :
      (cand : List (ℕ × Match)) (left : List sc.Raw) (ns after : List Match)
      → All (Stands ns) cand
      → score_all sc cutoff cand left ns ≡ some after
      → All (StandsScored after) (take (length left) cand)
  unfolding score_all
  score_all-StandsScored [] [] ns after h e = tt
  score_all-StandsScored [] (s ∷ left) ns after h e = tt
  score_all-StandsScored ((i, m) ∷ cand) [] ns after h e = tt
  score_all-StandsScored ((i, m) ∷ cand) (s ∷ left) ns after h e =
      elim (Option-cases (sc.to_float s)) [
        | inl failed ↦ absurd (ground arith)
        | inr (x, number) ↦
            let later = rw (number, score_all) at e in
            (
              StandsScored-score_all cand left _ after i m (StandsScored-modify_self x i m ns h.0)
                  later,
              score_all-StandsScored cand left _ after (All-Stands-modify x i cand ns h.1) later,
            )
      ]
