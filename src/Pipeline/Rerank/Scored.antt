-- ===== src/Pipeline/Rerank/Scored.antt =====
-- What the reranking may change, and what it leaves alone.
use p_r_i_s_m.Prelude.{
  ℕ, suc, zero, ◌+◌, ◌≤◌, List, [], ◌∷◌, map, Bool, true, false, ◌⊎◌, inl, inr, ◌≡◌, refl, ap,
  Option, none, some, length, length-take-le, take, get_elem?, All, Memᴰ, Bool-cases, Option-cases,
  arith, subst, sym, nat_eq, not, ◌||◌,
}
use p_r_i_s_m.Text.{Unicode}
use p_r_i_s_m.Matcher.Types.{Match}
use p_r_i_s_m.Matcher.Tokens.{Token}
use p_r_i_s_m.Matcher.Coverage.{Rounding}
use p_r_i_s_m.Triage.Summary.{insert, sort, comes_before}
use p_r_i_s_m.Pipeline.Rerank.{
  Scores, RerankStage, Context, is_candidate, find_candidates, candidates, similarity_key,
  cutoff_of, score_match, modify, score_all, finish, run,
}
use p_r_i_s_m.Pipeline.Rerank.Idle.{candidates-none}
use p_r_i_s_m.Pipeline.Rerank.Written.{Stands, score_all-StandsScored}
use p_r_i_s_m.Pipeline.Rerank.Described.{
  IsBorderline, IsBorderlineAt, IsRescored, AllRescored, Rescores, Unscored,
  is_candidate-IsBorderline, cutoff_of-IsCutoff, score_match-IsScored,
}

module _ (stage : RerankStage) (u : Unicode) where
  -- An entry of the candidates: its match stands at its position, and passes the test.
  pub IsEntry : List Match → ℕ × Match → Type 0
  IsEntry ms e = (get_elem? ms e.0 ≡ some e.1) × (is_candidate stage u e.1 ≡ true)

module _ (sc : Scores) (stage : RerankStage) (u : Unicode) (cutoff : ℕ) (raw : List sc.Raw) where
  AllRescored-self : (ms : List Match) → AllRescored sc stage u cutoff raw ms ms
  unfolding AllRescored
  AllRescored-self [] = tt
  AllRescored-self (m ∷ ms) = (inl refl, AllRescored-self ms)

  score_match-IsRescored :
      (s : sc.Raw) (x : sc.Score) (m n : Match)
      → Memᴰ s raw
      → sc.to_float s ≡ some x
      → is_candidate stage u m ≡ true
      → IsRescored sc stage u cutoff raw m n
      → IsRescored sc stage u cutoff raw m (score_match sc cutoff x n)
  unfolding IsRescored
  score_match-IsRescored s x m n mem e c (inl same) = inr (
    s,
    x,
    mem,
    e,
    is_candidate-IsBorderline stage u m c,
    score_match-IsScored sc cutoff x m n (inl same),
  )
  score_match-IsRescored s x m n mem e c (inr (s', x', mem', e', b, scored)) =
      inr (s, x, mem, e, b, score_match-IsScored sc cutoff x m n (inr (x', scored)))

  modify-AllRescored :
      (s : sc.Raw) (x : sc.Score) (i : ℕ) (m : Match) (ms ns : List Match)
      → Memᴰ s raw
      → sc.to_float s ≡ some x
      → get_elem? ms i ≡ some m
      → is_candidate stage u m ≡ true
      → AllRescored sc stage u cutoff raw ms ns
      → AllRescored sc stage u cutoff raw ms (modify sc (score_match sc cutoff x) i ns)
  unfolding AllRescored modify
  modify-AllRescored s x i m [] [] mem e h c a = a
  modify-AllRescored s x i m [] (n ∷ ns) mem e h c a = absurd a
  modify-AllRescored s x i m (m' ∷ ms) [] mem e h c a = absurd a
  modify-AllRescored s x zero m (m' ∷ ms) (n ∷ ns) mem e h c a =
      let same : m' ≡ m = ground arith in
      let asked = subst (λ k. is_candidate stage u k ≡ true) (sym same) c in
      (score_match-IsRescored s x m' n mem e asked a.0, a.1)
  modify-AllRescored s x (suc i) m (m' ∷ ms) (n ∷ ns) mem e h c a =
      (a.0, modify-AllRescored s x i m ms ns mem e h c a.1)

  -- What the loop leaves, if every answer that it comes to is a number; otherwise one is none.
  unfoldable Loops : List Match → Option (List Match) → Type 0
  Loops ms none = (s : sc.Raw) × Memᴰ s raw × (sc.to_float s ≡ none)
  Loops ms (some ns) = AllRescored sc stage u cutoff raw ms ns

  score_all-Loops :
      (cand : List (ℕ × Match)) (left : List sc.Raw) (ms ns : List Match)
      → ((s : sc.Raw) → Memᴰ s left → Memᴰ s raw)
      → All (IsEntry stage u ms) cand
      → AllRescored sc stage u cutoff raw ms ns
      → Loops ms (score_all sc cutoff cand left ns)
  unfolding score_all IsEntry Loops
  score_all-Loops [] left ms ns within h a = a
  score_all-Loops ((i, m) ∷ cand) [] ms ns within h a = a
  score_all-Loops ((i, m) ∷ cand) (s ∷ left) ms ns within h a =
      elim (Option-cases (sc.to_float s)) [
        | inl e ↦ rw (e, score_all) (s, within s (Memᴰ.head refl), e)
        | inr (x, e) ↦
            rw (e, score_all)
              (score_all-Loops cand left ms _ (λ t mem. within t (Memᴰ.tail mem)) h.1
                (modify-AllRescored s x i m ms ns (within s (Memᴰ.head refl)) e h.0.0 h.0.1 a))
      ]

module _ {A : Type 0} (P : A → Type 0) where
  All-take : (n : ℕ) (xs : List A) → All P xs → All P (take n xs)
  All-take zero xs h = tt
  All-take (suc n) [] h = tt
  All-take (suc n) (x ∷ xs) h = (h.0, All-take n xs h.1)

  All-insert : (key : A → ℕ × ℕ) (x : A) (xs : List A) → P x → All P xs → All P (insert key x xs)
  unfolding insert
  All-insert key x [] p h = (p, tt)
  All-insert key x (y ∷ ys) p h = elim (Bool-cases (comes_before (key y) (key x))) [
    | inl t ↦ rw t (h.0, All-insert key x ys p h.1)
    | inr t ↦ rw t (p, h)
  ]

  All-sort : (key : A → ℕ × ℕ) (xs : List A) → All P xs → All P (sort key xs)
  unfolding sort
  All-sort key [] h = tt
  All-sort key (x ∷ xs) h = All-insert key x (sort key xs) h.0 (All-sort key xs h.1)

module _ (stage : RerankStage) (u : Unicode) where
  find_candidates-All :
      (i : ℕ) (ms rest : List Match)
      → ((j : ℕ) → get_elem? ms (i + j) ≡ get_elem? rest j)
      → All (IsEntry stage u ms) (find_candidates stage u i rest)
  unfolding find_candidates IsEntry
  find_candidates-All i ms [] h = tt
  find_candidates-All i ms (m ∷ rest) h =
      let later =
        find_candidates-All (suc i) ms rest
          (λ j. subst (λ n. get_elem? ms n ≡ get_elem? rest j) (omega arith) (h (suc j))) in
      elim (Bool-cases (is_candidate stage u m)) [
        | inl t ↦ rw t ((subst (λ n. get_elem? ms n ≡ some m) (omega arith) (h 0), t), later)
        | inr t ↦ rw t later
      ]

  candidates-All : (ms : List Match) → All (IsEntry stage u ms) (candidates stage u ms)
  unfolding candidates
  candidates-All ms =
      All-take (IsEntry stage u ms) stage.max_pairs
        (sort similarity_key (find_candidates stage u 0 ms))
        (All-sort (IsEntry stage u ms) similarity_key (find_candidates stage u 0 ms)
          (find_candidates-All 0 ms ms (λ j. ap (get_elem? ms) (omega arith))))

  candidates-few : (ms : List Match) → length (candidates stage u ms) ≤ stage.max_pairs
  unfolding candidates
  candidates-few ms = length-take-le stage.max_pairs _

off_or_empty : (on : Bool) (n : ℕ) → (not on || nat_eq n 0) ≡ true → (on ≡ false) ⊎ (n ≡ 0)
off_or_empty false n h = inl refl
off_or_empty true n h = inr (ground arith)

nothing_to_ask :
    (stage : RerankStage) (u : Unicode) (ms : List Match)
    → (stage.enabled ≡ false) ⊎ (length (candidates stage u ms) ≡ 0)
    → (stage.enabled ≡ false) ⊎ ((stage.max_pairs ≡ 0) ⊎ All (λ m. ¬ IsBorderline stage u m) ms)
nothing_to_ask stage u ms (inl off) = inl off
nothing_to_ask stage u ms (inr empty) = inr (candidates-none stage u ms empty)

module _ (stage : RerankStage) (u : Unicode) where
  borderline_pairs :
      (ms : List Match) (cand : List (ℕ × Match))
      → All (IsEntry stage u ms) cand
      → All (IsBorderlineAt stage u ms) cand
  unfolding IsEntry IsBorderlineAt
  borderline_pairs ms [] h = tt
  borderline_pairs ms (e ∷ cand) h =
      ((h.0.0, is_candidate-IsBorderline stage u e.1 h.0.1), borderline_pairs ms cand h.1)

  entries_stand :
      (ms : List Match) (cand : List (ℕ × Match))
      → All (IsEntry stage u ms) cand
      → All (Stands ms) cand
  unfolding IsEntry Stands
  entries_stand ms [] h = tt
  entries_stand ms (e ∷ cand) h = ((e.1, h.0.0), entries_stand ms cand h.1)

-- How the stage ends: it leaves the context as it is, where it is switched off or nothing is to be
-- asked; it gives up, where the model fails; it rescores; or an answer is no number.
pub data IsReranked (sc : Scores) (stage : RerankStage) (u : Unicode)
    (predict : List Match → Option (List sc.Raw)) (ctx : Context) : Option Context → Type 0 where
  idle :
      (stage.enabled ≡ false)
        ⊎ ((stage.max_pairs ≡ 0) ⊎ All (λ m. ¬ IsBorderline stage u m) ctx.matches)
      → IsReranked sc stage u predict ctx (some ctx)
  gives_up :
      (pairs : List Match)
      → predict pairs ≡ none
      → IsReranked sc stage u predict ctx (some (record ctx { warned = true }))
  rescores :
      {after : Context}
      → Rescores sc stage u predict ctx after
      → IsReranked sc stage u predict ctx (some after)
  fails : Unscored sc predict → IsReranked sc stage u predict ctx none

cause_of :
    {sc : Scores} {stage : RerankStage} {u : Unicode} {predict : List Match → Option (List sc.Raw)}
    {ctx : Context} (after : Option Context)
    → IsReranked sc stage u predict ctx after
    → after ≡ none
    → Unscored sc predict
cause_of _ (idle why) h = cc
cause_of _ (gives_up pairs p) h = cc
cause_of _ (rescores what) h = cc
cause_of _ (fails why) h = why

module _ (sc : Scores) (stage : RerankStage) (u : Unicode) (r : Rounding) (doc_tokens : List Token)
    (predict : List Match → Option (List sc.Raw)) (ctx : Context) where
  finish-IsReranked :
      (raw : List sc.Raw) (after : Option (List Match))
      → stage.enabled ≡ true
      → predict (map (λ (e : ℕ × Match). e.1) (candidates stage u ctx.matches)) ≡ some raw
      → Loops sc stage u (cutoff_of stage ctx) raw ctx.matches after
      → score_all sc (cutoff_of stage ctx) (candidates stage u ctx.matches) raw ctx.matches ≡ after
      → IsReranked sc stage u predict ctx
          (finish sc r doc_tokens (candidates stage u ctx.matches) ctx after)
  unfolding finish Loops
  finish-IsReranked raw none on p (s, mem, e) left =
      fails (record { pairs = _; raw = raw; answered = p; s = s; among = mem; no_number = e })
  finish-IsReranked raw (some ns) on p all left =
      let cand = candidates stage u ctx.matches in
      let entries = candidates-All stage u ctx.matches in
      rescores (record {
        is_enabled = on;
        entries = cand;
        few = candidates-few stage u ctx.matches;
        borderline = borderline_pairs stage u ctx.matches cand entries;
        raw = raw;
        answered = p;
        cutoff = cutoff_of stage ctx;
        is_cutoff = cutoff_of-IsCutoff stage ctx;
        rescored = all;
        all_scored =
            score_all-StandsScored sc (cutoff_of stage ctx) cand raw ctx.matches ns
              (entries_stand stage u ctx.matches cand entries) left;
        counted = refl;
      })

  -- The stage changes nothing where it is switched off, the setting allows no pair or no match is
  -- borderline, and only warns where the model fails. Otherwise it has asked the model about no more matches than the setting allows, each
  -- of them borderline: a paraphrase or a translation in the range of similarities, with text in both excerpts.
  -- Then each match is as it was, or it is such a match and has the clipped and rounded score of an
  -- answer, and is confident exactly where the score reaches the cutoff, in review otherwise;
  -- nothing else of it is changed, and no match is added, dropped or moved; each match that the
  -- model has answered for has a score, and the number of those asked about is noted. The cutoff is the
  -- matcher's, or the stage's own where the matcher has left none, or 0. It fails only if an answer
  -- of the model is no number.
  pub run-IsReranked : IsReranked sc stage u predict ctx (run sc stage u r doc_tokens predict ctx)
  unfolding run
  run-IsReranked =
      let cand = candidates stage u ctx.matches in
      elim (Bool-cases (not stage.enabled || nat_eq (length cand) 0)) [
        | inl t ↦
            rw t (
              idle
                (nothing_to_ask stage u ctx.matches (off_or_empty stage.enabled (length cand) t)))
        | inr t ↦
            let on : stage.enabled ≡ true = ground arith in
            elim (Option-cases (predict (map (λ (e : ℕ × Match). e.1) cand))) [
              | inl p ↦ rw t (rw (p, run) (gives_up _ p))
              | inr (raw, p) ↦ rw t (
                  rw (p, run)
                    (finish-IsReranked raw _ on p
                      (score_all-Loops sc stage u (cutoff_of stage ctx) raw cand raw ctx.matches
                        ctx.matches (λ s mem. mem) (candidates-All stage u ctx.matches)
                        (AllRescored-self sc stage u (cutoff_of stage ctx) raw ctx.matches))
                      refl))
            ]
      ]

  pub run-eq-none : run sc stage u r doc_tokens predict ctx ≡ none → Unscored sc predict
  run-eq-none h = cause_of (run sc stage u r doc_tokens predict ctx) run-IsReranked h
