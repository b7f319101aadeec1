-- ===== src/Pipeline/Rerank.antt =====
-- `RerankStage` of backend/pipeline/stages.py. The matches are dicts that the stage changes in
-- place, so a candidate is the position of its match.
pub mod Described
pub mod Idle
pub mod Written
pub mod Scored
use p_r_i_s_m.Prelude.{
  ℕ, suc, zero, ◌+◌, List, [], ◌∷◌, ◌++◌, map, Bool, true, false, not, ◌&&◌, ◌||◌, Option, none,
  some, leb, nat_eq, length, take, if◌then◌else◌,
}
use p_r_i_s_m.Text.{Text, Unicode}
use p_r_i_s_m.Matcher.Types.{Match, MatchType, verbatim, paraphrase, translated, confident, review}
use p_r_i_s_m.Matcher.Tokens.{Token}
use p_r_i_s_m.Matcher.Coverage.{Overall, Rounding, confidence_breakdown}
use p_r_i_s_m.Triage.Summary.{sort}

-- What the cross-encoder answers for a pair, and Python floats: `float(s)`, which may raise,
-- `max(0.0, min(1.0, x))`, its value rounded to four decimals, and its comparison with a cutoff in
-- ten-thousandths.
pub record Scores : Type 1 where
  pub Raw : Type 0
  pub Score : Type 0
  pub to_float : Raw → Option Score
  pub clip : Score → Score
  pub round : Score → ℕ
  pub at_least : Score → ℕ → Bool

-- The settings of the stage; bounds on a similarity count ten-thousandths.
pub record RerankStage : Type 0 where
  pub enabled : Bool
  pub lo : ℕ
  pub hi : ℕ
  pub max_pairs : ℕ
  pub confident_threshold : ℕ

-- The part of the context that the stage reads or writes; `warned` says that it gave up.
pub record Context : Type 0 where
  pub matches : List Match
  pub overall : Overall
  pub confident_threshold_used : Option ℕ
  pub reranked_count : Option ℕ
  pub warned : Bool

pub is_semantic : MatchType → Bool
is_semantic verbatim = false
is_semantic paraphrase = true
is_semantic translated = true

-- `text.strip()` is not empty
pub has_text : Unicode → Text → Bool
has_text u [] = false
has_text u (c ∷ text) = not (u.is_space c) || has_text u text

pub has_excerpt : Unicode → Option Text → Bool
unfolding has_text
has_excerpt u none = false
has_excerpt u (some text) = has_text u text

pub is_candidate : RerankStage → Unicode → Match → Bool
unfolding is_semantic has_excerpt has_text
is_candidate stage u m =
    is_semantic m.match_type
    && (leb stage.lo m.similarity
        && (leb m.similarity stage.hi
            && (has_excerpt u m.doc_excerpt && has_text u m.source_excerpt)))

-- the candidates with their positions, the first of which is `i`
pub find_candidates : RerankStage → Unicode → ℕ → List Match → List (ℕ × Match)
unfolding is_candidate
find_candidates stage u i [] = []
find_candidates stage u i (m ∷ ms) =
    let rest = find_candidates stage u (suc i) ms in
    if is_candidate stage u m then (i, m) ∷ rest else rest

-- by falling similarity
abbrev pub similarity_key : ℕ × Match → ℕ × ℕ
similarity_key e = (0, e.1.similarity)

-- `_candidates`
pub candidates : RerankStage → Unicode → List Match → List (ℕ × Match)
unfolding find_candidates sort
candidates stage u ms = take stage.max_pairs (sort similarity_key (find_candidates stage u 0 ms))

-- `self.confident_threshold` where the matcher has left no cutoff, or 0
pub cutoff_of : RerankStage → Context → ℕ
cutoff_of stage ctx = elim ctx.confident_threshold_used [
  | none ↦ stage.confident_threshold
  | some c ↦ if nat_eq c 0 then stage.confident_threshold else c
]

module _ (sc : Scores) where
  -- The body of the loop. `m["reranked"]` is set exactly where `rerank_score` is.
  pub score_match : ℕ → sc.Score → Match → Match
  score_match cutoff s m =
      let score = sc.clip s in
      record m {
        rerank_score = some (sc.round score);
        confidence = if sc.at_least score cutoff then confident else review;
      }

  pub modify : (Match → Match) → ℕ → List Match → List Match
  modify f i [] = []
  modify f zero (m ∷ ms) = f m ∷ ms
  modify f (suc i) (m ∷ ms) = m ∷ modify f i ms

  -- `for m, s in zip(cand, raw)`, which the exception of a `float(s)` ends
  pub score_all : ℕ → List (ℕ × Match) → List sc.Raw → List Match → Option (List Match)
  unfolding score_match modify
  score_all cutoff [] raw ms = some ms
  score_all cutoff ((i, m) ∷ cand) [] ms = some ms
  score_all cutoff ((i, m) ∷ cand) (s ∷ raw) ms = elim (sc.to_float s) [
    | none ↦ none
    | some x ↦ score_all cutoff cand raw (modify (score_match cutoff x) i ms)
  ]

  -- what follows the handler of the model's exceptions
  pub finish :
      Rounding → List Token → List (ℕ × Match) → Context → Option (List Match) → Option Context
  unfolding confidence_breakdown
  finish r doc_tokens cand ctx none = none
  finish r doc_tokens cand ctx (some ms) = some (record ctx {
    matches = ms;
    overall = record ctx.overall { bands = confidence_breakdown r doc_tokens ms };
    reranked_count = some (length cand);
  })

  -- `run`. `predict` is the model at the pairs of excerpts, whose exceptions are caught; `none` is
  -- the exception of a `float(s)`, which is not.
  unfoldable pub run :
      RerankStage
      → Unicode
      → Rounding
      → List Token
      → (List Match → Option (List sc.Raw))
      → Context
      → Option Context
  unfolding candidates cutoff_of score_all finish
  run stage u r doc_tokens predict ctx =
      let cand = candidates stage u ctx.matches in
      if not stage.enabled || nat_eq (length cand) 0
      then some ctx
      else elim (predict (map (λ (e : ℕ × Match). e.1) cand)) [
        | none ↦ some (record ctx { warned = true })
        | some raw ↦
            finish r doc_tokens cand ctx (score_all (cutoff_of stage ctx) cand raw ctx.matches)
      ]
