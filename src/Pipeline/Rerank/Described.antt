-- ===== src/Pipeline/Rerank/Described.antt =====
-- What the reranking is meant to do, said without its code.
use p_r_i_s_m.Prelude.{
  ℕ, zero, suc, ◌≤◌, ◌<◌, ◌≡◌, refl, ap, ◌≢◌, ◌⊎◌, inl, inr, List, [], ◌∷◌, true, false, Option,
  none, some, length, take, map, get_elem?, All, Memᴰ, Bool-cases, Option-cases, arith,
  if◌then◌else◌,
}
use p_r_i_s_m.Text.{Text, Unicode}
use p_r_i_s_m.Matcher.Types.{Match, MatchType, verbatim, confident, review}
use p_r_i_s_m.Pipeline.Rerank.{
  Scores, RerankStage, Context, is_semantic, has_text, has_excerpt, is_candidate, cutoff_of,
  score_match,
}

-- A text that is not white space alone.
unfoldable pub HasText : Unicode → Text → Type 0
HasText u text = (c : ℕ) × Memᴰ c text × (u.is_space c ≡ false)

-- A match that the model is asked about.
pub record IsBorderline (stage : RerankStage) (u : Unicode) (m : Match) : Type 0 where
  pub semantic : m.match_type ≢ verbatim
  pub not_below : stage.lo ≤ m.similarity
  pub not_above : m.similarity ≤ stage.hi
  pub passage : (text : Text) × (m.doc_excerpt ≡ some text) × HasText u text
  pub source : HasText u m.source_excerpt

-- A borderline match at its place in the list.
unfoldable pub IsBorderlineAt : RerankStage → Unicode → List Match → ℕ × Match → Type 0
IsBorderlineAt stage u ms e = (get_elem? ms e.0 ≡ some e.1) × IsBorderline stage u e.1

-- A match with a score stands at the place.
unfoldable pub StandsScored : List Match → ℕ × Match → Type 0
StandsScored ns e = (n : Match) × (v : ℕ) × (get_elem? ns e.0 ≡ some n) × (n.rerank_score ≡ some v)

-- The matcher's cutoff, or the stage's own where the matcher has left none, or 0.
unfoldable pub IsCutoff : RerankStage → Context → ℕ → Type 0
IsCutoff stage ctx cutoff =
    ((ctx.confident_threshold_used ≡ some cutoff) × (0 < cutoff))
    ⊎ ((stage.confident_threshold ≡ cutoff)
        × ((ctx.confident_threshold_used ≡ none) ⊎ (ctx.confident_threshold_used ≡ some 0)))

module _ (sc : Scores) where
  -- The second match is the first with the score, and in the band that the score gives.
  pub record IsScored (cutoff : ℕ) (x : sc.Score) (m m' : Match) : Type 0 where
    pub score : m'.rerank_score ≡ some (sc.round (sc.clip x))
    pub band :
        ((sc.at_least (sc.clip x) cutoff ≡ true) × (m'.confidence ≡ confident))
        ⊎ ((sc.at_least (sc.clip x) cutoff ≡ false) × (m'.confidence ≡ review))
    pub rest :
        ◌≡◌ {A = Match} m' (record m { rerank_score = m'.rerank_score; confidence = m'.confidence })

  -- A match is as it was, or it is borderline and has the score of an answer of the model.
  unfoldable pub IsRescored : RerankStage → Unicode → ℕ → List sc.Raw → Match → Match → Type 0
  IsRescored stage u cutoff raw m m' =
      (m' ≡ m)
      ⊎ ((s : sc.Raw) × (x : sc.Score) × Memᴰ s raw
          × (sc.to_float s ≡ some x)
          × IsBorderline stage u m
          × IsScored cutoff x m m')

  -- position by position
  unfoldable pub AllRescored :
      RerankStage → Unicode → ℕ → List sc.Raw → List Match → List Match → Type 0
  unfolding IsRescored
  AllRescored stage u cutoff raw [] [] = Unit
  AllRescored stage u cutoff raw (m ∷ ms) (n ∷ ns) =
      IsRescored stage u cutoff raw m n × AllRescored stage u cutoff raw ms ns
  AllRescored stage u cutoff raw _ _ = ⊥

  -- That the model has been asked about borderline matches, no more than the setting allows, and
  -- what became of the matches by its answers: those that it has answered have a score.
  pub record Rescores (stage : RerankStage) (u : Unicode)
      (predict : List Match → Option (List sc.Raw)) (ctx after : Context) : Type 0 where
    pub is_enabled : stage.enabled ≡ true
    pub entries : List (ℕ × Match)
    pub few : length entries ≤ stage.max_pairs
    pub borderline : All (IsBorderlineAt stage u ctx.matches) entries
    pub raw : List sc.Raw
    pub answered : predict (map (λ (e : ℕ × Match). e.1) entries) ≡ some raw
    pub cutoff : ℕ
    pub is_cutoff : IsCutoff stage ctx cutoff
    pub rescored : AllRescored stage u cutoff raw ctx.matches after.matches
    pub all_scored : All (StandsScored after.matches) (take (length raw) entries)
    pub counted : after.reranked_count ≡ some (length entries)

  -- An answer of the model that is no number.
  pub record Unscored (predict : List Match → Option (List sc.Raw)) : Type 0 where
    pub pairs : List Match
    pub raw : List sc.Raw
    pub answered : predict pairs ≡ some raw
    pub s : sc.Raw
    pub among : Memᴰ s raw
    pub no_number : sc.to_float s ≡ none

has_text-HasText : (u : Unicode) (text : Text) → has_text u text ≡ true → HasText u text
unfolding has_text HasText
has_text-HasText u [] h = cc
has_text-HasText u (c ∷ text) h = elim (Bool-cases (u.is_space c)) [
  | inr e ↦ (c, Memᴰ.head refl, e)
  | inl e ↦ let (d, m, e') = has_text-HasText u text (ground arith) in (d, Memᴰ.tail m, e')
]

has_excerpt-HasText :
    (u : Unicode) (excerpt : Option Text)
    → has_excerpt u excerpt ≡ true
    → (text : Text) × (excerpt ≡ some text) × HasText u text
unfolding has_excerpt
has_excerpt-HasText u none h = cc
has_excerpt-HasText u (some text) h = (text, refl, has_text-HasText u text h)

is_semantic-ne-verbatim : (t : MatchType) → is_semantic t ≡ true → t ≢ verbatim
unfolding is_semantic
is_semantic-ne-verbatim t h e = ground arith

pub is_candidate-IsBorderline :
    (stage : RerankStage) (u : Unicode) (m : Match)
    → is_candidate stage u m ≡ true
    → IsBorderline stage u m
unfolding is_candidate
is_candidate-IsBorderline stage u m h = record {
  semantic = is_semantic-ne-verbatim m.match_type (ground arith);
  not_below = ground arith;
  not_above = ground arith;
  passage = has_excerpt-HasText u m.doc_excerpt (ground arith);
  source = has_text-HasText u m.source_excerpt (ground arith);
}

pub cutoff_of-IsCutoff :
    (stage : RerankStage) (ctx : Context) → IsCutoff stage ctx (cutoff_of stage ctx)
unfolding cutoff_of IsCutoff
cutoff_of-IsCutoff stage ctx = elim (Option-cases ctx.confident_threshold_used) [
  | inl e ↦ inr (ground arith, inl e)
  | inr (zero, e) ↦ inr (ground arith, inr e)
  | inr (suc n, e) ↦ inl (ground arith, ground arith)
]

pub score_match-IsScored :
    (sc : Scores) (cutoff : ℕ) (x : sc.Score) (m n : Match)
    → (n ≡ m) ⊎ ((y : sc.Score) × IsScored sc cutoff y m n)
    → IsScored sc cutoff x m (score_match sc cutoff x n)
unfolding score_match
score_match-IsScored sc cutoff x m n h = record {
  score = refl;
  band = elim (Bool-cases (sc.at_least (sc.clip x) cutoff)) [
    | inl t ↦ inl (t, ground arith)
    | inr f ↦ inr (f, ground arith)
  ];
  rest = elim h [
    | inl e ↦
        ap
          (λ (k : Match). record k {
            rerank_score = some (sc.round (sc.clip x));
            confidence = if sc.at_least (sc.clip x) cutoff then confident else review;
          })
          e
    | inr (y, scored) ↦
        ap
          (λ (k : Match). record k {
            rerank_score = some (sc.round (sc.clip x));
            confidence = if sc.at_least (sc.clip x) cutoff then confident else review;
          })
          scored.rest
  ];
}
