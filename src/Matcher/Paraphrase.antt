-- ===== src/Matcher/Paraphrase.antt =====
-- `_paraphrase_matches`, `_budget_source_sentences`, `_detect_lang` and `_overlap_ratio` of
-- backend/services/plagiarism_matcher.py. The encoder with the cosine similarity, the ranking by
-- TF-IDF, langdetect and the logarithm of the cutoff are arguments.
pub mod Closest
pub mod Kept
pub mod Reported
use p_r_i_s_m.Prelude.{
  ℕ, zero, suc, ◌+◌, ◌-◌, ◌*◌, ◌≡◌, List, [], ◌∷◌, ◌++◌, map, Bool, true, false, not, ◌&&◌, ◌||◌,
  Option, none, some, String, Eq-String, ◌==◌, ltb, leb, nat_eq, length, get_elem?, take, min, max,
  if◌then◌else◌, sort_by,
}
use p_r_i_s_m.Text.{Text, Unicode, strip}
use p_r_i_s_m.Matcher.Types.{
  SourceDoc, Match, MatchType, paraphrase, translated, Confidence, confident, review,
}
use p_r_i_s_m.Matcher.Tokens.{find_words}
use p_r_i_s_m.Matcher.Emit.{context}
use p_r_i_s_m.Matcher.Sentences.{CharTests, Sentence, sentences}
use p_r_i_s_m.NumericGuard.{Floats, conflicts}
use p_r_i_s_m.Matcher.Check.{
  PlagiarismMatcher, Search, Found, found, unavailable, failed, Warning, cutoff_raised,
  limited_to_first, focused, confident_threshold_for,
}

-- A similarity is a Python float: whether the first is less than the second, whether it is below a
-- bound in ten-thousandths, and its value rounded to four decimals. Of the order on floats the code
-- needs that nothing is less than itself, and that what is not above a is not above what is. No
-- similarity is a NaN.
pub record Similarities : Type 1 where
  pub Score : Type 0
  pub less : Score → Score → Bool
  pub below : Score → ℕ → Bool
  pub rounded : Score → ℕ
  pub less_irrefl : (a : Score) → less a a ≡ false
  pub less_above : (a b c : Score) → less a b ≡ true → less a c ≡ false → less b c ≡ false

-- What `_get_embedder`, the embeddings and `cosine_similarity` make of the sentences of the document
-- and of the sources: the similarities by two positions, or one of the two kinds of exception.
pub data Encoded (Score : Type 0) : Type 0 where
  similarities : (ℕ → ℕ → Score) → Encoded Score
  no_model broken : String → Encoded Score

-- The rest of the matcher's settings.
pub record SearchSettings : Type 0 where
  pub min_sentence_words : ℕ
  pub max_source_sentences : ℕ
  pub numeric_guard : Bool
  pub numeric_guard_gate : ℕ

-- What the search calls: `rank` is `argsort` of the falling lexical similarities, or its exception;
-- `detect` is `none` where langdetect is not installed; `scaled` is the formula of `confident_threshold_for`.
pub record Tools (sim : Similarities) : Type 1 where
  pub unicode : Unicode
  pub chars : CharTests
  pub encode : List Text → List Text → Encoded sim.Score
  pub rank : List Text → List Text → Option (List ℕ)
  pub detect : Option (Text → Option String)
  pub floats : Floats
  pub scaled : ℕ → ℕ → ℕ → ℕ

-- A sentence of a source, with the position of the source and the source itself.
pub record SourceSentence : Type 0 where
  pub index : ℕ
  pub source : SourceDoc
  pub sentence : Sentence

abbrev pub text_at : SourceSentence → Text
text_at s = s.sentence.text

-- `for s_idx, src in enumerate(sources): for u in self._sentences(src.text)`
unfoldable pub source_sentences : Unicode → CharTests → ℕ → ℕ → List SourceDoc → List SourceSentence
unfolding sentences
source_sentences u ch min_words i [] = []
source_sentences u ch min_words i (source ∷ sources) =
    map (λ (s : Sentence). record { index = i; source = source; sentence = s })
      (sentences u ch min_words source.text)
    ++ source_sentences u ch min_words (suc i) sources

-- `len({s for s, _ in src_sents})`
unfoldable pub mentions_index : ℕ → List SourceSentence → Bool
mentions_index i [] = false
mentions_index i (s ∷ rest) = nat_eq s.index i || mentions_index i rest

unfoldable pub count_indexes : List SourceSentence → ℕ
unfolding mentions_index
count_indexes [] = 0
count_indexes (s ∷ rest) =
    let n = count_indexes rest in if mentions_index s.index rest then n else suc n

-- `[src_sents[i] for i in keep]`; the positions that `argsort` gives are inside the list.
unfoldable pub pick : List SourceSentence → List ℕ → List SourceSentence
pick sents [] = []
pick sents (i ∷ keep) = elim (get_elem? sents i) [
  | none ↦ pick sents keep
  | some s ↦ s ∷ pick sents keep
]

-- the rest of `_budget_source_sentences`, on the ranking
unfoldable pub keep_best :
    ℕ → List SourceSentence → Option (List ℕ) → List SourceSentence × List Warning
unfolding sort_by pick count_indexes
keep_best cap sents none = (take cap sents, limited_to_first cap (length sents) ∷ [])
keep_best cap sents (some order) =
    let kept = pick sents (sort_by ltb (take cap order)) in
    (kept, focused (length sents) (count_indexes sents) cap (count_indexes kept) ∷ [])

-- `_budget_source_sentences`
unfoldable pub budget_source_sentences :
    (List Text → List Text → Option (List ℕ))
    → ℕ
    → List Sentence
    → List SourceSentence
    → List SourceSentence × List Warning
unfolding keep_best
budget_source_sentences rank cap doc_sents sents =
    if leb (length sents) cap
    then (sents, [])
    else keep_best cap sents (rank (map text_at sents) (map (λ (s : Sentence). s.text) doc_sents))

-- `_detect_lang`
unfoldable pub detect_lang : Unicode → Option (Text → Option String) → Text → Option String
unfolding strip
detect_lang u none text = none
detect_lang u (some detect) text =
    let t = strip u text in if ltb (length t) 20 then none else detect t

-- `bool(doc_lang and src_lang and doc_lang != src_lang)`
unfoldable pub langs_differ : Option String → Option String → Bool
langs_differ (some a) (some b) = not (a == "") && (not (b == "") && not (a == b))
langs_differ _ _ = false

-- the sum of `_overlap_ratio`
unfoldable pub covered : ℕ → ℕ → List Match → ℕ
covered a b [] = 0
covered a b (m ∷ ms) = (min b m.doc_end - max a m.doc_start) + covered a b ms

-- `self._overlap_ratio(a, b, verbatim_ranges) > 0.6`
unfoldable pub is_copied : ℕ → ℕ → List Match → Bool
unfolding covered
is_copied a b verbatim = ltb a b && ltb (3 * (b - a)) (5 * covered a b verbatim)

module _ (sim : Similarities) where
  -- `int(np.argmax(row))` with the sentence there: the first of the greatest; `best` stands at `j`
  unfoldable pub argmax :
      (ℕ → sim.Score) → ℕ → SourceSentence → ℕ → List SourceSentence → ℕ × SourceSentence
  argmax row j best i [] = (j, best)
  argmax row j best i (s ∷ rest) =
      let closer = sim.less (row j) (row i) in
      argmax row (if closer then i else j) (if closer then s else best) (suc i) rest

  module _ (tools : Tools sim) (matcher : PlagiarismMatcher) (settings : SearchSettings)
      (cutoff : ℕ) where
    -- the dict of a match
    unfoldable pub paraphrase_match : Sentence → SourceSentence → sim.Score → Match
    unfolding detect_lang langs_differ
    paraphrase_match d s score =
        let doc_lang = detect_lang tools.unicode tools.detect d.text in
        let source_lang = detect_lang tools.unicode tools.detect s.sentence.text in
        let is_translated = langs_differ doc_lang source_lang in
        let asserted = not (sim.below score cutoff) in
        let numeric_conflict =
          settings.numeric_guard
          && asserted
          && not is_translated
          && conflicts tools.floats settings.numeric_guard_gate d.text s.sentence.text in
        record {
          match_type = if is_translated then translated else paraphrase;
          similarity = sim.rounded score;
          confidence = if asserted && not numeric_conflict then confident else review;
          numeric_conflict = numeric_conflict;
          words = length (find_words tools.unicode d.text);
          doc_start = d.start;
          doc_end = d.stop;
          source_id = s.source.id;
          source_name = s.source.name;
          source_origin = s.source.origin;
          source_url = s.source.url;
          source_start = s.sentence.start;
          source_end = s.sentence.stop;
          source_excerpt = s.sentence.text;
          source_context = context s.source.text s.sentence.start s.sentence.stop;
          doc_lang = doc_lang;
          source_lang = source_lang;
          doc_excerpt = none;
          id = none;
          paragraph_index = none;
          page = none;
          rerank_score = none;
        }

    -- one round of the loop over the sentences of the document
    unfoldable pub match_sentence :
        List Match → Sentence → (ℕ → sim.Score) → ℕ × SourceSentence → List Match
    unfolding paraphrase_match is_copied
    match_sentence verbatim d row (j, s) =
        if sim.below (row j) matcher.paraphrase_threshold || is_copied d.start d.stop verbatim
        then []
        else paraphrase_match d s (row j) ∷ []

    -- the loop, from the sentence at position `di` on; the sources have a first sentence
    unfoldable pub match_sentences :
        List Match
        → (ℕ → ℕ → sim.Score)
        → SourceSentence
        → List SourceSentence
        → ℕ
        → List Sentence
        → List Match
    unfolding match_sentence argmax
    match_sentences verbatim sims first rest di [] = []
    match_sentences verbatim sims first rest di (d ∷ ds) =
        match_sentence verbatim d (sims di) (argmax (sims di) 0 first 1 rest)
        ++ match_sentences verbatim sims first rest (suc di) ds

    unfoldable pub outcome_of :
        List Match
        → List Sentence
        → SourceSentence
        → List SourceSentence
        → Encoded sim.Score
        → Found
    unfolding match_sentences
    outcome_of verbatim ds first rest (similarities sims) =
        found (match_sentences verbatim sims first rest 0 ds)
    outcome_of verbatim ds first rest (no_model message) = unavailable message
    outcome_of verbatim ds first rest (broken message) = failed message

  module _ (tools : Tools sim) (matcher : PlagiarismMatcher) (settings : SearchSettings) where
    -- Where the budget keeps no sentence, `argmax` raises.
    unfoldable pub outcome_of_kept :
        ℕ → List Match → List Sentence → List SourceSentence → Encoded sim.Score → Found
    unfolding outcome_of
    outcome_of_kept cutoff verbatim ds [] (similarities sims) =
        failed "attempt to get argmax of an empty sequence"
    outcome_of_kept cutoff verbatim ds [] (no_model message) = unavailable message
    outcome_of_kept cutoff verbatim ds [] (broken message) = failed message
    outcome_of_kept cutoff verbatim ds (first ∷ rest) encoded =
        outcome_of tools matcher settings cutoff verbatim ds first rest encoded

    -- from the cutoff on, over the sentences that the budget kept
    unfoldable pub search_kept :
        List Match → List Sentence → List SourceSentence × List Warning → Search
    unfolding outcome_of_kept confident_threshold_for
    search_kept verbatim ds (kept, warnings) =
        let n = length kept in
        let cutoff = confident_threshold_for tools.scaled matcher n in
        record {
          outcome =
              outcome_of_kept cutoff verbatim ds kept
                (tools.encode (map (λ (s : Sentence). s.text) ds) (map text_at kept));
          warnings =
              warnings
              ++ (if ltb matcher.confident_threshold cutoff
                  then cutoff_raised n matcher.confident_threshold cutoff ∷ []
                  else []);
          cutoff = some cutoff;
          corpus_sentences = n;
        }

    unfoldable pub search_sentences : List Match → List Sentence → List SourceSentence → Search
    unfolding search_kept budget_source_sentences
    search_sentences verbatim ds sents =
        if nat_eq (length ds) 0 || nat_eq (length sents) 0
        then record { outcome = found []; warnings = []; cutoff = none; corpus_sentences = 0 }
        else search_kept verbatim ds
            (budget_source_sentences tools.rank settings.max_source_sentences ds sents)

    -- `_paraphrase_matches`, as `check` calls it
    unfoldable pub paraphrase_matches : Text → List SourceDoc → List Match → Search
    unfolding search_sentences source_sentences sentences
    paraphrase_matches doc_text sources verbatim =
        search_sentences verbatim
          (sentences tools.unicode tools.chars settings.min_sentence_words doc_text)
          (source_sentences tools.unicode tools.chars settings.min_sentence_words 0 sources)
