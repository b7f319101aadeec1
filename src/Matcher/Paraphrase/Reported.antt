-- ===== src/Matcher/Paraphrase/Reported.antt =====
-- What the search for paraphrases reports: for a sentence of the document, the closest sentence of
-- the sources, with what the match says of both.
use p_r_i_s_m.Prelude.{
  ℕ, suc, ◌+◌, ◌-◌, ◌*◌, ◌≤◌, ◌<◌, ◌≡◌, refl, sym, ap, ◌∙◌, subst, ◌↔◌, inl, inr, List, [], ◌∷◌,
  map, some, true, false, not, ◌&&◌, ◌||◌, Bool, length, get_elem?, arith, All, All-append,
  Bool-cases, if◌then◌else◌, nat_eq,
}
use p_r_i_s_m.Text.{Text, slice}
use p_r_i_s_m.NumericGuard.{conflicts}
use p_r_i_s_m.Matcher.Types.{SourceDoc, Match, paraphrase, translated, confident, review}
use p_r_i_s_m.Matcher.Sentences.{Sentence, sentences}
use p_r_i_s_m.Matcher.Sentences.Trimmed.{IsSentence, sentences-AreSentences}
use p_r_i_s_m.Matcher.Check.{PlagiarismMatcher, confident_threshold_for, paraphrases_of}
use p_r_i_s_m.Matcher.Paraphrase.{
  Similarities, Tools, SearchSettings, SourceSentence, Encoded, similarities, no_model, broken,
  argmax, covered, is_copied, paraphrase_match, match_sentence, match_sentences, outcome_of,
  outcome_of_kept, search_kept, search_sentences, paraphrase_matches, source_sentences,
  budget_source_sentences, text_at,
}
use p_r_i_s_m.Matcher.Paraphrase.Closest.{IsClosest, IsClosest-of_all}
use p_r_i_s_m.Matcher.Paraphrase.Kept.{
  IsSourceSentence, source_sentences-AreSourceSentences, budget_source_sentences-WithinCap,
  All-get_elem?,
}

sure_of :
    (b n : Bool)
    → ((if not b && not n then confident else review) ≡ confident) ↔ ((b ≡ false) × (n ≡ false))
sure_of true true = ground arith
sure_of true false = ground arith
sure_of false true = ground arith
sure_of false false = ground arith

guard_of :
    (g b t c : Bool)
    → (g && not b && not t && c) ≡ true
    → ((if t then translated else paraphrase) ≡ paraphrase) × (c ≡ true)
guard_of g b t c h = ground arith

module _ (sim : Similarities) where
  module _ (tools : Tools sim) (matcher : PlagiarismMatcher) (settings : SearchSettings)
      (doc_text : Text) (sources : List SourceDoc) (verbatim : List Match) (ds : List Sentence)
      (kept : List SourceSentence) (cutoff : ℕ) (encoded : Encoded sim.Score) where
    -- What a match says: of a sentence of the document that is not for the most part copied, and of
    -- the closest sentence of the sources.
    pub record IsParaphrase (m : Match) : Type 0 where
      pub d : Sentence
      pub s : SourceSentence
      pub sims : ℕ → ℕ → sim.Score
      pub di : ℕ
      pub j : ℕ
      pub answered : encoded ≡ similarities sims
      pub in_doc : get_elem? ds di ≡ some d
      pub d_is : IsSentence tools.unicode settings.min_sentence_words doc_text d
      pub s_is : IsSourceSentence tools.unicode settings.min_sentence_words sources s
      pub is_closest : IsClosest sim (sims di) kept (length kept) j s
      pub close_enough : sim.below (sims di j) matcher.paraphrase_threshold ≡ false
      pub not_copied : ¬ (
          (m.doc_start < m.doc_end)
          × (3 * (m.doc_end - m.doc_start) < 5 * covered m.doc_start m.doc_end verbatim))
      pub same_place : (m.doc_start ≡ d.start) × (m.doc_end ≡ d.stop)
      pub same_source :
          (m.source_id ≡ s.source.id)
          × (m.source_excerpt ≡ slice s.source.text m.source_start m.source_end)
      pub same_score : m.similarity ≡ sim.rounded (sims di j)
      pub sure :
          (m.confidence ≡ confident)
          ↔ ((sim.below (sims di j) cutoff ≡ false) × (m.numeric_conflict ≡ false))
      pub guarded :
          m.numeric_conflict ≡ true
          → (m.match_type ≡ paraphrase)
            × (conflicts tools.floats settings.numeric_guard_gate d.text s.sentence.text ≡ true)

    paraphrase_match-IsParaphrase :
        (d : Sentence) (s : SourceSentence) (sims : ℕ → ℕ → sim.Score) (di j : ℕ)
        → encoded ≡ similarities sims
        → get_elem? ds di ≡ some d
        → IsSentence tools.unicode settings.min_sentence_words doc_text d
        → IsSourceSentence tools.unicode settings.min_sentence_words sources s
        → IsClosest sim (sims di) kept (length kept) j s
        → sim.below (sims di j) matcher.paraphrase_threshold ≡ false
        → is_copied d.start d.stop verbatim ≡ false
        → IsParaphrase (paraphrase_match sim tools matcher settings cutoff d s (sims di j))
    unfolding paraphrase_match is_copied
    paraphrase_match-IsParaphrase d s sims di j answered in_doc d_is s_is closest close new =
        record {
          d = d;
          s = s;
          sims = sims;
          di = di;
          answered = answered;
          in_doc = in_doc;
          j = j;
          d_is = d_is;
          s_is = s_is;
          is_closest = closest;
          close_enough = close;
          not_copied = λ h. ground (arith, h.0, h.1);
          same_place = (refl, refl);
          same_source = (refl, s_is.is_sentence.same);
          same_score = refl;
          sure = sure_of (sim.below (sims di j) cutoff) _;
          guarded = guard_of settings.numeric_guard (sim.below (sims di j) cutoff) _ _;
        }

    pub All-source :
        (row : ℕ → sim.Score) (n j : ℕ) (s : SourceSentence)
        → All (IsSourceSentence tools.unicode settings.min_sentence_words sources) kept
        → IsClosest sim row kept n j s
        → IsSourceSentence tools.unicode settings.min_sentence_words sources s
    All-source row n j s h c = All-get_elem? _ kept j h c.there

    match_sentence-AreParaphrases :
        (d : Sentence) (sims : ℕ → ℕ → sim.Score) (di : ℕ) (best : ℕ × SourceSentence)
        → encoded ≡ similarities sims
        → get_elem? ds di ≡ some d
        → IsSentence tools.unicode settings.min_sentence_words doc_text d
        → All (IsSourceSentence tools.unicode settings.min_sentence_words sources) kept
        → IsClosest sim (sims di) kept (length kept) best.0 best.1
        → All IsParaphrase
            (match_sentence sim tools matcher settings cutoff verbatim d (sims di) best)
    unfolding match_sentence
    match_sentence-AreParaphrases d sims di (j, s) answered in_doc d_is all closest =
        elim (Bool-cases (sim.below (sims di j) matcher.paraphrase_threshold)) [
          | inl low ↦ rw low tt
          | inr close ↦ elim (Bool-cases (is_copied d.start d.stop verbatim)) [
            | inl copied ↦ rw close (rw copied tt)
            | inr new ↦ rw close (
                rw new (
                  paraphrase_match-IsParaphrase d s sims di j answered in_doc d_is
                      (All-source (sims di) (length kept) j s all closest) closest close new,
                  tt,
                ))
          ]
        ]

  module _ (tools : Tools sim) (matcher : PlagiarismMatcher) (settings : SearchSettings)
      (doc_text : Text) (sources : List SourceDoc) (verbatim : List Match) where
    match_sentences-AreParaphrases :
        (all_ds : List Sentence) (first : SourceSentence) (rest : List SourceSentence) (cutoff : ℕ)
        (sims : ℕ → ℕ → sim.Score) (di : ℕ) (ds : List Sentence)
        → ((k : ℕ) → get_elem? ds k ≡ get_elem? all_ds (di + k))
        → All (IsSentence tools.unicode settings.min_sentence_words doc_text) ds
        → All (IsSourceSentence tools.unicode settings.min_sentence_words sources) (first ∷ rest)
        → All
            (IsParaphrase tools matcher settings doc_text sources verbatim all_ds
              (first ∷ rest)
              cutoff
              (similarities sims))
            (match_sentences sim tools matcher settings cutoff verbatim sims first rest di ds)
    unfolding match_sentences
    match_sentences-AreParaphrases all_ds first rest cutoff sims di [] behind ds_are all = tt
    match_sentences-AreParaphrases all_ds first rest cutoff sims di (d ∷ ds) behind ds_are all =
        let best = argmax sim (sims di) 0 first 1 rest in
        let size : 1 + length rest ≡ suc (length rest) = omega arith in
        let closest : IsClosest sim (sims di) (first ∷ rest) (length (first ∷ rest)) best.0 best.1 =
          subst (λ (n : ℕ). IsClosest sim (sims di) (first ∷ rest) n best.0 best.1) size
            (IsClosest-of_all sim (sims di) first rest) in
        let in_doc : get_elem? all_ds di ≡ some d =
          ap (get_elem? all_ds) (omega arith) ∙ sym (behind 0) in
        All-append _ _ _
          (match_sentence-AreParaphrases tools matcher settings doc_text sources verbatim all_ds
            (first ∷ rest) cutoff (similarities sims) d sims di best refl in_doc ds_are.0 all
            closest)
          (match_sentences-AreParaphrases all_ds first rest cutoff sims (suc di) ds
            (λ k. behind (suc k) ∙ ap (get_elem? all_ds) (omega arith)) ds_are.1 all)

    outcome_of_kept-AreParaphrases :
        (cutoff : ℕ) (ds : List Sentence) (kept : List SourceSentence) (encoded : Encoded sim.Score)
        → All (IsSentence tools.unicode settings.min_sentence_words doc_text) ds
        → All (IsSourceSentence tools.unicode settings.min_sentence_words sources) kept
        → All
            (IsParaphrase tools matcher settings doc_text sources verbatim ds kept cutoff encoded)
            (paraphrases_of
              (outcome_of_kept sim tools matcher settings cutoff verbatim ds kept encoded))
    unfolding outcome_of_kept outcome_of paraphrases_of
    outcome_of_kept-AreParaphrases cutoff ds [] (similarities sims) ds_are all = tt
    outcome_of_kept-AreParaphrases cutoff ds [] (no_model message) ds_are all = tt
    outcome_of_kept-AreParaphrases cutoff ds [] (broken message) ds_are all = tt
    outcome_of_kept-AreParaphrases cutoff ds (first ∷ rest) (similarities sims) ds_are all =
        match_sentences-AreParaphrases ds first rest cutoff sims 0 ds
          (λ k. ap (get_elem? ds) (omega arith)) ds_are all
    outcome_of_kept-AreParaphrases cutoff ds (first ∷ rest) (no_model message) ds_are all = tt
    outcome_of_kept-AreParaphrases cutoff ds (first ∷ rest) (broken message) ds_are all = tt

    -- the sentences of the document, those of the sources that are compared, and their cutoff
    abbrev pub doc_sentences : List Sentence
    doc_sentences = sentences tools.unicode tools.chars settings.min_sentence_words doc_text

    abbrev pub kept_sentences : List SourceSentence
    kept_sentences =
        (budget_source_sentences tools.rank settings.max_source_sentences doc_sentences
          (source_sentences tools.unicode tools.chars settings.min_sentence_words 0 sources)).0

    abbrev pub cutoff_of_kept : ℕ
    cutoff_of_kept = confident_threshold_for tools.scaled matcher (length kept_sentences)

    abbrev pub encoded_kept : Encoded sim.Score
    encoded_kept =
        tools.encode (map (λ (s : Sentence). s.text) doc_sentences) (map text_at kept_sentences)

    -- Every match that the search reports is of a sentence of the document, in its place, that the
    -- verbatim matches do not cover by more than three fifths; it is of a sentence of a source
    -- than which, by the similarities that the encoder answers, none of those compared is closer,
    -- and quotes it from the source; the score reaches the threshold; the match is confident exactly if the score reaches the cutoff for the
    -- number of sentences compared and no conflict of figures was found, which is looked for in one
    -- language alone. No more sentences are compared than the setting allows.
    pub paraphrase_matches-AreParaphrases :
        All
          (IsParaphrase tools matcher settings doc_text sources verbatim doc_sentences
            kept_sentences cutoff_of_kept encoded_kept)
          (paraphrases_of
            (paraphrase_matches sim tools matcher settings doc_text sources verbatim).outcome)
        × (length kept_sentences ≤ settings.max_source_sentences)
    unfolding paraphrase_matches search_sentences search_kept
    paraphrase_matches-AreParaphrases =
        let sents =
          source_sentences tools.unicode tools.chars settings.min_sentence_words 0 sources in
        let sents_are =
          source_sentences-AreSourceSentences tools.unicode tools.chars settings.min_sentence_words
            0 sources in
        let (within, whole) =
          budget_source_sentences-WithinCap _ tools.rank settings.max_source_sentences doc_sentences
            sents sents_are in
        (
          elim (Bool-cases (nat_eq (length doc_sentences) 0 || nat_eq (length sents) 0)) [
            | inl nothing ↦ rw nothing (unfold paraphrases_of in tt)
            | inr some_of_both ↦ rw some_of_both (
                outcome_of_kept-AreParaphrases cutoff_of_kept doc_sentences kept_sentences _
                  (sentences-AreSentences tools.unicode settings.min_sentence_words tools.chars
                    doc_text)
                  within.1)
          ],
          within.0,
        )
