-- ===== src/Matcher/Coverage/Shares.antt =====
-- The shares of the report add up: by match type, and by confidence.
use p_r_i_s_m.Prelude.{ℕ, ◌+◌, ◌≤◌, ◌≡◌, sym, ◌∙◌, List, [], false, ◌||◌, length, length-map, arith}
use p_r_i_s_m.Matcher.Types.{Match, SourceDoc}
use p_r_i_s_m.Matcher.Tokens.{Token}
use p_r_i_s_m.Matcher.Coverage.{
  contains, update, difference, split_bands, Buckets, fill_buckets, empty_buckets, Rounding,
  token_starts, aggregate,
}
use p_r_i_s_m.Matcher.Coverage.Sets.{
  card_split, card-false, lt_of_contains, card-le, IsSetBelow, length-eq-card, contains-update,
  update-IsSetBelow, contains-difference, difference-IsSetBelow,
}
use p_r_i_s_m.Matcher.Coverage.Filled.{
  IsFilled, in_buckets, fill_buckets-IsFilled, in_fill_buckets, split_bands-sets, in_split_bands,
}

module _ (r : Rounding) (doc_tokens : List Token) (ms : List Match) (sources : List SourceDoc) where
  abbrev starts_of : List ℕ
  starts_of = token_starts doc_tokens

  length-starts : length starts_of ≡ length doc_tokens
  unfolding token_starts
  length-starts = length-map (λ (t : Token). t.start) doc_tokens

  filled : Buckets
  filled = fill_buckets starts_of ms (empty_buckets sources)

  filled-IsFilled : IsFilled (length starts_of) filled
  unfolding filled empty_buckets
  filled-IsFilled =
      fill_buckets-IsFilled starts_of ms (empty_buckets sources)
        (record { verbatim_set = tt; paraphrase_set = tt; translated_set = tt })

  matched : List ℕ
  matched = update (update filled.verbatim_tokens filled.paraphrase_tokens) filled.translated_tokens

  matched-set : IsSetBelow (length starts_of) matched
  unfolding matched
  matched-set =
      let n = length starts_of in
      let f = filled-IsFilled in
      update-IsSetBelow n _ filled.translated_tokens
        (update-IsSetBelow n filled.verbatim_tokens filled.paraphrase_tokens f.verbatim_set
          (λ i. lt_of_contains n i filled.paraphrase_tokens f.paraphrase_set))
        (λ i. lt_of_contains n i filled.translated_tokens f.translated_set)

  in_matched : (i : ℕ) → contains i matched ≡ in_buckets i filled
  unfolding matched
  in_matched i = ground (
    arith,
    contains-update i (update filled.verbatim_tokens filled.paraphrase_tokens)
        filled.translated_tokens,
    contains-update i filled.verbatim_tokens filled.paraphrase_tokens,
  )

  paraphrase_only : List ℕ
  paraphrase_only =
      difference (difference filled.paraphrase_tokens filled.verbatim_tokens)
        filled.translated_tokens

  translated_only : List ℕ
  translated_only = difference filled.translated_tokens filled.verbatim_tokens

  shares-matched :
      (length filled.verbatim_tokens + length paraphrase_only + length translated_only
        ≡ length matched)
      × (length matched ≤ length doc_tokens)
  unfolding paraphrase_only translated_only
  shares-matched =
      let n = length starts_of in
      let f = filled-IsFilled in
      let v = filled.verbatim_tokens in
      let p = filled.paraphrase_tokens in
      let t = filled.translated_tokens in
      let lv = length-eq-card n v f.verbatim_set in
      let lp = length-eq-card n (difference (difference p v) t) (
        difference-IsSetBelow n (difference p v) t
          (difference-IsSetBelow n p v f.paraphrase_set)) in
      let lt = length-eq-card n (difference t v) (difference-IsSetBelow n t v f.translated_set) in
      let lm = length-eq-card n matched matched-set in
      let split =
        card_split n (λ i. contains i v) (λ i. contains i (difference (difference p v) t))
          (λ i. contains i (difference t v)) (λ i. contains i matched)
          (λ i. ground (
            arith,
            contains-difference i (difference p v) t,
            contains-difference i p v,
            contains-difference i t v,
            in_matched i,
          )) in
      (
        omega (arith, lv, lp, lt, lm, split),
        omega (arith, lm, card-le n (λ i. contains i matched), length-starts),
      )

  -- The words matched word for word, those matched otherwise in the same language, and those
  -- matched across languages add up to all matched words, of which there are no more than words
  -- in the document.
  pub aggregate_shares :
      let overall = (aggregate r doc_tokens ms sources).0 in
      (overall.verbatim_words + overall.paraphrase_words + overall.translated_words
        ≡ overall.matched_words)
      × (overall.matched_words ≤ overall.total_words)
  unfolding aggregate filled matched paraphrase_only translated_only
  aggregate_shares = shares-matched

  confident_set : List ℕ
  confident_set = (split_bands starts_of ms ([], [])).0

  review_set : List ℕ
  review_set = (split_bands starts_of ms ([], [])).1

  in_confident-review :
      (i : ℕ) → (contains i confident_set || contains i review_set) ≡ contains i matched
  unfolding confident_set review_set filled empty_buckets contains
  in_confident-review i =
      in_split_bands starts_of i ms [] []
      ∙ sym (in_matched i ∙ in_fill_buckets starts_of i ms (empty_buckets sources))

  bands-matched :
      length confident_set + length (difference review_set confident_set) ≡ length matched
  unfolding confident_set review_set
  bands-matched =
      let n = length starts_of in
      let sets = split_bands-sets starts_of ms [] [] tt tt in
      let lc = length-eq-card n confident_set sets.0 in
      let lr =
        length-eq-card n (difference review_set confident_set)
          (difference-IsSetBelow n review_set confident_set sets.1) in
      let lm = length-eq-card n matched matched-set in
      let split =
        card_split n (λ i. contains i confident_set)
          (λ i. contains i (difference review_set confident_set)) (λ i. false)
          (λ i. contains i matched)
          (λ i.
            ground
              (arith, contains-difference i review_set confident_set, in_confident-review i)) in
      omega (arith, lc, lr, lm, split, card-false n)

  -- The words of confident matches, and those that only matches in the review band cover, add up
  -- to all matched words: no matched word is left out of both bands or counted in both.
  pub aggregate_bands :
      let overall = (aggregate r doc_tokens ms sources).0 in
      overall.bands.confident_words + overall.bands.review_words ≡ overall.matched_words
  unfolding aggregate filled matched confident_set review_set
  aggregate_bands = bands-matched
