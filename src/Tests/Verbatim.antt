-- ===== src/Tests/Verbatim.antt =====
-- A document that copies three words, through the tokenizer, the search and the report.
use p_r_i_s_m.Prelude.{
  ℕ, zero, suc, ◌+◌, ◌<◌, ◌≤◌, ◌≡◌, refl, false, ◌*◌, ◌/◌, List, [], ◌∷◌, some, none, Memᴰ, All,
  ◌&&◌, leb, length, get_elem?, arith, nat_eq,
}
use p_r_i_s_m.Text.{Text, Unicode, codes, text_eq}
use p_r_i_s_m.Matcher.Types.{SourceDoc, Match, fulltext, verbatim, confident}
use p_r_i_s_m.Matcher.Tokens.{tokenize}
use p_r_i_s_m.Matcher.Tokens.Spans.{Ascending, offsets, tokenize-Ascending}
use p_r_i_s_m.Matcher.Verbatim.{verbatim_anchors}
use p_r_i_s_m.Matcher.Emit.{verbatim_matches, norms_of}
use p_r_i_s_m.Matcher.Emit.Copies.{spans, IsCopy}
use p_r_i_s_m.Matcher.Emit.Reports.{reported, verbatim_matches-IsCopy, verbatim_matches_complete}
use p_r_i_s_m.Matcher.Coverage.{Rounding, aggregate}
use p_r_i_s_m.Matcher.Coverage.Shares.{aggregate_shares, aggregate_bands}

-- lower-case ASCII
abbrev ascii : Unicode
ascii = record { is_word = λ c. leb 97 c && leb c 122; is_space = λ c. nat_eq c 32; fold = λ w. w }

abbrev doc_text : Text
doc_text = codes "the cat sat on mats"

abbrev sources : List SourceDoc
sources =
    record {
      id = "src-0";
      name = codes "a.txt";
      text = codes "a cat sat on us";
      origin = "upload";
      url = none;
      kind = fulltext;
    }
    ∷ []

run : Unit {0}
unfolding tokenize verbatim_anchors norms_of verbatim_matches text_eq aggregate
run = tt

-- the second to fourth word are found, with their offsets on both sides
abbrev found_match : Match
found_match = record {
  match_type = verbatim;
  similarity = 10000;
  confidence = confident;
  numeric_conflict = false;
  words = 3;
  doc_start = 4;
  doc_end = 14;
  source_id = "src-0";
  source_name = codes "a.txt";
  source_origin = "upload";
  source_url = none;
  source_start = 2;
  source_end = 12;
  source_excerpt = codes "cat sat on";
  source_context = codes "a cat sat on us";
  doc_lang = none;
  source_lang = none;
  doc_excerpt = none;
  id = none;
  paragraph_index = none;
  page = none;
  rerank_score = none;
}

found_all : reported ascii 2 3 doc_text sources ≡ some (found_match ∷ [])
unfolding run
found_all = refl

copied :
    (j : ℕ)
    → j < 3
    → get_elem? (norms_of (tokenize ascii doc_text)) (1 + j)
      ≡ get_elem? (norms_of (tokenize ascii (codes "a cat sat on us"))) (1 + j)
unfolding run
copied zero h = refl
copied (suc zero) h = refl
copied (suc (suc zero)) h = refl
copied (suc (suc (suc j))) h = absurd (omega arith)

verbatim_matches-IsCopy_example :
    (ms : List Match) × (reported ascii 2 3 doc_text sources ≡ some ms)
    × All (λ m. (3 ≤ m.words) × IsCopy ascii (tokenize ascii doc_text) sources m) ms
    × Ascending 0 (length doc_text) (spans ms)
verbatim_matches-IsCopy_example =
    verbatim_matches-IsCopy ascii 2 3 doc_text sources (omega arith) (omega arith)

verbatim_matches_complete_example :
    (m : Match) × Memᴰ m (found_match ∷ []) × (m.doc_start ≤ 4) × (7 ≤ m.doc_end)
unfolding run
verbatim_matches_complete_example =
    verbatim_matches_complete ascii 2 3 doc_text sources (omega arith) (omega arith)
      (found_match ∷ []) found_all 1 1 3 0 _ (record { norm = codes "cat"; start = 4; stop = 7 })
      refl (omega arith) (record { in_doc = omega arith; in_source = omega arith; same = copied })
      refl

tokenize-Ascending_example : Ascending 0 (length doc_text) (offsets (tokenize ascii doc_text))
tokenize-Ascending_example = tokenize-Ascending ascii doc_text

abbrev rounding : Rounding
rounding = record { percent = λ x total. 10000 * x / total }

aggregate_shares_example :
    let overall = (aggregate rounding (tokenize ascii doc_text) (found_match ∷ []) sources).0 in
    (overall.verbatim_words + overall.paraphrase_words + overall.translated_words
      ≡ overall.matched_words)
    × (overall.matched_words ≤ overall.total_words)
aggregate_shares_example =
    aggregate_shares rounding (tokenize ascii doc_text) (found_match ∷ []) sources

aggregate_bands_example :
    let overall = (aggregate rounding (tokenize ascii doc_text) (found_match ∷ []) sources).0 in
    overall.bands.confident_words + overall.bands.review_words ≡ overall.matched_words
aggregate_bands_example =
    aggregate_bands rounding (tokenize ascii doc_text) (found_match ∷ []) sources

-- three of the five words are matched
matched_three :
    (aggregate rounding (tokenize ascii doc_text) (found_match ∷ []) sources).0.similarity_pct
    ≡ 6000
unfolding run
matched_three = refl
