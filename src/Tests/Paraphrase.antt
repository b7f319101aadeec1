-- ===== src/Tests/Paraphrase.antt =====
-- The search for paraphrases at a concrete document and source.
use p_r_i_s_m.Prelude.{
  ℕ, ◌≤◌, ◌≡◌, refl, List, [], ◌∷◌, true, false, none, ltb, nat_eq, if◌then◌else◌, arith, All,
  length,
}
use p_r_i_s_m.Text.{Text, codes, strip, strip_left, strip_right}
use p_r_i_s_m.Matcher.Tokens.{find_words}
use p_r_i_s_m.Matcher.Types.{SourceDoc, fulltext}
use p_r_i_s_m.Matcher.Check.{PlagiarismMatcher, paraphrases_of, is_blank}
use p_r_i_s_m.Matcher.Sentences.{CharTests, split_sentences}
use p_r_i_s_m.Matcher.Sentences.Tiles.{Tiles, split_sentences-Tiles}
use p_r_i_s_m.Matcher.Paraphrase.{
  Similarities, Tools, SearchSettings, similarities, paraphrase_matches,
}
use p_r_i_s_m.Matcher.Paraphrase.Reported.{
  IsParaphrase, doc_sentences, kept_sentences, cutoff_of_kept, encoded_kept,
  paraphrase_matches-AreParaphrases,
}
use p_r_i_s_m.Tests.Triage.{python}
use p_r_i_s_m.Tests.Numbers.{floats}

pub ltb_irrefl : (a : ℕ) → ltb a a ≡ false
ltb_irrefl a = ground arith

pub ltb_above : (a b c : ℕ) → ltb a b ≡ true → ltb a c ≡ false → ltb b c ≡ false
ltb_above a b c h k = ground arith

abbrev pub counted : Similarities
counted = record {
  Score = ℕ;
  less = ltb;
  below = ltb;
  rounded = λ s. s;
  less_irrefl = ltb_irrefl;
  less_above = ltb_above;
}

abbrev chars : CharTests
chars = record { is_digit = λ c. false; is_lower = λ c. false }

abbrev pub tools : Tools counted
tools = record {
  unicode = python.unicode;
  chars = chars;
  encode = λ ds ss. similarities (λ i j. if nat_eq i j then 9000 else 1000);
  rank = λ ss ds. none;
  detect = none;
  floats = floats;
  scaled = λ base n pivot. base;
}

abbrev pub search_settings : SearchSettings
search_settings = record {
  min_sentence_words = 2;
  max_source_sentences = 10;
  numeric_guard = true;
  numeric_guard_gate = 2000;
}

abbrev matcher : PlagiarismMatcher
matcher = record {
  ngram = 2;
  min_verbatim_words = 2;
  paraphrase_threshold = 6600;
  confident_threshold = 7800;
  confidence_scaling = false;
  confidence_scale_pivot = 500;
  confidence_ceiling = 9200;
}

abbrev text : Text
text = codes "cats purr. dogs bark!"

abbrev sources : List SourceDoc
sources =
    record {
      id = "src-0";
      name = codes "a.txt";
      text = codes "a cat purrs. a dog barks.";
      origin = "upload";
      url = none;
      kind = fulltext;
    }
    ∷ []

two_sentences : split_sentences python.unicode chars text ≡ (0, 10) ∷ (10, 21) ∷ []
unfolding split_sentences strip strip_left strip_right is_blank
two_sentences = refl

split_sentences-Tiles_example :
    Tiles python.unicode text 0 (split_sentences python.unicode chars text)
split_sentences-Tiles_example = split_sentences-Tiles python.unicode chars text

paraphrase_matches-AreParaphrases_example :
    All
      (IsParaphrase counted tools matcher search_settings text sources []
        (doc_sentences counted tools matcher search_settings text sources [])
        (kept_sentences counted tools matcher search_settings text sources [])
        (cutoff_of_kept counted tools matcher search_settings text sources [])
        (encoded_kept counted tools matcher search_settings text sources []))
      (paraphrases_of
        (paraphrase_matches counted tools matcher search_settings text sources []).outcome)
    × (length (kept_sentences counted tools matcher search_settings text sources []) ≤ 10)
paraphrase_matches-AreParaphrases_example =
    paraphrase_matches-AreParaphrases counted tools matcher search_settings text sources []

both_found :
    length (
      paraphrases_of
        (paraphrase_matches counted tools matcher search_settings text sources []).outcome)
    ≡ 2
unfolding paraphrase_matches paraphrases_of is_blank find_words
both_found = refl
