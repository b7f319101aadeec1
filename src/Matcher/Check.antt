-- ===== src/Matcher/Check.antt =====
-- The constructor of `PlagiarismMatcher`, its cutoff for a corpus of a size, and its method `check`.
-- The search for paraphrases is an argument of `check`.
pub mod Reported
use p_r_i_s_m.Prelude.{
  ◌≡◌, refl, arith, ℕ, zero, suc, List, [], ◌∷◌, ◌++◌, map, Bool, true, false, not, ◌&&◌, ◌||◌,
  Option, none, some, String, min, max, ltb, leb, nat_eq, length, if◌then◌else◌, sort_by,
}
use p_r_i_s_m.Text.{Text, Unicode, slice, strip, strip_left, strip_right}
use p_r_i_s_m.Matcher.Types.{SourceDoc, Match}
use p_r_i_s_m.Matcher.Tokens.{Token, tokenize}
use p_r_i_s_m.Matcher.Emit.{verbatim_matches}
use p_r_i_s_m.Matcher.Coverage.{Rounding, Overall, SourceRow, aggregate}

-- The settings that the modelled methods read, in ten-thousandths where they are similarities.
pub record PlagiarismMatcher : Type 0 where
  pub ngram : ℕ
  pub min_verbatim_words : ℕ
  pub paraphrase_threshold : ℕ
  pub confident_threshold : ℕ
  pub confidence_scaling : Bool
  pub confidence_scale_pivot : ℕ
  pub confidence_ceiling : ℕ

-- `__init__` on its arguments; `none` is the `ValueError`.
unfoldable pub new : PlagiarismMatcher → Option PlagiarismMatcher
new given =
    if ltb given.ngram 1
    then none
    else some (record given {
      confidence_scale_pivot = max 1 given.confidence_scale_pivot;
      min_verbatim_words = max given.min_verbatim_words given.ngram;
      confident_threshold = max given.confident_threshold given.paraphrase_threshold;
    })

-- `confident_threshold_for`; `scaled` is `base + k·log10(n / pivot)`, rounded to four decimals.
unfoldable pub confident_threshold_for : (ℕ → ℕ → ℕ → ℕ) → PlagiarismMatcher → ℕ → ℕ
confident_threshold_for scaled matcher n =
    let base = matcher.confident_threshold in
    if not matcher.confidence_scaling || leb n matcher.confidence_scale_pivot
    then base
    else min (max (scaled base n matcher.confidence_scale_pivot) base) matcher.confidence_ceiling

-- The warnings, with the text of an exception or the numbers in the message: of a raised cutoff, the
-- sentences and both cutoffs; of a search that is limited to the first sentences, how many of how
-- many; of one that is focused, the sentences, the sources, the cap, and the sources represented.
pub data Warning : Type 0 where
  no_readable_sources no_readable_text : Warning
  paraphrase_disabled paraphrase_failed : String → Warning
  cutoff_raised : ℕ → ℕ → ℕ → Warning
  limited_to_first : ℕ → ℕ → Warning
  focused : ℕ → ℕ → ℕ → ℕ → Warning

-- How the search for paraphrases ends: with matches, without its model, or with another exception.
pub data Found : Type 0 where
  found : List Match → Found
  unavailable failed : String → Found

-- The search, with the warnings that it appends and the two fields that it may set.
pub record Search : Type 0 where
  pub outcome : Found
  pub warnings : List Warning
  pub cutoff : Option ℕ
  pub corpus_sentences : ℕ

pub record Report : Type 0 where
  pub overall : Overall
  pub per_source : List SourceRow
  pub matches : List Match
  pub warnings : List Warning
  pub paraphrase_enabled : Bool
  pub confident_threshold_used : Option ℕ
  pub corpus_sentences : ℕ

is_empty : Text → Bool
is_empty [] = true
is_empty (_ ∷ _) = false

-- `not text.strip()`
unfoldable pub is_blank : Unicode → Text → Bool
unfolding is_empty strip
is_blank u text = is_empty (strip u text)

empty_of_test : (text : Text) → is_empty text ≡ true → text ≡ []
unfolding is_empty
empty_of_test [] h = refl
empty_of_test (c ∷ text) h = absurd (ground arith)

pub strip-of-is_blank : (u : Unicode) (text : Text) → is_blank u text ≡ true → strip u text ≡ []
unfolding is_blank
strip-of-is_blank u text h = empty_of_test (strip u text) h

pub is_blank_nil : (u : Unicode) → is_blank u [] ≡ true
unfolding is_blank is_empty strip strip_left strip_right
is_blank_nil u = refl

-- `[s for s in sources if (s.text or "").strip()]`
unfoldable pub usable_sources : Unicode → List SourceDoc → List SourceDoc
unfolding is_blank
usable_sources u [] = []
usable_sources u (s ∷ sources) =
    let rest = usable_sources u sources in if is_blank u s.text then rest else s ∷ rest

-- `_empty_report`
unfoldable pub empty_report : ℕ → List Warning → Report
empty_report total_words warnings = record {
  overall = record {
    similarity_pct = 0;
    verbatim_words = 0;
    verbatim_pct = 0;
    paraphrase_words = 0;
    paraphrase_pct = 0;
    translated_words = 0;
    translated_pct = 0;
    bands = record {
      confident_words = 0;
      review_words = 0;
      confident_pct = 0;
      review_pct = 0;
      review_count = 0;
    };
    matched_words = 0;
    total_words = total_words;
    match_count = 0;
    source_count = 0;
  };
  per_source = [];
  matches = [];
  warnings = warnings;
  paraphrase_enabled = false;
  confident_threshold_used = none;
  corpus_sentences = 0;
}

-- the key `(doc_start, doc_end)` of the sort
unfoldable pub starts_before : Match → Match → Bool
starts_before m n =
    ltb m.doc_start n.doc_start || (nat_eq m.doc_start n.doc_start && ltb m.doc_end n.doc_end)

-- `m["id"] = i`, and `m["doc_excerpt"] = …`
unfoldable pub label : Text → ℕ → List Match → List Match
label doc_text i [] = []
label doc_text i (m ∷ ms) =
    record m { id = some i; doc_excerpt = some (slice doc_text m.doc_start m.doc_end) }
    ∷ label doc_text (suc i) ms

unfoldable pub paraphrases_of : Found → List Match
paraphrases_of (found ms) = ms
paraphrases_of _ = []

is_enabled : Found → Bool
is_enabled (found ms) = true
is_enabled _ = false

warnings_of : Found → List Warning
warnings_of (found ms) = []
warnings_of (unavailable message) = paraphrase_disabled message ∷ []
warnings_of (failed message) = paraphrase_failed message ∷ []

-- from the search for paraphrases on
unfoldable pub assemble :
    Rounding → PlagiarismMatcher → Search → Text → List Token → List SourceDoc → List Match → Report
unfolding starts_before label paraphrases_of is_enabled warnings_of aggregate sort_by
assemble r matcher search doc_text doc_tokens sources verbatim =
    let matches =
      label doc_text 0 (sort_by starts_before (verbatim ++ paraphrases_of search.outcome)) in
    let (overall, per_source) = aggregate r doc_tokens matches sources in
    record {
      overall = overall;
      per_source = per_source;
      matches = matches;
      warnings = search.warnings ++ warnings_of search.outcome;
      paraphrase_enabled = is_enabled search.outcome;
      confident_threshold_used = elim search.cutoff [
        | none ↦ some matcher.confident_threshold
        | some c ↦ some c
      ];
      corpus_sentences = search.corpus_sentences;
    }

-- `check`. The search for paraphrases gets the usable sources and the verbatim matches; `none` is an
-- `IndexError` of the verbatim search.
unfoldable pub check :
    Unicode
    → Rounding
    → PlagiarismMatcher
    → (List SourceDoc → List Match → Search)
    → Text
    → List SourceDoc
    → Option Report
unfolding usable_sources is_blank empty_report assemble
check u r matcher paraphrase doc_text sources =
    let doc_tokens = tokenize u doc_text in
    let total_words = length doc_tokens in
    let usable = usable_sources u sources in
    let no_sources = nat_eq (length usable) 0 in
    let no_words = nat_eq total_words 0 in
    if is_blank u doc_text || (no_sources || no_words)
    then some (
        empty_report total_words (
          (if no_sources then no_readable_sources ∷ [] else [])
          ++ (if no_words then no_readable_text ∷ [] else [])))
    else elim (verbatim_matches u matcher.ngram matcher.min_verbatim_words doc_tokens usable) [
      | none ↦ none
      | some verbatim ↦
          some (assemble r matcher (paraphrase usable verbatim) doc_text doc_tokens usable verbatim)
    ]
