-- ===== src/Tests/Triage.antt =====
-- The triage and the report of two matches at a concrete document.
use p_r_i_s_m.Prelude.{
  List, [], ◌∷◌, ◌++◌, map, ◌≡◌, refl, true, false, none, some, Eq-String, leb, nat_eq, ◌&&◌, ◌==◌,
  not, ◌*◌, ◌/◌, All,
}
use p_r_i_s_m.Text.{Text, codes, text_eq}
use p_r_i_s_m.Dict.Tally.{get_count}
use p_r_i_s_m.Matcher.Types.{SourceDoc, Match, verbatim, paraphrase, confident, review, fulltext}
use p_r_i_s_m.Matcher.Coverage.{Overall}
use p_r_i_s_m.Triage.Rules.{RuleType, Eq-RuleType, priority, verbatim_uncited, needs_review}
use p_r_i_s_m.Triage.Signals.{Python, Signals, classify, normalized}
use p_r_i_s_m.Triage.Summary.{triage_one, triage_matches, up_to}
use p_r_i_s_m.Triage.Summary.Counts.{having, sum_items, triage_matches-counts}
use p_r_i_s_m.Triage.Summary.Decisions.{is_settled, classify-priority}
use p_r_i_s_m.Triage.Summary.Order.{IsUrgentFirst, triage_matches-IsUrgentFirst}
use p_r_i_s_m.Report.{build_report, to_flag, standing, act}
use p_r_i_s_m.Report.Risk.{expected_band, build_report-triage_matches}

abbrev pub python : Python
python = record {
  unicode = record {
    is_word = λ c. leb 97 c && leb c 122;
    is_space = λ c. nat_eq c 32;
    fold = λ w. w;
  };
  find_all = λ pattern text. [];
  lower = λ text. text;
  casefold = λ text. text;
  thousandths = λ a b. a * 1000 / b;
}

abbrev pub copied : Match
copied = record {
  match_type = verbatim;
  similarity = 10000;
  confidence = confident;
  numeric_conflict = false;
  words = 2;
  doc_start = 0;
  doc_end = 9;
  source_id = "src-0";
  source_name = codes "a.txt";
  source_origin = "upload";
  source_url = none;
  source_start = 0;
  source_end = 9;
  source_excerpt = codes "cats purr";
  source_context = codes "cats purr";
  doc_lang = none;
  source_lang = none;
  doc_excerpt = none;
  id = none;
  paragraph_index = none;
  page = none;
  rerank_score = none;
}

abbrev pub restated : Match
restated = record copied {
  match_type = paraphrase;
  similarity = 7000;
  confidence = review;
  doc_start = 11;
  doc_end = 20;
}

abbrev pub doc : Text
doc = codes "cats purr. dogs bark."

abbrev sources : List SourceDoc
sources =
    record {
      id = "src-0";
      name = codes "a.txt";
      text = codes "cats purr";
      origin = "upload";
      url = none;
      kind = fulltext;
    }
    ∷ []

abbrev pub overall : Overall
overall = record {
  similarity_pct = 10000;
  verbatim_words = 2;
  verbatim_pct = 5000;
  paraphrase_words = 2;
  paraphrase_pct = 5000;
  translated_words = 0;
  translated_pct = 0;
  bands = record {
    confident_words = 2;
    review_words = 2;
    confident_pct = 5000;
    review_pct = 5000;
    review_count = 1;
  };
  matched_words = 4;
  total_words = 4;
  match_count = 2;
  source_count = 1;
}

run : Unit {0}
unfolding triage_matches build_report text_eq having
run = tt

the_rules :
    map (λ t. t.rule.type) (triage_matches python doc [] (restated ∷ copied ∷ []) sources).0
    ≡ needs_review ∷ verbatim_uncited ∷ []
unfolding run
the_rules = refl

the_band :
    (build_report overall (some (triage_matches python doc [] (copied ∷ []) sources).1) []).band
    ≡ act
unfolding run
the_band = refl

abbrev signals : Signals
signals = record {
  quoted = true;
  cited = false;
  citation_markers = [];
  shared_by_sources = 1;
  stopword_ratio = 400;
  words = 20;
  numeric_conflict = false;
}

classify-priority_example :
    leb (priority (classify verbatim confident signals)) 2
    ≡ not (is_settled verbatim confident signals)
classify-priority_example = classify-priority verbatim confident signals

abbrev matches : List Match
matches = restated ∷ copied ∷ []

triage_matches-counts_example :
    let (ts, s) = triage_matches python doc [] matches sources in
    (ts ≡ map (triage_one python doc [] (normalized python sources [])) matches)
    × ((t : RuleType) → get_count t s.counts ≡ having (λ u. u == t) ts)
    × (s.needs_action ≡ having (up_to 2) ts)
    × (sum_items s.action_items ≡ having (up_to 3) ts)
triage_matches-counts_example = triage_matches-counts python doc [] matches sources

triage_matches-IsUrgentFirst_example :
    let items = (triage_matches python doc [] matches sources).1.action_items in
    All (λ i. i.priority ≡ priority i.type) items × IsUrgentFirst items
triage_matches-IsUrgentFirst_example = triage_matches-IsUrgentFirst python doc [] matches sources

build_report-triage_matches_example :
    let (ts, s) = triage_matches python doc [] matches sources in
    let report = build_report overall (some s) (codes "full text") in
    (report.band ≡ expected_band ts overall.bands.review_count)
    × (report.checklist ≡ map to_flag s.action_items ++ standing)
build_report-triage_matches_example =
    build_report-triage_matches python doc [] matches sources overall (codes "full text")
