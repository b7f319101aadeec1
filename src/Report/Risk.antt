-- ===== src/Report/Risk.antt =====
-- The band and the checklist of a report, in terms of the matches that were triaged.
use p_r_i_s_m.Prelude.{
  ℕ, ◌+◌, List, [], ◌∷◌, ◌++◌, map, ◌≡◌, refl, ap, some, ltb, ◌||◌, if◌then◌else◌, arith,
}
use p_r_i_s_m.Text.{Text}
use p_r_i_s_m.Dict.{Dict}
use p_r_i_s_m.Matcher.Types.{SourceDoc, Match}
use p_r_i_s_m.Matcher.Coverage.{Overall}
use p_r_i_s_m.Triage.Signals.{normalized, Python, Paragraph}
use p_r_i_s_m.Triage.Rules.{RuleType, Eq-RuleType}
use p_r_i_s_m.Triage.Summary.{Triage, Summary, triage_matches, up_to, action_items, sort, item_key}
use p_r_i_s_m.Dict.Tally.{sum_where}
use p_r_i_s_m.Triage.Summary.{summarize, count_key, annotate}
use p_r_i_s_m.Triage.Summary.Counts.{sum_where-sort, having, sum_items, triage_matches-counts}
use p_r_i_s_m.Triage.Summary.Order.{triage_matches-IsOrdered, sort_ordered}
use p_r_i_s_m.Report.{Band, act, look, clear, build_report, sum_of_third, to_flag, standing}

-- The band that the annotations and the number of matches in the review band call for.
pub expected_band : List Triage → ℕ → Band
expected_band ts review_count =
    if ltb 0 (having (up_to 2) ts)
    then act
    else if ltb 0 (having (up_to 3) ts) || ltb 0 review_count
    then look
    else clear

sum_of_third-action_items :
    (d : List (RuleType × ℕ))
    → sum_of_third (action_items d) + sum_where (up_to 2) d ≡ sum_items (action_items d)
unfolding sum_of_third action_items sum_where sum_items up_to
sum_of_third-action_items [] = refl
sum_of_third-action_items ((t, n) ∷ d) = ground (arith, sum_of_third-action_items d)

-- the counts of the items of priority 3, and those of the matches that need action
third-summarize :
    (counts : Dict RuleType ℕ)
    → let s = summarize counts in
      sum_of_third s.action_items + s.needs_action ≡ sum_items s.action_items
unfolding summarize
third-summarize counts = omega (
  arith,
  sum_of_third-action_items (sort count_key counts),
  sum_where-sort count_key (up_to 2) counts,
)

third-triage_matches :
    (py : Python) (doc : Text) (paragraphs : List Paragraph) (ms : List Match)
    (sources : List SourceDoc)
    → let s = (triage_matches py doc paragraphs ms sources).1 in
      sum_of_third s.action_items + s.needs_action ≡ sum_items s.action_items
unfolding triage_matches
third-triage_matches py doc paragraphs ms sources =
    third-summarize (annotate py doc paragraphs (normalized py sources []) ms []).1

band_lem :
    (s : Summary) (ts : List Triage) (overall : Overall) (coverage : Text)
    → s.needs_action ≡ having (up_to 2) ts
    → sum_items s.action_items ≡ having (up_to 3) ts
    → sum_of_third s.action_items + s.needs_action ≡ sum_items s.action_items
    → (build_report overall (some s) coverage).band ≡ expected_band ts overall.bands.review_count
unfolding build_report expected_band
band_lem s ts overall coverage needs items third = ground arith

-- The report over the triage of any matches: `act` if some match has priority 1 or 2; else `look`
-- if some match has priority 3 or the review band is not empty; else `clear`. The checklist holds
-- one flag for each action item, in the order of the triage, and then the two standing items.
pub build_report-triage_matches :
    (py : Python) (doc : Text) (paragraphs : List Paragraph) (ms : List Match)
    (sources : List SourceDoc) (overall : Overall) (coverage : Text)
    → let (ts, s) = triage_matches py doc paragraphs ms sources in
      let report = build_report overall (some s) coverage in
      (report.band ≡ expected_band ts overall.bands.review_count)
      × (report.checklist ≡ map to_flag s.action_items ++ standing)
unfolding build_report expected_band
build_report-triage_matches py doc paragraphs ms sources overall coverage =
    let (ts, s) = triage_matches py doc paragraphs ms sources in
    let counted = triage_matches-counts py doc paragraphs ms sources in
    let third = third-triage_matches py doc paragraphs ms sources in
    (
      band_lem s ts overall coverage counted.2 counted.3 third,
      ap (λ items. map to_flag items ++ standing)
          (sort_ordered item_key s.action_items
            (triage_matches-IsOrdered py doc paragraphs ms sources)),
    )
