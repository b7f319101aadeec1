-- ===== src/Triage/Summary/Decisions.antt =====
-- Which matches the rules send back to the author, read off the signals.
use p_r_i_s_m.Prelude.{Bool, not, ◌&&◌, ◌||◌, ◌≡◌, leb, arith}
use p_r_i_s_m.Matcher.Types.{MatchType, verbatim, paraphrase, translated, Confidence}
use p_r_i_s_m.Matcher.Coverage.{is_review}
use p_r_i_s_m.Triage.Rules.{priority, rules}
use p_r_i_s_m.Triage.Signals.{Signals, classify, is_common}

-- A copy that is no common phrase is settled only by quotation marks and a citation together; a
-- paraphrase is settled by a citation, and one in the review band is not held against the author.
pub is_settled : MatchType → Confidence → Signals → Bool
is_settled verbatim c s = is_common s || (s.quoted && s.cited)
is_settled paraphrase c s = is_review c || s.cited
is_settled translated c s = is_review c || s.cited

-- A match has priority 1 or 2, which is what `needs_action` counts, exactly if it is not settled.
pub classify-priority :
    (t : MatchType) (c : Confidence) (s : Signals)
    → leb (priority (classify t c s)) 2 ≡ not (is_settled t c s)
unfolding classify is_settled rules is_review
classify-priority verbatim c s = ground arith
classify-priority paraphrase c s = ground arith
classify-priority translated c s = ground arith
