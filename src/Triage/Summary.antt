-- ===== src/Triage/Summary.antt =====
-- `triage_matches` of backend/services/triage.py: each match is annotated, and the summary counts
-- what was found and orders what the author has to look at.
pub mod Counts
pub mod Decisions
pub mod Order
use p_r_i_s_m.Prelude.{
  ℕ, suc, ◌+◌, List, [], ◌∷◌, map, Bool, true, false, ◌&&◌, ◌||◌, Option, none, some, String, ltb,
  leb, nat_eq, if◌then◌else◌,
}
use p_r_i_s_m.Text.{Text}
use p_r_i_s_m.Dict.Tally.{tally, sum_where}
use p_r_i_s_m.Dict.{Dict, lookup, assign}
use p_r_i_s_m.Matcher.Types.{SourceDoc, Match, MatchType, verbatim, paraphrase, translated}
use p_r_i_s_m.Triage.Rules.{
  RuleType, Eq-RuleType, Rule, rules, priority, verbatim_uncited, paraphrase_uncited,
  verbatim_cited_unquoted, quoted_uncited, paraphrase_cited, needs_review, common_phrase,
  quoted_cited,
}
use p_r_i_s_m.Triage.Signals.{Python, Paragraph, Signals, normalized, collect_signals, classify}

-- The two notes.
pub data Note : Type 0 where
  other_language shares_no_figure : Note

pub record Triage : Type 0 where
  pub rule : Rule
  pub note : Option Note
  pub signals : Signals

is_paraphrase_rule : RuleType → Bool
is_paraphrase_rule paraphrase_uncited = true
is_paraphrase_rule paraphrase_cited = true
is_paraphrase_rule _ = false

is_translated : MatchType → Bool
is_translated translated = true
is_translated _ = false

pub note_of : Match → RuleType → Signals → Option Note
unfolding is_translated is_paraphrase_rule
note_of m t s =
    if is_translated m.match_type && is_paraphrase_rule t
    then some other_language
    else if s.numeric_conflict
    then some shares_no_figure
    else none

pub triage_one : Python → Text → List Paragraph → Dict String Text → Match → Triage
unfolding collect_signals classify note_of rules
triage_one py doc paragraphs d m =
    let s = collect_signals py doc paragraphs m d in
    let t = classify m.match_type m.confidence s in
    record { rule = rules t; note = note_of m t s; signals = s }

-- The loop: the annotations, in the order of the matches, and the counts.
pub annotate :
    Python
    → Text
    → List Paragraph
    → Dict String Text
    → List Match
    → Dict RuleType ℕ
    → List Triage × Dict RuleType ℕ
unfolding triage_one tally
annotate py doc paragraphs d [] counts = ([], counts)
annotate py doc paragraphs d (m ∷ ms) counts =
    let t = triage_one py doc paragraphs d m in
    let (ts, counts') = annotate py doc paragraphs d ms (tally t.rule.type counts) in
    (t ∷ ts, counts')

unfoldable pub up_to : ℕ → RuleType → Bool
unfolding rules
up_to p t = leb (priority t) p

pub record ActionItem : Type 0 where
  pub type : RuleType
  pub priority : ℕ
  pub label : String
  pub count : ℕ

-- Whether the key `(priority, -count)` of the first is less than that of the second.
pub comes_before : ℕ × ℕ → ℕ × ℕ → Bool
comes_before (p, n) (q, k) = ltb p q || (nat_eq p q && ltb k n)

-- `sorted`, which keeps the order of items with equal keys
module _ {A : Type 0} (key : A → ℕ × ℕ) where
  unfoldable pub insert : A → List A → List A
  unfolding comes_before
  insert x [] = x ∷ []
  insert x (y ∷ ys) = if comes_before (key y) (key x) then y ∷ insert x ys else x ∷ y ∷ ys

  unfoldable pub sort : List A → List A
  unfolding insert
  sort [] = []
  sort (x ∷ xs) = insert x (sort xs)

-- the keys that the code sorts by
abbrev pub count_key : RuleType × ℕ → ℕ × ℕ
count_key e = (priority e.0, e.1)

abbrev pub item_key : ActionItem → ℕ × ℕ
item_key i = (i.priority, i.count)

unfoldable pub action_items : List (RuleType × ℕ) → List ActionItem
unfolding rules up_to
action_items [] = []
action_items ((t, n) ∷ rest) =
    let items = action_items rest in
    if up_to 3 t
    then record { type = t; priority = priority t; label = (rules t).label; count = n } ∷ items
    else items

pub record Summary : Type 0 where
  pub counts : Dict RuleType ℕ
  pub action_items : List ActionItem
  pub needs_action : ℕ

unfoldable pub summarize : Dict RuleType ℕ → Summary
unfolding sort action_items sum_where up_to rules
summarize counts = record {
  counts = counts;
  action_items = action_items (sort count_key counts);
  -- `sum(n for t, n in counts.items() if RULES[t].priority <= 2)`
  needs_action = sum_where (up_to 2) counts;
}

-- `triage_matches`: what it writes into the matches, and what it returns
unfoldable pub triage_matches :
    Python → Text → List Paragraph → List Match → List SourceDoc → List Triage × Summary
unfolding annotate normalized summarize
triage_matches py doc paragraphs ms sources =
    let (ts, counts) = annotate py doc paragraphs (normalized py sources []) ms [] in
    (ts, summarize counts)
