-- ===== src/Triage/Summary/Counts.antt =====
-- What the summary's numbers say of the annotations.
use p_r_i_s_m.Prelude.{
  ℕ, suc, ◌+◌, List, [], ◌∷◌, map, Bool, ◌≡◌, refl, ◌∙◌, ap, String, ◌==◌, if◌then◌else◌, arith,
}
use p_r_i_s_m.Text.{Text}
use p_r_i_s_m.Dict.{Dict}
use p_r_i_s_m.Dict.Tally.{get_count, tally, sum_where, get_count-tally, sum_where-tally}
use p_r_i_s_m.Matcher.Types.{SourceDoc, Match}
use p_r_i_s_m.Triage.Rules.{RuleType, Eq-RuleType}
use p_r_i_s_m.Triage.Signals.{Python, Paragraph, normalized}
use p_r_i_s_m.Triage.Summary.{
  Triage, annotate, triage_one, ActionItem, insert, sort, action_items, up_to, count_key, summarize,
  triage_matches,
}

-- How many annotations have a rule of which `q` holds.
unfoldable pub having : (RuleType → Bool) → List Triage → ℕ
having q [] = 0
having q (a ∷ ts) = if q a.rule.type then suc (having q ts) else having q ts

unfoldable pub sum_items : List ActionItem → ℕ
sum_items [] = 0
sum_items (i ∷ items) = i.count + sum_items items

module _ (key : RuleType × ℕ → ℕ × ℕ) (q : RuleType → Bool) where
  sum_where-insert :
      (x : RuleType × ℕ) (d : List (RuleType × ℕ))
      → sum_where q (insert key x d) ≡ sum_where q (x ∷ d)
  unfolding insert sum_where
  sum_where-insert x [] = refl
  sum_where-insert x (y ∷ d) = ground (arith, sum_where-insert x d)

  pub sum_where-sort : (d : List (RuleType × ℕ)) → sum_where q (sort key d) ≡ sum_where q d
  unfolding sort sum_where
  sum_where-sort [] = refl
  sum_where-sort (x ∷ d) = sum_where-insert x (sort key d) ∙ ground (arith, sum_where-sort d)

sum_items-action_items :
    (d : List (RuleType × ℕ)) → sum_items (action_items d) ≡ sum_where (up_to 3) d
unfolding sum_items action_items sum_where
sum_items-action_items [] = refl
sum_items-action_items ((t, n) ∷ d) = ground (arith, sum_items-action_items d)

-- one round of the loop, over any counter
accumulate :
    (b : Bool) (before after total rest : ℕ)
    → total ≡ after + rest
    → after ≡ (if b then suc before else before)
    → total ≡ before + (if b then suc rest else rest)
accumulate b before after total rest h k = ground arith

module _ (py : Python) (doc : Text) (paragraphs : List Paragraph) (d : Dict String Text) where
  annotations-annotate :
      (ms : List Match) (counts : Dict RuleType ℕ)
      → (annotate py doc paragraphs d ms counts).0 ≡ map (triage_one py doc paragraphs d) ms
  unfolding annotate
  annotations-annotate [] counts = refl
  annotations-annotate (m ∷ ms) counts =
      ap (λ ts. triage_one py doc paragraphs d m ∷ ts) (annotations-annotate ms _)

  get_count-annotate :
      (t : RuleType) (ms : List Match) (counts : Dict RuleType ℕ)
      → get_count t (annotate py doc paragraphs d ms counts).1
        ≡ get_count t counts + having (λ u. u == t) (annotate py doc paragraphs d ms counts).0
  unfolding annotate having
  get_count-annotate t [] counts = omega arith
  get_count-annotate t (m ∷ ms) counts =
      let u = (triage_one py doc paragraphs d m).rule.type in
      accumulate (u == t) _ _ _ _ (get_count-annotate t ms (tally u counts))
        (get_count-tally u t counts)

  sum_where-annotate :
      (q : RuleType → Bool) (ms : List Match) (counts : Dict RuleType ℕ)
      → sum_where q (annotate py doc paragraphs d ms counts).1
        ≡ sum_where q counts + having q (annotate py doc paragraphs d ms counts).0
  unfolding annotate having
  sum_where-annotate q [] counts = omega arith
  sum_where-annotate q (m ∷ ms) counts =
      let u = (triage_one py doc paragraphs d m).rule.type in
      accumulate (q u) _ _ _ _ (sum_where-annotate q ms (tally u counts))
        (sum_where-tally q u counts)

  get_count-annotate_new :
      (t : RuleType) (ms : List Match)
      → get_count t (annotate py doc paragraphs d ms []).1
        ≡ having (λ u. u == t) (annotate py doc paragraphs d ms []).0
  unfolding get_count
  get_count-annotate_new t ms = omega (arith, get_count-annotate t ms [])

  sum_where-annotate_new :
      (q : RuleType → Bool) (ms : List Match)
      → sum_where q (annotate py doc paragraphs d ms []).1
        ≡ having q (annotate py doc paragraphs d ms []).0
  unfolding sum_where
  sum_where-annotate_new q ms = omega (arith, sum_where-annotate q ms [])

-- The annotations are those of the single matches, in their order. The summary counts each rule as
-- often as the annotations name it, `needs_action` is the number of matches of priority 1 or 2,
-- and the counts of the action items add up to the number of matches of priority 1 to 3.
pub triage_matches-counts :
    (py : Python) (doc : Text) (paragraphs : List Paragraph) (ms : List Match)
    (sources : List SourceDoc)
    → let (ts, s) = triage_matches py doc paragraphs ms sources in
      (ts ≡ map (triage_one py doc paragraphs (normalized py sources [])) ms)
      × ((t : RuleType) → get_count t s.counts ≡ having (λ u. u == t) ts)
      × (s.needs_action ≡ having (up_to 2) ts)
      × (sum_items s.action_items ≡ having (up_to 3) ts)
unfolding triage_matches summarize get_count sum_where
triage_matches-counts py doc paragraphs ms sources =
    let d = normalized py sources [] in
    (
      annotations-annotate py doc paragraphs d ms [],
      (λ t. get_count-annotate_new py doc paragraphs d t ms),
      sum_where-annotate_new py doc paragraphs d (up_to 2) ms,
      sum_items-action_items (sort count_key (annotate py doc paragraphs d ms []).1)
          ∙ sum_where-sort count_key (up_to 3) (annotate py doc paragraphs d ms []).1
          ∙ sum_where-annotate_new py doc paragraphs d (up_to 3) ms,
    )
