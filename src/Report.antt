-- ===== src/Report.antt =====
-- `build_report` of backend/services/report.py: the risk band with its reason, and the checklist.
pub mod Risk
pub mod Compare
pub mod Recheck
use p_r_i_s_m.Prelude.{
  ℕ, ◌+◌, List, [], ◌∷◌, ◌++◌, map, ◌||◌, Option, none, some, String, ltb, nat_eq, if◌then◌else◌,
}
use p_r_i_s_m.Text.{Text}
use p_r_i_s_m.Matcher.Coverage.{Overall}
use p_r_i_s_m.Triage.Rules.{RuleType}
use p_r_i_s_m.Triage.Summary.{Summary, ActionItem, sort, item_key}

pub data Band : Type 0 where
  act look clear : Band

-- `BANDS`: the label and the reason
pub bands : Band → String × String
bands act = (
  "Fix before submitting",
  "At least one flag is a word-for-word or close-paraphrase match with no citation nearby.",
)
bands look = (
  "Worth a look",
  "Nothing needs fixing outright, but some passages are cited paraphrases or inconclusive matches you should read side by side with the source.",
)
bands clear = (
  "Nothing flagged",
  "No passage matched the sources that were checked. That is a statement about these sources, not about every source that exists.",
)

pub data ItemType : Type 0 where
  flag : RuleType → ItemType
  references disclosure : ItemType

pub record ChecklistItem : Type 0 where
  pub type : ItemType
  pub label : String
  pub count : ℕ
  pub priority : ℕ

pub record Report : Type 0 where
  pub band : Band
  pub label : String
  pub reason : String
  pub needs_action : ℕ
  pub review_count : ℕ
  pub confident_pct : ℕ
  pub similarity_pct : ℕ
  pub checklist : List ChecklistItem
  pub coverage : Text

-- `sum(a["count"] for a in items if a["priority"] == 3)`
unfoldable pub sum_of_third : List ActionItem → ℕ
sum_of_third [] = 0
sum_of_third (i ∷ items) =
    if nat_eq i.priority 3 then i.count + sum_of_third items else sum_of_third items

pub to_flag : ActionItem → ChecklistItem
to_flag i = record { type = flag i.type; label = i.label; count = i.count; priority = i.priority }

pub standing : List ChecklistItem
standing =
    record {
      type = references;
      label = "Confirm every source you drew on appears in your reference list.";
      count = 1;
      priority = 3;
    }
    ∷ record {
      type = disclosure;
      label = "Add an AI-use disclosure if the journal's policy asks for one.";
      count = 1;
      priority = 4;
    }
    ∷ []

pub needs_action_of : Option Summary → ℕ
needs_action_of none = 0
needs_action_of (some s) = s.needs_action

pub items_of : Option Summary → List ActionItem
items_of none = []
items_of (some s) = s.action_items

-- The texts `DISCLOSURE` and `FOOTER` and the note on AI text are the same in every report.
unfoldable pub build_report : Overall → Option Summary → Text → Report
unfolding sum_of_third to_flag standing needs_action_of items_of bands sort
build_report overall summary coverage =
    let items = items_of summary in
    let needs_action = needs_action_of summary in
    let review_count = overall.bands.review_count in
    let band =
      if ltb 0 needs_action
      then act
      else if ltb 0 (sum_of_third items) || ltb 0 review_count
      then look
      else clear in
    record {
      band = band;
      label = (bands band).0;
      reason = (bands band).1;
      needs_action = needs_action;
      review_count = review_count;
      confident_pct = overall.bands.confident_pct;
      similarity_pct = overall.similarity_pct;
      checklist = map to_flag (sort item_key items) ++ standing;
      coverage = coverage;
    }
