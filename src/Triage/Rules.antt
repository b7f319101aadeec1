-- ===== src/Triage/Rules.antt =====
-- `RULES` of backend/services/triage.py.
use p_r_i_s_m.Prelude.{
  zero, suc, true, ℕ, String, ◌≡◌, refl, ◌↔◌, ◌∙◌, ap, sym, Eq, nat_eq, nat_eq_iff,
}

-- The keys of `RULES`, in their order.
pub data RuleType : Type 0 where
  verbatim_uncited paraphrase_uncited verbatim_cited_unquoted quoted_uncited paraphrase_cited
        needs_review common_phrase quoted_cited :
      RuleType

pub record Rule : Type 0 where
  pub type : RuleType
  pub priority : ℕ
  pub label : String
  pub what : String
  pub fix : String

unfoldable pub rules : RuleType → Rule
rules verbatim_uncited = record {
  type = verbatim_uncited;
  priority = 1;
  label = "Word-for-word, not cited";
  what =
      "This passage matches a source word-for-word and there is no citation nearby and no quotation marks.";
  fix =
      "Either put it in quotation marks and cite the source, or restate the idea in your own words and cite the source. Do not just change a few words — that is still copying.";
}
rules paraphrase_uncited = record {
  type = paraphrase_uncited;
  priority = 1;
  label = "Close paraphrase, no citation";
  what = "This passage closely restates a source and no citation was found nearby.";
  fix =
      "Add a citation to the source. If the wording tracks the original closely, rewrite it from your own understanding — with the citation kept.";
}
rules verbatim_cited_unquoted = record {
  type = verbatim_cited_unquoted;
  priority = 2;
  label = "Cited, but not quoted";
  what =
      "The source is cited nearby, but the text is copied word-for-word without quotation marks.";
  fix =
      "If you want the exact words, put them in quotation marks (check your journal's limit on quotation length). Otherwise restate them in your own words and keep the citation.";
}
rules quoted_uncited = record {
  type = quoted_uncited;
  priority = 2;
  label = "Quoted, no citation";
  what = "The passage is in quotation marks, but no citation was found nearby.";
  fix =
      "Add the citation right after the quotation and make sure the source is in your reference list.";
}
rules paraphrase_cited = record {
  type = paraphrase_cited;
  priority = 3;
  label = "Cited paraphrase";
  what =
      "This passage restates a cited source. That is normal scholarly practice if the words are genuinely yours.";
  fix =
      "Compare it with the source: if sentence structure and phrasing mirror the original, rework it in your own words. Keep the citation.";
}
rules needs_review = record {
  type = needs_review;
  priority = 3;
  label = "Needs your review";
  what =
      "Similarity is in the inconclusive band: shared terminology or standard phrasing can look like this by coincidence.";
  fix =
      "Read both side by side. If you did draw on this source, cite it. If not, no change is needed.";
}
rules common_phrase = record {
  type = common_phrase;
  priority = 4;
  label = "Common phrasing";
  what =
      "A short, formulaic phrase that appears in several sources or is mostly function words — typical boilerplate.";
  fix =
      "Usually no action. If it is a definition or a methods statement copied from one specific source, cite it.";
}
rules quoted_cited = record {
  type = quoted_cited;
  priority = 5;
  label = "Attributed quotation";
  what = "The passage is quoted and cited — properly attributed.";
  fix = "Nothing to fix. Check the journal's limit on quotation length if the quotation is long.";
}

abbrev pub priority : RuleType → ℕ
unfolding rules
priority t = (rules t).priority

-- `==` on the keys
abbrev pub position : RuleType → ℕ
position verbatim_uncited = 0
position paraphrase_uncited = 1
position verbatim_cited_unquoted = 2
position quoted_uncited = 3
position paraphrase_cited = 4
position needs_review = 5
position common_phrase = 6
position quoted_cited = 7

at_position : ℕ → RuleType
at_position zero = verbatim_uncited
at_position (suc zero) = paraphrase_uncited
at_position (suc (suc zero)) = verbatim_cited_unquoted
at_position (suc (suc (suc zero))) = quoted_uncited
at_position (suc (suc (suc (suc zero)))) = paraphrase_cited
at_position (suc (suc (suc (suc (suc zero))))) = needs_review
at_position (suc (suc (suc (suc (suc (suc zero)))))) = common_phrase
at_position _ = quoted_cited

at_position_lem : (t : RuleType) → at_position (position t) ≡ t
unfolding at_position
at_position_lem verbatim_uncited = refl
at_position_lem paraphrase_uncited = refl
at_position_lem verbatim_cited_unquoted = refl
at_position_lem quoted_uncited = refl
at_position_lem paraphrase_cited = refl
at_position_lem needs_review = refl
at_position_lem common_phrase = refl
at_position_lem quoted_cited = refl

pub position_iff : (s t : RuleType) → (nat_eq (position s) (position t) ≡ true) ↔ (s ≡ t)
position_iff s t = (
  (λ h.
      sym (at_position_lem s)
      ∙ ap at_position ((nat_eq_iff (position s) (position t)).0 h)
      ∙ at_position_lem t),
  λ p. (nat_eq_iff (position s) (position t)).1 (ap position p),
)

instance abbrev pub Eq-RuleType : Eq RuleType
Eq-RuleType = record { beq = λ s t. nat_eq (position s) (position t); beq_iff = position_iff }
