-- ===== src/Coach/Select.antt =====
-- Which flags get a call, and what the model is told: `_select`, `_cache_key` and `_user_prompt` of
-- backend/services/coach.py. The digest and the encoding as UTF-8 are arguments.
pub mod Chosen
use p_r_i_s_m.Prelude.{
  ℕ, suc, List, [], ◌∷◌, ◌++◌, Bool, true, false, ◌&&◌, ◌||◌, Option, none, some, String, ltb,
  nat_eq, take, if◌then◌else◌, sort_by,
}
use p_r_i_s_m.Text.{Text, codes, decimal}
use p_r_i_s_m.Matcher.Types.{Match, Confidence, confident, review}
use p_r_i_s_m.Triage.Rules.{
  RuleType, Rule, verbatim_uncited, paraphrase_uncited, verbatim_cited_unquoted, quoted_uncited,
  paraphrase_cited, needs_review, common_phrase, quoted_cited,
}
use p_r_i_s_m.Triage.Signals.{Signals}
use p_r_i_s_m.Triage.Summary.{Triage}
use p_r_i_s_m.Coach.Cards.{Card, Field}

-- `m["coach"]`; the two keys that are always true are left out.
pub record Coached : Type 0 where
  pub card : Card
  pub filtered : List Field
  pub model : Text
  pub cached : Bool

-- A match as the coach sees it. A missing triage is `none`.
pub record Flag : Type 0 where
  pub match : Match
  pub triage : Option Triage
  pub coach : Option Coached

-- `_COACHABLE`
unfoldable pub is_coachable_type : RuleType → Bool
is_coachable_type common_phrase = false
is_coachable_type quoted_cited = false
is_coachable_type _ = true

unfoldable pub is_coachable_triage : Option Triage → Bool
unfolding is_coachable_type
is_coachable_triage none = false
is_coachable_triage (some t) = is_coachable_type t.rule.type

unfoldable pub is_coachable : ℕ × Flag → Bool
unfolding is_coachable_triage
is_coachable (n, flag) = is_coachable_triage flag.triage

-- `(m.get("triage") or {}).get("priority", 9)`
unfoldable pub priority_of : Option Triage → ℕ
priority_of none = 9
priority_of (some t) = t.rule.priority

-- Whether the key of the first is less than that of the second.
unfoldable pub goes_before : ℕ × Flag → ℕ × Flag → Bool
unfolding priority_of
goes_before (_, f) (_, g) =
    let p = priority_of f.triage in
    let q = priority_of g.triage in
    ltb p q || (nat_eq p q && ltb g.match.similarity f.match.similarity)

-- The flags with their positions in the list, by which the code's references to them are modelled.
unfoldable pub number : ℕ → List Flag → List (ℕ × Flag)
number n [] = []
number n (flag ∷ flags) = (n, flag) ∷ number (suc n) flags

unfoldable pub candidates : List (ℕ × Flag) → List (ℕ × Flag)
unfolding is_coachable
candidates [] = []
candidates (c ∷ cs) = let rest = candidates cs in if is_coachable c then c ∷ rest else rest

-- `_select`
unfoldable pub select : List Flag → ℕ → List (ℕ × Flag)
unfolding candidates sort_by goes_before number
select flags limit = take limit (sort_by goes_before (candidates (number 0 flags)))

-- the keys of `RULES`
unfoldable pub name_of : RuleType → Text
name_of verbatim_uncited = codes "verbatim_uncited"
name_of paraphrase_uncited = codes "paraphrase_uncited"
name_of verbatim_cited_unquoted = codes "verbatim_cited_unquoted"
name_of quoted_uncited = codes "quoted_uncited"
name_of paraphrase_cited = codes "paraphrase_cited"
name_of needs_review = codes "needs_review"
name_of common_phrase = codes "common_phrase"
name_of quoted_cited = codes "quoted_cited"

-- the loop of `_cache_key`: all that is handed to the digest
unfoldable pub key_bytes : (Text → List ℕ) → List Text → List ℕ
key_bytes utf8 [] = []
key_bytes utf8 (part ∷ parts) = utf8 part ++ 31 ∷ key_bytes utf8 parts

unfoldable pub cache_key : (Text → List ℕ) → (List ℕ → Text) → Text → RuleType → Text → Text → Text
unfolding key_bytes name_of
cache_key utf8 sha1 model rule_type doc_excerpt source_excerpt =
    sha1 (key_bytes utf8 (model ∷ name_of rule_type ∷ doc_excerpt ∷ source_excerpt ∷ []))

-- `_MAX_EXCERPT_CHARS`
abbrev pub max_excerpt_chars : ℕ
max_excerpt_chars = 700

-- a bool, and a band, in an f-string
unfoldable pub shown_bool : Bool → Text
shown_bool true = codes "True"
shown_bool false = codes "False"

unfoldable pub shown_band : Confidence → Text
shown_band confident = codes "confident"
shown_band review = codes "review"

-- `_user_prompt`; `band` is the key that `coach_matches` adds to the signals.
unfoldable pub user_prompt : Rule → Text → Text → Signals → Confidence → Text
unfolding name_of shown_bool shown_band decimal
user_prompt rule doc_excerpt source_excerpt signals band =
    codes "Classification: "
    ++ (name_of rule.type
        ++ (codes " ("
            ++ (codes rule.label
                ++ (codes ").\nSignals: quoted="
                    ++ (shown_bool signals.quoted
                        ++ (codes ", cited_nearby="
                            ++ (shown_bool signals.cited
                                ++ (codes ", confidence_band="
                                    ++ (shown_band band
                                        ++ (codes ", shared_by_sources="
                                            ++ (decimal signals.shared_by_sources
                                                ++ (codes ", numeric_conflict="
                                                    ++ (shown_bool signals.numeric_conflict
                                                        ++ (codes ".\n\nAUTHOR'S PASSAGE:\n"
                                                            ++ (take max_excerpt_chars doc_excerpt
                                                            ++ (codes
                                                            "\n\nMATCHED SOURCE PASSAGE:\n"
                                                            ++ (take max_excerpt_chars
                                                            source_excerpt
                                                            ++ codes "\n")))))))))))))))))
