-- ===== src/Report/Compare.antt =====
-- `compare` of backend/services/report.py: a check against an earlier one of the same manuscript.
-- The iteration order of a set of keys is not specified in Python; the model takes that of the dict.
use p_r_i_s_m.Prelude.{
  ℕ, ◌-◌, List, [], ◌∷◌, ◌≡◌, ◌↔◌, map, Bool, true, false, ◌&&◌, ◌||◌, Option, none, some, String,
  Eq, Eq-String, ◌==◌, ltb, leb, nat_eq, length, take, arith, if◌then◌else◌, sort_by,
}
use text.Mathlib.TextEquality.{eq_iff}
use p_r_i_s_m.Dict.{Dict, assign}
use p_r_i_s_m.Text.{Text, Eq-Text, Unicode, strip, text_eq, text_eq_iff}
use p_r_i_s_m.Matcher.Types.{Match, MatchType, verbatim, paraphrase, translated}
use p_r_i_s_m.Matcher.Coverage.{Overall}
use p_r_i_s_m.Triage.Rules.{RuleType}
use p_r_i_s_m.Triage.Summary.{Triage, Summary}
use p_r_i_s_m.Report.{Band, Report, needs_action_of}

-- A match with its triage, which may have been skipped.
abbrev pub Flagged : Type 0
Flagged = Match × Option Triage

-- The parts of a result that are compared.
pub record Compared : Type 0 where
  pub filename : Text
  pub overall : Overall
  pub triage_summary : Option Summary
  pub report : Report
  pub matches : List Flagged

-- `_WS.sub(" ", text)`; `in_run` is whether the last character was white space.
unfoldable pub collapse : Unicode → Bool → Text → Text
collapse u in_run [] = []
collapse u in_run (c ∷ text) = elim (u.is_space c) [
  | false ↦ c ∷ collapse u false text
  | true ↦ elim in_run [ true ↦ collapse u true text | false ↦ 32 ∷ collapse u true text ]
]

-- `_norm`; `casefold` is `str.casefold`.
unfoldable pub norm : Unicode → (Text → Text) → Text → Text
unfolding collapse strip
norm u casefold text = casefold (strip u (collapse u false text))

pub record Key : Type 0 where
  pub match_type : MatchType
  pub source_id : String
  pub excerpt : Text

unfoldable pub same_type : MatchType → MatchType → Bool
same_type verbatim verbatim = true
same_type paraphrase paraphrase = true
same_type translated translated = true
same_type _ _ = false

unfoldable pub same_key : Key → Key → Bool
unfolding same_type
same_key j k =
    same_type j.match_type k.match_type
    && (j.source_id == k.source_id && text_eq j.excerpt k.excerpt)

same_type_iff : (a b : MatchType) → (same_type a b ≡ true) ↔ (a ≡ b)
unfolding same_type
same_type_iff verbatim verbatim = ground arith
same_type_iff verbatim paraphrase = ground arith
same_type_iff verbatim translated = ground arith
same_type_iff paraphrase verbatim = ground arith
same_type_iff paraphrase paraphrase = ground arith
same_type_iff paraphrase translated = ground arith
same_type_iff translated verbatim = ground arith
same_type_iff translated paraphrase = ground arith
same_type_iff translated translated = ground arith

pub same_key_iff : (j k : Key) → (same_key j k ≡ true) ↔ (j ≡ k)
unfolding same_key
same_key_iff j k = ground (
  arith,
  same_type_iff j.match_type k.match_type,
  eq_iff j.source_id k.source_id,
  text_eq_iff j.excerpt k.excerpt,
)

instance abbrev pub Eq-Key : Eq Key
Eq-Key = record { beq = same_key; beq_iff = same_key_iff }

-- `d.keys() - other.keys()` and `d.keys() & other.keys()` ask for this.
unfoldable pub is_key : {V : Type 0} → Key → Dict Key V → Bool
is_key k [] = false
is_key k ((j, v) ∷ d) = (j == k) || is_key k d

-- `[d[k] for k in d.keys() - other.keys()]`
unfoldable pub missing_from : {V : Type 0} → Dict Key V → Dict Key V → List V
unfolding is_key
missing_from other [] = []
missing_from other ((k, v) ∷ d) =
    let rest = missing_from other d in if is_key k other then rest else v ∷ rest

-- `[d[k] for k in d.keys() & other.keys()]`
unfoldable pub shared_with : {V : Type 0} → Dict Key V → Dict Key V → List V
unfolding is_key
shared_with other [] = []
shared_with other ((k, v) ∷ d) =
    let rest = shared_with other d in if is_key k other then v ∷ rest else rest

-- the difference of two figures: `plus n`, or `minus n` below zero
pub data Delta : Type 0 where
  plus minus : ℕ → Delta

unfoldable pub change : ℕ → ℕ → Delta
change before after = if leb before after then plus (after - before) else minus (before - after)

pub record Snapshot : Type 0 where
  pub similarity_pct : ℕ
  pub confident_pct : ℕ
  pub review_count : ℕ
  pub match_count : ℕ
  pub needs_action : ℕ
  pub band : Band

pub record Example : Type 0 where
  pub match_type : MatchType
  pub source_name : Text
  pub source_excerpt : Text
  pub type : Option RuleType

pub record Comparison : Type 0 where
  pub previous_job_id : Option String
  pub same_filename : Bool
  pub before : Snapshot
  pub after : Snapshot
  pub similarity_change : Delta
  pub confident_change : Delta
  pub review_change : Delta
  pub match_change : Delta
  pub action_change : Delta
  pub resolved : ℕ
  pub new : ℕ
  pub remaining : ℕ
  pub resolved_examples : List Example
  pub new_examples : List Example

-- `_snapshot`
unfoldable pub snapshot : Compared → Snapshot
snapshot r = record {
  similarity_pct = r.overall.similarity_pct;
  confident_pct = r.overall.bands.confident_pct;
  review_count = r.overall.bands.review_count;
  match_count = r.overall.match_count;
  needs_action = needs_action_of r.triage_summary;
  band = r.report.band;
}

module _ (u : Unicode) (casefold : Text → Text) where
  -- `_key`
  unfoldable pub key_of : Flagged → Key
  unfolding norm
  key_of (m, t) = record {
    match_type = m.match_type;
    source_id = m.source_id;
    excerpt = take 300 (norm u casefold m.source_excerpt);
  }

  -- `{_key(m): m for m in matches}`
  unfoldable pub add_keys : List Flagged → Dict Key Flagged → Dict Key Flagged
  unfolding key_of assign
  add_keys [] d = d
  add_keys (f ∷ flagged) d = add_keys flagged (assign (key_of f) f d)

  -- `(m.get("triage") or {}).get("priority", 9)`
  priority_of : Option Triage → ℕ
  priority_of none = 9
  priority_of (some t) = t.rule.priority

  type_of : Option Triage → Option RuleType
  type_of none = none
  type_of (some t) = some t.rule.type

  -- the key of the sort in `brief`: the priority, then the falling similarity
  unfoldable pub comes_first : Flagged → Flagged → Bool
  unfolding priority_of
  comes_first (m, s) (n, t) =
      ltb (priority_of s) (priority_of t)
      || (nat_eq (priority_of s) (priority_of t) && ltb n.similarity m.similarity)

  example_of : Flagged → Example
  unfolding type_of
  example_of (m, t) = record {
    match_type = m.match_type;
    source_name = m.source_name;
    source_excerpt = take 120 m.source_excerpt;
    type = type_of t;
  }

  -- `brief`
  unfoldable pub brief : ℕ → List Flagged → List Example
  unfolding comes_first example_of sort_by
  brief examples flagged = map example_of (take examples (sort_by comes_first flagged))

  -- `compare`
  unfoldable pub compare : Option String → ℕ → Compared → Compared → Comparison
  unfolding add_keys missing_from shared_with brief snapshot change norm
  compare previous_job_id examples previous current =
      let prev = add_keys previous.matches [] in
      let cur = add_keys current.matches [] in
      let resolved = missing_from cur prev in
      let new = missing_from prev cur in
      let before = snapshot previous in
      let after = snapshot current in
      record {
        previous_job_id = previous_job_id;
        same_filename =
            text_eq (norm u casefold previous.filename) (norm u casefold current.filename);
        before = before;
        after = after;
        similarity_change = change before.similarity_pct after.similarity_pct;
        confident_change = change before.confident_pct after.confident_pct;
        review_change = change before.review_count after.review_count;
        match_change = change before.match_count after.match_count;
        action_change = change before.needs_action after.needs_action;
        resolved = length resolved;
        new = length new;
        remaining = length (shared_with prev cur);
        resolved_examples = brief examples resolved;
        new_examples = brief examples new;
      }
