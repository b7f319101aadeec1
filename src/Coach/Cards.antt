-- ===== src/Coach/Cards.antt =====
-- The card of a flag, and the filter behind the model: `_verbatim_run`, `post_filter` and
-- `static_card` of backend/services/coach.py. The pattern `_EVASION_RE` is an argument.
pub mod Copied
pub mod Fields
pub mod Filtered
use p_r_i_s_m.Prelude.{
  ℕ, zero, suc, ◌+◌, ◌-◌, List, [], ◌∷◌, map, Bool, true, false, ◌||◌, ltb, nat_eq, length,
  if◌then◌else◌,
}
use p_r_i_s_m.Text.{Text, Unicode, codes, strip}
use p_r_i_s_m.Matcher.Tokens.{Token, tokenize}
use p_r_i_s_m.Matcher.Verbatim.{gram, same_gram}
use p_r_i_s_m.Triage.Rules.{RuleType, rules}

-- `FIELDS`
pub data Field : Type 0 where
  what_it_is why_flagged honest_fix do_not : Field

abbrev pub fields : List Field
fields = what_it_is ∷ why_flagged ∷ honest_fix ∷ do_not ∷ []

pub record Card : Type 0 where
  pub what : Text
  pub why : Text
  pub fix : Text
  pub dont : Text

-- `card[key]`
unfoldable pub text_of : Field → Card → Text
text_of what_it_is card = card.what
text_of why_flagged card = card.why
text_of honest_fix card = card.fix
text_of do_not card = card.dont

-- `card[key] = val`
unfoldable pub with_text : Field → Text → Card → Card
with_text what_it_is val card = record card { what = val }
with_text why_flagged val card = record card { why = val }
with_text honest_fix val card = record card { fix = val }
with_text do_not val card = record card { dont = val }

-- `tuple(a[i:i + k]) in grams`, where `left` positions of `b` are left and the next one is `j`
unfoldable pub has_gram : ℕ → List Text → List Text → ℕ → ℕ → Bool
has_gram k g b zero j = false
has_gram k g b (suc left) j = same_gram g (gram k b j) || has_gram k g b left (suc j)

-- the `any`, where `left` positions of `a` are left and the next one is `i`
unfoldable pub any_gram : ℕ → List Text → List Text → ℕ → ℕ → Bool
unfolding has_gram
any_gram k a b zero i = false
any_gram k a b (suc left) i =
    has_gram k (gram k a i) b (length b + 1 - k) 0 || any_gram k a b left (suc i)

-- `_verbatim_run`, on the folded words
unfoldable pub shares_run : ℕ → List Text → List Text → Bool
unfolding any_gram
shares_run k a b =
    if ltb (length a) k || ltb (length b) k then false else any_gram k a b (length a + 1 - k) 0

unfoldable pub norms : Unicode → Text → List Text
norms u text = map (λ (t : Token). t.norm) (tokenize u text)

unfoldable pub verbatim_run : Unicode → Text → Text → ℕ → Bool
unfolding shares_run norms
verbatim_run u text source min_words = shares_run min_words (norms u text) (norms u source)

-- `_MAX_FIELD_CHARS`
abbrev pub max_field_chars : ℕ
max_field_chars = 600

module _ (u : Unicode) (evades : Text → Bool) (source_excerpt doc_excerpt : Text)
    (min_words : ℕ) where
  -- `bad`, of a text that is stripped
  unfoldable pub is_bad : Text → Bool
  unfolding verbatim_run
  is_bad val =
      nat_eq (length val) 0
      || ltb max_field_chars (length val)
      || evades val
      || verbatim_run u val source_excerpt min_words
      || verbatim_run u val doc_excerpt min_words

  -- the loop of `post_filter`, over the fields that are left: the card, and the fields replaced
  unfoldable pub filter_fields : Card → List Field → Card → Card × List Field
  unfolding is_bad text_of with_text
  filter_fields fallback [] card = (card, [])
  filter_fields fallback (key ∷ keys) card =
      let bad = is_bad (strip u (text_of key card)) in
      let (card', replaced) =
        filter_fields fallback keys
          (if bad then with_text key (text_of key fallback) card else card) in
      (card', if bad then key ∷ replaced else replaced)

  unfoldable pub post_filter : Card → Card → Card × List Field
  unfolding filter_fields
  post_filter fallback card = filter_fields fallback fields card

-- `static_card`
unfoldable pub static_card : RuleType → Card
unfolding rules
static_card t = record {
  what = codes (rules t).what;
  why =
      codes
        "Classified by rule from quotation marks, nearby citation markers, the confidence band and cross-source repetition.";
  fix = codes (rules t).fix;
  dont =
      codes
        "Do not just change a few words and leave it — that is still copying, and it hides the problem from you rather than fixing it.";
}
