-- ===== src/Triage/Signals.antt =====
-- Signal extraction of backend/services/triage.py: citations, quotation marks, function words and
-- repetition across sources, and `classify`, which turns the signals into a rule.
use p_r_i_s_m.Prelude.{
  not, ℕ, suc, ◌+◌, ◌-◌, List, [], ◌∷◌, ◌++◌, map, Bool, true, false, ◌&&◌, ◌||◌, Option, none,
  some, String, leb, nat_eq, length, max, ◌==◌, if◌then◌else◌,
}
use p_r_i_s_m.Text.{Text, Eq-Text, Unicode, slice, codes}
use p_r_i_s_m.Dict.{Dict, assign}
use p_r_i_s_m.Prelude.{Eq-String}
use p_r_i_s_m.Matcher.Types.{
  SourceDoc, Match, MatchType, verbatim, paraphrase, translated, Confidence,
}
use p_r_i_s_m.Matcher.Coverage.{is_review}
use p_r_i_s_m.Matcher.Tokens.{find_words}
use p_r_i_s_m.Triage.Rules.{
  RuleType, verbatim_uncited, paraphrase_uncited, verbatim_cited_unquoted, quoted_uncited,
  paraphrase_cited, needs_review, common_phrase, quoted_cited,
}

-- The four patterns of a citation.
pub data Pattern : Type 0 where
  numeric author_year narrative superscript : Pattern

-- What Python brings: the regular expressions' matches, stripped of space at both ends, the two
-- foldings of a text, and a quotient rounded to thousandths.
pub record Python : Type 0 where
  pub unicode : Unicode
  pub find_all : Pattern → Text → List Text
  pub lower : Text → Text
  pub casefold : Text → Text
  pub thousandths : ℕ → ℕ → ℕ

pub record Paragraph : Type 0 where
  pub index : ℕ
  pub start : ℕ
  pub stop : ℕ
  pub text : Option Text
  pub page : Option ℕ

pub record Signals : Type 0 where
  pub quoted : Bool
  pub cited : Bool
  pub citation_markers : List Text
  pub shared_by_sources : ℕ
  pub stopword_ratio : ℕ
  pub words : ℕ
  pub numeric_conflict : Bool

-- `x in xs`
unfoldable pub is_in {ℓ} : {A : Type ℓ} → (A → A → Bool) → A → List A → Bool
is_in eq x [] = false
is_in eq x (y ∷ ys) = eq y x || is_in eq x ys

-- the loop that drops repeated citations and keeps their order
pub dedupe : List Text → List Text → List Text
unfolding is_in
dedupe seen [] = []
dedupe seen (f ∷ fs) =
    let rest = dedupe (f ∷ seen) fs in
    let rest' = dedupe seen fs in if is_in (λ a b. a == b) f seen then rest' else f ∷ rest

-- `_OPEN_QUOTES` and `_CLOSE_QUOTES`
abbrev open_quotes : Text
open_quotes = 34 ∷ 8220 ∷ 8216 ∷ 39 ∷ 171 ∷ 8249 ∷ 8222 ∷ []

abbrev close_quotes : Text
close_quotes = 34 ∷ 8221 ∷ 8217 ∷ 39 ∷ 187 ∷ 8250 ∷ 8220 ∷ []

any_in : Text → Text → Bool
unfolding is_in
any_in quotes [] = false
any_in quotes (c ∷ cs) = is_in nat_eq c quotes || any_in quotes cs

-- `span[-1:]`
last_item : Text → Text
last_item [] = []
last_item (c ∷ []) = c ∷ []
last_item (c ∷ d ∷ cs) = last_item (d ∷ cs)

-- `is_quoted`; the test of the span's first or last character, which is one character or none
pub is_quoted : Text → ℕ → ℕ → Bool
unfolding any_in last_item
is_quoted doc start stop =
    let span = slice doc start stop in
    (any_in open_quotes (slice doc (start - 4) start) || any_in open_quotes (slice span 0 1))
    && (any_in close_quotes (slice doc stop (stop + 4)) || any_in close_quotes (last_item span))

-- `_STOPWORDS`
abbrev stopwords : List String
stopwords =
    "a" ∷ "an" ∷ "the" ∷ "and" ∷ "or" ∷ "but" ∷ "of" ∷ "to" ∷ "in" ∷ "on" ∷ "at" ∷ "by" ∷ "for"
    ∷ "with" ∷ "from" ∷ "as" ∷ "is" ∷ "are" ∷ "was" ∷ "were" ∷ "be" ∷ "been" ∷ "being" ∷ "this"
    ∷ "that" ∷ "these" ∷ "those" ∷ "it" ∷ "its" ∷ "we" ∷ "our" ∷ "they" ∷ "their" ∷ "he" ∷ "she"
    ∷ "his" ∷ "her" ∷ "you" ∷ "your" ∷ "i" ∷ "my" ∷ "which" ∷ "who" ∷ "whom" ∷ "whose" ∷ "what"
    ∷ "when" ∷ "where" ∷ "why" ∷ "how" ∷ "all" ∷ "any" ∷ "each" ∷ "both" ∷ "few" ∷ "more" ∷ "most"
    ∷ "other" ∷ "some" ∷ "such" ∷ "no" ∷ "nor" ∷ "not" ∷ "only" ∷ "own" ∷ "same" ∷ "so" ∷ "than"
    ∷ "too" ∷ "very" ∷ "can" ∷ "will" ∷ "just" ∷ "should" ∷ "now" ∷ "has" ∷ "have" ∷ "had" ∷ "do"
    ∷ "does" ∷ "did" ∷ "into" ∷ "over" ∷ "under" ∷ "between" ∷ "about" ∷ "after" ∷ "before"
    ∷ "during" ∷ "also" ∷ "may" ∷ "might" ∷ "must" ∷ "shall" ∷ []

-- `needle in text`
pub starts_with : Text → Text → Bool
starts_with [] t = true
starts_with (c ∷ s) [] = false
starts_with (c ∷ s) (d ∷ t) = nat_eq c d && starts_with s t

pub is_part : Text → Text → Bool
unfolding starts_with
is_part needle [] = starts_with needle []
is_part needle (c ∷ text) = starts_with needle (c ∷ text) || is_part needle text

-- `" ".join(words)`
join_words : List Text → Text
join_words [] = []
join_words (w ∷ []) = w
join_words (w ∷ v ∷ ws) = w ++ 32 ∷ join_words (v ∷ ws)

count_if {ℓ} : {A : Type ℓ} → (A → Bool) → List A → ℕ
count_if p [] = 0
count_if p (x ∷ xs) = if p x then suc (count_if p xs) else count_if p xs

module _ (py : Python) where
  -- `_WORD_RE.findall(text)`
  pub word_texts : Text → List Text
  unfolding find_words
  word_texts text = map (λ (s : ℕ × ℕ). slice text s.0 s.1) (find_words py.unicode text)

  pub find_citations : Text → List Text
  unfolding dedupe
  find_citations text = dedupe [] (
      py.find_all numeric text
      ++ py.find_all author_year text
      ++ py.find_all narrative text
      ++ py.find_all superscript text)

  pub stopword_ratio : Text → ℕ
  unfolding word_texts count_if is_in
  stopword_ratio text =
      let ws = map py.lower (word_texts text) in
      if nat_eq (length ws) 0
      then 0
      else py.thousandths (count_if (λ w. is_in (λ a b. a == b) w (map codes stopwords)) ws)
          (length ws)

  pub norm : Text → Text
  unfolding word_texts join_words
  norm text = join_words (word_texts (py.casefold text))

  -- `_paragraph_text`
  unfoldable pub paragraph_text : Text → List Paragraph → Match → Text
  paragraph_text doc [] m = slice doc (m.doc_start - 300) (m.doc_end + 300)
  paragraph_text doc (p ∷ ps) m = elim m.paragraph_index [
    | none ↦ slice doc (m.doc_start - 300) (m.doc_end + 300)
    | some pi ↦
        if nat_eq p.index pi
        then elim p.text [ some t ↦ t | none ↦ slice doc p.start p.stop ]
        else paragraph_text doc ps m
  ]

  unfoldable pub normalized : List SourceDoc → Dict String Text → Dict String Text
  unfolding assign norm
  normalized [] d = d
  normalized (s ∷ ss) d = normalized ss (assign s.id (norm s.text) d)

  is_verbatim : MatchType → Bool
  is_verbatim verbatim = true
  is_verbatim paraphrase = false
  is_verbatim translated = false

  -- `m.get("doc_excerpt") or doc_text[...]`: a missing and an empty excerpt are alike
  pub excerpt : Text → Match → Text
  excerpt doc m = elim m.doc_excerpt [ some (c ∷ t) ↦ c ∷ t | _ ↦ slice doc m.doc_start m.doc_end ]

  or_else : Text → Text → Text
  or_else [] t = t
  or_else (c ∷ s) t = c ∷ s

  -- the last statement of `collect_signals`: how many sources contain the passage
  pub count_shared : Text → Match → ℕ → Dict String Text → ℕ
  unfolding is_verbatim norm or_else count_if is_part excerpt
  count_shared doc m words d =
      let needle = norm (or_else m.source_excerpt (excerpt doc m)) in
      if is_verbatim m.match_type && (leb words 40 && not (nat_eq (length d) 0))
      then if nat_eq (length needle) 0
        then 1
        else max 1 (count_if (λ (e : String × Text). is_part needle e.1) d)
      else 1

  unfoldable pub collect_signals : Text → List Paragraph → Match → Dict String Text → Signals
  unfolding find_citations paragraph_text excerpt word_texts count_shared is_quoted stopword_ratio
  collect_signals doc paragraphs m d =
      let text = excerpt doc m in
      let words = length (word_texts text) in
      let markers = find_citations (paragraph_text doc paragraphs m) in
      record {
        quoted = is_quoted doc m.doc_start m.doc_end;
        cited = not (nat_eq (length markers) 0);
        citation_markers = markers;
        shared_by_sources = count_shared doc m words d;
        stopword_ratio = stopword_ratio text;
        words = words;
        numeric_conflict = m.numeric_conflict;
      }

-- The first test of `classify`: repeated across sources, or short and formulaic
pub is_common : Signals → Bool
is_common s = leb 2 s.shared_by_sources || (leb s.words 14 && leb 550 s.stopword_ratio)

-- `classify`; the rule is named by its key
unfoldable pub classify : MatchType → Confidence → Signals → RuleType
unfolding is_common is_review
classify verbatim c s =
    if is_common s
    then common_phrase
    else if s.quoted && s.cited
    then quoted_cited
    else if s.quoted
    then quoted_uncited
    else if s.cited
    then verbatim_cited_unquoted
    else verbatim_uncited
classify _ c s =
    if is_review c
    then needs_review
    else if s.quoted && s.cited
    then quoted_cited
    else if s.cited
    then paraphrase_cited
    else paraphrase_uncited
