-- ===== src/Matcher/Sentences.antt =====
-- `split_sentences`, `_is_sentence_end` and `PlagiarismMatcher._sentences` of
-- backend/services/plagiarism_matcher.py, with the patterns `_SENT_END_RE` and `_ABBREV_TAIL_RE` as
-- scanners. `str.isdigit` and `str.islower` of a character are arguments.
pub mod Ends
pub mod Tiles
pub mod Trimmed
use p_r_i_s_m.Prelude.{
  ℕ, zero, suc, ◌+◌, ◌-◌, List, [], ◌∷◌, ◌++◌, Bool, true, false, not, ◌&&◌, ◌||◌, Option, none,
  some, ltb, leb, nat_eq, length, get_elem?, take, drop, if◌then◌else◌, max,
}
use p_r_i_s_m.Text.{Text, Unicode, slice, strip, strip_left, codes, text_eq}
use p_r_i_s_m.Matcher.Tokens.{find_words}
use p_r_i_s_m.Matcher.Check.{is_blank}

pub record CharTests : Type 0 where
  pub is_digit : ℕ → Bool
  pub is_lower : ℕ → Bool

-- `[.!?…]` and `["'’”)\]]`
unfoldable pub is_terminator : ℕ → Bool
is_terminator c = nat_eq c 46 || nat_eq c 33 || nat_eq c 63 || nat_eq c 8230

unfoldable pub is_closer : ℕ → Bool
is_closer c =
    nat_eq c 34 || nat_eq c 39 || nat_eq c 8217 || nat_eq c 8221 || nat_eq c 41 || nat_eq c 93

-- Where a match of `[.!?…]+["'’”)\]]*|\n+` stands: not begun, or begun at an offset.
pub data Scan : Type 0 where
  idle : Scan
  terminators closers newlines : ℕ → Scan

unfoldable pub start_at : ℕ → ℕ → Scan
unfolding is_terminator
start_at pos c =
    if is_terminator c then terminators pos else if nat_eq c 10 then newlines pos else idle

-- the match that ends before `c`, and the state behind `c`
unfoldable pub scan_step : Scan → ℕ → ℕ → List (ℕ × ℕ) × Scan
unfolding start_at is_closer
scan_step idle pos c = ([], start_at pos c)
scan_step (terminators s) pos c =
    if is_terminator c
    then ([], terminators s)
    else if is_closer c
    then ([], closers s)
    else ((s, pos) ∷ [], start_at pos c)
scan_step (closers s) pos c =
    if is_closer c then ([], closers s) else ((s, pos) ∷ [], start_at pos c)
scan_step (newlines s) pos c =
    if nat_eq c 10 then ([], newlines s) else ((s, pos) ∷ [], start_at pos c)

unfoldable pub scan_end : Scan → ℕ → List (ℕ × ℕ)
scan_end idle pos = []
scan_end (terminators s) pos = (s, pos) ∷ []
scan_end (closers s) pos = (s, pos) ∷ []
scan_end (newlines s) pos = (s, pos) ∷ []

-- `_SENT_END_RE.finditer`, from offset `pos` on
unfoldable pub find_ends : ℕ → Scan → Text → List (ℕ × ℕ)
unfolding scan_step scan_end
find_ends pos state [] = scan_end state pos
find_ends pos state (c ∷ text) =
    let (found, state') = scan_step state pos c in found ++ find_ends (suc pos) state' text

unfoldable pub is_upper_ascii : ℕ → Bool
is_upper_ascii c = leb 65 c && leb c 90

unfoldable pub is_letter_ascii : ℕ → Bool
unfolding is_upper_ascii
is_letter_ascii c = is_upper_ascii c || (leb 97 c && leb c 122)

-- What `([A-Za-z][A-Za-z.]*)` captures of a text in front of its last period, and nothing where the
-- pattern finds nothing; `token` is what was read so far.
unfoldable pub tail_token : Text → Text → Text
unfolding is_letter_ascii
tail_token token [] = token
tail_token token (c ∷ text) =
    tail_token
      (if is_letter_ascii c
        then token ++ c ∷ []
        else if nat_eq c 46 && ltb 0 (length token)
        then token ++ c ∷ []
        else [])
      text

-- `token.replace(".", "").lower()`, of letters and periods
unfoldable pub bare : Text → Text
unfolding is_upper_ascii
bare [] = []
bare (c ∷ token) =
    let rest = bare token in
    if nat_eq c 46 then rest else (if is_upper_ascii c then c + 32 else c) ∷ rest

-- `_ABBREVIATIONS`
abbrev abbreviations : List Text
abbreviations =
    codes "eg"
    ∷ codes "ie"
    ∷ codes "etal"
    ∷ codes "al"
    ∷ codes "cf"
    ∷ codes "fig"
    ∷ codes "figs"
    ∷ codes "eq"
    ∷ codes "eqs"
    ∷ codes "no"
    ∷ codes "nos"
    ∷ codes "pp"
    ∷ codes "vs"
    ∷ codes "viz"
    ∷ codes "ca"
    ∷ codes "approx"
    ∷ codes "est"
    ∷ codes "ref"
    ∷ codes "refs"
    ∷ codes "sec"
    ∷ codes "secs"
    ∷ codes "dr"
    ∷ codes "prof"
    ∷ codes "mr"
    ∷ codes "mrs"
    ∷ codes "ms"
    ∷ codes "st"
    ∷ codes "jr"
    ∷ codes "sr"
    ∷ codes "inc"
    ∷ codes "ltd"
    ∷ codes "co"
    ∷ codes "corp"
    ∷ codes "dept"
    ∷ codes "univ"
    ∷ codes "vol"
    ∷ codes "vols"
    ∷ codes "ed"
    ∷ codes "eds"
    ∷ codes "edn"
    ∷ codes "repr"
    ∷ codes "etc"
    ∷ codes "resp"
    ∷ codes "ibid"
    ∷ codes "jan"
    ∷ codes "feb"
    ∷ codes "mar"
    ∷ codes "apr"
    ∷ codes "jun"
    ∷ codes "jul"
    ∷ codes "aug"
    ∷ codes "sep"
    ∷ codes "sept"
    ∷ codes "oct"
    ∷ codes "nov"
    ∷ codes "dec"
    ∷ []

pub is_one_of : Text → List Text → Bool
is_one_of t [] = false
is_one_of t (s ∷ texts) = text_eq s t || is_one_of t texts

-- `c.isdigit()` and `c.islower()` of a slice of at most one character
unfoldable pub holds_first : (ℕ → Bool) → Text → Bool
holds_first test [] = false
holds_first test (c ∷ text) = test c

-- whether the token before a period keeps it from ending a sentence
unfoldable pub is_abbreviated : Text → Bool
unfolding is_one_of bare is_upper_ascii holds_first
is_abbreviated token =
    ltb 0 (length token)
    && (is_one_of (bare token) abbreviations
        || (nat_eq (length token) 1 && holds_first is_upper_ascii token))

-- `text[i - 1:i]`, which is empty for `i = 0`
unfoldable pub char_before : Text → ℕ → Text
char_before text zero = []
char_before text (suc i) = slice text i (suc i)

-- `Unit`
pub record Sentence : Type 0 where
  pub text : Text
  pub start : ℕ
  pub stop : ℕ

module _ (u : Unicode) where
  -- the trimmed sentence of a span
  unfoldable pub unit_at : Text → ℕ × ℕ → Sentence
  unit_at text (raw_start, raw_end) =
      let seg = slice text raw_start raw_end in
      let start = raw_start + (length seg - length (strip_left u seg)) in
      let stop = start + length (strip u seg) in
      record { text = slice text start stop; start = start; stop = stop }

  unfoldable pub keep_units : ℕ → Text → List (ℕ × ℕ) → List Sentence
  unfolding unit_at
  keep_units min_words text [] = []
  keep_units min_words text (span ∷ spans) =
      let unit = unit_at text span in
      let rest = keep_units min_words text spans in
      if leb min_words (length (find_words u unit.text)) then unit ∷ rest else rest

module _ (u : Unicode) (ch : CharTests) where
  -- `_is_sentence_end`, of the match from `start` to `stop`
  unfoldable pub is_sentence_end : Text → ℕ → ℕ → Bool
  unfolding holds_first char_before is_abbreviated tail_token text_eq
  is_sentence_end text start stop =
      if not (text_eq (slice text start stop) (codes "."))
      then true
      else if holds_first ch.is_digit (char_before text start)
          && holds_first ch.is_digit (slice text (start + 1) (start + 2))
      then false
      else if is_abbreviated (tail_token [] (slice text (start - 24) start))
      then false
      else not (holds_first ch.is_lower (strip_left u (slice text stop (stop + 3))))

  -- the guard of the loop of `split_sentences`
  unfoldable pub ends_sentence : Text → ℕ × ℕ → Bool
  unfolding holds_first is_sentence_end
  ends_sentence text (start, stop) =
      holds_first (λ c. nat_eq c 10) (slice text start stop) || is_sentence_end text start stop

  -- the loop of `split_sentences`, over the matches that are left, and what follows it
  unfoldable pub collect : Text → ℕ → List (ℕ × ℕ) → List (ℕ × ℕ)
  unfolding ends_sentence
  collect text start [] = if is_blank u (drop start text) then [] else (start, length text) ∷ []
  collect text start (m ∷ ms) =
      let ends = ends_sentence text m in
      let rest = collect text (if ends then m.1 else start) ms in
      if ends && not (is_blank u (slice text start m.1)) then (start, m.1) ∷ rest else rest

  unfoldable pub split_sentences : Text → List (ℕ × ℕ)
  unfolding collect find_ends
  split_sentences text = collect text 0 (find_ends 0 idle text)

  -- `_sentences`
  unfoldable pub sentences : ℕ → Text → List Sentence
  unfolding keep_units split_sentences
  sentences min_words text = keep_units u min_words text (split_sentences text)
