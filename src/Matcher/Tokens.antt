-- ===== src/Matcher/Tokens.antt =====
-- `tokenize` of backend/services/plagiarism_matcher.py, with the pattern `_WORD_RE` as a scanner.
pub mod Spans
use p_r_i_s_m.Prelude.{
  ℕ, suc, ◌+◌, List, [], ◌∷◌, map, Bool, true, false, ◌&&◌, ◌||◌, Option, none, some, nat_eq,
  if◌then◌else◌,
}
use p_r_i_s_m.Text.{Text, slice, Unicode}

pub record Token : Type 0 where
  pub norm : Text
  pub start : ℕ
  pub stop : ℕ

module _ (u : Unicode) where
  -- `['’]`
  is_apostrophe : ℕ → Bool
  is_apostrophe c = nat_eq c 39 || nat_eq c 8217

  starts_word : Text → Bool
  starts_word [] = false
  starts_word (c ∷ _) = u.is_word c

  -- Whether a match of `\w+(?:['’]\w+)*` that has begun goes on over `c`, with `rest` behind it.
  goes_on : ℕ → Text → Bool
  unfolding is_apostrophe starts_word
  goes_on c rest = u.is_word c || (is_apostrophe c && starts_word rest)

  -- `_WORD_RE.finditer`: the spans from offset `pos` on; `some s` is a match that began at `s`.
  word_spans : ℕ → Option ℕ → Text → List (ℕ × ℕ)
  unfolding goes_on
  word_spans pos none [] = []
  word_spans pos (some s) [] = (s, pos) ∷ []
  word_spans pos none (c ∷ rest) =
      word_spans (suc pos) (if u.is_word c then some pos else none) rest
  word_spans pos (some s) (c ∷ rest) = elim (goes_on c rest) [
    | true ↦ word_spans (suc pos) (some s) rest
    | false ↦ (s, pos) ∷ word_spans (suc pos) none rest
  ]

  unfoldable pub find_words : Text → List (ℕ × ℕ)
  unfolding word_spans
  find_words text = word_spans 0 none text

  token_at : Text → ℕ × ℕ → Token
  token_at text (s, e) = record { norm = u.fold (slice text s e); start = s; stop = e }

  unfoldable pub tokenize : Text → List Token
  unfolding find_words token_at
  tokenize text = map (token_at text) (find_words text)
