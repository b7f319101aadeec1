-- ===== src/Matcher/Tokens/Spans.antt =====
-- The spans that the tokenizer finds: ascending, disjoint, not empty and inside the text.
use p_r_i_s_m.Prelude.{
  ℕ, suc, ◌+◌, ◌≤◌, ◌<◌, List, [], ◌∷◌, map, Option, none, some, length, ◌≡◌, inl, inr, arith,
  Bool-cases, refl, if◌then◌else◌,
}
use p_r_i_s_m.Text.{Text, Unicode}
use p_r_i_s_m.Matcher.Tokens.{Token, goes_on, word_spans, find_words, token_at, tokenize}

-- Spans in ascending order, none empty, no two sharing an offset, all in `[lo, hi]`.
abbrev pub Ascending : ℕ → ℕ → List (ℕ × ℕ) → Type 0
Ascending lo hi [] = lo ≤ hi
Ascending lo hi ((s, e) ∷ spans) = (lo ≤ s) × (s < e) × Ascending e hi spans

-- what a match that has begun at `s` says of the offset `pos` that is read next
abbrev Begun : ℕ → ℕ → Option ℕ → Type 0
Begun lo pos none = lo ≤ pos
Begun lo pos (some s) = (lo ≤ s) × (s < pos)

module _ (u : Unicode) (hi : ℕ) where
  Begun-next : (lo pos : ℕ) (b : _) → lo ≤ pos → Begun lo (suc pos) (if b then some pos else none)
  Begun-next lo pos b h = ground arith

  word_spans-Ascending :
      (lo pos : ℕ) (cur : Option ℕ) (text : Text)
      → pos + length text ≡ hi
      → Begun lo pos cur
      → Ascending lo hi (word_spans u pos cur text)
  unfolding word_spans
  word_spans-Ascending lo pos none [] p b = omega arith
  word_spans-Ascending lo pos (some s) [] p b = (b.0, b.1, omega arith)
  word_spans-Ascending lo pos none (c ∷ rest) p b =
      word_spans-Ascending lo (suc pos) (if u.is_word c then some pos else none) rest (omega arith)
        (Begun-next lo pos (u.is_word c) b)
  word_spans-Ascending lo pos (some s) (c ∷ rest) p b = elim (Bool-cases (goes_on u c rest)) [
    | inl w ↦
        rw (w, word_spans)
          (word_spans-Ascending lo (suc pos) (some s) rest (omega arith) (b.0, omega arith))
    | inr w ↦
        rw (w, word_spans)
          (b.0, b.1, word_spans-Ascending pos (suc pos) none rest (omega arith) (omega arith))
  ]

-- the tokens' offsets
abbrev pub offsets : List Token → List (ℕ × ℕ)
offsets = map (λ t. (t.start, t.stop))

offsets-map :
    (u : Unicode) (text : Text) (spans : List (ℕ × ℕ))
    → offsets (map (token_at u text) spans) ≡ spans
unfolding token_at
offsets-map u text [] = refl
offsets-map u text (s ∷ spans) = rw (offsets-map u text spans)

-- Tokens never overlap, never are empty, stand in text order and lie inside the text.
pub tokenize-Ascending :
    (u : Unicode) (text : Text) → Ascending 0 (length text) (offsets (tokenize u text))
unfolding tokenize find_words
tokenize-Ascending u text =
    rw offsets-map (word_spans-Ascending u (length text) 0 0 none text (omega arith) (omega arith))
