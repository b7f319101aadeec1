-- ===== src/Matcher/Emit.antt =====
-- The dict that `_verbatim_matches` appends for a match, and `_context`, of
-- backend/services/plagiarism_matcher.py.
pub mod Offsets
pub mod Copies
pub mod Reports
use p_r_i_s_m.Prelude.{
  ℕ, suc, ◌+◌, ◌-◌, List, [], ◌∷◌, ◌++◌, map, Bool, true, false, Option, none, some, ltb, length,
  get_elem?, max, min, if◌then◌else◌,
}
use p_r_i_s_m.Text.{Text, Unicode, slice}
use p_r_i_s_m.Matcher.Types.{SourceDoc, Match, verbatim, confident}
use p_r_i_s_m.Matcher.Tokens.{Token, tokenize}
use p_r_i_s_m.Matcher.Verbatim.{Anchor, verbatim_anchors}

-- Indexing a list may raise `IndexError`: that is `none`.
infixl 5 ◌>>=◌
abbrev pub ◌>>=◌ {ℓ κ} : {A : Type ℓ} {B : Type κ} → Option A → (A → Option B) → Option B
none >>= f = none
some a >>= f = f a

abbrev ellipsis : Text
ellipsis = 8230 ∷ []

-- `_context(text, start, end, pad=140)`
pub context : Text → ℕ → ℕ → Text
context text start stop =
    let a = start - 140 in
    let b = min (length text) (stop + 140) in
    (if ltb 0 a then ellipsis else [])
    ++ slice text a b
    ++ (if ltb b (length text) then ellipsis else [])

unfoldable pub norms_of : List Token → List Text
norms_of = map (λ t. t.norm)

-- The dict of a verbatim match of `len` words in `src`, between the given tokens.
pub verbatim_match : ℕ → SourceDoc → Token → Token → Token → Token → Match
unfolding context
verbatim_match len src doc_first doc_last src_first src_last = record {
  match_type = verbatim;
  similarity = 10000;
  confidence = confident;
  numeric_conflict = false;
  words = len;
  doc_start = doc_first.start;
  doc_end = doc_last.stop;
  source_id = src.id;
  source_name = src.name;
  source_origin = src.origin;
  source_url = src.url;
  source_start = src_first.start;
  source_end = src_last.stop;
  source_excerpt = slice src.text src_first.start src_last.stop;
  source_context = context src.text src_first.start src_last.stop;
  doc_lang = none;
  source_lang = none;
  doc_excerpt = none;
  id = none;
  paragraph_index = none;
  page = none;
  rerank_score = none;
}

module _ (doc_tokens : List Token) (sources : List SourceDoc) (src_tokens : List (List Token)) where
  pub emit : Anchor → Option Match
  unfolding verbatim_match
  emit a = do
    src ← get_elem? sources a.src
    stoks ← get_elem? src_tokens a.src
    doc_first ← get_elem? doc_tokens a.di
    doc_last ← get_elem? doc_tokens (a.di + a.len - 1)
    src_first ← get_elem? stoks a.si
    src_last ← get_elem? stoks (a.si + a.len - 1)
    some (verbatim_match a.len src doc_first doc_last src_first src_last)

  pub emit_all : List Anchor → Option (List Match)
  unfolding emit
  emit_all [] = some []
  emit_all (a ∷ anchors) = do m ← emit a; ms ← emit_all anchors; some (m ∷ ms)

-- `_verbatim_matches`; `ngram` and `min_words` are the matcher's settings, already adjusted by
-- its constructor.
unfoldable pub verbatim_matches :
    Unicode → ℕ → ℕ → List Token → List SourceDoc → Option (List Match)
unfolding emit_all norms_of
verbatim_matches u ngram min_words doc_tokens sources =
    let src_tokens = map (λ (s : SourceDoc). tokenize u s.text) sources in
    emit_all doc_tokens sources src_tokens
      (verbatim_anchors ngram min_words (norms_of doc_tokens) (map norms_of src_tokens))
