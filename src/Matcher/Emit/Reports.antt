-- ===== src/Matcher/Emit/Reports.antt =====
-- What `_verbatim_matches` returns: it never fails on an index, and its matches are true copies.
use p_r_i_s_m.Prelude.{
  none, get_elem?-map, inl, inr, Bool-cases, ltb, ltb→lt, Bool-cases, ℕ, ◌+◌, ◌-◌, ◌≤◌, ◌<◌, ◌≡◌,
  ap, subst, List, [], ◌∷◌, some, get_elem?, length, arith, map, refl, Option, Memᴰ, All,
  of_mem-All,
}
use p_r_i_s_m.Text.{Text, Unicode}
use p_r_i_s_m.Matcher.Types.{SourceDoc, Match}
use p_r_i_s_m.Matcher.Tokens.{Token, tokenize}
use p_r_i_s_m.Matcher.Tokens.Spans.{Ascending, offsets, tokenize-Ascending}
use p_r_i_s_m.Matcher.Verbatim.{Anchor}
use p_r_i_s_m.Matcher.Verbatim.Runs.{Run}
use p_r_i_s_m.Matcher.Verbatim.Best.{Copied}
use p_r_i_s_m.Matcher.Verbatim.Anchors.{IsMatch}
use p_r_i_s_m.Matcher.Verbatim.Scan.{verbatim_anchors-IsMatch, verbatim_anchors-Covered}
use p_r_i_s_m.Matcher.Emit.{ltb, emit, emit_all, norms_of, verbatim_matches, ◌>>=◌}
use p_r_i_s_m.Matcher.Emit.Offsets.{at_least, tokens_in_order}
use p_r_i_s_m.Matcher.Emit.Copies.{spans, IsCopy, src_tokens, emit-IsCopy, emit_all-IsCopy}

cons_inv :
    (o : Option Match) (os : Option (List Match)) (ms : List Match)
    → (o >>= λ m. os >>= λ rest. some (m ∷ rest)) ≡ some ms
    → (m : Match) × (rest : List Match) × (o ≡ some m) × (os ≡ some rest) × (m ∷ rest ≡ ms)
cons_inv none os ms h = ground arith
cons_inv (some m) none ms h = ground arith
cons_inv (some m) (some rest) ms h = (m, rest, refl, refl, cc)

-- Every anchor that is emitted leaves its dict in the list.
emit_all-mem :
    (doc_tokens : List Token) (sources : List SourceDoc) (src_tokens : List (List Token))
    (anchors : List Anchor) (a : Anchor) (ms : List Match)
    → emit_all doc_tokens sources src_tokens anchors ≡ some ms
    → Memᴰ a anchors
    → (m : Match) × Memᴰ m ms × (emit doc_tokens sources src_tokens a ≡ some m)
unfolding emit_all
emit_all-mem dt ss st [] a ms e mem = elim mem [ ]
emit_all-mem dt ss st (b ∷ anchors) a ms e (Memᴰ.head p) =
    let (m, rest, f, g, q) = cons_inv (emit dt ss st b) (emit_all dt ss st anchors) ms e in
    (m, subst (λ (l : List Match). Memᴰ m l) q (Memᴰ.head refl), rw p f)
emit_all-mem dt ss st (b ∷ anchors) a ms e (Memᴰ.tail mem) =
    let (m, rest, f, g, q) = cons_inv (emit dt ss st b) (emit_all dt ss st anchors) ms e in
    let (m', mem', f') = emit_all-mem dt ss st anchors a rest g mem in
    (m', subst (λ (l : List Match). Memᴰ m' l) q (Memᴰ.tail mem'), f')

-- Between the first and the last token of a copy lies every token of the positions between.
token_inside :
    (hi : ℕ) (tokens : List Token) (i j : ℕ) (s t : Token)
    → Ascending 0 hi (offsets tokens)
    → i ≤ j
    → get_elem? tokens i ≡ some s
    → get_elem? tokens j ≡ some t
    → (s.start ≤ t.start) × (s.stop ≤ t.stop)
token_inside hi tokens i j s t asc le es et = elim (Bool-cases (ltb i j)) [
  | inl before ↦ omega (
    arith,
    tokens_in_order 0 hi tokens i j s t asc (ltb→lt i j before) es et,
    at_least 0 hi tokens i s asc es,
    at_least 0 hi tokens j t asc et,
  )
  | inr now ↦
      let q : i ≡ j = ground arith in
      let same : s ≡ t = cc (es, et, ap (get_elem? tokens) q) in
      omega (arith, ap (λ (x : Token). x.start) same, ap (λ (x : Token). x.stop) same)
]

-- what `check` calls: the tokens are those of the document's text
module _ (u : Unicode) (ngram min_words : ℕ) (doc_text : Text) (sources : List SourceDoc) where
  abbrev pub reported : Option (List Match)
  reported = verbatim_matches u ngram min_words (tokenize u doc_text) sources

  -- For every text and all sources the search returns a list of matches, with no index error. Each
  -- has at least the minimum of words and is a true copy of the source that it names, and the
  -- spans of the matches stand in ascending order in the document, none empty and none sharing an
  -- offset with another.
  pub verbatim_matches-IsCopy :
      0 < min_words
      → ngram ≤ min_words
      → (ms : List Match) × (reported ≡ some ms)
        × All (λ m. (min_words ≤ m.words) × IsCopy u (tokenize u doc_text) sources m) ms
        × Ascending 0 (length doc_text) (spans ms)
  unfolding verbatim_matches
  verbatim_matches-IsCopy pos le =
      let doc_tokens = tokenize u doc_text in
      let (ok, dis) =
        verbatim_anchors-IsMatch ngram min_words (norms_of doc_tokens)
          (map norms_of (src_tokens u doc_tokens sources)) pos le in
      emit_all-IsCopy u doc_tokens sources ngram min_words (length doc_text) 0 0 _ pos (omega arith)
        (tokenize-Ascending u doc_text) (λ i t h e. omega arith) ok dis

  -- Nothing is missed: a word of the document at which a copy of at least the minimum of words
  -- begins lies inside the span of a reported match.
  pub verbatim_matches_complete :
      0 < min_words
      → ngram ≤ min_words
      → (ms : List Match) → reported ≡ some ms
      → (d si len number : ℕ) (source : SourceDoc) (t : Token)
      → get_elem? sources number ≡ some source
      → min_words ≤ len
      → Run (norms_of (tokenize u doc_text)) (norms_of (tokenize u source.text)) d si len
      → get_elem? (tokenize u doc_text) d ≡ some t
      → (m : Match) × Memᴰ m ms × (m.doc_start ≤ t.start) × (t.stop ≤ m.doc_end)
  unfolding verbatim_matches
  verbatim_matches_complete pos le ms rep d si len number source t listed long run at_d =
      let dt = tokenize u doc_text in
      let st = src_tokens u dt sources in
      let asc = tokenize-Ascending u doc_text in
      let copied : Copied ngram min_words (norms_of dt) (map norms_of st) d len number si = (
        norms_of (tokenize u source.text),
        get_elem?-map norms_of st number
            (get_elem?-map (λ (s : SourceDoc). tokenize u s.text) sources number listed),
        run,
      ) in
      let (a, mem, lo, hi) =
        verbatim_anchors-Covered ngram min_words (norms_of dt) (map norms_of st) pos le d len number
          si long copied in
      let ok =
        of_mem-All (IsMatch ngram min_words (norms_of dt) (map norms_of st)) mem
          (verbatim_anchors-IsMatch ngram min_words (norms_of dt) (map norms_of st) pos le).0 in
      let (m, at_m, e) = emit_all-mem dt sources st _ a ms rep mem in
      let (m', e', w, c, at) =
        emit-IsCopy u dt sources ngram min_words a (omega (arith, ok.long_enough)) ok.copied in
      let same : m' ≡ m = cc (e, e') in
      let f =
        token_inside (length doc_text) dt c.di d c.doc_first t asc (omega (arith, at, lo))
          c.at_doc_first at_d in
      let l =
        token_inside (length doc_text) dt d (c.di + m'.words - 1) t c.doc_last asc
          (omega (arith, at, hi, w)) at_d c.at_doc_last in
      (
        m,
        at_m,
        omega (arith, c.doc_start, f.0, ap (λ (x : Match). x.doc_start) same),
        omega (arith, c.doc_end, l.1, ap (λ (x : Match). x.doc_end) same),
      )
