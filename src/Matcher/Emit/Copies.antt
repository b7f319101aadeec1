-- ===== src/Matcher/Emit/Copies.antt =====
-- The dict of an anchor that is a copied run: it is emitted, and it is a true copy.
use p_r_i_s_m.Prelude.{
  inl, inr, Bool-cases, ltb, ltb→lt, Bool-cases, ℕ, ◌+◌, ◌-◌, ◌≤◌, ◌<◌, ◌≡◌, ap, subst, sym, ◌∙◌,
  List, [], ◌∷◌, some, get_elem?, get_elem?_inside, get_elem?-map_inv, length, length-map, arith,
  map, refl, All,
}
use p_r_i_s_m.Text.{Unicode, slice}
use p_r_i_s_m.Matcher.Types.{SourceDoc, Match}
use p_r_i_s_m.Matcher.Tokens.{Token, tokenize}
use p_r_i_s_m.Matcher.Tokens.Spans.{Ascending, offsets}
use p_r_i_s_m.Matcher.Verbatim.{Anchor}
use p_r_i_s_m.Matcher.Verbatim.Runs.{Run}
use p_r_i_s_m.Matcher.Verbatim.Best.{Copied}
use p_r_i_s_m.Matcher.Verbatim.Anchors.{IsMatch}
use p_r_i_s_m.Matcher.Verbatim.Scan.{Disjoint}
use p_r_i_s_m.Matcher.Emit.{ltb, emit, verbatim_match, emit_all, norms_of}
use p_r_i_s_m.Matcher.Emit.Offsets.{at_least, tokens_in_order}

-- the matches' spans in the document
abbrev pub spans : List Match → List (ℕ × ℕ)
spans = map (λ m. (m.doc_start, m.doc_end))

length-norms : (tokens : List Token) → length (norms_of tokens) ≡ length tokens
unfolding norms_of
length-norms tokens = length-map (λ t. t.norm) tokens

module _ (u : Unicode) (doc_tokens : List Token) (sources : List SourceDoc) where
  -- A match that tells the truth: `words` words of the document, from the token at `di` on, are
  -- those of the source that it names, from the token at `si` on, and its four offsets are those
  -- of the first and the last of these tokens.
  pub record IsCopy (m : Match) : Type 0 where
    pub di : ℕ
    pub si : ℕ
    pub number : ℕ
    pub source : SourceDoc
    pub listed : get_elem? sources number ≡ some source
    pub named : m.source_id ≡ source.id
    pub same_words : Run (norms_of doc_tokens) (norms_of (tokenize u source.text)) di si m.words
    pub doc_first : Token
    pub doc_last : Token
    pub source_first : Token
    pub source_last : Token
    pub at_doc_first : get_elem? doc_tokens di ≡ some doc_first
    pub at_doc_last : get_elem? doc_tokens (di + m.words - 1) ≡ some doc_last
    pub at_source_first : get_elem? (tokenize u source.text) si ≡ some source_first
    pub at_source_last : get_elem? (tokenize u source.text) (si + m.words - 1) ≡ some source_last
    pub doc_start : m.doc_start ≡ doc_first.start
    pub doc_end : m.doc_end ≡ doc_last.stop
    pub source_start : m.source_start ≡ source_first.start
    pub source_end : m.source_end ≡ source_last.stop
    pub excerpt : m.source_excerpt ≡ slice source.text m.source_start m.source_end

  abbrev pub src_tokens : List (List Token)
  src_tokens = map (λ (s : SourceDoc). tokenize u s.text) sources

  emit_lem :
      (a : Anchor) (src : SourceDoc) (stoks : List Token) (df dl sf sl : Token)
      → get_elem? sources a.src ≡ some src
      → get_elem? src_tokens a.src ≡ some stoks
      → get_elem? doc_tokens a.di ≡ some df
      → get_elem? doc_tokens (a.di + a.len - 1) ≡ some dl
      → get_elem? stoks a.si ≡ some sf
      → get_elem? stoks (a.si + a.len - 1) ≡ some sl
      → emit doc_tokens sources src_tokens a ≡ some (verbatim_match a.len src df dl sf sl)
  unfolding emit
  emit_lem a src stoks df dl sf sl p q r s t v = rw (p, q) (rw (r, s) (rw (t, v) refl))

  -- A copied run of the indices is emitted.
  pub emit-IsCopy :
      (k min_words : ℕ) (a : Anchor)
      → 0 < a.len
      → Copied k min_words (norms_of doc_tokens) (map norms_of src_tokens) a.di a.len a.src a.si
      → (m : Match) × (emit doc_tokens sources src_tokens a ≡ some m)
        × (m.words ≡ a.len)
        × (c : IsCopy m) × (c.di ≡ a.di)
  unfolding emit
  emit-IsCopy k min_words a pos (norms, e, r) =
      let (stoks, es, en) = get_elem?-map_inv norms_of src_tokens a.src e in
      let (src, ed, et) =
        get_elem?-map_inv (λ (s : SourceDoc). tokenize u s.text) sources a.src es in
      let run : Run (norms_of doc_tokens) (norms_of (tokenize u src.text)) a.di a.si a.len =
        rw (et, en) r in
      let (df, edf) =
        get_elem?_inside doc_tokens a.di (omega (arith, run.in_doc, length-norms doc_tokens)) in
      let (dl, edl) =
        get_elem?_inside doc_tokens (a.di + a.len - 1)
          (omega (arith, run.in_doc, length-norms doc_tokens)) in
      let (sf, esf) =
        get_elem?_inside (tokenize u src.text) a.si
          (omega (arith, run.in_source, length-norms (tokenize u src.text))) in
      let (sl, esl) =
        get_elem?_inside (tokenize u src.text) (a.si + a.len - 1)
          (omega (arith, run.in_source, length-norms (tokenize u src.text))) in
      let m = verbatim_match a.len src df dl sf sl in
      (
        m,
        emit_lem a src (tokenize u src.text) df dl sf sl ed (es ∙ ap some (sym et)) edf edl esf esl,
        refl,
        record {
          di = a.di;
          si = a.si;
          number = a.src;
          source = src;
          listed = ed;
          named = refl;
          same_words = run;
          doc_first = df;
          doc_last = dl;
          source_first = sf;
          source_last = sl;
          at_doc_first = edf;
          at_doc_last = edl;
          at_source_first = esf;
          at_source_last = esl;
          doc_start = refl;
          doc_end = refl;
          source_start = refl;
          source_end = refl;
          excerpt = refl;
        },
        refl,
      )

  emit_all-cons :
      (a : Anchor) (anchors : List Anchor) (m : Match) (ms : List Match)
      → emit doc_tokens sources src_tokens a ≡ some m
      → emit_all doc_tokens sources src_tokens anchors ≡ some ms
      → emit_all doc_tokens sources src_tokens (a ∷ anchors) ≡ some (m ∷ ms)
  unfolding emit_all
  emit_all-cons a anchors m ms e es = rw (e, es) refl

  -- A copy's span begins with its first token and ends with its last.
  pub IsCopy-span :
      (hi lo : ℕ) (m : Match) (c : IsCopy m)
      → 0 < m.words
      → Ascending 0 hi (offsets doc_tokens)
      → lo ≤ c.doc_first.start
      → (lo ≤ m.doc_start) × (m.doc_start < m.doc_end) × (m.doc_end ≡ c.doc_last.stop)
  IsCopy-span hi lo m c pos asc le =
      let f = at_least 0 hi doc_tokens _ c.doc_first asc c.at_doc_first in
      let l = at_least 0 hi doc_tokens _ c.doc_last asc c.at_doc_last in
      (
        omega (arith, c.doc_start),
        elim (Bool-cases (ltb 1 m.words)) [
          | inl more ↦ omega (
            arith,
            c.doc_start,
            c.doc_end,
            f.1,
            l.1,
            tokens_in_order 0 hi doc_tokens c.di (c.di + m.words - 1) c.doc_first c.doc_last asc
                (omega (arith, ltb→lt 1 m.words more)) c.at_doc_first c.at_doc_last,
          )
          | inr one ↦
              let w : m.words ≡ 1 = ground arith in
              let q : c.di + m.words - 1 ≡ c.di = omega arith in
              let same : c.doc_first ≡ c.doc_last =
                cc (c.at_doc_first, c.at_doc_last, ap (get_elem? doc_tokens) q) in
              omega (arith, c.doc_start, c.doc_end, f.1, ap (λ (t : Token). t.stop) same)
        ],
        c.doc_end,
      )

  -- Anchors in order are emitted as matches in order.
  pub emit_all-IsCopy :
      (k min_words hi lo d : ℕ) (anchors : List Anchor)
      → 0 < min_words
      → lo ≤ hi
      → Ascending 0 hi (offsets doc_tokens)
      → ((i : ℕ) (t : Token) → d ≤ i → get_elem? doc_tokens i ≡ some t → lo ≤ t.start)
      → All (IsMatch k min_words (norms_of doc_tokens) (map norms_of src_tokens)) anchors
      → Disjoint d anchors
      → (ms : List Match) × (emit_all doc_tokens sources src_tokens anchors ≡ some ms)
        × All (λ m. (min_words ≤ m.words) × IsCopy m) ms
        × Ascending lo hi (spans ms)
  unfolding emit_all
  emit_all-IsCopy k min_words hi lo d [] pos le asc later ok dis = ([], refl, tt, le)
  emit_all-IsCopy k min_words hi lo d (a ∷ anchors) pos le asc later (ok, oks) (first, dis) =
      let (m, e, w, c, at) = emit-IsCopy k min_words a (omega (arith, ok.long_enough)) ok.copied in
      let first_in = at_least 0 hi doc_tokens _ c.doc_first asc c.at_doc_first in
      let last_in = at_least 0 hi doc_tokens _ c.doc_last asc c.at_doc_last in
      let (ms, es, copies, order) =
        emit_all-IsCopy k min_words hi c.doc_last.stop (a.di + a.len) anchors pos last_in.2 asc
          (λ i t h et.
            tokens_in_order 0 hi doc_tokens _ i c.doc_last t asc
              (omega (arith, w, at, ok.long_enough)) c.at_doc_last et)
          oks dis in
      let span =
        IsCopy-span hi lo m c (omega (arith, w, ok.long_enough)) asc
          (later c.di c.doc_first (omega (arith, at, first)) c.at_doc_first) in
      (
        m ∷ ms,
        emit_all-cons a anchors m ms e es,
        ((omega (arith, ok.long_enough, w), c), copies),
        (span.0, span.1, subst (λ (x : ℕ). Ascending x hi (spans ms)) (sym span.2) order),
      )
