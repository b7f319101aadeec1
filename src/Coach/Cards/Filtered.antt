-- ===== src/Coach/Cards/Filtered.antt =====
-- What the filter lets through, field by field.
use p_r_i_s_m.Prelude.{
  ℕ, ◌≤◌, ◌≡◌, refl, ◌≢◌, ◌⊎◌, inl, inr, List, [], ◌∷◌, Bool, true, false, ltb, length, arith,
  Bool-cases, ◌↔◌, if◌then◌else◌, ◌||◌, nat_eq, sym, ap, ◌∙◌, ◌&&◌,
}
use p_r_i_s_m.Text.{Text, Unicode, strip}
use p_r_i_s_m.Matcher.Verbatim.Runs.{Run}
use p_r_i_s_m.Coach.Cards.{
  Field, Card, text_of, with_text, norms, verbatim_run, shares_run, max_field_chars, is_bad,
  filter_fields, post_filter, fields,
}
use p_r_i_s_m.Coach.Cards.Fields.{
  has, same_field, eq_of_same_field, AreDistinct, text_of-step, has-step, elsewhere,
  distinct_fields, holds_every_field,
}
use p_r_i_s_m.Coach.Cards.Copied.{shares_run_lem}

-- A text is not empty, not long, matches no pattern of evasion, and has no run of so many words in
-- common with the excerpt of the source or with the author's passage.
pub record IsSafe (u : Unicode) (evades : Text → Bool) (source_excerpt doc_excerpt : Text)
    (min_words : ℕ) (val : Text) : Type 0 where
  pub non_empty : val ≢ []
  pub short : length val ≤ 600
  pub honest : evades val ≡ false
  pub not_from_source : (i j : ℕ) → ¬ Run (norms u val) (norms u source_excerpt) i j min_words
  pub not_from_passage : (i j : ℕ) → ¬ Run (norms u val) (norms u doc_excerpt) i j min_words

none_of :
    (a b c d e : Bool)
    → ((a || b || c || d || e) ≡ false)
      ↔ ((a ≡ false) × (b ≡ false) × (c ≡ false) × (d ≡ false) × (e ≡ false))
none_of a b c d e = (λ h. ground arith, λ h. ground arith)

text_left : (val : Text) → val ≢ [] → nat_eq (length val) 0 ≡ false
text_left [] h = absurd (h refl)
text_left (c ∷ val) h = ground arith

-- One round of the loop, seen from a field that it is about, and from one that it is not about.
here :
    (same bad later bad' bad_j named_later named : Bool) (after fk fj c' c : Text)
    → same ≡ true
    → later ≡ false
    → bad ≡ bad_j
    → fk ≡ fj
    → c' ≡ (if bad && same then fk else c)
    → after ≡ (if later && bad' then fj else c')
    → named_later ≡ (later && bad')
    → named ≡ ((bad && same) || named_later)
    → (after ≡ (if (same || later) && bad_j then fj else c)) × (named ≡ ((same || later) && bad_j))
here same bad later bad' bad_j named_later named after fk fj c' c t l b f s a n m = ground arith

there :
    (same bad later bad' bad_j named_later named : Bool) (after fj c' c : Text)
    → same ≡ false
    → c' ≡ c
    → bad' ≡ bad_j
    → after ≡ (if later && bad' then fj else c')
    → named_later ≡ (later && bad')
    → named ≡ ((bad && same) || named_later)
    → (after ≡ (if (same || later) && bad_j then fj else c)) × (named ≡ ((same || later) && bad_j))
there same bad later bad' bad_j named_later named after fj c' c t s b a n m = ground arith

module _ (u : Unicode) (evades : Text → Bool) (source_excerpt doc_excerpt : Text)
    (min_words : ℕ) where
  not_copied :
      (val other : Text)
      → verbatim_run u val other min_words ≡ false
      → (i j : ℕ) → ¬ Run (norms u val) (norms u other) i j min_words
  unfolding verbatim_run
  not_copied val other h i j r =
      let copied = (shares_run_lem min_words (norms u other) (norms u val)).1 (i, j, r) in cc

  none_copied_lem :
      (val other : Text)
      → ((i j : ℕ) → ¬ Run (norms u val) (norms u other) i j min_words)
      → verbatim_run u val other min_words ≡ false
  unfolding verbatim_run
  none_copied_lem val other free =
      elim (Bool-cases (shares_run min_words (norms u val) (norms u other))) [
        | inl copied ↦
            let (i, j, r) = (shares_run_lem min_words (norms u other) (norms u val)).0 copied in
            absurd (free i j r)
        | inr none_found ↦ none_found
      ]

  -- `is_bad` fails exactly on the safe texts.
  pub is_bad_lem :
      (val : Text)
      → (is_bad u evades source_excerpt doc_excerpt min_words val ≡ false)
        ↔ IsSafe u evades source_excerpt doc_excerpt min_words val
  unfolding is_bad
  is_bad_lem val = (
    λ h.
        let (some_text, fits, plain, new_to_source, new_to_passage) =
          (none_of (nat_eq (length val) 0) (ltb max_field_chars (length val)) (evades val)
              (verbatim_run u val source_excerpt min_words)
              (verbatim_run u val doc_excerpt min_words)).0
            h in
        record {
          non_empty = λ e. ground arith;
          short = ground arith;
          honest = plain;
          not_from_source = not_copied val source_excerpt new_to_source;
          not_from_passage = not_copied val doc_excerpt new_to_passage;
        },
    λ s.
        (none_of (nat_eq (length val) 0) (ltb max_field_chars (length val)) (evades val)
            (verbatim_run u val source_excerpt min_words)
            (verbatim_run u val doc_excerpt min_words)).1
          (
            text_left val s.non_empty,
            ground (arith, s.short),
            s.honest,
            none_copied_lem val source_excerpt s.not_from_source,
            none_copied_lem val doc_excerpt s.not_from_passage,
          ),
  )

  bad_at : Field → Card → Bool
  bad_at key card =
      is_bad u evades source_excerpt doc_excerpt min_words (strip u (text_of key card))

  -- the loop over distinct fields
  filter_fields_lem :
      (fallback : Card) (keys : List Field) (card : Card) (j : Field)
      → AreDistinct keys
      → let after =
          filter_fields u evades source_excerpt doc_excerpt min_words fallback keys card in
        (text_of j after.0
          ≡ (if has j keys && bad_at j card then text_of j fallback else text_of j card))
        × (has j after.1 ≡ (has j keys && bad_at j card))
  unfolding filter_fields bad_at has
  filter_fields_lem fallback [] card j d = (refl, refl)
  filter_fields_lem fallback (k ∷ ks) card j (absent, d) =
      let bad = bad_at k card in
      let next = if bad then with_text k (text_of k fallback) card else card in
      let after = filter_fields u evades source_excerpt doc_excerpt min_words fallback ks next in
      let ih = filter_fields_lem fallback ks next j d in
      let step = text_of-step k j bad (text_of k fallback) card in
      let named = has-step k j bad after.1 in
      elim (Bool-cases (same_field k j)) [
        | inl t ↦
            let e : k ≡ j = eq_of_same_field k j t in
            here (same_field k j) bad (has j ks) (bad_at j next) (bad_at j card) (has j after.1) _
              (text_of j after.0) (text_of k fallback) (text_of j fallback) (text_of j next)
              (text_of j card) t (ap (λ (f : Field). has f ks) (sym e) ∙ absent)
              (ap (λ (f : Field). bad_at f card) e) (ap (λ (f : Field). text_of f fallback) e) step
              ih.0 ih.1 named
        | inr f ↦
            let same_text : text_of j next ≡ text_of j card = elsewhere bad _ _ _ _ f step in
            there (same_field k j) bad (has j ks) (bad_at j next) (bad_at j card) (has j after.1) _
              (text_of j after.0) (text_of j fallback) (text_of j next) (text_of j card) f same_text
              (ap (λ (v : Text). is_bad u evades source_excerpt doc_excerpt min_words (strip u v))
                same_text)
              ih.0 ih.1 named
      ]

  post_filter_text :
      (fallback card : Card) (f : Field)
      → let after = post_filter u evades source_excerpt doc_excerpt min_words fallback card in
        (text_of f after.0 ≡ (if bad_at f card then text_of f fallback else text_of f card))
        × (has f after.1 ≡ bad_at f card)
  unfolding post_filter
  post_filter_text fallback card f =
      let (kept, named) = filter_fields_lem fallback fields card f distinct_fields in
      (kept ∙ rw (holds_every_field f) refl, named ∙ rw (holds_every_field f) refl)

  -- A field that is safe is kept as the model wrote it and not named; any other is replaced by the
  -- rule's text and named.
  pub post_filter_lem :
      (fallback card : Card) (f : Field)
      → let after = post_filter u evades source_excerpt doc_excerpt min_words fallback card in
        (IsSafe u evades source_excerpt doc_excerpt min_words (strip u (text_of f card))
          × (text_of f after.0 ≡ text_of f card)
          × (has f after.1 ≡ false))
        ⊎ ((¬ IsSafe u evades source_excerpt doc_excerpt min_words (strip u (text_of f card)))
            × (text_of f after.0 ≡ text_of f fallback)
            × (has f after.1 ≡ true))
  unfolding bad_at
  post_filter_lem fallback card f =
      let (same, named) = post_filter_text fallback card f in
      let tested = is_bad_lem (strip u (text_of f card)) in
      elim (Bool-cases (bad_at f card)) [
        | inl bad ↦ inr (λ s. (let good = tested.1 s in cc), same ∙ rw bad refl, named ∙ bad)
        | inr good ↦ inl (tested.0 good, same ∙ rw good refl, named ∙ good)
      ]
