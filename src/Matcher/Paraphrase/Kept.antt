-- ===== src/Matcher/Paraphrase/Kept.antt =====
-- The sentences of the sources that are compared: all of them, or so many of them as fit the budget.
use p_r_i_s_m.Prelude.{
  ℕ, zero, suc, ◌≤◌, ◌≡◌, refl, subst, inl, inr, List, [], ◌∷◌, map, Option, none, some, ltb, leb,
  leb→le, length, take, get_elem?, arith, All, All-append, Memᴰ, Bool-cases, Option-cases,
  length-take-le, length-sort_by, sort_by,
}
use mathlib.Core.Option.{some-injective}
use p_r_i_s_m.Text.{Text, Unicode}
use p_r_i_s_m.Matcher.Types.{SourceDoc}
use p_r_i_s_m.Matcher.Sentences.{CharTests, Sentence, sentences}
use p_r_i_s_m.Matcher.Sentences.Trimmed.{IsSentence, sentences-AreSentences}
use p_r_i_s_m.Matcher.Paraphrase.{
  SourceSentence, source_sentences, pick, keep_best, budget_source_sentences,
}
use p_r_i_s_m.Matcher.Check.{Warning}

-- A sentence of one of the sources.
pub record IsSourceSentence (u : Unicode) (min_words : ℕ) (sources : List SourceDoc)
    (s : SourceSentence) : Type 0 where
  pub from_source : Memᴰ s.source sources
  pub is_sentence : IsSentence u min_words s.source.text s.sentence

module _ (u : Unicode) (ch : CharTests) (min_words : ℕ) where
  of_source :
      (i : ℕ) (source : SourceDoc) (sources : List SourceDoc) (ss : List Sentence)
      → All (IsSentence u min_words source.text) ss
      → All
          (IsSourceSentence u min_words (source ∷ sources))
          (map (λ (s : Sentence). record { index = i; source = source; sentence = s }) ss)
  of_source i source sources [] h = tt
  of_source i source sources (s ∷ ss) h = (
    record { from_source = Memᴰ.head refl; is_sentence = h.0 },
    of_source i source sources ss h.1,
  )

  of_later :
      (source : SourceDoc) (sources : List SourceDoc) (sents : List SourceSentence)
      → All (IsSourceSentence u min_words sources) sents
      → All (IsSourceSentence u min_words (source ∷ sources)) sents
  of_later source sources [] h = tt
  of_later source sources (s ∷ sents) h = (
    record { from_source = Memᴰ.tail h.0.from_source; is_sentence = h.0.is_sentence },
    of_later source sources sents h.1,
  )

  pub source_sentences-AreSourceSentences :
      (i : ℕ) (sources : List SourceDoc)
      → All (IsSourceSentence u min_words sources) (source_sentences u ch min_words i sources)
  unfolding source_sentences
  source_sentences-AreSourceSentences i [] = tt
  source_sentences-AreSourceSentences i (source ∷ sources) =
      All-append (IsSourceSentence u min_words (source ∷ sources)) _ _
        (of_source i source sources (sentences u ch min_words source.text)
          (sentences-AreSentences u min_words ch source.text))
        (of_later source sources _ (source_sentences-AreSourceSentences (suc i) sources))

length-pick-le :
    (sents : List SourceSentence) (keep : List ℕ) → length (pick sents keep) ≤ length keep
unfolding pick
length-pick-le sents [] = omega arith
length-pick-le sents (i ∷ keep) = ground (arith, length-pick-le sents keep)

module _ (P : SourceSentence → Type 0) where
  pub All-get_elem? :
      (sents : List SourceSentence) (i : ℕ) {s : SourceSentence}
      → All P sents
      → get_elem? sents i ≡ some s
      → P s
  All-get_elem? [] i h e = absurd (ground arith)
  All-get_elem? (x ∷ sents) zero {s} h e = subst P (some-injective x s e) h.0
  All-get_elem? (x ∷ sents) (suc i) h e = All-get_elem? sents i h.1 e

  All-pick : (sents : List SourceSentence) (keep : List ℕ) → All P sents → All P (pick sents keep)
  unfolding pick
  All-pick sents [] h = tt
  All-pick sents (i ∷ keep) h = elim (Option-cases (get_elem? sents i)) [
    | inl missing ↦ rw (missing, pick) (All-pick sents keep h)
    | inr (s, at_i) ↦ rw (at_i, pick) (All-get_elem? sents i h at_i, All-pick sents keep h)
  ]

  All-take : (n : ℕ) (sents : List SourceSentence) → All P sents → All P (take n sents)
  All-take zero sents h = tt
  All-take (suc n) [] h = tt
  All-take (suc n) (s ∷ sents) h = (h.0, All-take n sents h.1)

  -- What is kept is no more than the cap allows, and all of it stood among the sentences.
  abbrev pub WithinCap : ℕ → List SourceSentence × List Warning → Type 0
  WithinCap cap (kept, warnings) = (length kept ≤ cap) × All P kept

  keep_best-WithinCap :
      (cap : ℕ) (sents : List SourceSentence) (ranked : Option (List ℕ))
      → All P sents
      → WithinCap cap (keep_best cap sents ranked)
  unfolding keep_best
  keep_best-WithinCap cap sents none h = (length-take-le cap sents, All-take cap sents h)
  keep_best-WithinCap cap sents (some order) h = (
    omega (
      arith,
      length-pick-le sents (sort_by ltb (take cap order)),
      length-sort_by ltb (take cap order),
      length-take-le cap order,
    ),
    All-pick sents (sort_by ltb (take cap order)) h,
  )

  -- Whatever the ranking answers, the search is over no more sentences than the cap allows, all of
  -- them from the sources, and over all of them where they fit.
  pub budget_source_sentences-WithinCap :
      (rank : List Text → List Text → Option (List ℕ)) (cap : ℕ) (ds : List Sentence)
      (sents : List SourceSentence)
      → All P sents
      → WithinCap cap (budget_source_sentences rank cap ds sents)
        × (length sents ≤ cap → (budget_source_sentences rank cap ds sents).0 ≡ sents)
  unfolding budget_source_sentences
  budget_source_sentences-WithinCap rank cap ds sents h =
      elim (Bool-cases (leb (length sents) cap)) [
        | inl fits ↦ rw fits ((leb→le (length sents) cap fits, h), λ small. refl)
        | inr over ↦ rw over (keep_best-WithinCap cap sents _ h, λ small. absurd (ground arith))
      ]
