-- ===== src/Matcher/Sentences/Trimmed.antt =====
-- The trimmed sentences: parts of the text, of so many words at least.
use p_r_i_s_m.Prelude.{
  ℕ, suc, ◌-◌, ◌≤◌, ◌≡◌, refl, inl, inr, List, [], ◌∷◌, leb, leb→le, length, drop, arith, All,
  Bool-cases, length-take-le, if◌then◌else◌,
}
use p_r_i_s_m.Text.{Text, Unicode, slice, strip, strip_left, strip_right}
use p_r_i_s_m.Matcher.Tokens.{find_words}
use p_r_i_s_m.Matcher.Sentences.{
  CharTests, Sentence, unit_at, keep_units, split_sentences, sentences,
}
use p_r_i_s_m.Matcher.Sentences.Tiles.{Tiles, split_sentences-Tiles}

-- The sentence is a part of the text, between its offsets, and has so many words at least.
pub record IsSentence (u : Unicode) (min_words : ℕ) (text : Text) (s : Sentence) : Type 0 where
  pub ordered : s.start ≤ s.stop
  pub inside : s.stop ≤ length text
  pub same : s.text ≡ slice text s.start s.stop
  pub long_enough : min_words ≤ length (find_words u s.text)

module _ (u : Unicode) where
  length-strip_left-le : (text : Text) → length (strip_left u text) ≤ length text
  unfolding strip_left
  length-strip_left-le [] = omega arith
  length-strip_left-le (c ∷ text) = elim (Bool-cases (u.is_space c)) [
    | inl t ↦ rw t (omega (arith, length-strip_left-le text))
    | inr f ↦ rw f (omega arith)
  ]

  put_first : (c : ℕ) (rest : Text) → Text
  put_first c [] = if u.is_space c then [] else c ∷ []
  put_first c (d ∷ rest) = c ∷ d ∷ rest

  length-put_first-le : (c : ℕ) (rest : Text) → length (put_first c rest) ≤ suc (length rest)
  unfolding put_first
  length-put_first-le c [] = ground arith
  length-put_first-le c (d ∷ rest) = omega arith

  strip_right_step :
      (c : ℕ) (text : Text) → strip_right u (c ∷ text) ≡ put_first c (strip_right u text)
  unfolding strip_right put_first
  strip_right_step c text = ground arith

  length-strip_right-le : (text : Text) → length (strip_right u text) ≤ length text
  length-strip_right-le [] = unfold strip_right in omega arith
  length-strip_right-le (c ∷ text) =
      rw (strip_right_step c text)
        (omega (arith, length-put_first-le c (strip_right u text), length-strip_right-le text))

  module _ (min_words : ℕ) where
    unit_at-IsSentence :
        (text : Text) (s e : ℕ)
        → s ≤ e
        → e ≤ length text
        → min_words ≤ length (find_words u (unit_at u text (s, e)).text)
        → IsSentence u min_words text (unit_at u text (s, e))
    unfolding unit_at strip
    unit_at-IsSentence text s e order inside long =
        let seg = slice text s e in
        let left = length-strip_left-le seg in
        let both = length-strip_right-le (strip_left u seg) in
        let size = length-take-le (e - s) (drop s text) in
        record { ordered = omega arith; inside = omega arith; same = refl; long_enough = long }

    keep_units-AreSentences :
        (text : Text) (a : ℕ) (spans : List (ℕ × ℕ))
        → Tiles u text a spans
        → All (IsSentence u min_words text) (keep_units u min_words text spans)
    unfolding keep_units
    keep_units-AreSentences text a [] t = tt
    keep_units-AreSentences text a ((s, e) ∷ spans) (above, blank, order, inside, solid, t) =
        let size = length (find_words u (unit_at u text (s, e)).text) in
        elim (Bool-cases (leb min_words size)) [
          | inl long ↦ rw long (
            unit_at-IsSentence text s e (omega arith) inside (leb→le min_words size long),
            keep_units-AreSentences text e spans t,
          )
          | inr short ↦ rw short (keep_units-AreSentences text e spans t)
        ]

    pub sentences-AreSentences :
        (ch : CharTests) (text : Text)
        → All (IsSentence u min_words text) (sentences u ch min_words text)
    unfolding sentences
    sentences-AreSentences ch text =
        keep_units-AreSentences text 0 (split_sentences u ch text) (split_sentences-Tiles u ch text)
