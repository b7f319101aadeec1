-- ===== src/Matcher/Sentences/Tiles.antt =====
-- The sentences of a text follow each other, and nothing but white space lies between them.
use p_r_i_s_m.Prelude.{
  ℕ, zero, suc, ◌+◌, ◌-◌, ◌≤◌, ◌<◌, ◌≡◌, refl, ap, ◌∙◌, inl, inr, List, [], ◌∷◌, true, false, some,
  ltb, length, get_elem?, drop, get_elem?-drop, get_elem?-take, arith, take_all, drop_all,
  length-drop, ltb→lt, Bool-cases,
}
use p_r_i_s_m.Text.{Text, Unicode, slice, strip, strip_left, strip_right}
use p_r_i_s_m.Matcher.Check.{is_blank, is_blank_nil, strip-of-is_blank}
use p_r_i_s_m.Matcher.Sentences.{
  CharTests, idle, find_ends, ends_sentence, collect, split_sentences,
}
use p_r_i_s_m.Matcher.Sentences.Ends.{Rising, Rising-weaken, find_ends-Rising}

module _ (u : Unicode) where
  -- Every character of the text is white space.
  unfoldable pub AllSpace : Text → Type 0
  AllSpace text = (i c : ℕ) → get_elem? text i ≡ some c → u.is_space c ≡ true

  strip_left_empty : (text : Text) → strip_left u text ≡ [] → AllSpace text
  unfolding strip_left AllSpace
  strip_left_empty [] e i c h = absurd (ground arith)
  strip_left_empty (d ∷ text) e zero c h = ground arith
  strip_left_empty (d ∷ text) e (suc i) c h = strip_left_empty text (ground arith) i c h

  stays_first : (c : ℕ) (text : Text) → strip_right u (c ∷ text) ≡ [] → u.is_space c ≡ true
  unfolding strip_right
  stays_first c text e = ground arith

  first_is_solid :
      (text : Text) (c : ℕ) (rest : Text) → strip_left u text ≡ c ∷ rest → u.is_space c ≡ false
  unfolding strip_left
  first_is_solid [] c rest e = absurd (ground arith)
  first_is_solid (d ∷ text) c rest e = elim (Bool-cases (u.is_space d)) [
    | inl t ↦ first_is_solid text c rest (ground arith)
    | inr f ↦ ground arith
  ]

  left_of_strip :
      (text left : Text) → strip_left u text ≡ left → strip_right u left ≡ [] → left ≡ []
  left_of_strip text [] e h = refl
  left_of_strip text (c ∷ rest) e h =
      let solid = first_is_solid text c rest e in
      let white = stays_first c rest h in absurd (ground arith)

  pub is_blank-AllSpace : (text : Text) → is_blank u text ≡ true → AllSpace text
  unfolding strip
  is_blank-AllSpace text h =
      strip_left_empty text
        (left_of_strip text (strip_left u text) refl (strip-of-is_blank u text h))

  -- Between two offsets there is nothing but white space.
  abbrev pub Blank : Text → ℕ → ℕ → Type 0
  Blank text a b = (i c : ℕ) → a ≤ i → i < b → get_elem? text i ≡ some c → u.is_space c ≡ true

  -- The spans follow each other from an offset on, each has something in it but white space, and
  -- what lies outside them is white space.
  abbrev pub Tiles : Text → ℕ → List (ℕ × ℕ) → Type 0
  Tiles text a [] = Blank text a (length text)
  Tiles text a ((s, e) ∷ spans) =
      (a ≤ s)
      × Blank text a s
      × (s < e)
      × (e ≤ length text)
      × (is_blank u (slice text s e) ≡ false)
      × Tiles text e spans

  Blank-of_slice :
      (text : Text) (a s e : ℕ)
      → Blank text a s
      → is_blank u (slice text s e) ≡ true
      → Blank text a e
  unfolding AllSpace
  Blank-of_slice text a s e before h i c from_a below at_i = elim (Bool-cases (ltb i s)) [
    | inl early ↦ before i c from_a (ground arith) at_i
    | inr late ↦
        let same : s + (i - s) ≡ i = ground arith in
        let there : get_elem? (slice text s e) (i - s) ≡ some c =
          get_elem?-take (e - s) (drop s text) (i - s) (ground arith)
          ∙ get_elem?-drop text s (i - s)
          ∙ ap (get_elem? text) same
          ∙ at_i in
        is_blank-AllSpace (slice text s e) h (i - s) c there
  ]

  Blank-of_drop :
      (text : Text) (a s : ℕ)
      → Blank text a s
      → is_blank u (drop s text) ≡ true
      → Blank text a (length text)
  unfolding AllSpace
  Blank-of_drop text a s before h i c from_a below at_i = elim (Bool-cases (ltb i s)) [
    | inl early ↦ before i c from_a (ground arith) at_i
    | inr late ↦
        let same : s + (i - s) ≡ i = ground arith in
        let there : get_elem? (drop s text) (i - s) ≡ some c =
          get_elem?-drop text s (i - s) ∙ ap (get_elem? text) same ∙ at_i in
        is_blank-AllSpace (drop s text) h (i - s) c there
  ]

  last_piece :
      (text : Text) (a start : ℕ)
      → a ≤ start
      → Blank text a start
      → is_blank u (drop start text) ≡ false
      → Tiles text a ((start, length text) ∷ [])
  last_piece text a start below before solid = elim (Bool-cases (ltb start (length text))) [
    | inl inside ↦
        let whole : slice text start (length text) ≡ drop start text =
          take_all (length text - start) (drop start text)
            (omega (arith, length-drop start text)) in
        (
          below,
          before,
          ltb→lt start (length text) inside,
          omega arith,
          ap (is_blank u) whole ∙ solid,
          λ i c p q e. absurd (omega arith),
        )
    | inr past ↦
        let none_left : drop start text ≡ [] = drop_all start text (ground arith) in
        let blank : is_blank u (drop start text) ≡ true =
          ap (is_blank u) none_left ∙ is_blank_nil u in
        absurd (ground arith)
  ]

  module _ (ch : CharTests) where
    collect-Tiles :
        (text : Text) (a start : ℕ) (ms : List (ℕ × ℕ))
        → a ≤ start
        → Blank text a start
        → Rising (length text) start ms
        → Tiles text a (collect u ch text start ms)
    unfolding collect
    collect-Tiles text a start [] below before r =
        elim (Bool-cases (is_blank u (drop start text))) [
          | inl t ↦ rw t (Blank-of_drop text a start before t)
          | inr f ↦ rw f (last_piece text a start below before f)
        ]
    collect-Tiles text a start (m ∷ ms) below before r =
        elim (Bool-cases (ends_sentence u ch text m)) [
          | inr f ↦ rw f (
              collect-Tiles text a start ms below before
                (Rising-weaken (length text) start m.1 ms (omega (arith, r.0)) r.2))
          | inl t ↦ elim (Bool-cases (is_blank u (slice text start m.1))) [
            | inl white ↦ rw t (
                rw white (
                  collect-Tiles text a m.1 ms (omega (arith, r.0))
                    (Blank-of_slice text a start m.1 before white) r.2))
            | inr solid ↦ rw t (
                rw solid (
                  below,
                  before,
                  r.0,
                  r.1,
                  solid,
                  collect-Tiles text m.1 m.1 ms (omega arith) (λ i c p q e. absurd (omega arith))
                      r.2,
                ))
          ]
        ]

    -- The sentences of a text stand in it one after the other; none is blank, and whatever lies
    -- between, before or behind them is white space.
    pub split_sentences-Tiles : (text : Text) → Tiles text 0 (split_sentences u ch text)
    unfolding split_sentences
    split_sentences-Tiles text =
        collect-Tiles text 0 0 (find_ends 0 idle text) (omega arith)
          (λ i c p q e. absurd (omega arith))
          (find_ends-Rising (length text) 0 0 idle text (omega arith) (omega arith))
