-- ===== src/Matcher/Verbatim/Scan.antt =====
-- The outer loop over the document: sound, in order without overlap, and complete.
use p_r_i_s_m.Prelude.{
  ℕ, zero, suc, ◌+◌, ◌≤◌, ◌<◌, ◌≡◌, refl, sym, subst, Option, inl, inr, List, [], ◌∷◌, none, Memᴰ,
  All, Option, some, true, false, length, arith, Bool-cases, Option-cases, leb, leb→le, le→leb, ltb,
  ltb→lt,
}
use p_r_i_s_m.Text.{Text}
use p_r_i_s_m.Matcher.Verbatim.{Anchor, index_sources, found_in, scan, verbatim_anchors}
use p_r_i_s_m.Matcher.Verbatim.Best.{Copied, candidates, mem-candidates}
use p_r_i_s_m.Matcher.Verbatim.Anchors.{
  IsMatch, found_in-IsMatch, found_in_short, Copied-le-match_length, Copied-prefix,
}

-- Anchors from word `lo` on, each beginning where the one before it has ended or later.
abbrev pub Disjoint : ℕ → List Anchor → Type 0
Disjoint lo [] = Unit
Disjoint lo (a ∷ anchors) = (lo ≤ a.di) × Disjoint (a.di + a.len) anchors

-- Word `d` of the document lies in one of the matches.
abbrev pub Covered : ℕ → List Anchor → Type 0
Covered d anchors = (a : Anchor) × Memᴰ a anchors × (a.di ≤ d) × (d < a.di + a.len)

Covered-tail :
    (d : ℕ) (a : Anchor) (anchors : List Anchor) → Covered d anchors → Covered d (a ∷ anchors)
Covered-tail d a anchors (b, m, lo, hi) = (b, Memᴰ.tail m, lo, hi)

Disjoint-of_le :
    (lo lo' : ℕ) (anchors : List Anchor) → lo' ≤ lo → Disjoint lo anchors → Disjoint lo' anchors
Disjoint-of_le lo lo' [] h d = tt
Disjoint-of_le lo lo' (a ∷ anchors) h d = (omega arith, d.1)

module _ (k min_words : ℕ) (doc : List Text) (sources : List (List Text)) where
  rest : ℕ → ℕ → List Anchor
  rest fuel di = scan k min_words doc sources fuel (index_sources k 0 sources []) di

  round : ℕ → Option Anchor
  unfolding candidates
  round di = found_in k min_words doc sources di (candidates k min_words doc sources di)

  -- the three ways in which a round goes on
  rest_past : (fuel di : ℕ) → leb (di + k) (length doc) ≡ false → rest (suc fuel) di ≡ []
  unfolding rest scan
  rest_past fuel di t = rw (t, scan)

  rest_skip :
      (fuel di : ℕ)
      → leb (di + k) (length doc) ≡ true
      → round di ≡ none
      → rest (suc fuel) di ≡ rest fuel (suc di)
  unfolding rest scan round
  rest_skip fuel di t e = rw (t, scan) (rw (e, scan))

  rest_match :
      (fuel di : ℕ) (a : Anchor)
      → leb (di + k) (length doc) ≡ true
      → round di ≡ some a
      → rest (suc fuel) di ≡ a ∷ rest fuel (di + a.len)
  unfolding rest scan round
  rest_match fuel di a t e = rw (t, scan) (rw (e, scan))

  module _ (positive : 0 < min_words) (le_min : k ≤ min_words) where
    round-IsMatch :
        (di : ℕ) (a : Anchor)
        → leb (di + k) (length doc) ≡ true
        → round di ≡ some a
        → (a.di ≡ di) × IsMatch k min_words doc sources a
    unfolding round
    round-IsMatch di a t e =
        found_in-IsMatch k min_words doc sources positive le_min di a (leb→le _ _ t) e

    rest-IsMatch :
        (fuel di : ℕ)
        → All (IsMatch k min_words doc sources) (rest fuel di) × Disjoint di (rest fuel di)
    unfolding rest scan
    rest-IsMatch zero di = (tt, tt)
    rest-IsMatch (suc fuel) di = elim (Bool-cases (leb (di + k) (length doc))) [
      | inl t ↦ elim (Option-cases (round di)) [
        | inl e ↦ rw (rest_skip fuel di t e) (
            let ih = rest-IsMatch fuel (suc di) in
            (ih.0, Disjoint-of_le (suc di) di (rest fuel (suc di)) (omega arith) ih.1))
        | inr (a, e) ↦
            let (here, ok) = round-IsMatch di a t e in
            let ih = rest-IsMatch fuel (di + a.len) in
            rw (rest_match fuel di a t e) (
              (ok, ih.0),
              (
                omega arith,
                subst (λ (x : ℕ). Disjoint (x + a.len) (rest fuel (di + a.len))) (sym here) ih.1,
              ),
            )
      ]
      | inr t ↦ rw (rest_past fuel di t) (tt, tt)
    ]

    -- Where a copy of enough words begins, the round finds a match.
    round-ne-none :
        (d src si : ℕ) → Copied k min_words doc sources d min_words src si → round d ≡ none → ⊥
    unfolding round
    round-ne-none d src si c e =
        let short =
          found_in_short k min_words doc sources d _ (src, si) e
            (mem-candidates k min_words doc sources d src si
              (Copied-prefix k min_words doc sources d min_words k src si le_min c)) in
        omega (arith, Copied-le-match_length k min_words doc sources d min_words src si c)

    rest-Covered :
        (fuel di d src si : ℕ)
        → length doc < fuel + di
        → di ≤ d
        → Copied k min_words doc sources d min_words src si
        → Covered d (rest fuel di)
    rest-Covered zero di d src si enough le (norms, e, r) = absurd (omega (arith, r.in_doc))
    rest-Covered (suc fuel) di d src si enough le c =
        let fits : di + k ≤ length doc = omega (arith, c.2.in_doc) in
        let t : leb (di + k) (length doc) ≡ true = le→leb _ _ fits in
        elim (Option-cases (round di)) [
          | inl e ↦ rw (rest_skip fuel di t e) (elim (Bool-cases (ltb di d)) [
            | inl before ↦ rest-Covered fuel (suc di) d src si (omega arith) (ltb→lt di d before) c
            | inr now ↦
                let at : d ≡ di = ground arith in
                absurd (
                  round-ne-none di src si
                    (subst (λ (x : ℕ). Copied k min_words doc sources x min_words src si) at c) e)
          ])
          | inr (a, e) ↦
              let (here, ok) = round-IsMatch di a t e in
              rw (rest_match fuel di a t e) (elim (Bool-cases (ltb d (di + a.len))) [
                | inl inside ↦ (a, Memᴰ.head refl, omega arith, omega (arith, ltb→lt _ _ inside))
                | inr beyond ↦ Covered-tail d a _ (
                    rest-Covered fuel (di + a.len) d src si (omega (arith, ok.long_enough))
                      (ground arith) c)
              ])
        ]

    -- Every match is a copied run of at least the minimum of words that no source continues further,
    -- and the matches stand in document order with no word in two of them.
    pub verbatim_anchors-IsMatch :
        All (IsMatch k min_words doc sources) (verbatim_anchors k min_words doc sources)
        × Disjoint 0 (verbatim_anchors k min_words doc sources)
    unfolding verbatim_anchors rest
    verbatim_anchors-IsMatch = rest-IsMatch (suc (length doc)) 0

    -- Every word at which a copy of at least the minimum of words begins lies in a match.
    pub verbatim_anchors-Covered :
        (d len src si : ℕ)
        → min_words ≤ len
        → Copied k min_words doc sources d len src si
        → Covered d (verbatim_anchors k min_words doc sources)
    unfolding verbatim_anchors rest
    verbatim_anchors-Covered d len src si h c =
        rest-Covered (suc (length doc)) 0 d src si (omega arith) (omega arith)
          (Copied-prefix k min_words doc sources d len min_words src si h c)
