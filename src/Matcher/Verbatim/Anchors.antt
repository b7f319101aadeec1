-- ===== src/Matcher/Verbatim/Anchors.antt =====
-- The scan over the document: every anchor is a copied run, none overlaps the next, each is as long
-- as the sources allow, and every long enough copy is covered.
use p_r_i_s_m.Prelude.{
  ℕ, ◌+◌, ◌≤◌, ◌<◌, ◌≡◌, subst, inl, inr, List, [], ◌∷◌, none, Memᴰ, All, some, length, arith,
  Bool-cases, tests, leb, leb→le,
}
use p_r_i_s_m.Text.{Text}
use p_r_i_s_m.Matcher.Verbatim.{Place, Anchor, match_length, best_of, found_in}
use p_r_i_s_m.Matcher.Verbatim.Runs.{Run-prefix, Run-le-extend}
use p_r_i_s_m.Matcher.Verbatim.Best.{
  Copied, IsAnchor, IsCandidate, candidates, All-candidates, mem-candidates, IsBest-start,
  best_of-IsBest, match_length-le-best_of, source_at-get,
}

module _ (k min_words : ℕ) (doc : List Text) (sources : List (List Text)) where
  found_in-IsAnchor :
      0 < min_words
      → (di : ℕ) (places : List Place) (a : Anchor)
      → All (IsCandidate k min_words doc sources di) places
      → found_in k min_words doc sources di places ≡ some a
      → (a.di ≡ di) × (min_words ≤ a.len) × IsAnchor k min_words doc sources a
  unfolding found_in
  found_in-IsAnchor positive di [] a c h = ground arith
  found_in-IsAnchor positive di (place ∷ places) a c h =
      let best =
        best_of k min_words doc sources (place ∷ places)
          (record { di = di; len = 0; src = 0; si = 0 }) in
      let b =
        best_of-IsBest k min_words doc sources di (place ∷ places)
          (record { di = di; len = 0; src = 0; si = 0 }) c
          (IsBest-start k min_words doc sources di) in
      elim (Bool-cases (leb min_words best.len)) [
        | inl t ↦
            let e : best ≡ a = ground arith in
            subst
              (λ (x : Anchor).
                (x.di ≡ di) × (min_words ≤ x.len) × IsAnchor k min_words doc sources x)
              e
              (
                b.here,
                leb→le min_words best.len t,
                b.anchored (omega (tests, leb→le min_words best.len t)),
              )
        | inr t ↦ absurd (ground arith)
      ]

  -- The candidate loop's verdict against the length of any one candidate.
  found_in-longest :
      (di : ℕ) (places : List Place) (a : Anchor) (q : Place)
      → found_in k min_words doc sources di places ≡ some a
      → Memᴰ q places
      → match_length k min_words doc sources di q ≤ a.len
  unfolding found_in
  found_in-longest di [] a q h m = elim m [ ]
  found_in-longest di (place ∷ places) a q h m = ground (
    arith,
    match_length-le-best_of k min_words doc sources (place ∷ places)
        (record { di = di; len = 0; src = 0; si = 0 }) q m,
  )

  pub found_in_short :
      (di : ℕ) (places : List Place) (q : Place)
      → found_in k min_words doc sources di places ≡ none
      → Memᴰ q places
      → match_length k min_words doc sources di q < min_words
  unfolding found_in
  found_in_short di [] q h m = elim m [ ]
  found_in_short di (place ∷ places) q h m = ground (
    arith,
    match_length-le-best_of k min_words doc sources (place ∷ places)
        (record { di = di; len = 0; src = 0; si = 0 }) q m,
  )

  -- A copy of `len` words at `di` is no longer than what the inner loop finds there.
  pub Copied-le-match_length :
      (di len src si : ℕ)
      → Copied k min_words doc sources di len src si
      → len ≤ match_length k min_words doc sources di (src, si)
  unfolding match_length
  Copied-le-match_length di len src si (norms, e, r) =
      rw (source_at-get sources src norms e)
        (Run-le-extend doc norms (length doc) di si k len (omega arith) r)

  pub Copied-prefix :
      (di len shorter src si : ℕ)
      → shorter ≤ len
      → Copied k min_words doc sources di len src si
      → Copied k min_words doc sources di shorter src si
  Copied-prefix di len shorter src si h (norms, e, r) =
      (norms, e, Run-prefix doc norms di si len shorter h r)

  -- What holds of each match that the scan appends.
  pub record IsMatch (a : Anchor) : Type 0 where
    pub long_enough : min_words ≤ a.len
    pub copied : IsAnchor k min_words doc sources a
    pub longest : (len src si : ℕ) → Copied k min_words doc sources a.di len src si → len ≤ a.len

  pub found_in-IsMatch :
      0 < min_words
      → k ≤ min_words
      → (di : ℕ) (a : Anchor) → di + k ≤ length doc
      → found_in k min_words doc sources di (candidates k min_words doc sources di) ≡ some a
      → (a.di ≡ di) × IsMatch a
  found_in-IsMatch positive le_min di a fits h =
      let (e, long, copy) =
        found_in-IsAnchor positive di _ a (All-candidates k min_words doc sources di fits) h in
      (
        e,
        record {
          long_enough = long;
          copied = copy;
          longest = λ len src si c. elim (Bool-cases (leb k len)) [
            | inl t ↦
                let c' : Copied k min_words doc sources di len src si =
                  subst (λ (x : ℕ). Copied k min_words doc sources x len src si) e c in
                omega (
                  arith,
                  Copied-le-match_length di len src si c',
                  found_in-longest di _ a (src, si) h
                      (mem-candidates k min_words doc sources di src si
                        (Copied-prefix di len k src si (leb→le k len t) c')),
                )
            | inr t ↦ ground (arith, long)
          ];
        },
      )
