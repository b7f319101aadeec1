-- ===== src/Matcher/Verbatim/Best.antt =====
-- The loop over the candidates: it keeps a longest run, and the first of that length.
use p_r_i_s_m.Prelude.{
  get_elem?-take, get_elem?-drop, ℕ, zero, suc, ◌+◌, ◌-◌, ◌≤◌, ◌<◌, ◌≡◌, refl, sym, ◌∙◌, ap, subst,
  inl, inr, List, [], ◌∷◌, Memᴰ, All, some, length, get_elem?, take, drop, arith, Bool-cases, tests,
  ltb,
}
use p_r_i_s_m.Text.{Text}
use p_r_i_s_m.Matcher.Verbatim.{
  Place, Anchor, gram, get_places, index_sources, source_at, match_length, best_of,
}
use p_r_i_s_m.Matcher.Verbatim.Runs.{Run, extend-Run}
use p_r_i_s_m.Matcher.Verbatim.Index.{index_sound, index_sources-mem}

pub get_elem?-gram :
    (k : ℕ) (xs : List Text) (a j : ℕ) → j < k → get_elem? (gram k xs a) j ≡ get_elem? xs (a + j)
get_elem?-gram k xs a j h =
    get_elem?-take (a + k - a) (drop a xs) j (omega arith) ∙ get_elem?-drop xs a j

-- Lists with the same items at the first `n` places have the same first `n` items.
take_ext :
    (n : ℕ) (xs ys : List Text)
    → ((j : ℕ) → j < n → get_elem? xs j ≡ get_elem? ys j)
    → take n xs ≡ take n ys
take_ext zero xs ys h = refl
take_ext (suc n) [] [] h = refl
take_ext (suc n) [] (y ∷ ys) h = cc (h 0 (omega arith))
take_ext (suc n) (x ∷ xs) [] h = cc (h 0 (omega arith))
take_ext (suc n) (x ∷ xs) (y ∷ ys) h =
    cc (h 0 (omega arith), take_ext n xs ys (λ j hj. h (suc j) (omega arith)))

pub gram_ext :
    (k : ℕ) (xs ys : List Text) (a b : ℕ)
    → ((j : ℕ) → j < k → get_elem? xs (a + j) ≡ get_elem? ys (b + j))
    → gram k xs a ≡ gram k ys b
gram_ext k xs ys a b h =
    let pa : a + k - a ≡ k = omega arith in
    let pb : b + k - b ≡ k = omega arith in
    rw (pa, pb)
      (take_ext k (drop a xs) (drop b ys)
        (λ j hj. get_elem?-drop xs a j ∙ h j hj ∙ sym (get_elem?-drop ys b j)))

pub source_at-get :
    (sources : List (List Text)) (s : ℕ) (norms : List Text)
    → get_elem? sources s ≡ some norms
    → source_at sources s ≡ norms
unfolding source_at
source_at-get [] s norms e = ground arith
source_at-get (x ∷ sources) zero norms e = cc
source_at-get (x ∷ sources) (suc s) norms e = source_at-get sources s norms e

module _ (k min_words : ℕ) (doc : List Text) (sources : List (List Text)) where
  -- `len` words from word `di` of the document stand in source `src` from word `si` on.
  abbrev pub Copied : ℕ → ℕ → ℕ → ℕ → Type 0
  Copied di len src si =
      (norms : List Text) × (get_elem? sources src ≡ some norms) × Run doc norms di si len

  abbrev pub IsAnchor : Anchor → Type 0
  IsAnchor a = Copied a.di a.len a.src a.si

  abbrev pub IsCandidate : ℕ → Place → Type 0
  IsCandidate di place = Copied di k place.0 place.1

  unfoldable pub candidates : ℕ → List Place
  candidates di = get_places (gram k doc di) (index_sources k 0 sources [])

  IsCandidate-of_gram :
      (di : ℕ) (place : Place)
      → di + k ≤ length doc
      → (norms : List Text) × (get_elem? sources place.0 ≡ some norms)
        × (place.1 + k ≤ length norms)
        × (gram k norms place.1 ≡ gram k doc di)
      → IsCandidate di place
  IsCandidate-of_gram di (s, si) fits (norms, e, inside, g) = (
    norms,
    e,
    record {
      in_doc = fits;
      in_source = inside;
      same = λ j hj.
          sym (get_elem?-gram k doc di j hj)
          ∙ ap (λ (x : List Text). get_elem? x j) (sym g)
          ∙ get_elem?-gram k norms si j hj;
    },
  )

  All-map :
      (P Q : Place → Type 0) (places : List Place)
      → ((p : Place) → P p → Q p)
      → All P places
      → All Q places
  All-map P Q [] f h = tt
  All-map P Q (p ∷ places) f h = (f p h.0, All-map P Q places f h.1)

  pub All-candidates : (di : ℕ) → di + k ≤ length doc → All (IsCandidate di) (candidates di)
  unfolding candidates
  All-candidates di fits =
      All-map _ (IsCandidate di) _ (λ p h. IsCandidate-of_gram di p fits h)
        (index_sound k (gram k doc di) sources)

  -- A place whose k words are those at `di` is a candidate.
  pub mem-candidates : (di src si : ℕ) → Copied di k src si → Memᴰ (src, si) (candidates di)
  unfolding candidates
  mem-candidates di src si (norms, e, r) = rw (gram_ext k doc norms di si r.same) (
      subst
        (λ (x : ℕ).
          Memᴰ {A = Place} (x, si) (get_places (gram k norms si) (index_sources k 0 sources [])))
        (omega arith) (index_sources-mem k 0 sources [] src si norms e r.in_source))

  match_length-Copied :
      (di : ℕ) (place : Place)
      → IsCandidate di place
      → Copied di (match_length k min_words doc sources di place) place.0 place.1
  unfolding match_length
  match_length-Copied di (s, si) (norms, e, r) =
      rw (source_at-get sources s norms e) (norms, e, extend-Run doc norms (length doc) di si k r)

  -- the state of the loop over the candidates at word `di`
  pub record IsBest (di : ℕ) (best : Anchor) : Type 0 where
    pub here : best.di ≡ di
    pub anchored : 0 < best.len → IsAnchor best

  pub IsBest-start : (di : ℕ) → IsBest di (record { di = di; len = 0; src = 0; si = 0 })
  IsBest-start di = record { here = refl; anchored = λ h. absurd (omega arith) }

  pub best_of-IsBest :
      (di : ℕ) (places : List Place) (best : Anchor)
      → All (IsCandidate di) places
      → IsBest di best
      → IsBest di (best_of k min_words doc sources places best)
  unfolding best_of
  best_of-IsBest di [] best c b = b
  best_of-IsBest di ((s, si) ∷ places) best c b =
      let l = match_length k min_words doc sources best.di (s, si) in
      elim (Bool-cases (ltb best.len l)) [
        | inl t ↦
            rw (t, best_of)
              (best_of-IsBest di places _ c.1 (record {
                here = b.here;
                anchored = λ _. match_length-Copied best.di (s, si) (rw b.here c.0);
              }))
        | inr t ↦ rw (t, best_of) (best_of-IsBest di places best c.1 b)
      ]

  le-best_of :
      (places : List Place) (best : Anchor)
      → best.len ≤ (best_of k min_words doc sources places best).len
  unfolding best_of
  le-best_of [] best = omega arith
  le-best_of ((s, si) ∷ places) best =
      let l = match_length k min_words doc sources best.di (s, si) in
      elim (Bool-cases (ltb best.len l)) [
        | inl t ↦
            rw (t, best_of)
              (omega
                (tests, le-best_of places (record { di = best.di; len = l; src = s; si = si })))
        | inr t ↦ rw (t, best_of) (le-best_of places best)
      ]

  pub match_length-le-best_of :
      (places : List Place) (best : Anchor) (q : Place)
      → Memᴰ q places
      → match_length k min_words doc sources best.di q
        ≤ (best_of k min_words doc sources places best).len
  unfolding best_of
  match_length-le-best_of [] best q m = elim m [ ]
  match_length-le-best_of ((s, si) ∷ places) best q (Memᴰ.head e) =
      let l = match_length k min_words doc sources best.di (s, si) in
      rw e (elim (Bool-cases (ltb best.len l)) [
        | inl t ↦
            rw (t, best_of) (le-best_of places (record { di = best.di; len = l; src = s; si = si }))
        | inr t ↦ rw (t, best_of) (ground (arith, le-best_of places best))
      ])
  match_length-le-best_of ((s, si) ∷ places) best q (Memᴰ.tail m) =
      let l = match_length k min_words doc sources best.di (s, si) in
      elim (Bool-cases (ltb best.len l)) [
        | inl t ↦
            rw (t, best_of)
              (match_length-le-best_of places (record { di = best.di; len = l; src = s; si = si }) q
                m)
        | inr t ↦ rw (t, best_of) (match_length-le-best_of places best q m)
      ]
