-- ===== src/Matcher/Verbatim/Index.antt =====
-- The k-gram index: what a lookup returns are places where that k-gram stands, and all of them.
use p_r_i_s_m.Prelude.{
  ℕ, zero, suc, ◌+◌, ◌-◌, ◌≤◌, ◌<◌, ◌≡◌, refl, sym, inl, inr, List, [], ◌∷◌, ◌++◌, Memᴰ, All,
  All-append, some, true, length, get_elem?, arith, Bool-cases, eq_of_test, eq_self, ap, subst, ltb,
  ltb→lt, Bool-cases, ltb, ltb→lt,
}
use p_r_i_s_m.Text.{Text, Eq-Text}
use p_r_i_s_m.Matcher.Verbatim.{
  Place, GramIndex, gram, same_gram, get_places, add_place, index_grams, index_sources,
}

pub eq_of_same_gram : (g h : List Text) → same_gram g h ≡ true → g ≡ h
unfolding same_gram
eq_of_same_gram [] [] h = refl
eq_of_same_gram (v ∷ g) (w ∷ h) p = ground (arith, eq_of_test v w, eq_of_same_gram g h)
eq_of_same_gram [] (w ∷ h) p = ground arith
eq_of_same_gram (v ∷ g) [] p = ground arith

pub same_gram_self : (g : List Text) → same_gram g g ≡ true
unfolding same_gram
same_gram_self [] = refl
same_gram_self (v ∷ g) = ground (arith, eq_self v, same_gram_self g)

module _ {A : Type 0} where
  Memᴰ-append_left : {a : A} (xs ys : List A) → Memᴰ a xs → Memᴰ a (xs ++ ys)
  Memᴰ-append_left [] ys m = elim m [ ]
  Memᴰ-append_left (x ∷ xs) ys (Memᴰ.head p) = Memᴰ.head p
  Memᴰ-append_left (x ∷ xs) ys (Memᴰ.tail m) = Memᴰ.tail (Memᴰ-append_left xs ys m)

  Memᴰ-append_last : (a : A) (xs : List A) → Memᴰ a (xs ++ a ∷ [])
  Memᴰ-append_last a [] = Memᴰ.head refl
  Memᴰ-append_last a (x ∷ xs) = Memᴰ.tail (Memᴰ-append_last a xs)

-- A property of the places stored under each k-gram.
module _ (P : List Text → Place → Type 0) where
  abbrev Places : GramIndex → Type 0
  Places [] = Unit
  Places ((g, places) ∷ index) = All (P g) places × Places index

  Places-add :
      (key : List Text) (place : Place) (index : GramIndex)
      → P key place
      → Places index
      → Places (add_place key place index)
  unfolding add_place
  Places-add key place [] p h = ((p, tt), tt)
  Places-add key place ((g, places) ∷ index) p h = elim (Bool-cases (same_gram g key)) [
    | inl t ↦
        rw (t, add_place)
          (
            All-append (P g) places (place ∷ []) h.0
                (subst (λ x. P x place) (sym (eq_of_same_gram g key t)) p, tt),
            h.1,
          )
    | inr t ↦ rw (t, add_place) (h.0, Places-add key place index p h.1)
  ]

  Places-get :
      (key : List Text) (index : GramIndex) → Places index → All (P key) (get_places key index)
  unfolding get_places
  Places-get key [] h = tt
  Places-get key ((g, places) ∷ index) h = elim (Bool-cases (same_gram g key)) [
    | inl t ↦ rw (t, get_places) (subst (λ x. All (P x) places) (eq_of_same_gram g key t) h.0)
    | inr t ↦ rw (t, get_places) (Places-get key index h.1)
  ]

-- An added place is found under its key, and no place is lost.
add_place-mem :
    (key : List Text) (place : Place) (index : GramIndex)
    → Memᴰ place (get_places key (add_place key place index))
unfolding add_place get_places
add_place-mem key place [] = rw (same_gram_self key, get_places) (Memᴰ.head refl)
add_place-mem key place ((g, places) ∷ index) = elim (Bool-cases (same_gram g key)) [
  | inl t ↦ rw (t, add_place) (rw t (Memᴰ-append_last place places))
  | inr t ↦ rw (t, add_place) (rw t (add_place-mem key place index))
]

add_place_keeps :
    (key : List Text) (place : Place) (other : List Text) (q : Place) (index : GramIndex)
    → Memᴰ q (get_places other index)
    → Memᴰ q (get_places other (add_place key place index))
unfolding add_place get_places
add_place_keeps key place other q [] m = elim m [ ]
add_place_keeps key place other q ((g, places) ∷ index) m = elim (Bool-cases (same_gram g key)) [
  | inl t ↦
      rw (t, add_place)
        (elim (Bool-cases (same_gram g other)) [
          | inl o ↦ rw o (Memᴰ-append_left places (place ∷ []) (rw o at m))
          | inr o ↦ rw o (rw o at m)
        ])
  | inr t ↦
      rw (t, add_place)
        (elim (Bool-cases (same_gram g other)) [
          | inl o ↦ rw o (rw o at m)
          | inr o ↦ rw o (add_place_keeps key place other q index (rw o at m))
        ])
]

module _ (k : ℕ) where
  module _ (P : List Text → Place → Type 0) where
    index_grams-Places :
        (s : ℕ) (norms : List Text) (left i : ℕ) (index : GramIndex)
        → ((j : ℕ) → i ≤ j → j < i + left → P (gram k norms j) (s, j))
        → Places P index
        → Places P (index_grams k s norms left i index)
    unfolding index_grams
    index_grams-Places s norms zero i index p h = h
    index_grams-Places s norms (suc left) i index p h =
        index_grams-Places s norms left (suc i) (add_place (gram k norms i) (s, i) index)
          (λ j lo hi. p j (omega arith) (omega arith))
          (Places-add P (gram k norms i) (s, i) index (p i (omega arith) (omega arith)) h)

    index_sources-Places :
        (s : ℕ) (sources : List (List Text)) (index : GramIndex)
        → ((n j : ℕ) (norms : List Text)
            → get_elem? sources n ≡ some norms
            → j + k ≤ length norms
            → P (gram k norms j) (s + n, j))
        → Places P index
        → Places P (index_sources k s sources index)
    unfolding index_sources
    index_sources-Places s [] index p h = h
    index_sources-Places s (norms ∷ sources) index p h =
        index_sources-Places (suc s) sources (index_grams k s norms (length norms + 1 - k) 0 index)
          (λ n j other e fits.
            subst (λ (x : ℕ). P (gram k other j) (x, j)) (omega arith) (p (suc n) j other e fits))
          (index_grams-Places s norms (length norms + 1 - k) 0 index
            (λ j lo hi.
              subst (λ (x : ℕ). P (gram k norms j) (x, j)) (omega arith)
                (p 0 j norms refl (omega arith)))
            h)

  -- Indexing more text loses no place.
  index_grams_keeps :
      (s : ℕ) (norms : List Text) (left i : ℕ) (index : GramIndex) (key : List Text) (q : Place)
      → Memᴰ q (get_places key index)
      → Memᴰ q (get_places key (index_grams k s norms left i index))
  unfolding index_grams
  index_grams_keeps s norms zero i index key q m = m
  index_grams_keeps s norms (suc left) i index key q m =
      index_grams_keeps s norms left (suc i) (add_place (gram k norms i) (s, i) index) key q
        (add_place_keeps (gram k norms i) (s, i) key q index m)

  index_sources_keeps :
      (s : ℕ) (sources : List (List Text)) (index : GramIndex) (key : List Text) (q : Place)
      → Memᴰ q (get_places key index)
      → Memᴰ q (get_places key (index_sources k s sources index))
  unfolding index_sources
  index_sources_keeps s [] index key q m = m
  index_sources_keeps s (norms ∷ sources) index key q m =
      index_sources_keeps (suc s) sources (index_grams k s norms (length norms + 1 - k) 0 index) key
        q (index_grams_keeps s norms (length norms + 1 - k) 0 index key q m)

  index_grams-mem :
      (s : ℕ) (norms : List Text) (left i : ℕ) (index : GramIndex) (j : ℕ)
      → i ≤ j
      → j < i + left
      → Memᴰ (s, j) (get_places (gram k norms j) (index_grams k s norms left i index))
  unfolding index_grams
  index_grams-mem s norms zero i index j lo hi = absurd (omega arith)
  index_grams-mem s norms (suc left) i index j lo hi =
      let next = add_place (gram k norms i) (s, i) index in
      elim (Bool-cases (ltb i j)) [
        | inl later ↦ index_grams-mem s norms left (suc i) next j (ltb→lt i j later) (omega arith)
        | inr now ↦
            let e : j ≡ i = ground arith in
            rw e (
              index_grams_keeps s norms left (suc i) next (gram k norms i) (s, i)
                (add_place-mem (gram k norms i) (s, i) index))
      ]

  -- Every k-gram of every source is found under its words.
  pub index_sources-mem :
      (s : ℕ) (sources : List (List Text)) (index : GramIndex) (n j : ℕ) (norms : List Text)
      → get_elem? sources n ≡ some norms
      → j + k ≤ length norms
      → Memᴰ (s + n, j) (get_places (gram k norms j) (index_sources k s sources index))
  unfolding index_sources
  index_sources-mem s [] index n j norms e fits = ground arith
  index_sources-mem s (first ∷ sources) index zero j norms e fits =
      let q : norms ≡ first = cc in
      let next = index_grams k s first (length first + 1 - k) 0 index in
      let z : s + 0 ≡ s = omega arith in
      rw (q, z)
        (index_sources_keeps (suc s) sources next (gram k first j) (s, j)
          (index_grams-mem s first (length first + 1 - k) 0 index j (omega arith)
            (omega (arith, ap (λ (t : List Text). length t) q))))
  index_sources-mem s (first ∷ sources) index (suc n) j norms e fits =
      subst
        (λ (x : ℕ).
          Memᴰ {A = Place} (x, j)
            (get_places (gram k norms j) (
              index_sources k (suc s) sources
                (index_grams k s first (length first + 1 - k) 0 index))))
        (omega arith)
        (index_sources-mem (suc s) sources (index_grams k s first (length first + 1 - k) 0 index) n
          j norms e fits)

  -- A place that a lookup returns holds the k-gram that was looked up.
  pub index_sound :
      (key : List Text) (sources : List (List Text))
      → All
          (λ place.
            (norms : List Text) × (get_elem? sources place.0 ≡ some norms)
            × (place.1 + k ≤ length norms)
            × (gram k norms place.1 ≡ key))
          (get_places key (index_sources k 0 sources []))
  index_sound key sources =
      Places-get
        (λ g place.
          (norms : List Text) × (get_elem? sources place.0 ≡ some norms)
          × (place.1 + k ≤ length norms)
          × (gram k norms place.1 ≡ g))
        key _
        (index_sources-Places _ 0 sources []
          (λ n j norms e fits. (
            norms,
            (subst (λ (x : ℕ). get_elem? sources x ≡ some norms) (omega arith) e),
            fits,
            refl,
          ))
          tt)
