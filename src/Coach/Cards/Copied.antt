-- ===== src/Coach/Cards/Copied.antt =====
-- The test for copied text says exactly whether two texts share a run of so many words.
use p_r_i_s_m.Prelude.{
  ℕ, zero, suc, ◌+◌, ◌-◌, ◌≤◌, ◌<◌, ◌≡◌, sym, ◌∙◌, ap, subst, inl, inr, List, true, ltb, length,
  get_elem?, arith, Bool-cases, ◌||◌, ◌↔◌,
}
use p_r_i_s_m.Text.{Text}
use p_r_i_s_m.Matcher.Verbatim.{gram, same_gram}
use p_r_i_s_m.Matcher.Verbatim.Index.{eq_of_same_gram, same_gram_self}
use p_r_i_s_m.Matcher.Verbatim.Best.{get_elem?-gram, gram_ext}
use p_r_i_s_m.Matcher.Verbatim.Runs.{Run}
use p_r_i_s_m.Coach.Cards.{has_gram, any_gram, shares_run}

module _ (k : ℕ) (b : List Text) where
  found_of_has_gram :
      (g : List Text) (left j : ℕ)
      → has_gram k g b left j ≡ true
      → (m : ℕ) × (m < j + left) × (g ≡ gram k b m)
  unfolding has_gram
  found_of_has_gram g zero j h = absurd (ground arith)
  found_of_has_gram g (suc left) j h = elim (Bool-cases (same_gram g (gram k b j))) [
    | inl t ↦ (j, omega arith, eq_of_same_gram g (gram k b j) t)
    | inr t ↦
        let (m, inside, e) = found_of_has_gram g left (suc j) (ground arith) in (m, omega arith, e)
  ]

  has_gram_of_found :
      (g : List Text) (left j m : ℕ)
      → j ≤ m
      → m < j + left
      → g ≡ gram k b m
      → has_gram k g b left j ≡ true
  unfolding has_gram
  has_gram_of_found g zero j m from_j inside e = absurd (omega arith)
  has_gram_of_found g (suc left) j m from_j inside e = elim (Bool-cases (ltb j m)) [
    | inl later ↦ ground (arith, has_gram_of_found g left (suc j) m (ground arith) (omega arith) e)
    | inr here ↦
        let at_j : m ≡ j = ground arith in
        let same : same_gram g (gram k b j) ≡ true =
          subst (λ (h : List Text). same_gram g h ≡ true) (e ∙ ap (gram k b) at_j)
            (same_gram_self g) in
        rw same (ground arith)
  ]

  found_of_any_gram :
      (a : List Text) (left i : ℕ)
      → any_gram k a b left i ≡ true
      → (n : ℕ) × (n < i + left) × ((m : ℕ) × (m < length b + 1 - k) × (gram k a n ≡ gram k b m))
  unfolding any_gram
  found_of_any_gram a zero i h = absurd (ground arith)
  found_of_any_gram a (suc left) i h =
      elim (Bool-cases (has_gram k (gram k a i) b (length b + 1 - k) 0)) [
        | inl t ↦
            let (m, inside, e) = found_of_has_gram (gram k a i) (length b + 1 - k) 0 t in
            (i, omega arith, (m, omega arith, e))
        | inr t ↦
            let (n, inside, found) = found_of_any_gram a left (suc i) (ground arith) in
            (n, omega arith, found)
      ]

  any_gram_of_found :
      (a : List Text) (left i n m : ℕ)
      → i ≤ n
      → n < i + left
      → m < length b + 1 - k
      → gram k a n ≡ gram k b m
      → any_gram k a b left i ≡ true
  unfolding any_gram
  any_gram_of_found a zero i n m from_i inside in_b e = absurd (omega arith)
  any_gram_of_found a (suc left) i n m from_i inside in_b e = elim (Bool-cases (ltb i n)) [
    | inl later ↦
        ground (arith, any_gram_of_found a left (suc i) n m (ground arith) (omega arith) in_b e)
    | inr here ↦
        let at_i : i ≡ n = ground arith in
        let has : has_gram k (gram k a i) b (length b + 1 - k) 0 ≡ true =
          has_gram_of_found (gram k a i) (length b + 1 - k) 0 m (omega arith) (omega arith)
            (ap (gram k a) at_i ∙ e) in
        rw has (ground arith)
  ]

  Run-of_gram :
      (a : List Text) (n m : ℕ)
      → n + k ≤ length a
      → m + k ≤ length b
      → gram k a n ≡ gram k b m
      → Run a b n m k
  Run-of_gram a n m in_a in_b e = record {
    in_doc = in_a;
    in_source = in_b;
    same = λ j hj.
        sym (get_elem?-gram k a n j hj)
        ∙ ap (λ (g : List Text). get_elem? g j) e
        ∙ get_elem?-gram k b m j hj;
  }

  pub shares_run_lem :
      (a : List Text) → (shares_run k a b ≡ true) ↔ ((n : ℕ) × (m : ℕ) × Run a b n m k)
  unfolding shares_run
  shares_run_lem a = elim (Bool-cases (ltb (length a) k || ltb (length b) k)) [
    | inl short ↦ rw short (
      λ h. absurd (ground arith),
      λ found. absurd (ground (arith, found.2.in_doc, found.2.in_source)),
    )
    | inr long ↦ rw long (
      (λ h.
          let (n, in_a, (m, in_b, e)) = found_of_any_gram a (length a + 1 - k) 0 h in
          (n, m, Run-of_gram a n m (ground arith) (ground arith) e)),
      (λ found.
          let (n, m, r) = found in
          any_gram_of_found a (length a + 1 - k) 0 n m (omega arith) (omega (arith, r.in_doc))
            (omega (arith, r.in_source)) (gram_ext k a b n m r.same)),
    )
  ]
