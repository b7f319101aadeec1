-- ===== src/Pipeline/Rerank/Idle.antt =====
-- When the reranking has nothing to ask: no match is borderline, or the setting allows no pair.
use p_r_i_s_m.Prelude.{
  ℕ, zero, suc, List, [], ◌∷◌, ◌≡◌, ◌≢◌, refl, sym, subst, ◌∙◌, ap, Option, none, some, inl, inr,
  ◌⊎◌, true, false, length, take, All, Memᴰ, Bool-cases, arith,
}
use p_r_i_s_m.Text.{Text, Unicode}
use p_r_i_s_m.Matcher.Types.{Match, MatchType, verbatim, paraphrase, translated}
use p_r_i_s_m.Triage.Summary.{insert, sort, comes_before}
use p_r_i_s_m.Pipeline.Rerank.{
  RerankStage, is_semantic, has_text, has_excerpt, is_candidate, find_candidates, candidates,
  similarity_key,
}
use p_r_i_s_m.Pipeline.Rerank.Described.{HasText, IsBorderline}

HasText-has_text : (u : Unicode) (text : Text) → HasText u text → has_text u text ≡ true
unfolding has_text HasText
HasText-has_text u [] (c, m, e) = elim m [ ]
HasText-has_text u (x ∷ text) (c, Memᴰ.head same, e) =
    let shown : u.is_space x ≡ false = subst (λ (d : ℕ). u.is_space d ≡ false) same e in
    rw shown refl
HasText-has_text u (x ∷ text) (c, Memᴰ.tail m, e) =
    ground (arith, HasText-has_text u text (c, m, e))

ne-verbatim-is_semantic : (t : MatchType) → t ≢ verbatim → is_semantic t ≡ true
unfolding is_semantic
ne-verbatim-is_semantic verbatim h = absurd (h refl)
ne-verbatim-is_semantic paraphrase h = refl
ne-verbatim-is_semantic translated h = refl

has_excerpt-eq_true :
    (u : Unicode) (excerpt : Option Text) (text : Text)
    → excerpt ≡ some text
    → HasText u text
    → has_excerpt u excerpt ≡ true
unfolding has_excerpt
has_excerpt-eq_true u none text e h = cc
has_excerpt-eq_true u (some t) text e h = HasText-has_text u t (subst (HasText u) (ground arith) h)

-- Nothing that is meant to be asked about is left out.
IsBorderline-is_candidate :
    (stage : RerankStage) (u : Unicode) (m : Match)
    → IsBorderline stage u m
    → is_candidate stage u m ≡ true
unfolding is_candidate
IsBorderline-is_candidate stage u m b =
    let (text, e, shown) = b.passage in
    ground (
      arith,
      ne-verbatim-is_semantic m.match_type b.semantic,
      b.not_below,
      b.not_above,
      has_excerpt-eq_true u m.doc_excerpt text e shown,
      HasText-has_text u m.source_excerpt b.source,
    )

module _ {A : Type 0} (key : A → ℕ × ℕ) where
  length-insert : (x : A) (xs : List A) → length (insert key x xs) ≡ suc (length xs)
  unfolding insert
  length-insert x [] = refl
  length-insert x (y ∷ ys) = elim (Bool-cases (comes_before (key y) (key x))) [
    | inl t ↦ rw t (ap suc (length-insert x ys))
    | inr t ↦ rw t refl
  ]

  length-sort : (xs : List A) → length (sort key xs) ≡ length xs
  unfolding sort
  length-sort [] = refl
  length-sort (x ∷ xs) = length-insert x (sort key xs) ∙ ap suc (length-sort xs)

length-take-eq_zero :
    {A : Type 0} (n : ℕ) (xs : List A) → length (take n xs) ≡ 0 → (n ≡ 0) ⊎ (length xs ≡ 0)
length-take-eq_zero zero xs h = inl refl
length-take-eq_zero (suc n) [] h = inr refl
length-take-eq_zero (suc n) (x ∷ xs) h = absurd (omega arith)

module _ (stage : RerankStage) (u : Unicode) where
  find_candidates-none :
      (i : ℕ) (ms : List Match)
      → length (find_candidates stage u i ms) ≡ 0
      → All (λ m. ¬ IsBorderline stage u m) ms
  unfolding find_candidates
  find_candidates-none i [] h = tt
  find_candidates-none i (m ∷ ms) h = elim (Bool-cases (is_candidate stage u m)) [
    | inl t ↦ absurd (ground arith)
    | inr t ↦ (
      λ b. cc (t, IsBorderline-is_candidate stage u m b),
      find_candidates-none (suc i) ms (rw t at h),
    )
  ]

  pub candidates-none :
      (ms : List Match)
      → length (candidates stage u ms) ≡ 0
      → (stage.max_pairs ≡ 0) ⊎ All (λ m. ¬ IsBorderline stage u m) ms
  unfolding candidates
  candidates-none ms h =
      let found = find_candidates stage u 0 ms in
      elim (length-take-eq_zero stage.max_pairs (sort similarity_key found) h) [
        | inl e ↦ inl e
        | inr e ↦ inr (find_candidates-none 0 ms (sym (length-sort similarity_key found) ∙ e))
      ]
