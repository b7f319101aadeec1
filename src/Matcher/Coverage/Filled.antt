-- ===== src/Matcher/Coverage/Filled.antt =====
-- What the loops of `_aggregate` and `confidence_breakdown` leave in the sets that they fill.
use p_r_i_s_m.Prelude.{
  ℕ, zero, suc, ◌+◌, ◌-◌, ◌≤◌, ◌<◌, ◌≡◌, inl, inr, List, [], ◌∷◌, Bool, true, false, ◌&&◌, ◌||◌,
  ltb, leb, length, Bool-cases, arith,
}
use p_r_i_s_m.Matcher.Types.{Match, MatchType, verbatim, paraphrase, translated}
use p_r_i_s_m.Matcher.Coverage.{
  bisect_left, range_from, token_range, contains, update, is_review, split_bands, Buckets,
  add_to_type, add_match, fill_buckets,
}
use p_r_i_s_m.Matcher.Coverage.Sets.{IsSetBelow, contains-update, update-IsSetBelow}

contains-range : (i lo n : ℕ) → contains i (range_from lo n) ≡ (leb lo i && ltb i (lo + n))
unfolding contains range_from
contains-range i lo zero = ground arith
contains-range i lo (suc n) = ground (arith, contains-range i (suc lo) n)

bisect_left-le : (starts : List ℕ) (x : ℕ) → bisect_left starts x ≤ length starts
unfolding bisect_left
bisect_left-le [] x = omega arith
bisect_left-le (y ∷ ys) x = ground (arith, bisect_left-le ys x)

-- Token indices are below the number of tokens.
token_range_below :
    (starts : List ℕ) (a b i : ℕ) → contains i (token_range starts a b) ≡ true → i < length starts
unfolding token_range
token_range_below starts a b i h = ground (
  arith,
  contains-range i (bisect_left starts a) (bisect_left starts b - bisect_left starts a),
  bisect_left-le starts a,
  bisect_left-le starts b,
)

-- Token `i` lies in the span of one of the matches.
pub hit : List ℕ → List Match → ℕ → Bool
hit starts [] i = false
hit starts (m ∷ ms) i = contains i (token_range starts m.doc_start m.doc_end) || hit starts ms i

pub record IsFilled (n : ℕ) (b : Buckets) : Type 0 where
  pub verbatim_set : IsSetBelow n b.verbatim_tokens
  pub paraphrase_set : IsSetBelow n b.paraphrase_tokens
  pub translated_set : IsSetBelow n b.translated_tokens

abbrev pub in_buckets : ℕ → Buckets → Bool
in_buckets i b =
    contains i b.verbatim_tokens
    || (contains i b.paraphrase_tokens || contains i b.translated_tokens)

add_to_type-IsFilled :
    (n : ℕ) (t : MatchType) (idx : List ℕ) (b : Buckets)
    → ((i : ℕ) → contains i idx ≡ true → i < n)
    → IsFilled n b
    → IsFilled n (add_to_type t idx b)
unfolding add_to_type
add_to_type-IsFilled n verbatim idx b below f = record {
  verbatim_set = update-IsSetBelow n _ idx f.verbatim_set below;
  paraphrase_set = f.paraphrase_set;
  translated_set = f.translated_set;
}
add_to_type-IsFilled n paraphrase idx b below f = record {
  verbatim_set = f.verbatim_set;
  paraphrase_set = update-IsSetBelow n _ idx f.paraphrase_set below;
  translated_set = f.translated_set;
}
add_to_type-IsFilled n translated idx b below f = record {
  verbatim_set = f.verbatim_set;
  paraphrase_set = f.paraphrase_set;
  translated_set = update-IsSetBelow n _ idx f.translated_set below;
}

in_add_to_type :
    (i : ℕ) (t : MatchType) (idx : List ℕ) (b : Buckets)
    → in_buckets i (add_to_type t idx b) ≡ (in_buckets i b || contains i idx)
unfolding add_to_type
in_add_to_type i verbatim idx b = ground (arith, contains-update i b.verbatim_tokens idx)
in_add_to_type i paraphrase idx b = ground (arith, contains-update i b.paraphrase_tokens idx)
in_add_to_type i translated idx b = ground (arith, contains-update i b.translated_tokens idx)

module _ (starts : List ℕ) where
  add_match-IsFilled :
      (m : Match) (b : Buckets)
      → IsFilled (length starts) b
      → IsFilled (length starts) (add_match starts m b)
  unfolding add_match
  add_match-IsFilled m b f =
      let f' =
        add_to_type-IsFilled (length starts) m.match_type (token_range starts m.doc_start m.doc_end)
          b (token_range_below starts m.doc_start m.doc_end) f in
      record {
        verbatim_set = f'.verbatim_set;
        paraphrase_set = f'.paraphrase_set;
        translated_set = f'.translated_set;
      }

  pub fill_buckets-IsFilled :
      (ms : List Match) (b : Buckets)
      → IsFilled (length starts) b
      → IsFilled (length starts) (fill_buckets starts ms b)
  unfolding fill_buckets
  fill_buckets-IsFilled [] b f = f
  fill_buckets-IsFilled (m ∷ ms) b f =
      fill_buckets-IsFilled ms (add_match starts m b) (add_match-IsFilled m b f)

  in_add_match :
      (i : ℕ) (m : Match) (b : Buckets)
      → in_buckets i (add_match starts m b)
        ≡ (in_buckets i b || contains i (token_range starts m.doc_start m.doc_end))
  unfolding add_match
  in_add_match i m b = in_add_to_type i m.match_type (token_range starts m.doc_start m.doc_end) b

  pub in_fill_buckets :
      (i : ℕ) (ms : List Match) (b : Buckets)
      → in_buckets i (fill_buckets starts ms b) ≡ (in_buckets i b || hit starts ms i)
  unfolding fill_buckets hit
  in_fill_buckets i [] b = ground arith
  in_fill_buckets i (m ∷ ms) b =
      ground (arith, in_fill_buckets i ms (add_match starts m b), in_add_match i m b)

  abbrev in_bands : ℕ → List ℕ × List ℕ → Bool
  in_bands i (c, r) = contains i c || contains i r

  abbrev BandSets : List ℕ × List ℕ → Type 0
  BandSets (c, r) = IsSetBelow (length starts) c × IsSetBelow (length starts) r

  pub split_bands-sets :
      (ms : List Match) (c r : List ℕ)
      → IsSetBelow (length starts) c
      → IsSetBelow (length starts) r
      → BandSets (split_bands starts ms (c, r))
  unfolding split_bands
  split_bands-sets [] c r hc hr = (hc, hr)
  split_bands-sets (m ∷ ms) c r hc hr =
      let idx = token_range starts m.doc_start m.doc_end in
      let below = token_range_below starts m.doc_start m.doc_end in
      elim (Bool-cases (is_review m.confidence)) [
        | inl t ↦
            rw (t, split_bands)
              (split_bands-sets ms c (update r idx) hc
                (update-IsSetBelow (length starts) r idx hr below))
        | inr t ↦
            rw (t, split_bands)
              (split_bands-sets ms (update c idx) r
                (update-IsSetBelow (length starts) c idx hc below) hr)
      ]

  pub in_split_bands :
      (i : ℕ) (ms : List Match) (c r : List ℕ)
      → in_bands i (split_bands starts ms (c, r)) ≡ (in_bands i (c, r) || hit starts ms i)
  unfolding split_bands hit
  in_split_bands i [] c r = ground arith
  in_split_bands i (m ∷ ms) c r =
      let idx = token_range starts m.doc_start m.doc_end in
      elim (Bool-cases (is_review m.confidence)) [
        | inl t ↦
            rw (t, split_bands)
              (ground (arith, in_split_bands i ms c (update r idx), contains-update i r idx))
        | inr t ↦
            rw (t, split_bands)
              (ground (arith, in_split_bands i ms (update c idx) r, contains-update i c idx))
      ]
