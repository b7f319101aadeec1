-- ===== src/Matcher/Verbatim/Runs.antt =====
-- Runs of equal words in a document and a source, and the inner loop that extends them.
use p_r_i_s_m.Prelude.{
  ℕ, zero, suc, ◌+◌, ◌≤◌, ◌<◌, ◌≡◌, sym, inl, inr, List, Option, none, some, true, length,
  get_elem?, arith, Bool-cases, get_elem?_inside, eq_of_test, eq_self, ap, lt→ltb, ltb→lt,
  lt_suc_cases, tests, ltb,
}
use p_r_i_s_m.Text.{Text, Eq-Text}
use p_r_i_s_m.Matcher.Verbatim.{goes_on, same_item, extend}

-- `len` words of the document from `di` on are those of the source from `si` on.
pub record Run (doc norms : List Text) (di si len : ℕ) : Type 0 where
  pub in_doc : di + len ≤ length doc
  pub in_source : si + len ≤ length norms
  pub same : (j : ℕ) → j < len → get_elem? doc (di + j) ≡ get_elem? norms (si + j)

eq_of_same_item : (x y : Option Text) → same_item x y ≡ true → x ≡ y
unfolding same_item
eq_of_same_item (some v) (some w) h = ap some (eq_of_test v w h)
eq_of_same_item (some v) none h = ground arith
eq_of_same_item none y h = ground arith

same_item_self : (v : Text) → same_item (some v) (some v) ≡ true
unfolding same_item
same_item_self v = eq_self v

module _ (doc norms : List Text) where
  same_of_goes_on :
      (a b : ℕ)
      → goes_on doc norms a b ≡ true
      → (a < length doc) × (b < length norms) × (get_elem? doc a ≡ get_elem? norms b)
  unfolding goes_on
  same_of_goes_on a b h = ground (arith, eq_of_same_item (get_elem? doc a) (get_elem? norms b))

  goes_on_of_same :
      (a b : ℕ)
      → a < length doc
      → b < length norms
      → get_elem? doc a ≡ get_elem? norms b
      → goes_on doc norms a b ≡ true
  unfolding goes_on
  goes_on_of_same a b ha hb e =
      let (v, p) = get_elem?_inside doc a ha in
      rw (lt→ltb a _ ha, lt→ltb b _ hb, sym e, p) (same_item_self v)

  -- The run may be made longer by the word behind it.
  Run-suc :
      (di si len : ℕ)
      → Run doc norms di si len
      → goes_on doc norms (di + len) (si + len) ≡ true
      → Run doc norms di si (suc len)
  Run-suc di si len r h =
      let (hd, hs, e) = same_of_goes_on (di + len) (si + len) h in
      record {
        in_doc = omega arith;
        in_source = omega arith;
        same =
            λ j hj. elim (lt_suc_cases j len hj) [ inl old ↦ r.same j old | inr last ↦ rw last e ];
      }

  pub Run-prefix :
      (di si len shorter : ℕ)
      → shorter ≤ len
      → Run doc norms di si len
      → Run doc norms di si shorter
  Run-prefix di si len shorter h r = record {
    in_doc = omega arith;
    in_source = omega arith;
    same = λ j hj. r.same j (omega arith);
  }

  -- What the inner loop returns is a run.
  pub extend-Run :
      (fuel di si len : ℕ)
      → Run doc norms di si len
      → Run doc norms di si (extend fuel doc norms di si len)
  unfolding extend
  extend-Run zero di si len r = r
  extend-Run (suc fuel) di si len r = elim (Bool-cases (goes_on doc norms (di + len) (si + len))) [
    | inl t ↦ rw (t, extend) (extend-Run fuel di si (suc len) (Run-suc di si len r t))
    | inr t ↦ rw (t, extend) r
  ]

  pub le-extend : (fuel di si len : ℕ) → len ≤ extend fuel doc norms di si len
  unfolding extend
  le-extend zero di si len = omega arith
  le-extend (suc fuel) di si len = ground (arith, le-extend fuel di si (suc len))

  -- With the document's length for fuel the inner loop stops at its test, so no run from the same
  -- two places is longer.
  pub Run-le-extend :
      (fuel di si len longer : ℕ)
      → length doc ≤ fuel + len
      → Run doc norms di si longer
      → longer ≤ extend fuel doc norms di si len
  unfolding extend
  Run-le-extend zero di si len longer h r = omega (arith, r.in_doc)
  Run-le-extend (suc fuel) di si len longer h r =
      elim (Bool-cases (goes_on doc norms (di + len) (si + len))) [
        | inl t ↦ rw (t, extend) (Run-le-extend fuel di si (suc len) longer (omega arith) r)
        | inr t ↦
            rw (t, extend)
              (elim (Bool-cases (ltb len longer)) [
                | inl more ↦ cc (
                    goes_on_of_same (di + len) (si + len) (omega (tests, r.in_doc))
                      (omega (tests, r.in_source)) (r.same len (ltb→lt len longer more)))
                | inr less ↦ ground arith
              ])
      ]
