-- ===== src/Dict/Sweep.antt =====
-- Deleting, in a loop over a list of keys taken beforehand, every entry whose value passes a test.
use p_r_i_s_m.Prelude.{
  ◌+◌, [], ◌∷◌, Option, none, some, Bool, Eq-String, ◌≡◌, refl, ap, ◌∙◌, inl, inr, arith, ◌==◌,
  length, Bool-cases, if◌then◌else◌, false, Eq,
}
use p_r_i_s_m.Dict.{Dict, lookup, remove, keys_where, remove_all}
use p_r_i_s_m.Dict.Order.{Distinct, remove_first, remove_other}

abbrev pub unless {ℓ} : {V : Type ℓ} → (V → Bool) → Option V → Option V
unless p none = none
unless p (some v) = if p v then none else some v

module _ {K V : Type 0} ⦃e : Eq K⦄ (p : V → Bool) where
  -- the entries that stay
  unfoldable pub drop_where : Dict K V → Dict K V
  drop_where [] = []
  drop_where ((k, v) ∷ d) = let rest = drop_where d in if p v then rest else (k, v) ∷ rest

  pub lookup-drop_where :
      (j : K) (d : Dict K V) → Distinct d → lookup j (drop_where d) ≡ unless p (lookup j d)
  unfolding drop_where lookup
  lookup-drop_where j [] h = refl
  lookup-drop_where j ((k, v) ∷ d) h = ground (arith, lookup-drop_where j d h.1, h.0, e.beq_iff k j)

  pub drop_where-Distinct : (d : Dict K V) → Distinct d → Distinct (drop_where d)
  unfolding drop_where
  drop_where-Distinct [] h = tt
  drop_where-Distinct ((k, v) ∷ d) h = elim (Bool-cases (p v)) [
    | inl t ↦ rw t (drop_where-Distinct d h.1)
    | inr t ↦ rw t (lookup-drop_where k d h.1 ∙ ap (unless p) h.0, drop_where-Distinct d h.1)
  ]

  pub length-drop_where :
      (d : Dict K V) → length (drop_where d) + length (keys_where p d) ≡ length d
  unfolding drop_where keys_where
  length-drop_where [] = omega arith
  length-drop_where ((k, v) ∷ d) = ground (arith, length-drop_where d)

  -- a key that is not in the table is not among those to delete
  remove_all-absent :
      (k : K) (v : V) (d c : Dict K V)
      → lookup k d ≡ none
      → remove_all (keys_where p d) ((k, v) ∷ c) ≡ (k, v) ∷ remove_all (keys_where p d) c
  unfolding keys_where remove_all lookup
  remove_all-absent k v [] c h = refl
  remove_all-absent k v ((j, w) ∷ d) c h = elim (Bool-cases (p w)) [
    | inl t ↦
        let other : (k == j) ≡ false = ground (arith, e.beq_iff k j, e.beq_iff j k) in
        rw (t, keys_where)
          (ap (remove_all (keys_where p d)) (remove_other k j v c other)
            ∙ remove_all-absent k v d (remove j c) (ground arith))
    | inr t ↦ rw (t, keys_where) (remove_all-absent k v d c (ground arith))
  ]

  -- The two loops together keep exactly the entries that do not pass the test.
  pub remove_all-keys_where :
      (d : Dict K V) → Distinct d → remove_all (keys_where p d) d ≡ drop_where d
  unfolding keys_where remove_all drop_where
  remove_all-keys_where [] h = refl
  remove_all-keys_where ((k, v) ∷ d) h = elim (Bool-cases (p v)) [
    | inl t ↦
        rw t
          (ap (remove_all (keys_where p d)) (remove_first k v d h.0) ∙ remove_all-keys_where d h.1)
    | inr t ↦ rw t (
        remove_all-absent k v d d h.0
        ∙ ap (λ (x : Dict K V). (k, v) ∷ x) (remove_all-keys_where d h.1))
  ]
