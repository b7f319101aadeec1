-- ===== src/Dict/Order.antt =====
-- Keys occur once, and eviction drops the oldest entries and no more than it must.
use p_r_i_s_m.Prelude.{
  ℕ, suc, ◌+◌, ◌≤◌, List, [], ◌∷◌, ◌++◌, none, some, ◌≡◌, refl, ap, subst, ◌∙◌, inl, inr, arith, Eq,
  ◌==◌, ltb, length, length-append, Bool-cases, eq_self, false,
}
use p_r_i_s_m.Dict.{
  lookup-assign_self, Dict, lookup, assign, remove, move_to_end, evict, lookup-assign,
  lookup-remove, lookup-append,
}

module _ {K V : Type 0} ⦃e : Eq K⦄ where
  abbrev pub Distinct : Dict K V → Type 0
  Distinct [] = Unit
  Distinct ((k, v) ∷ d) = (lookup k d ≡ none) × Distinct d

  pub remove_absent : (k : K) (d : Dict K V) → lookup k d ≡ none → remove k d ≡ d
  unfolding lookup remove
  remove_absent k [] h = refl
  remove_absent k ((j, v) ∷ d) h = ground (arith, remove_absent k d)

  pub remove_first : (k : K) (v : V) (d : Dict K V) → lookup k d ≡ none → remove k ((k, v) ∷ d) ≡ d
  unfolding remove
  remove_first k v d h = rw (eq_self k) (remove_absent k d h)

  pub remove_other :
      (k j : K) (v : V) (d : Dict K V)
      → (k == j) ≡ false
      → remove j ((k, v) ∷ d) ≡ (k, v) ∷ remove j d
  unfolding remove
  remove_other k j v d h = rw h refl

  pub lookup_first : (k : K) (v : V) (d : Dict K V) → lookup k ((k, v) ∷ d) ≡ some v
  unfolding lookup
  lookup_first k v d = rw (eq_self k) refl

  pub assign_absent :
      (k : K) (v : V) (d : Dict K V) → lookup k d ≡ none → assign k v d ≡ d ++ (k, v) ∷ []
  unfolding lookup assign
  assign_absent k v [] h = refl
  assign_absent k v ((j, w) ∷ d) h = ground (arith, assign_absent k v d)

  pub remove-assign : (k : K) (v : V) (d : Dict K V) → remove k (assign k v d) ≡ remove k d
  unfolding remove assign
  remove-assign k v [] = rw (eq_self k) refl
  remove-assign k v ((j, w) ∷ d) = ground (arith, remove-assign k v d)

  -- `d[k] = v; d.move_to_end(k)` leaves the entry at the end
  move_to_end_found :
      (k : K) (v : V) (d : Dict K V)
      → lookup k d ≡ some v
      → move_to_end k d ≡ remove k d ++ (k, v) ∷ []
  unfolding move_to_end
  move_to_end_found k v d found = rw (found, move_to_end) refl

  pub move_to_end-assign :
      (k : K) (v : V) (d : Dict K V) → move_to_end k (assign k v d) ≡ remove k d ++ (k, v) ∷ []
  move_to_end-assign k v d =
      move_to_end_found k v (assign k v d) (lookup-assign_self k v d)
      ∙ ap (λ (r : Dict K V). r ++ (k, v) ∷ []) (remove-assign k v d)

  pub length-remove-le : (k : K) (d : Dict K V) → length (remove k d) ≤ length d
  unfolding remove
  length-remove-le k [] = omega arith
  length-remove-le k ((j, v) ∷ d) = ground (arith, length-remove-le k d)

  pub remove-Distinct : (k : K) (d : Dict K V) → Distinct d → Distinct (remove k d)
  unfolding remove
  remove-Distinct k [] h = tt
  remove-Distinct k ((j, v) ∷ d) h = elim (Bool-cases (j == k)) [
    | inl t ↦ rw t (remove-Distinct k d h.1)
    | inr t ↦ rw t (ground (arith, lookup-remove k j d, h.0), remove-Distinct k d h.1)
  ]

  pub lookup-remove_self : (k : K) (d : Dict K V) → lookup k (remove k d) ≡ none
  lookup-remove_self k d = lookup-remove k k d ∙ rw (eq_self k) refl

  pub append-Distinct :
      (k : K) (v : V) (d : Dict K V) → lookup k d ≡ none → Distinct d → Distinct (d ++ (k, v) ∷ [])
  unfolding lookup
  append-Distinct k v [] n h = (refl, tt)
  append-Distinct k v ((j, w) ∷ d) n h = (
    ground (arith, lookup-append j d ((k, v) ∷ []), h.0, e.beq_iff j k, e.beq_iff k j),
    append-Distinct k v d (ground arith) h.1,
  )

  pub assign-Distinct : (k : K) (v : V) (d : Dict K V) → Distinct d → Distinct (assign k v d)
  unfolding assign lookup
  assign-Distinct k v [] h = (refl, tt)
  assign-Distinct k v ((j, w) ∷ d) h = elim (Bool-cases (j == k)) [
    | inl t ↦ rw t h
    | inr t ↦ rw t (
      ground (arith, lookup-assign k j v d, h.0, e.beq_iff j k, e.beq_iff k j),
      assign-Distinct k v d h.1,
    )
  ]

  pub evict-Distinct : (limit : ℕ) (d : Dict K V) → Distinct d → Distinct (evict limit d)
  unfolding evict
  evict-Distinct limit [] h = tt
  evict-Distinct limit ((j, v) ∷ d) h = elim (Bool-cases (ltb limit (suc (length d)))) [
    | inl t ↦ rw t (evict-Distinct limit d h.1)
    | inr t ↦ rw t h
  ]

  -- What eviction leaves is as it was.
  pub lookup-evict :
      (limit : ℕ) (d : Dict K V) (j : K) {v : V}
      → Distinct d
      → lookup j (evict limit d) ≡ some v
      → lookup j d ≡ some v
  unfolding evict lookup
  lookup-evict limit [] j h f = f
  lookup-evict limit ((i, w) ∷ d) j {v} h f = elim (Bool-cases (ltb limit (suc (length d)))) [
    | inl t ↦ ground (arith, lookup-evict limit d j {v = v} h.1, h.0, e.beq_iff i j)
    | inr t ↦ ground arith
  ]

module _ {A : Type 0} where
  pub length-evict-le : (limit : ℕ) (d : List A) → length (evict limit d) ≤ limit
  unfolding evict
  length-evict-le limit [] = omega arith
  length-evict-le limit (x ∷ d) = ground (arith, length-evict-le limit d)

  pub evict_fits : (limit : ℕ) (d : List A) → length d ≤ limit → evict limit d ≡ d
  unfolding evict
  evict_fits limit [] h = refl
  evict_fits limit (x ∷ d) h = ground arith

  -- One entry too many: the oldest goes, and only that.
  pub evict_first : (limit : ℕ) (x : A) (d : List A) → length d ≡ limit → evict limit (x ∷ d) ≡ d
  unfolding evict
  evict_first limit x d h = ground (arith, evict_fits limit d)

  -- The newest entry is the last to go.
  pub evict-append :
      (limit : ℕ) (d : List A) (x : A) → evict (suc limit) (d ++ x ∷ []) ≡ evict limit d ++ x ∷ []
  unfolding evict
  evict-append limit [] x = ground arith
  evict-append limit (y ∷ d) x = ground (arith, evict-append limit d x, length-append d (x ∷ []))

module _ {K V : Type 0} ⦃e : Eq K⦄ where
  pub evict_absent :
      (limit : ℕ) (k : K) (d : Dict K V) → lookup k d ≡ none → lookup k (evict limit d) ≡ none
  unfolding evict lookup
  evict_absent limit k [] h = refl
  evict_absent limit k ((j, w) ∷ d) h = ground (arith, evict_absent limit k d)

  pub length-remove_found :
      (k : K) (v : V) (d : Dict K V)
      → Distinct d
      → lookup k d ≡ some v
      → length (remove k d) + 1 ≡ length d
  unfolding remove lookup
  length-remove_found k v [] h f = ground arith
  length-remove_found k v ((j, w) ∷ d) h f = elim (Bool-cases (j == k)) [
    | inl t ↦
        let gone : lookup k d ≡ none =
          subst (λ (x : K). lookup x d ≡ none) ((e.beq_iff j k).0 t) h.0 in
        rw (t, remove_absent k d gone) (omega arith)
    | inr t ↦ rw t (omega (arith, length-remove_found k v d h.1 (ground arith)))
  ]

  pub remove-append-Distinct :
      (k : K) (v : V) (d : Dict K V) → Distinct d → Distinct (remove k d ++ (k, v) ∷ [])
  remove-append-Distinct k v d h =
      append-Distinct k v (remove k d) (lookup-remove_self k d) (remove-Distinct k d h)

  pub move_to_end-Distinct :
      (k : K) (v : V) (d : Dict K V)
      → lookup k d ≡ some v
      → Distinct d
      → Distinct (move_to_end k d) × (length (move_to_end k d) ≡ length d)
  move_to_end-Distinct k v d f h = rw (move_to_end_found k v d f) (
    remove-append-Distinct k v d h,
    omega (arith, length-append (remove k d) ((k, v) ∷ []), length-remove_found k v d h f),
  )

  pub length-assign_found :
      (k : K) (v w : V) (d : Dict K V) → lookup k d ≡ some w → length (assign k v d) ≡ length d
  unfolding assign lookup
  length-assign_found k v w [] f = ground arith
  length-assign_found k v w ((j, x) ∷ d) f = ground (arith, length-assign_found k v w d)
