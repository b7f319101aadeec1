-- ===== src/Dict/Entries.antt =====
-- What holds of every entry of a dict stays so under its operations, and holds of what they add.
use p_r_i_s_m.Prelude.{
  ℕ, suc, [], ◌∷◌, some, ◌≡◌, inl, inr, arith, Eq, ◌==◌, ltb, length, Bool-cases, Option-cases, All,
  All-append, subst, sym,
}
use mathlib.Core.Option.{some-injective}
use p_r_i_s_m.Dict.{Dict, lookup, assign, remove, move_to_end, evict}

module _ {K V : Type 0} ⦃e : Eq K⦄ (P : K → V → Type 0) where
  abbrev pub AllEntries : Dict K V → Type 0
  AllEntries = All (λ (entry : K × V). P entry.0 entry.1)

  pub AllEntries-lookup :
      (k : K) (d : Dict K V) {v : V} → AllEntries d → lookup k d ≡ some v → P k v
  unfolding lookup
  AllEntries-lookup k [] h f = absurd (ground arith)
  AllEntries-lookup k ((j, w) ∷ d) {v} h f = elim (Bool-cases (j == k)) [
    | inl t ↦
        let same : w ≡ v = some-injective w v (ground arith) in
        subst (λ (x : K). P x v) ((e.beq_iff j k).0 t) (subst (P j) same h.0)
    | inr t ↦ AllEntries-lookup k d h.1 (ground arith)
  ]

  pub AllEntries-remove : (k : K) (d : Dict K V) → AllEntries d → AllEntries (remove k d)
  unfolding remove
  AllEntries-remove k [] h = tt
  AllEntries-remove k ((j, w) ∷ d) h = elim (Bool-cases (j == k)) [
    | inl t ↦ rw t (AllEntries-remove k d h.1)
    | inr t ↦ rw t (h.0, AllEntries-remove k d h.1)
  ]

  pub AllEntries-assign :
      (k : K) (v : V) (d : Dict K V) → P k v → AllEntries d → AllEntries (assign k v d)
  unfolding assign
  AllEntries-assign k v [] p h = (p, tt)
  AllEntries-assign k v ((j, w) ∷ d) p h = elim (Bool-cases (j == k)) [
    | inl t ↦ rw t (subst (λ (x : K). P x v) (sym ((e.beq_iff j k).0 t)) p, h.1)
    | inr t ↦ rw t (h.0, AllEntries-assign k v d p h.1)
  ]

  pub AllEntries-move_to_end : (k : K) (d : Dict K V) → AllEntries d → AllEntries (move_to_end k d)
  unfolding move_to_end
  AllEntries-move_to_end k d h = elim (Option-cases (lookup k d)) [
    | inl absent ↦ rw (absent, move_to_end) h
    | inr (v, found) ↦
        rw (found, move_to_end)
          (All-append (λ (entry : K × V). P entry.0 entry.1) (remove k d) ((k, v) ∷ [])
            (AllEntries-remove k d h) (AllEntries-lookup k d {v = v} h found, tt))
  ]

  pub AllEntries-evict : (limit : ℕ) (d : Dict K V) → AllEntries d → AllEntries (evict limit d)
  unfolding evict
  AllEntries-evict limit [] h = tt
  AllEntries-evict limit ((j, w) ∷ d) h = elim (Bool-cases (ltb limit (suc (length d)))) [
    | inl t ↦ rw t (AllEntries-evict limit d h.1)
    | inr t ↦ rw t h
  ]
