-- ===== src/Dict.antt =====
-- Python's `dict` and `OrderedDict` as association lists in insertion order.
pub mod Entries
pub mod Order
pub mod Sweep
pub mod Tally
use p_r_i_s_m.Prelude.{
  ℕ, suc, List, [], ◌∷◌, ◌++◌, map, Option, none, some, Bool, false, ◌∙◌, eq_self, ◌≡◌, refl, arith,
  Eq, ◌==◌, ltb, length, if◌then◌else◌, Option-cases, inl, inr,
}

abbrev pub Dict : Type 0 → Type 0 → Type 0
Dict K V = List (K × V)

module _ {K V : Type 0} ⦃e : Eq K⦄ where
  -- `d.get(k)`
  unfoldable pub lookup : K → Dict K V → Option V
  lookup k [] = none
  lookup k ((j, v) ∷ d) = if j == k then some v else lookup k d

  -- `d[k] = v`: in the place of the old entry, or at the end
  unfoldable pub assign : K → V → Dict K V → Dict K V
  assign k v [] = (k, v) ∷ []
  assign k v ((j, w) ∷ d) = if j == k then (j, v) ∷ d else (j, w) ∷ assign k v d

  -- `del d[k]`, and nothing where `k` is missing
  unfoldable pub remove : K → Dict K V → Dict K V
  remove k [] = []
  remove k ((j, v) ∷ d) = let rest = remove k d in if j == k then rest else (j, v) ∷ rest

  -- `[k for k, v in d.items() if p(v)]`
  unfoldable pub keys_where : (V → Bool) → Dict K V → List K
  keys_where p [] = []
  keys_where p ((k, v) ∷ d) = let rest = keys_where p d in if p v then k ∷ rest else rest

  -- `for k in ks: del d[k]`
  unfoldable pub remove_all : List K → Dict K V → Dict K V
  unfolding remove
  remove_all [] d = d
  remove_all (k ∷ ks) d = remove_all ks (remove k d)

  -- `d.move_to_end(k)`
  unfoldable pub move_to_end : K → Dict K V → Dict K V
  unfolding lookup remove
  move_to_end k d = elim (lookup k d) [ none ↦ d | some v ↦ remove k d ++ (k, v) ∷ [] ]

  pub lookup-assign :
      (k j : K) (v : V) (d : Dict K V)
      → lookup j (assign k v d) ≡ (if k == j then some v else lookup j d)
  unfolding lookup assign
  lookup-assign k j v [] = refl
  lookup-assign k j v ((i, w) ∷ d) =
      ground (arith, e.beq_iff k j, e.beq_iff i k, e.beq_iff i j, lookup-assign k j v d)

  pub lookup-assign_self : (k : K) (v : V) (d : Dict K V) → lookup k (assign k v d) ≡ some v
  lookup-assign_self k v d = lookup-assign k k v d ∙ rw (eq_self k) refl

  pub lookup-assign_other :
      (k j : K) (v : V) (d : Dict K V) → (k == j) ≡ false → lookup j (assign k v d) ≡ lookup j d
  lookup-assign_other k j v d h = lookup-assign k j v d ∙ rw h refl

  pub lookup-remove :
      (k j : K) (d : Dict K V) → lookup j (remove k d) ≡ (if k == j then none else lookup j d)
  unfolding lookup remove
  lookup-remove k j [] = ground arith
  lookup-remove k j ((i, w) ∷ d) =
      ground (arith, e.beq_iff k j, e.beq_iff i k, e.beq_iff i j, lookup-remove k j d)

  pub lookup-append :
      (j : K) (c d : Dict K V)
      → lookup j (c ++ d) ≡ elim (lookup j c) [ none ↦ lookup j d | some v ↦ some v ]
  unfolding lookup
  lookup-append j [] d = refl
  lookup-append j ((i, w) ∷ c) d = ground (arith, lookup-append j c d)

  pub lookup-move_to_end : (k j : K) (d : Dict K V) → lookup j (move_to_end k d) ≡ lookup j d
  unfolding move_to_end lookup
  lookup-move_to_end k j d = elim (Option-cases (lookup k d)) [
    | inl absent ↦ rw (absent, move_to_end) refl
    | inr (v, found) ↦
        rw (found, move_to_end)
          (ground
            (arith, lookup-append j (remove k d) ((k, v) ∷ []), lookup-remove k j d, e.beq_iff k j))
  ]

-- `while len(d) > limit: d.popitem(last=False)`
unfoldable pub evict {ℓ} : {A : Type ℓ} → ℕ → List A → List A
evict limit [] = []
evict limit (x ∷ d) = let rest = evict limit d in if ltb limit (suc (length d)) then rest else x ∷ d
