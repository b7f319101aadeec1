-- ===== src/Prelude/Sort.antt =====
-- Python's `sorted`, which is stable, over a test that says whether an item comes strictly before
-- another, and what sorting keeps.
use Prim.Native.Nat.{suc}
use mathlib.Core.Path.{◌≡◌, refl, ap, ◌∙◌}
use mathlib.Core.Bool.{Bool, true, false}
use mathlib.Core.List.{List, [], ◌∷◌}
use mathlib.Core.Logic.{inl, inr}
use native.Mathlib.Omega.{arith}
use p_r_i_s_m.Prelude.Tests.{if◌then◌else◌, Bool-cases}
use p_r_i_s_m.Prelude.Lists.{All, length}

module _ {A : Type 0} (before : A → A → Bool) where
  unfoldable pub insert_by : A → List A → List A
  insert_by x [] = x ∷ []
  insert_by x (y ∷ ys) = if before y x then y ∷ insert_by x ys else x ∷ y ∷ ys

  unfoldable pub sort_by : List A → List A
  unfolding insert_by
  sort_by [] = []
  sort_by (x ∷ xs) = insert_by x (sort_by xs)

  length-insert_by : (x : A) (xs : List A) → length (insert_by x xs) ≡ suc (length xs)
  unfolding insert_by
  length-insert_by x [] = refl
  length-insert_by x (y ∷ ys) = ground (arith, length-insert_by x ys)

  pub length-sort_by : (xs : List A) → length (sort_by xs) ≡ length xs
  unfolding sort_by
  length-sort_by [] = refl
  length-sort_by (x ∷ xs) = length-insert_by x (sort_by xs) ∙ ap suc (length-sort_by xs)

  module _ (P : A → Type 0) where
    All-insert_by : (x : A) (xs : List A) → P x → All P xs → All P (insert_by x xs)
    unfolding insert_by
    All-insert_by x [] p h = (p, tt)
    All-insert_by x (y ∷ ys) p h = elim (Bool-cases (before y x)) [
      | inl t ↦ rw t (h.0, All-insert_by x ys p h.1)
      | inr t ↦ rw t (p, h)
    ]

    pub All-sort_by : (xs : List A) → All P xs → All P (sort_by xs)
    unfolding sort_by
    All-sort_by [] h = tt
    All-sort_by (x ∷ xs) h = All-insert_by x (sort_by xs) h.0 (All-sort_by xs h.1)

  -- Nothing comes before an item that stands ahead of it.
  unfoldable pub IsOrderedBy : List A → Type 0
  IsOrderedBy [] = Unit
  IsOrderedBy (x ∷ xs) = All (λ y. before y x ≡ false) xs × IsOrderedBy xs

  module _ (asym : (x y : A) → before x y ≡ true → before y x ≡ false)
      (through : (x y z : A) → before y x ≡ false → before z y ≡ false → before z x ≡ false) where
    none_before :
        (x y : A) (ys : List A)
        → before y x ≡ false
        → All (λ z. before z y ≡ false) ys
        → All (λ z. before z x ≡ false) ys
    none_before x y [] h a = tt
    none_before x y (z ∷ ys) h a = (through x y z h a.0, none_before x y ys h a.1)

    insert_by-IsOrderedBy : (x : A) (xs : List A) → IsOrderedBy xs → IsOrderedBy (insert_by x xs)
    unfolding insert_by IsOrderedBy
    insert_by-IsOrderedBy x [] h = (tt, tt)
    insert_by-IsOrderedBy x (y ∷ ys) h = elim (Bool-cases (before y x)) [
      | inl t ↦ rw t (
        All-insert_by (λ z. before z y ≡ false) x ys (asym y x t) h.0,
        insert_by-IsOrderedBy x ys h.1,
      )
      | inr t ↦ rw t ((t, none_before x y ys t h.0), h)
    ]

    pub sort_by-IsOrderedBy : (xs : List A) → IsOrderedBy (sort_by xs)
    unfolding sort_by IsOrderedBy
    sort_by-IsOrderedBy [] = tt
    sort_by-IsOrderedBy (x ∷ xs) = insert_by-IsOrderedBy x (sort_by xs) (sort_by-IsOrderedBy xs)
