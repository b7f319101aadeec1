-- ===== src/NumericGuard/Agreement.antt =====
-- The agreement of two texts does not depend on their order, and never divides by zero.
use p_r_i_s_m.Prelude.{
  ℕ, suc, ◌+◌, ◌-◌, ◌<◌, ◌≤◌, List, [], ◌∷◌, Bool, true, false, ◌≡◌, refl, ◌∙◌, ap, sym, none, some,
  Eq, ◌==◌, inl, inr, Bool-cases, length, arith, if◌then◌else◌, nat_eq, leb, ◌||◌,
}
use p_r_i_s_m.Text.{Text}
use p_r_i_s_m.NumericGuard.{
  Floats, has, pop, shared, numbers_in, agreement_of, agreement, conflicts,
}

module _ {N : Type 0} ⦃e : Eq N⦄ where
  shared_nil : (xs : List N) → shared xs [] ≡ 0
  unfolding shared has pop
  shared_nil [] = refl
  shared_nil (x ∷ xs) = shared_nil xs

  -- a number in front of the pool is used up by the first equal number of the other list
  shared_first :
      (y : N) (xs ys : List N)
      → shared xs (y ∷ ys) ≡ (if has y xs then suc (shared (pop y xs) ys) else shared (pop y xs) ys)
  unfolding shared has pop
  shared_first y [] ys = refl
  shared_first y (x ∷ xs) ys = elim (Bool-cases (x == y)) [
    | inl t ↦
        let back : (y == x) ≡ true = (e.beq_iff y x).1 (sym ((e.beq_iff x y).0 t)) in
        rw (t, back) refl
    | inr t ↦
        let back : (y == x) ≡ false = ground (arith, e.beq_iff x y, e.beq_iff y x) in
        rw (t, back) (ground (arith, shared_first y xs (pop x ys)))
  ]

  pub shared_comm : (xs ys : List N) → shared xs ys ≡ shared ys xs
  unfolding shared
  shared_comm xs [] = shared_nil xs
  shared_comm xs (y ∷ ys) =
      shared_first y xs ys ∙ ap (λ n. if has y xs then suc n else n) (shared_comm (pop y xs) ys)

  length-pop : (x : N) (xs : List N) → length xs ≡ length (pop x xs) + (if has x xs then 1 else 0)
  unfolding has pop
  length-pop x [] = refl
  length-pop x (y ∷ xs) = ground (arith, length-pop x xs)

  shared-le : (xs ys : List N) → (shared xs ys ≤ length xs) × (shared xs ys ≤ length ys)
  unfolding shared
  shared-le [] ys = (omega arith, omega arith)
  shared-le (x ∷ xs) ys = ground (arith, shared-le xs (pop x ys), length-pop x ys)

or_comm : (a b : Bool) → (a || b) ≡ (b || a)
or_comm a b = ground arith

module _ (f : Floats) where
  agreement_of_comm : (na nb : List f.Number) → agreement_of f na nb ≡ agreement_of f nb na
  unfolding agreement_of
  agreement_of_comm na nb =
      let swap = shared_comm ⦃e = f.eq⦄ na nb in
      let sum : length na + length nb ≡ length nb + length na = omega arith in
      rw (swap, sum, or_comm (nat_eq (length na) 0) (nat_eq (length nb) 0)) refl

  agreement_of-bounds :
      (na nb : List f.Number)
      → 0 < length na
      → 0 < length nb
      → let both = shared ⦃e = f.eq⦄ na nb in
        let union = length na + length nb - both in
        (agreement_of f na nb ≡ some (f.round both union)) × (both ≤ union) × (0 < union)
  unfolding agreement_of
  agreement_of-bounds na nb ha hb = let le = shared-le ⦃e = f.eq⦄ na nb in ground arith

  -- The order of the two texts matters neither for their agreement nor for a conflict.
  pub agreement_comm :
      (gate : ℕ) (a b : Text)
      → (agreement f a b ≡ agreement f b a) × (conflicts f gate a b ≡ conflicts f gate b a)
  unfolding agreement conflicts
  agreement_comm gate a b =
      let swap = agreement_of_comm (numbers_in f a) (numbers_in f b) in
      (swap, ap (λ r. elim r [ none ↦ false | some agreed ↦ leb agreed gate ]) swap)

  -- Where both texts state a number, the agreement is the rounded quotient of the number of pairs
  -- and the size of the union. There are no more pairs than either text has numbers, the quotient
  -- is at most one, and it never divides by zero.
  pub agreement-bounds :
      (a b : Text)
      → 0 < length (numbers_in f a)
      → 0 < length (numbers_in f b)
      → let both = shared ⦃e = f.eq⦄ (numbers_in f a) (numbers_in f b) in
        let union = length (numbers_in f a) + length (numbers_in f b) - both in
        (agreement f a b ≡ some (f.round both union))
        × (both ≤ length (numbers_in f a))
        × (both ≤ length (numbers_in f b))
        × (both ≤ union)
        × (0 < union)
  unfolding agreement
  agreement-bounds a b ha hb =
      let na = numbers_in f a in
      let nb = numbers_in f b in
      let le = shared-le ⦃e = f.eq⦄ na nb in
      let result = agreement_of-bounds na nb ha hb in (result.0, le.0, le.1, result.1, result.2)
