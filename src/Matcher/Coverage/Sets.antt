-- ===== src/Matcher/Coverage/Sets.antt =====
-- The sets of token indices: membership of an update, a difference and a range, and their sizes.
use p_r_i_s_m.Prelude.{
  ℕ, zero, suc, ◌+◌, ◌≤◌, ◌<◌, ◌≡◌, refl, sym, ap, inl, inr, List, [], ◌∷◌, Bool, true, false, not,
  ◌&&◌, ◌||◌, nat_eq, nat_eq_iff, length, Bool-cases, arith, if◌then◌else◌,
}
use p_r_i_s_m.Matcher.Coverage.{contains, update, difference}

-- How many numbers below `n` pass a test.
pub card : ℕ → (ℕ → Bool) → ℕ
card zero p = 0
card (suc n) p = if p n then suc (card n p) else card n p

-- No member twice, every member below `n`.
abbrev pub IsSetBelow : ℕ → List ℕ → Type 0
IsSetBelow n [] = Unit
IsSetBelow n (x ∷ s) = (x < n) × (contains x s ≡ false) × IsSetBelow n s

pub card_ext : (n : ℕ) (p q : ℕ → Bool) → ((i : ℕ) → i < n → p i ≡ q i) → card n p ≡ card n q
unfolding card
card_ext zero p q h = refl
card_ext (suc n) p q h =
    ground (arith, h n (omega arith), card_ext n p q (λ i hi. h i (omega arith)))

pub card-false : (n : ℕ) → card n (λ i. false) ≡ 0
unfolding card
card-false zero = refl
card-false (suc n) = card-false n

card_outside : (n x : ℕ) (p : ℕ → Bool) → n ≤ x → card n (λ i. nat_eq i x || p i) ≡ card n p
unfolding card
card_outside zero x p h = refl
card_outside (suc n) x p h = ground (arith, card_outside n x p)

card_add :
    (n x : ℕ) (p : ℕ → Bool)
    → x < n
    → p x ≡ false
    → card n (λ i. nat_eq i x || p i) ≡ suc (card n p)
unfolding card
card_add zero x p h f = elim h [ ]
card_add (suc n) x p h f = elim (Bool-cases (nat_eq n x)) [
  | inl t ↦ let e : n ≡ x = (nat_eq_iff n x).0 t in ground (arith, card_outside n x p, ap p e)
  | inr t ↦ ground (arith, card_add n x p)
]

-- The size of a set is the number of its members below the bound.
pub length-eq-card : (n : ℕ) (s : List ℕ) → IsSetBelow n s → length s ≡ card n (λ i. contains i s)
unfolding contains
length-eq-card n [] h = sym (card-false n)
length-eq-card n (x ∷ s) h =
    omega (arith, length-eq-card n s h.2, card_add n x (λ i. contains i s) h.0 h.1)

pub card-le : (n : ℕ) (p : ℕ → Bool) → card n p ≤ n
unfolding card
card-le zero p = omega arith
card-le (suc n) p = ground (arith, card-le n p)

pub contains-update :
    (i : ℕ) (s xs : List ℕ) → contains i (update s xs) ≡ (contains i s || contains i xs)
unfolding contains update
contains-update i s [] = ground arith
contains-update i s (x ∷ xs) = ground (arith, contains-update i s xs, contains-update i (x ∷ s) xs)

pub update-IsSetBelow :
    (n : ℕ) (s xs : List ℕ)
    → IsSetBelow n s
    → ((i : ℕ) → contains i xs ≡ true → i < n)
    → IsSetBelow n (update s xs)
unfolding contains update
update-IsSetBelow n s [] h b = h
update-IsSetBelow n s (x ∷ xs) h b =
    let below : x < n = b x (ground arith) in
    let rest : (i : ℕ) → contains i xs ≡ true → i < n = λ i hi. b i (ground arith) in
    elim (Bool-cases (contains x s)) [
      | inl t ↦ rw t (update-IsSetBelow n s xs h rest)
      | inr t ↦ rw t (update-IsSetBelow n (x ∷ s) xs (below, t, h) rest)
    ]

pub contains-difference :
    (i : ℕ) (s t : List ℕ) → contains i (difference s t) ≡ (contains i s && not (contains i t))
unfolding contains difference
contains-difference i [] t = refl
contains-difference i (x ∷ s) t = ground (arith, contains-difference i s t)

pub difference-IsSetBelow : (n : ℕ) (s t : List ℕ) → IsSetBelow n s → IsSetBelow n (difference s t)
unfolding difference
difference-IsSetBelow n [] t h = tt
difference-IsSetBelow n (x ∷ s) t h = elim (Bool-cases (contains x t)) [
  | inl e ↦ rw e (difference-IsSetBelow n s t h.2)
  | inr e ↦
      rw e (h.0, ground (arith, contains-difference x s t, h.1), difference-IsSetBelow n s t h.2)
]

abbrev pub bit : Bool → ℕ
bit true = 1
bit false = 0

-- Sets that share no member have the size of their union.
pub card_split :
    (n : ℕ) (p q r s : ℕ → Bool)
    → ((i : ℕ) → bit (p i) + bit (q i) + bit (r i) ≡ bit (s i))
    → card n p + card n q + card n r ≡ card n s
unfolding card
card_split zero p q r s h = omega arith
card_split (suc n) p q r s h = ground (arith, h n, card_split n p q r s h)

pub lt_of_contains : (n i : ℕ) (s : List ℕ) → IsSetBelow n s → contains i s ≡ true → i < n
unfolding contains
lt_of_contains n i [] h c = ground arith
lt_of_contains n i (x ∷ s) h c = ground (arith, h.0, lt_of_contains n i s h.2)
