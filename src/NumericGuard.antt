-- ===== src/NumericGuard.antt =====
-- backend/services/numeric_guard.py: whether two sentences state the same numbers.
pub mod Agreement
use p_r_i_s_m.Prelude.{
  ℕ, suc, ◌+◌, ◌-◌, List, [], ◌∷◌, ◌++◌, Bool, true, false, ◌||◌, Option, none, some, String, Eq,
  ◌==◌, leb, nat_eq, length, if◌then◌else◌,
}
use p_r_i_s_m.Text.{Text, Eq-Text, codes}

-- What Python brings: the type `float` with its equality, `float` of a text, which may refuse it,
-- and of a whole number, the matches of the two patterns, `lower`, and a quotient rounded to
-- ten-thousandths.
pub record Floats : Type 1 where
  pub Number : Type 0
  pub eq : Eq Number
  pub parse : Text → Option Number
  pub of_nat : ℕ → Number
  pub find_numbers : Text → List Text
  pub find_letters : Text → List Text
  pub lower : Text → Text
  pub round : ℕ → ℕ → ℕ

-- `_WORD_NUMBERS`
abbrev word_numbers : List (String × ℕ)
word_numbers =
    ("zero", 0)
    ∷ ("one", 1)
    ∷ ("two", 2)
    ∷ ("three", 3)
    ∷ ("four", 4)
    ∷ ("five", 5)
    ∷ ("six", 6)
    ∷ ("seven", 7)
    ∷ ("eight", 8)
    ∷ ("nine", 9)
    ∷ ("ten", 10)
    ∷ ("eleven", 11)
    ∷ ("twelve", 12)
    ∷ ("thirteen", 13)
    ∷ ("fourteen", 14)
    ∷ ("fifteen", 15)
    ∷ ("sixteen", 16)
    ∷ ("seventeen", 17)
    ∷ ("eighteen", 18)
    ∷ ("nineteen", 19)
    ∷ ("twenty", 20)
    ∷ ("thirty", 30)
    ∷ ("forty", 40)
    ∷ ("fifty", 50)
    ∷ ("sixty", 60)
    ∷ ("seventy", 70)
    ∷ ("eighty", 80)
    ∷ ("ninety", 90)
    ∷ []

-- `_WORD_NUMBERS.get(word)`
pub word_number : Text → List (String × ℕ) → Option ℕ
word_number word [] = none
word_number word ((name, n) ∷ rest) = if codes name == word then some n else word_number word rest

-- `raw.replace(",", "")`
pub without_commas : Text → Text
without_commas [] = []
without_commas (c ∷ text) = let rest = without_commas text in if nat_eq c 44 then rest else c ∷ rest

module _ {N : Type 0} ⦃e : Eq N⦄ where
  -- The inner loop of `agreement`: whether a value is found in the pool, and the pool without it.
  pub has : N → List N → Bool
  has v [] = false
  has v (o ∷ pool) = v == o || has v pool

  pub pop : N → List N → List N
  pop v [] = []
  pop v (o ∷ pool) = if v == o then pool else o ∷ pop v pool

  -- The outer loop.
  unfoldable pub shared : List N → List N → ℕ
  unfolding has pop
  shared [] pool = 0
  shared (v ∷ na) pool = let rest = shared na (pop v pool) in if has v pool then suc rest else rest

module _ (f : Floats) where
  pub parse_all : List Text → List f.Number
  unfolding without_commas
  parse_all [] = []
  parse_all (raw ∷ rest) = elim (f.parse (without_commas raw)) [
    | some x ↦ x ∷ parse_all rest
    | none ↦ parse_all rest
  ]

  pub words_in : List Text → List f.Number
  unfolding word_number
  words_in [] = []
  words_in (word ∷ rest) = elim (word_number word word_numbers) [
    | some n ↦ f.of_nat n ∷ words_in rest
    | none ↦ words_in rest
  ]

  unfoldable pub numbers_in : Text → List f.Number
  unfolding parse_all words_in
  numbers_in [] = []
  numbers_in (c ∷ text) =
      parse_all (f.find_numbers (c ∷ text)) ++ words_in (f.find_letters (f.lower (c ∷ text)))

  -- `agreement` of two texts with the given numbers
  unfoldable pub agreement_of : List f.Number → List f.Number → Option ℕ
  unfolding shared
  agreement_of na nb =
      let both = shared ⦃e = f.eq⦄ na nb in
      let union = length na + length nb - both in
      if nat_eq (length na) 0 || nat_eq (length nb) 0
      then none
      else some (if nat_eq union 0 then 10000 else f.round both union)

  unfoldable pub agreement : Text → Text → Option ℕ
  unfolding numbers_in agreement_of
  agreement a b = agreement_of (numbers_in a) (numbers_in b)

  -- `conflicts`; `DEFAULT_GATE` is 2000 ten-thousandths
  unfoldable pub conflicts : ℕ → Text → Text → Bool
  unfolding agreement
  conflicts gate a b = elim (agreement a b) [ none ↦ false | some agreed ↦ leb agreed gate ]
