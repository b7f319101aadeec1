-- ===== src/Tests/Numbers.antt =====
-- The numeric guard on texts in which a digit is a number.
use p_r_i_s_m.Prelude.{
  ℕ, ◌+◌, ◌-◌, ◌*◌, ◌/◌, ◌<◌, ◌≤◌, List, [], ◌∷◌, some, none, Option, leb, ◌&&◌, if◌then◌else◌,
  Eq-ℕ, length, ◌≡◌, refl, arith,
}
use p_r_i_s_m.Text.{Text, codes, text_eq}
use p_r_i_s_m.NumericGuard.{Floats, numbers_in, agreement, conflicts, shared}
use p_r_i_s_m.NumericGuard.Agreement.{agreement-bounds}

abbrev digits : Text → List Text
digits [] = []
digits (c ∷ text) = let rest = digits text in if leb 48 c && leb c 57 then (c ∷ []) ∷ rest else rest

abbrev parse_digit : Text → Option ℕ
parse_digit (c ∷ []) = some (c - 48)
parse_digit _ = none

abbrev pub floats : Floats
floats = record {
  Number = ℕ;
  eq = Eq-ℕ;
  parse = parse_digit;
  of_nat = λ n. n;
  find_numbers = digits;
  find_letters = λ text. [];
  lower = λ text. text;
  round = λ a b. a * 10000 / b;
}

abbrev first : Text
first = codes "1 of 2"

abbrev second : Text
second = codes "2 to 3"

run : Unit {0}
unfolding numbers_in agreement conflicts shared text_eq
run = tt

the_agreement : agreement floats first second ≡ some 3333
unfolding run
the_agreement = refl

agreement-bounds_example :
    let both = shared ⦃e = Eq-ℕ⦄ (numbers_in floats first) (numbers_in floats second) in
    let union = length (numbers_in floats first) + length (numbers_in floats second) - both in
    (agreement floats first second ≡ some (both * 10000 / union))
    × (both ≤ length (numbers_in floats first))
    × (both ≤ length (numbers_in floats second))
    × (both ≤ union)
    × (0 < union)
unfolding run
agreement-bounds_example = agreement-bounds floats first second (omega arith) (omega arith)
