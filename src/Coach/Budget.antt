-- ===== src/Coach/Budget.antt =====
-- `CoachBudget` and `estimate_cost_usd` of backend/services/coach.py. The lock makes `take` one
-- step. A reading of the clock is a whole number of milliseconds, and is an argument.
use p_r_i_s_m.Prelude.{
  not, Bool-cases, ltb→lt, ℕ, suc, ◌+◌, ◌-◌, ◌/◌, ◌≤◌, ◌<◌, ◌≡◌, refl, List, [], ◌∷◌, Bool, true,
  false, ◌&&◌, min, ltb, leb, nat_eq, if◌then◌else◌, arith, inl, inr, ◌∙◌, sym, subst, not,
  Bool-cases, ltb→lt,
}

pub record CoachBudget : Type 0 where
  pub max_calls_per_day : ℕ
  pub day : ℕ
  pub calls : ℕ

-- the constructor
unfoldable pub new : ℕ → CoachBudget
new max_calls_per_day = record { max_calls_per_day = max_calls_per_day; day = 0; calls = 0 }

-- `int(now // 86400)`
abbrev pub day_of : ℕ → ℕ
day_of now = now / 86400000

-- the reset at the start of a day
unfoldable pub turn_to : ℕ → CoachBudget → CoachBudget
turn_to day b = if nat_eq day b.day then b else record b { day = day; calls = 0 }

-- the rest of `take`
unfoldable pub spend : CoachBudget → CoachBudget × Bool
spend b =
    if ltb 0 b.max_calls_per_day && leb b.max_calls_per_day b.calls
    then (b, false)
    else (record b { calls = suc b.calls }, true)

unfoldable pub take : ℕ → CoachBudget → CoachBudget × Bool
unfolding turn_to spend
take now b = spend (turn_to (day_of now) b)

-- `take` at each of the readings: how many of those on the given day are granted
unfoldable pub granted_on : ℕ → List ℕ → CoachBudget → ℕ
unfolding take
granted_on day [] b = 0
granted_on day (now ∷ readings) b =
    let (b', granted) = take now b in
    (if granted && nat_eq (day_of now) day then 1 else 0) + granted_on day readings b'

-- how many readings there are on the day
unfoldable pub asked_on : ℕ → List ℕ → ℕ
asked_on day [] = 0
asked_on day (now ∷ readings) = (if nat_eq (day_of now) day then 1 else 0) + asked_on day readings

-- Readings whose days do not go back, from a day on.
abbrev pub DaysAscend : ℕ → List ℕ → Type 0
DaysAscend from_day [] = Unit
DaysAscend from_day (now ∷ readings) = (from_day ≤ day_of now) × DaysAscend (day_of now) readings

-- of so many askings, how many the cap leaves room for, with so many calls taken before
limited : ℕ → ℕ → ℕ → ℕ
limited cap used asked = if ltb 0 cap then min asked (cap - used) else asked

-- what is granted on the day, from any state that no reading goes behind
expected : ℕ → List ℕ → CoachBudget → ℕ
unfolding limited asked_on
expected day readings b =
    if ltb day b.day
    then 0
    else limited b.max_calls_per_day (if nat_eq b.day day then b.calls else 0)
        (asked_on day readings)

-- `take` in one view: the day is the reading's, a granted call is counted, and a call is refused if
-- there is a cap and the day has used it up.
spend-cases :
    (b : CoachBudget)
    → ((spend b).0.max_calls_per_day ≡ b.max_calls_per_day)
      × ((spend b).0.day ≡ b.day)
      × ((spend b).1 ≡ not (ltb 0 b.max_calls_per_day && leb b.max_calls_per_day b.calls))
      × ((spend b).0.calls ≡ (if (spend b).1 then suc b.calls else b.calls))
unfolding spend
spend-cases b = elim (Bool-cases (ltb 0 b.max_calls_per_day && leb b.max_calls_per_day b.calls)) [
  | inl t ↦ rw t (refl, refl, refl, refl)
  | inr t ↦ rw t (refl, refl, refl, refl)
]

turn_to-cases :
    (day : ℕ) (b : CoachBudget)
    → ((turn_to day b).max_calls_per_day ≡ b.max_calls_per_day)
      × ((turn_to day b).day ≡ day)
      × ((turn_to day b).calls ≡ (if nat_eq day b.day then b.calls else 0))
unfolding turn_to
turn_to-cases day b = elim (Bool-cases (nat_eq day b.day)) [
  | inl t ↦ rw t (refl, ground arith, refl)
  | inr t ↦ rw t (refl, refl, refl)
]

asked_past :
    (day from_day : ℕ) (readings : List ℕ)
    → day < from_day
    → DaysAscend from_day readings
    → asked_on day readings ≡ 0
unfolding asked_on
asked_past day from_day [] h a = refl
asked_past day from_day (now ∷ readings) h a =
    ground (arith, asked_past day (day_of now) readings (omega (arith, a.0)) a.1)

granted_on_lem :
    (day : ℕ) (readings : List ℕ) (b : CoachBudget)
    → DaysAscend b.day readings
    → granted_on day readings b ≡ expected day readings b
unfolding granted_on take expected limited asked_on
granted_on_lem day [] b a = ground arith
granted_on_lem day (now ∷ readings) b a =
    let turned = turn_to (day_of now) b in
    let t = turn_to-cases (day_of now) b in
    let s = spend-cases turned in
    let same_day : (spend turned).0.day ≡ day_of now = s.1 ∙ t.1 in
    let next =
      granted_on_lem day readings (spend turned).0
        (subst (λ (d : ℕ). DaysAscend d readings) (sym same_day) a.1) in
    elim (Bool-cases (ltb day (day_of now))) [
      | inl past ↦
          let none_left = asked_past day (day_of now) readings (ltb→lt day (day_of now) past) a.1 in
          ground (arith, next, t, s, none_left, a.0)
      | inr ahead ↦ ground (arith, next, t, s, a.0)
    ]

-- Of the calls asked for on one day, at readings whose days do not go back and do not go behind the
-- budget's day, exactly as many are granted as the cap leaves over what was taken before on that
-- day, and all of them where the cap is 0.
pub take_exact :
    (day : ℕ) (readings : List ℕ) (b : CoachBudget)
    → DaysAscend b.day readings
    → b.day ≤ day
    → granted_on day readings b ≡ (
        if ltb 0 b.max_calls_per_day
        then min
            (asked_on day readings)
            (b.max_calls_per_day - (if nat_eq b.day day then b.calls else 0))
        else asked_on day readings)
unfolding expected limited
take_exact day readings b a h = ground (arith, granted_on_lem day readings b a)
