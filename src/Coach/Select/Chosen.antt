-- ===== src/Coach/Select/Chosen.antt =====
-- Which flags are selected: flags of the list that ask for a card, the most urgent ones first.
use p_r_i_s_m.Prelude.{
  ℕ, zero, suc, ◌+◌, ◌≤◌, ◌<◌, ◌≡◌, ◌≢◌, ◌↔◌, refl, Option, none, length, length-take-le, sym,
  subst, ◌⊎◌, inl, inr, List, [], ◌∷◌, true, false, some, take, get_elem?, arith, All, All-sort_by,
  Bool-cases, Memᴰ, of_mem-All, IsOrderedBy, sort_by-IsOrderedBy, insert_by, sort_by, Bool,
}
use mathlib.Core.Option.{some-injective}
use native.Mathlib.Decide.{dec_lt}
use p_r_i_s_m.Triage.Rules.{
  RuleType, verbatim_uncited, paraphrase_uncited, verbatim_cited_unquoted, quoted_uncited,
  paraphrase_cited, needs_review, common_phrase, quoted_cited,
}
use p_r_i_s_m.Triage.Summary.{Triage}
use p_r_i_s_m.Coach.Select.{
  Flag, select, candidates, number, is_coachable, is_coachable_triage, is_coachable_type,
  priority_of, goes_before,
}

-- What is selected stands in the list, and asks for a card.
unfoldable pub IsSelected : List Flag → ℕ × Flag → Type 0
IsSelected flags c = (get_elem? flags c.0 ≡ some c.1) × (is_coachable c ≡ true)

StandsIn : ℕ → List Flag → ℕ × Flag → Type 0
StandsIn k flags c = (j : ℕ) × (c.0 ≡ k + j) × (get_elem? flags j ≡ some c.1)

module _ {A : Type 0} (P Q : A → Type 0) (f : (a : A) → P a → Q a) where
  All-weaken : (xs : List A) → All P xs → All Q xs
  All-weaken [] h = tt
  All-weaken (x ∷ xs) h = (f x h.0, All-weaken xs h.1)

All-take : {A : Type 0} (P : A → Type 0) (n : ℕ) (xs : List A) → All P xs → All P (take n xs)
All-take P zero xs h = tt
All-take P (suc n) [] h = tt
All-take P (suc n) (x ∷ xs) h = (h.0, All-take P n xs h.1)

number-StandsIn : (k : ℕ) (flags : List Flag) → All (StandsIn k flags) (number k flags)
unfolding number StandsIn
number-StandsIn k [] = tt
number-StandsIn k (flag ∷ flags) = (
  (0, omega arith, refl),
  All-weaken (StandsIn (suc k) flags) (StandsIn k (flag ∷ flags))
      (λ c h. (suc h.0, omega (arith, h.1), h.2)) (number (suc k) flags)
      (number-StandsIn (suc k) flags),
)

candidates-IsSelected :
    (flags : List Flag) (cs : List (ℕ × Flag))
    → All (StandsIn 0 flags) cs
    → All (IsSelected flags) (candidates cs)
unfolding candidates IsSelected StandsIn
candidates-IsSelected flags [] h = tt
candidates-IsSelected flags (c ∷ cs) h = elim (Bool-cases (is_coachable c)) [
  | inl t ↦
      let at_its_place : get_elem? flags c.0 ≡ some c.1 =
        subst (λ (n : ℕ). get_elem? flags n ≡ some c.1) (omega (arith, h.0.1)) h.0.2 in
      rw t ((at_its_place, t), candidates-IsSelected flags cs h.1)
  | inr f ↦ rw f (candidates-IsSelected flags cs h.1)
]

pub select-IsSelected :
    (flags : List Flag) (limit : ℕ) → All (IsSelected flags) (select flags limit)
unfolding select
select-IsSelected flags limit = All-take (IsSelected flags) limit _ (
    All-sort_by goes_before (IsSelected flags) _
      (candidates-IsSelected flags (number 0 flags) (number-StandsIn 0 flags)))

goes_before_asym : (c d : ℕ × Flag) → goes_before c d ≡ true → goes_before d c ≡ false
unfolding goes_before
goes_before_asym (n, f) (m, g) h = ground arith

goes_before_through :
    (c d e : ℕ × Flag) → goes_before d c ≡ false → goes_before e d ≡ false → goes_before e c ≡ false
unfolding goes_before
goes_before_through (n, f) (m, g) (l, h) p q = ground arith

module _ {A : Type 0} (before : A → A → Bool) where
  mem-insert_by : (x : A) (xs : List A) → Memᴰ x (insert_by before x xs)
  unfolding insert_by
  mem-insert_by x [] = Memᴰ.head refl
  mem-insert_by x (y ∷ ys) = elim (Bool-cases (before y x)) [
    | inl t ↦ rw t (Memᴰ.tail (mem-insert_by x ys))
    | inr f ↦ rw f (Memᴰ.head refl)
  ]

  mem-insert_by_old : {z : A} (x : A) (xs : List A) → Memᴰ z xs → Memᴰ z (insert_by before x xs)
  unfolding insert_by
  mem-insert_by_old x [] m = Memᴰ.tail m
  mem-insert_by_old x (y ∷ ys) (Memᴰ.head e) = elim (Bool-cases (before y x)) [
    | inl t ↦ rw t (Memᴰ.head e)
    | inr f ↦ rw f (Memᴰ.tail (Memᴰ.head e))
  ]
  mem-insert_by_old x (y ∷ ys) (Memᴰ.tail m) = elim (Bool-cases (before y x)) [
    | inl t ↦ rw t (Memᴰ.tail (mem-insert_by_old x ys m))
    | inr f ↦ rw f (Memᴰ.tail (Memᴰ.tail m))
  ]

  mem-sort_by : {z : A} (xs : List A) → Memᴰ z xs → Memᴰ z (sort_by before xs)
  unfolding sort_by
  mem-sort_by [] m = elim m [ ]
  mem-sort_by (x ∷ xs) (Memᴰ.head e) =
      subst (λ (y : A). Memᴰ y (insert_by before x (sort_by before xs))) (sym e)
        (mem-insert_by x (sort_by before xs))
  mem-sort_by (x ∷ xs) (Memᴰ.tail m) = mem-insert_by_old x _ (mem-sort_by xs m)

  taken_or_behind :
      {z : A} (n : ℕ) (xs : List A)
      → IsOrderedBy before xs
      → Memᴰ z xs
      → Memᴰ z (take n xs) ⊎ All (λ y. before z y ≡ false) (take n xs)
  unfolding IsOrderedBy
  taken_or_behind zero xs o m = inr tt
  taken_or_behind (suc n) [] o m = elim m [ ]
  taken_or_behind (suc n) (x ∷ xs) o (Memᴰ.head e) = inl (Memᴰ.head e)
  taken_or_behind (suc n) (x ∷ xs) o (Memᴰ.tail m) = elim (taken_or_behind n xs o.1 m) [
    | inl taken ↦ inl (Memᴰ.tail taken)
    | inr behind ↦ inr (of_mem-All (λ y. before y x ≡ false) m o.0, behind)
  ]

-- The triage of a flag that asks for a card: no common phrase, and not both quoted and cited.
unfoldable pub AsksForCard : Option Triage → Type 0
AsksForCard none = ⊥
AsksForCard (some t) = (t.rule.type ≢ common_phrase) × (t.rule.type ≢ quoted_cited)

-- A flag without a triage has priority 9.
unfoldable pub HasPriority : Option Triage → ℕ → Type 0
HasPriority none p = p ≡ 9
HasPriority (some t) p = p ≡ t.rule.priority

-- A flag has a smaller priority than another, or the same one and a similarity that is no smaller.
unfoldable pub IsPreferred : ℕ × Flag → ℕ × Flag → Type 0
unfolding HasPriority
IsPreferred (_, f) (_, g) =
    (p : ℕ) × (q : ℕ) × HasPriority f.triage p
    × HasPriority g.triage q
    × ((p < q) ⊎ ((p ≡ q) × (g.match.similarity ≤ f.match.similarity)))

-- What stands in the list and asks for a card.
unfoldable pub IsWanted : List Flag → ℕ × Flag → Type 0
unfolding AsksForCard
IsWanted flags c = (get_elem? flags c.0 ≡ some c.1) × AsksForCard c.1.triage

priority_of-HasPriority : (triage : Option Triage) → HasPriority triage (priority_of triage)
unfolding HasPriority priority_of
priority_of-HasPriority none = refl
priority_of-HasPriority (some t) = refl

goes_before-IsPreferred : (c d : ℕ × Flag) → goes_before c d ≡ false → IsPreferred d c
unfolding goes_before IsPreferred
goes_before-IsPreferred (n, f) (m, g) h = (
  priority_of g.triage,
  priority_of f.triage,
  priority_of-HasPriority g.triage,
  priority_of-HasPriority f.triage,
  elim (dec_lt (priority_of g.triage) (priority_of f.triage)) [
    | yes p ↦ inl p
    | no p ↦ inr (ground arith, ground arith)
  ],
)

is_coachable_type_iff :
    (t : RuleType) → (is_coachable_type t ≡ true) ↔ ((t ≢ common_phrase) × (t ≢ quoted_cited))
unfolding is_coachable_type
is_coachable_type_iff common_phrase = (λ h. cc, λ h. absurd (h.0 refl))
is_coachable_type_iff quoted_cited = (λ h. cc, λ h. absurd (h.1 refl))
is_coachable_type_iff verbatim_uncited = (λ h. (λ e. cc, λ e. cc), λ h. refl)
is_coachable_type_iff paraphrase_uncited = (λ h. (λ e. cc, λ e. cc), λ h. refl)
is_coachable_type_iff verbatim_cited_unquoted = (λ h. (λ e. cc, λ e. cc), λ h. refl)
is_coachable_type_iff quoted_uncited = (λ h. (λ e. cc, λ e. cc), λ h. refl)
is_coachable_type_iff paraphrase_cited = (λ h. (λ e. cc, λ e. cc), λ h. refl)
is_coachable_type_iff needs_review = (λ h. (λ e. cc, λ e. cc), λ h. refl)

is_coachable_triage_iff : (o : Option Triage) → (is_coachable_triage o ≡ true) ↔ AsksForCard o
unfolding is_coachable_triage AsksForCard
is_coachable_triage_iff none = (λ h. cc, λ h. absurd h)
is_coachable_triage_iff (some t) = is_coachable_type_iff t.rule.type

IsSelected-IsWanted : (flags : List Flag) (c : ℕ × Flag) → IsSelected flags c → IsWanted flags c
unfolding IsSelected IsWanted is_coachable
IsSelected-IsWanted flags (n, f) h = (h.0, (is_coachable_triage_iff f.triage).0 h.1)

-- A flag that stands in the list is among the numbered ones, and if it asks for a card, among the
-- candidates.
mem-number :
    (k j : ℕ) (flags : List Flag) {f : Flag}
    → get_elem? flags j ≡ some f
    → Memᴰ (k + j, f) (number k flags)
unfolding number
mem-number k j [] h = cc
mem-number k zero (flag ∷ flags) {f} h =
    let same : f ≡ flag = some-injective f flag (sym h) in
    let at_start : k + 0 ≡ k = omega arith in Memᴰ.head (λ i. (at_start i, same i))
mem-number k (suc j) (flag ∷ flags) {f} h = Memᴰ.tail (
    subst (λ (n : ℕ). Memᴰ (n, f) (number (suc k) flags)) (omega arith)
      (mem-number (suc k) j flags h))

mem-candidates :
    {c : ℕ × Flag} (cs : List (ℕ × Flag))
    → is_coachable c ≡ true
    → Memᴰ c cs
    → Memᴰ c (candidates cs)
unfolding candidates
mem-candidates [] t m = elim m [ ]
mem-candidates {c} (d ∷ cs) t (Memᴰ.head e) =
    rw (subst (λ (x : ℕ × Flag). is_coachable x ≡ true) e t) (Memᴰ.head e)
mem-candidates (d ∷ cs) t (Memᴰ.tail m) = elim (Bool-cases (is_coachable d)) [
  | inl y ↦ rw y (Memᴰ.tail (mem-candidates cs t m))
  | inr y ↦ rw y (mem-candidates cs t m)
]

-- No more flags are selected than the limit, and each of them stands at its place in the list and asks
-- for a card. A flag that does is selected, or every selected flag is preferred to it: it has a
-- smaller priority, or the same one and a similarity that is no smaller.
pub select_best :
    (flags : List Flag) (limit j : ℕ) (f : Flag)
    → get_elem? flags j ≡ some f
    → AsksForCard f.triage
    → (length (select flags limit) ≤ limit)
      × All (IsWanted flags) (select flags limit)
      × (Memᴰ (j, f) (select flags limit) ⊎ All (λ d. IsPreferred d (j, f)) (select flags limit))
unfolding select
select_best flags limit j f at_j asks =
    let cs = candidates (number 0 flags) in
    let coachable : is_coachable (j, f) ≡ true =
      (unfold is_coachable in (is_coachable_triage_iff f.triage).1 asks) in
    let among : Memᴰ (j, f) cs =
      mem-candidates (number 0 flags) coachable (
        subst (λ (n : ℕ). Memᴰ (n, f) (number 0 flags)) (omega arith)
          (mem-number 0 j flags at_j)) in
    (
      length-take-le limit (sort_by goes_before cs),
      All-weaken (IsSelected flags) (IsWanted flags) (IsSelected-IsWanted flags) _
          (unfold select in select-IsSelected flags limit),
      elim (taken_or_behind goes_before limit (sort_by goes_before cs)
          (sort_by-IsOrderedBy goes_before goes_before_asym goes_before_through cs)
          (mem-sort_by goes_before cs among)) [
            | inl taken ↦ inl taken
            | inr behind ↦ inr (
                All-weaken (λ d. goes_before (j, f) d ≡ false) (λ d. IsPreferred d (j, f))
                  (λ d h. goes_before-IsPreferred (j, f) d h) _ behind)
          ],
    )
