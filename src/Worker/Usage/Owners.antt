-- ===== src/Worker/Usage/Owners.antt =====
-- What each of the two ledgers holds of an owner, and how the calls change it.
use p_r_i_s_m.Prelude.{
  ℕ, ◌+◌, ◌≤◌, List, [], ◌∷◌, ◌++◌, ◌≡◌, refl, sym, ap, none, String, Eq-String, ◌==◌, nat_eq,
  length, arith, inl, inr, Bool-cases, if◌then◌else◌,
}
use text.Mathlib.TextEquality.{eq_iff}
use p_r_i_s_m.Dict.{lookup, assign}
use p_r_i_s_m.Dict.Order.{Distinct, assign-Distinct}
use p_r_i_s_m.Worker.Usage.Memory
use p_r_i_s_m.Worker.Usage.Memory.{Hits, hits_of, at_or_after}
use p_r_i_s_m.Worker.Usage.Postgres
use p_r_i_s_m.Worker.Usage.Postgres.{Rows}

-- the times of an owner's rows
unfoldable pub times_of : String → Rows → List ℕ
times_of owner [] = []
times_of owner ((o, t) ∷ rows) =
    let rest = times_of owner rows in if o == owner then t ∷ rest else rest

pub total : Hits → ℕ
total [] = 0
total ((o, ts) ∷ hits) = length ts + total hits

pub count-times_of :
    (owner : String) (since : ℕ) (rows : Rows)
    → Postgres.count owner since rows ≡ length (at_or_after since (times_of owner rows))
unfolding Postgres.count times_of at_or_after
count-times_of owner since [] = refl
count-times_of owner since ((o, t) ∷ rows) = ground (arith, count-times_of owner since rows)

pub times_of-append :
    (owner o : String) (t : ℕ) (rows : Rows)
    → times_of owner (rows ++ (o, t) ∷ [])
      ≡ (if o == owner then times_of owner rows ++ t ∷ [] else times_of owner rows)
unfolding times_of
times_of-append owner o t [] = ground arith
times_of-append owner o t ((p, u) ∷ rows) = ground (arith, times_of-append owner o t rows)

at_or_after-le : (since : ℕ) (ts : List ℕ) → length (at_or_after since ts) ≤ length ts
unfolding at_or_after
at_or_after-le since [] = omega arith
at_or_after-le since (t ∷ ts) = ground (arith, at_or_after-le since ts)

pub times_of-sweep :
    (owner : String) (older_than : ℕ) (rows : Rows)
    → times_of owner (Postgres.sweep older_than rows).0
      ≡ at_or_after older_than (times_of owner rows)
unfolding Postgres.sweep times_of at_or_after
times_of-sweep owner older_than [] = refl
times_of-sweep owner older_than ((o, t) ∷ rows) =
    ground (arith, times_of-sweep owner older_than rows)

pub length-sweep :
    (older_than : ℕ) (rows : Rows)
    → length (Postgres.sweep older_than rows).0 + (Postgres.sweep older_than rows).1 ≡ length rows
unfolding Postgres.sweep
length-sweep older_than [] = omega arith
length-sweep older_than ((o, t) ∷ rows) = ground (arith, length-sweep older_than rows)

pub total-sweep :
    (older_than : ℕ) (hits : Hits)
    → total (Memory.sweep older_than hits).0 + (Memory.sweep older_than hits).1 ≡ total hits
unfolding Memory.sweep total
total-sweep older_than [] = omega arith
total-sweep older_than ((o, ts) ∷ hits) =
    ground (arith, total-sweep older_than hits, at_or_after-le older_than ts)

hits_of-assign :
    (owner o : String) (ts : List ℕ) (hits : Hits)
    → hits_of owner (assign o ts hits) ≡ (if o == owner then ts else hits_of owner hits)
unfolding hits_of assign
hits_of-assign owner o ts [] = refl
hits_of-assign owner o ts ((p, us) ∷ hits) =
    ground (arith, eq_iff o owner, eq_iff p o, eq_iff p owner, hits_of-assign owner o ts hits)

pub hits_of-add :
    (owner o : String) (t : ℕ) (hits : Hits)
    → hits_of owner (Memory.add o t hits)
      ≡ (if o == owner then hits_of owner hits ++ t ∷ [] else hits_of owner hits)
unfolding Memory.add
hits_of-add owner o t hits =
    ground (arith, hits_of-assign owner o (hits_of o hits ++ t ∷ []) hits, eq_iff o owner)

total-assign :
    (o : String) (ts : List ℕ) (hits : Hits)
    → total (assign o ts hits) + length (hits_of o hits) ≡ total hits + length ts
unfolding hits_of assign total
total-assign o ts [] = omega arith
total-assign o ts ((p, us) ∷ hits) = ground (arith, total-assign o ts hits)

hits_of_absent : (owner : String) (hits : Hits) → lookup owner hits ≡ none → hits_of owner hits ≡ []
unfolding hits_of lookup
hits_of_absent owner [] h = refl
hits_of_absent owner ((o, ts) ∷ hits) h = ground (arith, hits_of_absent owner hits)

nil_of_length : (ts : List ℕ) → length ts ≡ 0 → ts ≡ []
nil_of_length [] h = refl
nil_of_length (t ∷ ts) h = absurd (omega arith)

pub hits_of-sweep :
    (owner : String) (older_than : ℕ) (hits : Hits)
    → Distinct hits
    → hits_of owner (Memory.sweep older_than hits).0 ≡ at_or_after older_than (hits_of owner hits)
unfolding Memory.sweep hits_of lookup
hits_of-sweep owner older_than [] h = unfold at_or_after in refl
hits_of-sweep owner older_than ((o, ts) ∷ hits) h =
    let ih = hits_of-sweep owner older_than hits h.1 in
    let absent = hits_of_absent o hits h.0 in
    let none_left : at_or_after older_than [] ≡ [] = unfold at_or_after in refl in
    ground (arith, eq_iff o owner, nil_of_length (at_or_after older_than ts))

sweep-absent :
    (owner : String) (older_than : ℕ) (hits : Hits)
    → lookup owner hits ≡ none
    → lookup owner (Memory.sweep older_than hits).0 ≡ none
unfolding Memory.sweep lookup
sweep-absent owner older_than [] h = refl
sweep-absent owner older_than ((o, ts) ∷ hits) h =
    ground (arith, sweep-absent owner older_than hits)

pub sweep-Distinct :
    (older_than : ℕ) (hits : Hits) → Distinct hits → Distinct (Memory.sweep older_than hits).0
unfolding Memory.sweep
sweep-Distinct older_than [] h = tt
sweep-Distinct older_than ((o, ts) ∷ hits) h =
    elim (Bool-cases (nat_eq (length (at_or_after older_than ts)) 0)) [
      | inl t ↦ rw t (sweep-Distinct older_than hits h.1)
      | inr t ↦ rw t (sweep-absent o older_than hits h.0, sweep-Distinct older_than hits h.1)
    ]

rest_empty :
    (o p : String) (ts : List ℕ) (hits : Hits)
    → lookup o hits ≡ none
    → hits_of p ((o, ts) ∷ hits) ≡ []
    → hits_of p hits ≡ []
unfolding hits_of
rest_empty o p ts hits absent h = ground (arith, eq_iff o p, hits_of_absent o hits absent)

total_empty :
    (hits : Hits) → Distinct hits → ((owner : String) → hits_of owner hits ≡ []) → total hits ≡ 0
unfolding total hits_of
total_empty [] h e = refl
total_empty ((o, ts) ∷ hits) h e =
    let head : ts ≡ [] = ground (arith, e o, eq_iff o o) in
    let tail = λ (p : String). rest_empty o p ts hits h.0 (e p) in
    omega (arith, ap length head, total_empty hits h.1 tail)

-- Each owner's rows being its hits, there are as many rows as hits.
pub total-times_of :
    (rows : Rows) (hits : Hits)
    → Distinct hits
    → ((owner : String) → times_of owner rows ≡ hits_of owner hits)
    → length rows ≡ total hits
unfolding times_of
total-times_of [] hits h e = sym (total_empty hits h (λ owner. sym (e owner)))
total-times_of ((o, t) ∷ rows) hits h e =
    let first : hits_of o hits ≡ t ∷ times_of o rows = ground (arith, e o, eq_iff o o) in
    let others =
      total-times_of rows (assign o (times_of o rows) hits)
        (assign-Distinct o (times_of o rows) hits h)
        (λ p. ground (arith, e p, hits_of-assign p o (times_of o rows) hits, eq_iff o p)) in
    omega (arith, others, total-assign o (times_of o rows) hits, ap length first)
