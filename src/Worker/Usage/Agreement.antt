-- ===== src/Worker/Usage/Agreement.antt =====
-- The two ledgers answer alike: the Postgres table refines the dict of lists.
use p_r_i_s_m.Prelude.{
  ℕ, List, [], ◌∷◌, ◌++◌, ◌≡◌, refl, sym, ap, ◌∙◌, String, Eq-String, length, arith,
}
use p_r_i_s_m.Dict.Order.{Distinct, assign-Distinct}
use p_r_i_s_m.Worker.Usage.Memory
use p_r_i_s_m.Worker.Usage.Memory.{Hits, hits_of, at_or_after}
use p_r_i_s_m.Worker.Usage.Postgres
use p_r_i_s_m.Worker.Usage.Postgres.{Rows}
use p_r_i_s_m.Worker.Usage.Owners.{
  times_of, count-times_of, times_of-append, times_of-sweep, length-sweep, total-sweep, hits_of-add,
  hits_of-sweep, sweep-Distinct, total-times_of,
}

-- The table holds each owner's hits, in their order, and nothing else.
pub record Represents (rows : Rows) (hits : Hits) : Type 0 where
  pub same_times : (owner : String) → times_of owner rows ≡ hits_of owner hits
  pub distinct : Distinct hits

add-Represents :
    (owner : String) (now : ℕ) (rows : Rows) (hits : Hits)
    → Represents rows hits
    → Represents (Postgres.add owner now rows) (Memory.add owner now hits)
unfolding Postgres.add
add-Represents owner now rows hits r = record {
  same_times = λ o.
      ground
        (arith, times_of-append o owner now rows, hits_of-add o owner now hits, r.same_times o);
  distinct =
      unfold Memory.add in assign-Distinct owner (hits_of owner hits ++ now ∷ []) hits r.distinct;
}

sweep-Represents :
    (older_than : ℕ) (rows : Rows) (hits : Hits)
    → Represents rows hits
    → Represents (Postgres.sweep older_than rows).0 (Memory.sweep older_than hits).0
sweep-Represents older_than rows hits r = record {
  same_times = λ o.
      times_of-sweep o older_than rows
      ∙ ap (at_or_after older_than) (r.same_times o)
      ∙ sym (hits_of-sweep o older_than hits r.distinct);
  distinct = sweep-Distinct older_than hits r.distinct;
}

sweep_counts :
    (older_than : ℕ) (rows : Rows) (hits : Hits)
    → Represents rows hits
    → (Postgres.sweep older_than rows).1 ≡ (Memory.sweep older_than hits).1
sweep_counts older_than rows hits r =
    let swept = sweep-Represents older_than rows hits r in
    omega (
      arith,
      length-sweep older_than rows,
      total-sweep older_than hits,
      total-times_of rows hits r.distinct r.same_times,
      total-times_of (Postgres.sweep older_than rows).0 (Memory.sweep older_than hits).0
          swept.distinct swept.same_times,
    )

-- A call of a ledger, and the sequence of its answers.
pub data Call : Type 0 where
  recording : String → ℕ → Call
  counting : String → ℕ → Call
  sweeping : ℕ → Call

unfoldable pub answers_memory : List Call → Hits → List ℕ
answers_memory [] hits = []
answers_memory (recording owner now ∷ calls) hits = answers_memory calls (Memory.add owner now hits)
answers_memory (counting owner since ∷ calls) hits =
    Memory.count owner since hits ∷ answers_memory calls hits
answers_memory (sweeping older_than ∷ calls) hits =
    let (hits', removed) = Memory.sweep older_than hits in removed ∷ answers_memory calls hits'

pub answers_postgres : List Call → Rows → List ℕ
answers_postgres [] rows = []
answers_postgres (recording owner now ∷ calls) rows =
    answers_postgres calls (Postgres.add owner now rows)
answers_postgres (counting owner since ∷ calls) rows =
    Postgres.count owner since rows ∷ answers_postgres calls rows
answers_postgres (sweeping older_than ∷ calls) rows =
    let (rows', removed) = Postgres.sweep older_than rows in removed ∷ answers_postgres calls rows'

answers_Represents :
    (calls : List Call) (rows : Rows) (hits : Hits)
    → Represents rows hits
    → answers_postgres calls rows ≡ answers_memory calls hits
unfolding answers_postgres answers_memory
answers_Represents [] rows hits r = refl
answers_Represents (recording owner now ∷ calls) rows hits r =
    answers_Represents calls (Postgres.add owner now rows) (Memory.add owner now hits)
      (add-Represents owner now rows hits r)
answers_Represents (counting owner since ∷ calls) rows hits r =
    let same : Postgres.count owner since rows ≡ Memory.count owner since hits =
      count-times_of owner since rows
      ∙ ap (λ ts. length (at_or_after since ts)) (r.same_times owner)
      ∙ (unfold Memory.count in refl) in
    cc (answers_Represents calls rows hits r)
answers_Represents (sweeping older_than ∷ calls) rows hits r = cc (
  sweep_counts older_than rows hits r,
  answers_Represents calls (Postgres.sweep older_than rows).0 (Memory.sweep older_than hits).0
      (sweep-Represents older_than rows hits r),
)

-- Whatever is recorded, asked and swept in whatever order, both ledgers give the same answers.
pub ledgers_agree : (calls : List Call) → answers_postgres calls [] ≡ answers_memory calls []
unfolding times_of hits_of
ledgers_agree calls =
    answers_Represents calls [] [] (record { same_times = λ owner. refl; distinct = tt })
