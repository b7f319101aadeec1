-- ===== src/Tests/Stores.antt =====
-- The Postgres job store at a concrete table.
use p_r_i_s_m.Prelude.{ℕ, ◌≡◌, refl, List, [], ◌∷◌, none, arith}
use p_r_i_s_m.Dict.{lookup}
use p_r_i_s_m.Worker.Store.{new_record, set_status, running, queued}
use p_r_i_s_m.Worker.Store.Histories.{Call, creating, getting, updating, sweeping}
use p_r_i_s_m.Worker.Store.Postgres
use p_r_i_s_m.Worker.Store.Postgres.{Table, find}
use p_r_i_s_m.Worker.Store.Refined.{store_of}
use p_r_i_s_m.Worker.Store.Answers.{answers_memory, answers_postgres, stores_agree, created, got}

abbrev table : Table ℕ
table = record {
  max_jobs = 1;
  ttl = 10;
  rows =
      record {
        id = "a";
        status = queued;
        created = 5;
        updated = 5;
        result = none;
        message = none;
        owner = none;
      }
      ∷ [];
}

abbrev calls : List (Call ℕ)
calls =
    getting 6 "a"
    ∷ updating 7 "a" (set_status running)
    ∷ creating 8 "b" none
    ∷ getting 9 "a"
    ∷ sweeping 10009
    ∷ []

stores_agree_example : answers_postgres calls table ≡ answers_memory calls (store_of table)
unfolding answers_postgres find Postgres.get Postgres.update lookup
stores_agree_example =
    stores_agree calls table (record { distinct = (refl, tt); ascending = (tt, tt) })
      (tt, (tt, ((refl, (omega arith, tt)), (tt, (tt, tt)))))

-- Where the clock has gone back, the job that is created is the one that the limit deletes.
created_in_vain :
    answers_postgres (creating 3 "b" none ∷ getting 4 "b" ∷ []) table
    ≡ created (new_record 3 "b" none) ∷ got none ∷ []
unfolding answers_postgres Postgres.create Postgres.get new_record
created_in_vain = refl
