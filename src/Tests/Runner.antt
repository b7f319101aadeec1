-- ===== src/Tests/Runner.antt =====
-- The runner at concrete inputs. A result is a number: the length of the paper.
use mathlib.Core.List.{Permᴰ}
use p_r_i_s_m.Prelude.{
  ℕ, ◌+◌, ◌*◌, ◌≡◌, refl, List, [], ◌∷◌, none, some, Eq-String, true, false, length, ltb, arith,
  if◌then◌else◌,
}
use p_r_i_s_m.Text.{codes}
use p_r_i_s_m.Dict.{lookup, assign, evict}
use p_r_i_s_m.TtlCache
use p_r_i_s_m.TtlCache.{TtlCache, second}
use p_r_i_s_m.Worker.Store.{JobRecord, new_record, set_fields, done}
use p_r_i_s_m.Worker.Store.Histories.{Call, creating}
use p_r_i_s_m.Worker.Executor
use p_r_i_s_m.Worker.Runner.Request.{CheckRequest, content_bytes}
use p_r_i_s_m.Worker.Runner.Order.{content_bytes_perm}
use p_r_i_s_m.Worker.Runner.{
  Engine, CheckRunner, Times, computed, rejected, submit, run, status, answer, fields_of,
}
use p_r_i_s_m.Worker.Runner.Lifecycle.{IsAnswered, run-IsAnswered, status-run, answer_again}

abbrev engine : Engine ℕ
engine = record {
  digest = λ bytes. if ltb 40 (length bytes) then "long" else "short";
  compute = λ req.
      if ltb 0 (length req.references)
      then computed (length req.paper.1)
      else rejected "No sources.";
  add_recheck = λ previous id r. r + 100 * previous;
}

abbrev request : CheckRequest ℕ
request = record {
  paper = (codes "paper.txt", 65 ∷ 66 ∷ []);
  references = (codes "a.txt", 65 ∷ []) ∷ (codes "b.txt", 66 ∷ []) ∷ [];
  use_academic = false;
  base_warnings = [];
  previous = some 7;
  previous_job_id = some "old";
}

-- the same files under other names and in the other order
abbrev renamed : CheckRequest ℕ
renamed = record request {
  paper = (codes "final.txt", 65 ∷ 66 ∷ []);
  references = (codes "c.txt", 66 ∷ []) ∷ (codes "d.txt", 65 ∷ []) ∷ [];
}

content_bytes_perm_example : content_bytes request ≡ content_bytes renamed
content_bytes_perm_example = content_bytes_perm request renamed refl refl (Permᴰ.swap refl refl)

abbrev times : Times
times = record { started_at = 2; read_at = 3; put_at = 4; ended_at = 5 }

abbrev runner : CheckRunner ℕ
runner = record {
  store = record { max_jobs = 200; ttl = 1800; jobs = [] };
  executor = Executor.new 2 16;
  cache = record { max_size = 8; ttl = 600; entries = [] };
}

abbrev answered : JobRecord ℕ
answered = record {
  id = "x";
  status = done;
  created = 0;
  updated = 5;
  result = some 702;
  message = none;
  owner = some "ada";
}

-- a job that is created by another request between the two updates
abbrev others : List (Call ℕ)
others = creating 3 "y" none ∷ []

run-IsAnswered_example : IsAnswered answered
unfolding run submit lookup evict assign Executor.new
run-IsAnswered_example =
    run-IsAnswered engine times "x" request others (submit 0 1 "x" true (some "ada") runner).0
      answered refl

status-run_example :
    (status 6 "x" (run engine times "x" request [] (submit 0 1 "x" true (some "ada") runner).0)).1
    ≡ (if ltb (5 + 1800 * second) 6
        then none
        else some
            (record (set_fields
              (fields_of engine request (answer engine times request runner.cache).1)
              (new_record 0 "x" (some "ada"))) { updated = 5 }))
unfolding Executor.reserve Executor.new lookup
status-run_example =
    status-run engine 0 1 6 "x" (some "ada") times request runner
      (record (Executor.new 2 16) { pending = 1; reserved = 1 }) tt (omega arith) refl refl

-- The same bytes in the same order of references, and other names, a minute later.
answer_again_example :
    (answer engine
      (record times { read_at = 60000 })
      renamed
      (answer engine times request runner.cache).0).1
    ≡ computed 2
unfolding TtlCache.get lookup
answer_again_example =
    answer_again engine times (record times { read_at = 60000 }) request renamed runner.cache 2
      (omega arith) content_bytes_perm_example refl refl (omega arith)
