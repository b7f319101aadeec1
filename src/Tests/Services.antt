-- ===== src/Tests/Services.antt =====
-- The cache, the job store and the rate limiter at concrete inputs.
use p_r_i_s_m.Worker.Store.Lifecycle.{alive}
use p_r_i_s_m.Prelude.{
  ◌<◌, ◌≤◌, ℕ, suc, ◌+◌, ◌*◌, ◌≡◌, refl, List, [], ◌∷◌, some, none, String, Eq-String, ltb, arith,
  min, if◌then◌else◌,
}
use p_r_i_s_m.Dict.{lookup, assign, remove, move_to_end, evict, keys_where, remove_all}
use p_r_i_s_m.TtlCache.{TtlCache, second}
use p_r_i_s_m.TtlCache
use p_r_i_s_m.TtlCache.Freshness
use p_r_i_s_m.Dict.Order.{Distinct}
use p_r_i_s_m.Worker.Store.Lifecycle.{alive}
use p_r_i_s_m.Worker.Store.{set_fields, running, set_status, JobStore, JobRecord, new_record}
use p_r_i_s_m.Worker.Store
use p_r_i_s_m.Worker.Store.Lifecycle
use p_r_i_s_m.Worker.Executor
use p_r_i_s_m.Worker.Store.Histories.{
  Call, creating, updating, getting, sweeping, apply_all, apply_all-IsValid,
}
use p_r_i_s_m.Worker.Executor.{Executor, Reachable, Step}
use p_r_i_s_m.Worker.Executor.Capacity
use p_r_i_s_m.Worker.Executor.Capacity.{IsValid, work_left}
use p_r_i_s_m.App.Limits.{RateLimiter}
use p_r_i_s_m.App.Limits.Quota.{limit_exact, allowed, requests}

run : Unit {0}
unfolding lookup assign remove move_to_end evict keys_where remove_all TtlCache.get TtlCache.put
    TtlCache.new Executor.new Executor.reserve
run = tt

abbrev full_cache : TtlCache String ℕ
full_cache = record { max_size = 2; ttl = 10; entries = ("a", (0, 1)) ∷ ("b", (5, 2)) ∷ [] }

-- reading "a" makes "b" the entry used longest ago
read_then_put :
    (TtlCache.put 7 "c" 3 (TtlCache.get 6 "a" full_cache).0).entries
    ≡ ("a", (0, 1)) ∷ ("c", (7, 3)) ∷ []
unfolding run
read_then_put = refl

get-put_example :
    (TtlCache.get 10000 "c" (TtlCache.put 0 "c" 3 full_cache)).1
    ≡ (if ltb (0 + 10 * second) 10000 then none else some 3)
get-put_example = Freshness.get-put 0 10000 "c" 3 full_cache (omega arith)

abbrev empty_store : JobStore ℕ
empty_store = record { max_jobs = 200; ttl = 1800; jobs = [] }

get-create_example :
    (Store.get 5 "x" (Store.create 0 "x" none empty_store).0).1
    ≡ (if ltb (0 + 1800 * second) 5 then none else some (new_record 0 "x" none))
unfolding run
get-create_example = Lifecycle.get-create 0 5 "x" none empty_store tt (omega arith) refl

abbrev limiter : RateLimiter
limiter = record { limit = 2; window = 60; buckets = [] }

abbrev hits : List (String × ℕ)
hits = ("ip", 1000) ∷ ("other", 1500) ∷ ("ip", 2000) ∷ []

limit_exact_example : allowed "ip" (("ip", 0) ∷ hits) limiter ≡ min (suc (requests "ip" hits)) 2
unfolding run
limit_exact_example = limit_exact limiter "ip" 0 hits (omega arith) tt refl (omega arith)

-- a job of the time 0, and one of 1,000 seconds later
abbrev two_jobs : JobStore ℕ
two_jobs = record {
  max_jobs = 200;
  ttl = 1800;
  jobs = ("old", new_record 0 "old" none) ∷ ("new", new_record (1000 * second) "new" none) ∷ [];
}

two_jobs-Distinct : Distinct two_jobs.jobs
unfolding run
two_jobs-Distinct = (refl, (refl, tt))

-- one thread, one call reserved
abbrev reserved_one : Executor
unfolding Executor.new
reserved_one = record (Executor.new 1 2) { pending = 1; reserved = 1 }

reserved_one-Reachable : Reachable 1 2 reserved_one
unfolding run
reserved_one-Reachable = Reachable.then Reachable.start (Step.reserving refl)

Reachable-IsValid_example : IsValid 1 2 reserved_one × (reserved_one.running ≤ 1)
Reachable-IsValid_example = Capacity.Reachable-IsValid 1 2 reserved_one reserved_one-Reachable

Reachable-progress_example :
    (y : Executor) × Step reserved_one y × (work_left y < work_left reserved_one)
unfolding run
Reachable-progress_example =
    Capacity.Reachable-progress 1 2 reserved_one reserved_one-Reachable (omega arith) (omega arith)

abbrev calls : List (Call ℕ)
calls =
    creating 0 "a" none
    ∷ updating 5 "a" (set_status running)
    ∷ getting 6 "a"
    ∷ sweeping (2000 * second)
    ∷ []

apply_all-IsValid_example : Lifecycle.IsValid (apply_all calls empty_store)
apply_all-IsValid_example =
    apply_all-IsValid calls empty_store (record { distinct = tt; bounded = omega arith })
