-- ===== src/Worker/Runner.antt =====
-- `CheckRunner` of backend/worker/runner.py: the life of one check, over the job store, the executor
-- and the cache of results. Its lines for the log are left out.
pub mod Request
pub mod Order
pub mod Lifecycle
pub mod Coverage
pub mod Assembly
pub mod Computed
use p_r_i_s_m.Prelude.{ℕ, List, [], Option, none, some, String, Eq-String, Bool, ltb, if◌then◌else◌}
use p_r_i_s_m.TtlCache
use p_r_i_s_m.TtlCache.{TtlCache}
use p_r_i_s_m.Worker.Store
use p_r_i_s_m.Worker.Store.{
  JobStore, JobRecord, Fields, set_status, set_result, set_error, running, done, error,
}
use p_r_i_s_m.Worker.Store.Histories.{Call, apply_all}
use p_r_i_s_m.Worker.Executor
use p_r_i_s_m.Worker.Executor.{Executor}
use p_r_i_s_m.Worker.Runner.Request.{Bytes, CheckRequest, content_bytes}

-- How `_compute` ends: with a result, with a `PipelineError` and its message, or with any other
-- exception.
pub data Outcome (R : Type 0) : Type 0 where
  computed : R → Outcome R
  rejected : String → Outcome R
  failed : Outcome R

-- What the runner calls: the digest of `hashlib`, `_compute`, and the addition of the comparison
-- with the earlier result to a result.
pub record Engine (R : Type 0) : Type 0 where
  pub digest : Bytes → String
  pub compute : CheckRequest R → Outcome R
  pub add_recheck : R → Option String → R → R

pub record CheckRunner (R : Type 0) : Type 0 where
  pub store : JobStore R
  pub executor : Executor
  pub cache : TtlCache String R

-- How `submit` ends: `QueueFull`, an exception of the pool, or the new record.
pub data Submission (R : Type 0) : Type 0 where
  queue_full : Submission R
  refused_by_pool : Submission R
  submitted : JobRecord R → Submission R

-- the readings of the clock in `_run`: by the two updates of the store, by `get` and by `put`
pub record Times : Type 0 where
  pub started_at : ℕ
  pub read_at : ℕ
  pub put_at : ℕ
  pub ended_at : ℕ

module _ {R : Type 0} where
  -- `submit`, at two readings of the clock; `accepts` is whether the pool takes the task.
  unfoldable pub submit :
      ℕ → ℕ → String → Bool → Option String → CheckRunner R → CheckRunner R × Submission R
  unfolding Store.create Executor.reserve Store.update
  submit now now' id accepts owner s =
      let (created, rec) = Store.create now id owner s.store in
      elim (Executor.reserve s.executor) [
        | none ↦ (
          record s { store = Store.update now' id (set_error error "Server busy.") created },
          queue_full,
        )
        | some x ↦
            if accepts
            then (record s { store = created; executor = Executor.hand_over x }, submitted rec)
            else (record s { store = created; executor = Executor.withdraw x }, refused_by_pool)
      ]

  -- `status`
  unfoldable pub status : ℕ → String → CheckRunner R → CheckRunner R × Option (JobRecord R)
  unfolding Store.get
  status now id s =
      let (store, found) = Store.get now id s.store in (record s { store = store }, found)

  -- `result = self._compute(req)`, and `self.cache.put(key, result)`
  unfoldable pub keep :
      Times → String → Outcome R → TtlCache String R → TtlCache String R × Outcome R
  unfolding TtlCache.put
  keep t key (computed r) cache = (TtlCache.put t.put_at key r cache, computed r)
  keep t key (rejected message) cache = (cache, rejected message)
  keep t key failed cache = (cache, failed)

  -- the result from the cache, or a new one
  unfoldable pub answer :
      Engine R → Times → CheckRequest R → TtlCache String R → TtlCache String R × Outcome R
  unfolding TtlCache.get keep content_bytes
  answer engine t req cache =
      let key = engine.digest (content_bytes req) in
      let (cache', found) = TtlCache.get t.read_at key cache in
      elim found [ none ↦ keep t key (engine.compute req) cache' | some r ↦ (cache', computed r) ]

  -- `result = {**result, "recheck": …}`
  unfoldable pub compared : Engine R → CheckRequest R → R → R
  compared engine req r = elim req.previous [
    | none ↦ r
    | some previous ↦ engine.add_recheck previous req.previous_job_id r
  ]

  -- the last call of `update`, in each of the three ways that `_run` ends
  unfoldable pub fields_of : Engine R → CheckRequest R → Outcome R → Fields R
  unfolding compared
  fields_of engine req (computed r) = set_result done (compared engine req r)
  fields_of engine req (rejected message) = set_error error message
  fields_of engine req failed = set_error error "Originality check failed. Please try again."

  -- `_run`. Other threads call the store in the meantime: `others` are their calls.
  unfoldable pub run :
      Engine R → Times → String → CheckRequest R → List (Call R) → CheckRunner R → CheckRunner R
  unfolding Store.update answer fields_of apply_all
  run engine t id req others s =
      let store = apply_all others (Store.update t.started_at id (set_status running) s.store) in
      let (cache, outcome) = answer engine t req s.cache in
      record s {
        store = Store.update t.ended_at id (fields_of engine req outcome) store;
        cache = cache;
      }
