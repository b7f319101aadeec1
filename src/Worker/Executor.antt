-- ===== src/Worker/Executor.antt =====
-- `BoundedExecutor` of backend/worker/executor.py. Threads interleave between the sections that
-- hold the lock, so the executor is a step relation: each step is one such section, or what the
-- pool does with a task. The pool is `ThreadPoolExecutor`; the model says of it what is documented:
-- it starts a task that was handed to it, runs at most `max_workers` at a time, and may refuse one.
pub mod Capacity
use p_r_i_s_m.Prelude.{
  ℕ, suc, zero, ◌+◌, ◌-◌, ◌<◌, List, [], ◌∷◌, Option, none, some, ltb, leb, if◌then◌else◌, Bool,
  true, false, ◌≡◌,
}

-- The executor's counters, and where the submitted calls stand: reserved (counted by `submit`, not
-- yet handed to the pool), waiting in the pool, taken by a thread that has not entered `_run` yet,
-- inside the call, returned from the call with the last section still to come, and cancelled.
pub record Executor : Type 0 where
  pub max_workers : ℕ
  pub max_pending : ℕ
  pub pending : ℕ
  pub running : ℕ
  pub reserved : ℕ
  pub waiting : ℕ
  pub started : ℕ
  pub inside : ℕ
  pub leaving : ℕ
  pub cancelled : ℕ

-- `__init__`
unfoldable pub new : ℕ → ℕ → Executor
new max_workers max_pending = record {
  max_workers = max_workers;
  max_pending = max_pending;
  pending = 0;
  running = 0;
  reserved = 0;
  waiting = 0;
  started = 0;
  inside = 0;
  leaving = 0;
  cancelled = 0;
}

-- The first section of `submit`: `none` is `QueueFull`.
unfoldable pub reserve : Executor → Option Executor
reserve x =
    if leb x.max_pending x.pending
    then none
    else some (record x { pending = x.pending + 1; reserved = x.reserved + 1 })

-- `self._pool.submit(_run)` returns.
pub hand_over : Executor → Executor
hand_over x = record x { reserved = x.reserved - 1; waiting = x.waiting + 1 }

-- `self._pool.submit(_run)` raises: the reservation is taken back, and the error is passed on.
pub withdraw : Executor → Executor
withdraw x = record x { pending = x.pending - 1; reserved = x.reserved - 1 }

-- A thread of the pool takes a task.
pub take_task : Executor → Executor
take_task x = record x { waiting = x.waiting - 1; started = x.started + 1 }

-- The first section of `_run`.
pub enter : Executor → Executor
enter x = record x {
  pending = x.pending - 1;
  running = x.running + 1;
  started = x.started - 1;
  inside = x.inside + 1;
}

-- The call returns or raises.
pub finish : Executor → Executor
finish x = record x { inside = x.inside - 1; leaving = x.leaving + 1 }

-- The `finally` section of `_run`.
pub leave : Executor → Executor
leave x = record x { running = x.running - 1; leaving = x.leaving - 1 }

-- `shutdown` cancels a task that waits. Its `_run` never runs, so `_pending` still counts it.
pub cancel : Executor → Executor
cancel x = record x { waiting = x.waiting - 1; cancelled = x.cancelled + 1 }

-- the threads of the pool that are busy
pub busy : Executor → ℕ
busy x = x.started + x.inside + x.leaving

-- `stats`
pub stats : Executor → ℕ × ℕ × ℕ
stats x = (x.running, x.pending, x.max_pending)

pub data Step : Executor → Executor → Type 0 where
  reserving : {x y : Executor} → reserve x ≡ some y → Step x y
  handing : {x : Executor} → 0 < x.reserved → Step x (hand_over x)
  withdrawing : {x : Executor} → 0 < x.reserved → Step x (withdraw x)
  taking : {x : Executor} → 0 < x.waiting → busy x < x.max_workers → Step x (take_task x)
  entering : {x : Executor} → 0 < x.started → Step x (enter x)
  finishing : {x : Executor} → 0 < x.inside → Step x (finish x)
  cancelling : {x : Executor} → 0 < x.waiting → Step x (cancel x)
  leaving_run : {x : Executor} → 0 < x.leaving → Step x (leave x)

-- Any number of steps from a fresh executor.
pub data Reachable (workers pending : ℕ) : Executor → Type 0 where
  start : Reachable workers pending (new workers pending)
  then : {x y : Executor} → Reachable workers pending x → Step x y → Reachable workers pending y
