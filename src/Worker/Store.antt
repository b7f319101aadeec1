-- ===== src/Worker/Store.antt =====
-- `JobRecord` and `InMemoryJobStore` of backend/worker/store.py. The lock makes each method one
-- step; the reading of the clock and the fresh `uuid4` are arguments. `R` is the type of results.
pub mod Lifecycle
pub mod Histories
pub mod Postgres
pub mod Durable
pub mod Refined
pub mod Updated
pub mod Answers
use p_r_i_s_m.Prelude.{
  ℕ, ◌+◌, ◌*◌, List, [], ◌∷◌, Option, none, some, String, Bool, Eq-String, ltb, length,
  if◌then◌else◌,
}
use p_r_i_s_m.Dict.{Dict, keys_where, remove_all, lookup, assign, remove, evict}
use p_r_i_s_m.TtlCache.{second}

pub data Status : Type 0 where
  queued running done error : Status

pub record JobRecord (R : Type 0) : Type 0 where
  pub id : String
  pub status : Status
  pub created : ℕ
  pub updated : ℕ
  pub result : Option R
  pub message : Option String  -- the field `error`
  pub owner : Option String

pub record JobStore (R : Type 0) : Type 0 where
  pub max_jobs : ℕ
  pub ttl : ℕ
  pub jobs : Dict String (JobRecord R)

-- The fields that the runner hands to `update`.
pub data Fields (R : Type 0) : Type 0 where
  set_status : Status → Fields R
  set_result : Status → R → Fields R
  set_error : Status → String → Fields R

module _ {R : Type 0} where
  -- `JobRecord(id=uuid.uuid4().hex, owner=owner)`
  unfoldable pub new_record : ℕ → String → Option String → JobRecord R
  new_record now id owner = record {
    id = id;
    status = queued;
    created = now;
    updated = now;
    result = none;
    message = none;
    owner = owner;
  }

  unfoldable pub is_stale : JobStore R → ℕ → JobRecord R → Bool
  is_stale s now rec = ltb (rec.updated + s.ttl * second) now

  -- `sweep`, and `_sweep_locked`
  unfoldable pub sweep : ℕ → JobStore R → JobStore R × ℕ
  unfolding keys_where remove_all is_stale
  sweep now s =
      let stale = keys_where (is_stale s now) s.jobs in
      (record s { jobs = remove_all stale s.jobs }, length stale)

  -- `create`: sweep, store the new record under its id, evict the oldest
  unfoldable pub create : ℕ → String → Option String → JobStore R → JobStore R × JobRecord R
  unfolding sweep new_record
  create now id owner s =
      let rec = new_record now id owner in
      let (s', _) = sweep now s in
      (record s' { jobs = evict s'.max_jobs (assign id rec s'.jobs) }, rec)

  -- `get`: a snapshot, or nothing where the record is missing or stale
  unfoldable pub get : ℕ → String → JobStore R → JobStore R × Option (JobRecord R)
  unfolding is_stale
  get now id s = elim (lookup id s.jobs) [
    | none ↦ (s, none)
    | some rec ↦
        if is_stale s now rec then (record s { jobs = remove id s.jobs }, none) else (s, some rec)
  ]

  unfoldable pub set_fields : Fields R → JobRecord R → JobRecord R
  set_fields (set_status st) rec = record rec { status = st }
  set_fields (set_result st r) rec = record rec { status = st; result = some r }
  set_fields (set_error st msg) rec = record rec { status = st; message = some msg }

  -- `update`
  unfoldable pub update : ℕ → String → Fields R → JobStore R → JobStore R
  unfolding set_fields
  update now id fields s = elim (lookup id s.jobs) [
    | none ↦ s
    | some rec ↦ record s {
      jobs = assign id (record (set_fields fields rec) { updated = now }) s.jobs;
    }
  ]
