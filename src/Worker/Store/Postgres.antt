-- ===== src/Worker/Store/Postgres.antt =====
-- `PostgresJobStore` of backend/worker/postgres_store.py. The table is the list of its rows, and the
-- statements that the store sends are written out on that list. A result is read back from its JSON
-- as it was written.
use p_r_i_s_m.Prelude.{
  ℕ, suc, ◌+◌, ◌*◌, List, [], ◌∷◌, ◌++◌, map, Option, none, some, String, Eq-String, Bool, false,
  ◌||◌, ◌==◌, ltb, drop, if◌then◌else◌, sort_by,
}
use p_r_i_s_m.TtlCache.{second}
use p_r_i_s_m.Worker.Store.{JobRecord, Fields, new_record, set_fields}

pub record Table (R : Type 0) : Type 0 where
  pub max_jobs : ℕ
  pub ttl : ℕ
  pub rows : List (JobRecord R)

-- `id IN ids`
unfoldable pub is_in : String → List String → Bool
is_in id [] = false
is_in id (i ∷ ids) = i == id || is_in id ids

module _ {R : Type 0} where
  -- `%s - updated > %s`
  unfoldable pub is_late : ℕ → ℕ → JobRecord R → Bool
  is_late ttl now row = ltb (row.updated + ttl * second) now

  -- `DELETE … WHERE now - updated > ttl`, and the number of rows deleted
  unfoldable pub delete_late : ℕ → ℕ → List (JobRecord R) → List (JobRecord R) × ℕ
  unfolding is_late
  delete_late ttl now [] = ([], 0)
  delete_late ttl now (row ∷ rows) =
      let (rest, deleted) = delete_late ttl now rows in
      if is_late ttl now row then (rest, suc deleted) else (row ∷ rest, deleted)

  -- `DELETE … WHERE id IN …`
  unfoldable pub delete_in : List String → List (JobRecord R) → List (JobRecord R)
  unfolding is_in
  delete_in ids [] = []
  delete_in ids (row ∷ rows) =
      let rest = delete_in ids rows in if is_in row.id ids then rest else row ∷ rest

  -- `ORDER BY created DESC`: whether a row comes strictly before another. Rows with the same reading
  -- may come in any order, and come here as they were inserted.
  unfoldable pub is_newer : JobRecord R → JobRecord R → Bool
  is_newer a b = ltb b.created a.created

  -- `SELECT id … ORDER BY created DESC OFFSET …`
  unfoldable pub beyond : ℕ → List (JobRecord R) → List String
  unfolding is_newer sort_by
  beyond limit rows = map (λ (row : JobRecord R). row.id) (drop limit (sort_by is_newer rows))

  -- `SELECT … WHERE id = …`
  unfoldable pub find : String → List (JobRecord R) → Option (JobRecord R)
  find id [] = none
  find id (row ∷ rows) = if row.id == id then some row else find id rows

  -- `sweep`, and `_sweep_conn`
  unfoldable pub sweep : ℕ → Table R → Table R × ℕ
  unfolding delete_late
  sweep now t =
      let (rows, deleted) = delete_late t.ttl now t.rows in (record t { rows = rows }, deleted)

  -- the insertion, which the primary key refuses for an id that is there, and what follows it
  unfoldable pub insert : ℕ → JobRecord R → List (JobRecord R) → Option (List (JobRecord R))
  unfolding find delete_in beyond
  insert limit rec rows = elim (find rec.id rows) [
    | some other ↦ none
    | none ↦ some (delete_in (beyond limit (rows ++ rec ∷ [])) (rows ++ rec ∷ []))
  ]

  -- `create`; `none` is the exception of the database.
  unfoldable pub create : ℕ → String → Option String → Table R → Option (Table R × JobRecord R)
  unfolding sweep insert
  create now id owner t =
      let rec = new_record now id owner in
      let (t', _) = sweep now t in
      elim (insert t.max_jobs rec t'.rows) [
        | none ↦ none
        | some rows ↦ some (record t { rows = rows }, rec)
      ]

  -- `get`
  unfoldable pub get : ℕ → String → Table R → Table R × Option (JobRecord R)
  unfolding find is_late delete_in
  get now id t = elim (find id t.rows) [
    | none ↦ (t, none)
    | some row ↦
        if is_late t.ttl now row
        then (record t { rows = delete_in (id ∷ []) t.rows }, none)
        else (t, some row)
  ]

  -- `UPDATE … WHERE id = …`
  unfoldable pub set_where : ℕ → String → Fields R → List (JobRecord R) → List (JobRecord R)
  unfolding set_fields
  set_where now id fields [] = []
  set_where now id fields (row ∷ rows) =
      (if row.id == id then record (set_fields fields row) { updated = now } else row)
      ∷ set_where now id fields rows

  -- `update`, of fields that may be updated
  unfoldable pub update : ℕ → String → Fields R → Table R → Table R
  unfolding set_where
  update now id fields t = record t { rows = set_where now id fields t.rows }
