-- ===== src/Worker/Store/Refined.antt =====
-- Each method of the Postgres store does to the table what the in-memory store's does to its dict.
use p_r_i_s_m.Prelude.{
  ℕ, ◌+◌, ◌*◌, ◌≡◌, refl, ap, ◌∙◌, subst, inl, inr, List, [], ◌∷◌, ◌++◌, Option, none, some, String,
  Eq-String, true, ltb, All, All-append, Bool-cases, Option-cases,
}
use p_r_i_s_m.Dict.{Dict, lookup, keys_where, remove_all}
use p_r_i_s_m.Dict.Order.{Distinct, remove-Distinct}
use p_r_i_s_m.Dict.Sweep.{drop_where-Distinct, remove_all-keys_where}
use p_r_i_s_m.TtlCache.{second}
use p_r_i_s_m.Worker.Store.{
  JobRecord, JobStore, Fields, set_status, set_result, set_error, is_stale, set_fields, new_record,
}
use p_r_i_s_m.Worker.Store
use p_r_i_s_m.Worker.Store.Postgres
use p_r_i_s_m.Worker.Store.Postgres.{
  Table, is_late, delete_late, delete_in, is_newer, beyond, find, insert, set_where, is_in,
}
use p_r_i_s_m.Worker.Store.Durable.{
  dict_of, lookup-dict_of, remove-dict_of, drop_where-dict_of, keys_where-dict_of, Ascending,
}

module _ {R : Type 0} where
  -- The in-memory store that a table stands for.
  abbrev pub store_of : Table R → JobStore R
  store_of t = record { max_jobs = t.max_jobs; ttl = t.ttl; jobs = dict_of t.rows }

  -- No two rows have one id, and they were created one after the other.
  pub record IsInOrder (t : Table R) : Type 0 where
    pub distinct : Distinct (dict_of t.rows)
    pub ascending : Ascending t.rows

  module _ (P : JobRecord R → Type 0) where
    pub All-delete_late :
        (ttl now : ℕ) (rows : List (JobRecord R)) → All P rows → All P (delete_late ttl now rows).0
    unfolding delete_late
    All-delete_late ttl now [] h = tt
    All-delete_late ttl now (row ∷ rows) h = elim (Bool-cases (is_late ttl now row)) [
      | inl t ↦ rw t (All-delete_late ttl now rows h.1)
      | inr f ↦ rw f (h.0, All-delete_late ttl now rows h.1)
    ]

    All-delete_in :
        (ids : List String) (rows : List (JobRecord R)) → All P rows → All P (delete_in ids rows)
    unfolding delete_in
    All-delete_in ids [] h = tt
    All-delete_in ids (row ∷ rows) h = elim (Bool-cases (is_in row.id ids)) [
      | inl t ↦ rw t (All-delete_in ids rows h.1)
      | inr f ↦ rw f (h.0, All-delete_in ids rows h.1)
    ]

  Ascending-delete_late :
      (ttl now : ℕ) (rows : List (JobRecord R))
      → Ascending rows
      → Ascending (delete_late ttl now rows).0
  unfolding delete_late
  Ascending-delete_late ttl now [] h = tt
  Ascending-delete_late ttl now (row ∷ rows) h = elim (Bool-cases (is_late ttl now row)) [
    | inl t ↦ rw t (Ascending-delete_late ttl now rows h.1)
    | inr f ↦ rw f (All-delete_late _ ttl now rows h.0, Ascending-delete_late ttl now rows h.1)
  ]

  pub Ascending-delete_in :
      (ids : List String) (rows : List (JobRecord R))
      → Ascending rows
      → Ascending (delete_in ids rows)
  unfolding delete_in
  Ascending-delete_in ids [] h = tt
  Ascending-delete_in ids (row ∷ rows) h = elim (Bool-cases (is_in row.id ids)) [
    | inl t ↦ rw t (Ascending-delete_in ids rows h.1)
    | inr f ↦ rw f (All-delete_in _ ids rows h.0, Ascending-delete_in ids rows h.1)
  ]

  pub Ascending-append :
      (rows : List (JobRecord R)) (rec : JobRecord R)
      → Ascending rows
      → All (λ (row : JobRecord R). is_newer rec row ≡ true) rows
      → Ascending (rows ++ rec ∷ [])
  Ascending-append [] rec a h = (tt, tt)
  Ascending-append (row ∷ rows) rec a h =
      (All-append _ rows (rec ∷ []) a.0 (h.0, tt), Ascending-append rows rec a.1 h.1)

  pub late_rows :
      (t : Table R) (now : ℕ)
      → Distinct (dict_of t.rows)
      → remove_all (keys_where (is_late t.ttl now) (dict_of t.rows)) (dict_of t.rows)
        ≡ dict_of (delete_late t.ttl now t.rows).0
  late_rows t now d =
      remove_all-keys_where (is_late t.ttl now) (dict_of t.rows) d
      ∙ drop_where-dict_of t.ttl now t.rows

  pub sweep-store_of :
      (now : ℕ) (t : Table R)
      → IsInOrder t
      → (Store.sweep now (store_of t)
          ≡ (store_of (Postgres.sweep now t).0, (Postgres.sweep now t).1))
        × IsInOrder (Postgres.sweep now t).0
  unfolding Store.sweep Postgres.sweep is_stale is_late
  sweep-store_of now t v = (
    (λ i. (
      record { max_jobs = t.max_jobs; ttl = t.ttl; jobs = late_rows t now v.distinct i },
      keys_where-dict_of t.ttl now t.rows i,
    )),
    record {
      distinct =
          subst Distinct (drop_where-dict_of t.ttl now t.rows)
            (drop_where-Distinct (is_late t.ttl now) (dict_of t.rows) v.distinct);
      ascending = Ascending-delete_late t.ttl now t.rows v.ascending;
    },
  )

  -- The store with other rows.
  abbrev pub with_jobs : Table R → Dict String (JobRecord R) → JobStore R
  with_jobs t jobs = record { max_jobs = t.max_jobs; ttl = t.ttl; jobs = jobs }

  pub find_of_lookup :
      (id : String) (rows : List (JobRecord R)) (answer : Option (JobRecord R))
      → find id rows ≡ answer
      → lookup id (dict_of rows) ≡ answer
  find_of_lookup id rows answer e = lookup-dict_of id rows ∙ e

  pub get-store_of :
      (now : ℕ) (id : String) (t : Table R)
      → IsInOrder t
      → (Store.get now id (store_of t)
          ≡ (store_of (Postgres.get now id t).0, (Postgres.get now id t).1))
        × IsInOrder (Postgres.get now id t).0
  unfolding Store.get Postgres.get is_stale is_late
  get-store_of now id t v = elim (Option-cases (find id t.rows)) [
    | inl missing ↦
        rw (missing, Postgres.get) (rw (find_of_lookup id t.rows none missing, Store.get) (refl, v))
    | inr (row, found) ↦
        rw (found, Postgres.get)
          (rw (find_of_lookup id t.rows (some row) found, Store.get)
            (elim (Bool-cases (ltb (row.updated + t.ttl * second) now)) [
              | inl late ↦ rw late (
                ap (λ (jobs : Dict String (JobRecord R)). (with_jobs t jobs, none))
                    (remove-dict_of id t.rows),
                record {
                  distinct =
                      subst Distinct (remove-dict_of id t.rows)
                        (remove-Distinct id (dict_of t.rows) v.distinct);
                  ascending = Ascending-delete_in (id ∷ []) t.rows v.ascending;
                },
              )
              | inr fresh ↦ rw fresh (refl, v)
            ]))
  ]
