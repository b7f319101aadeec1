-- ===== src/Worker/Store/Answers.antt =====
-- The Postgres store answers as the in-memory store does, whatever is called.
use p_r_i_s_m.Prelude.{
  ℕ, ◌<◌, ◌≡◌, refl, sym, ap, ◌∙◌, subst, List, [], ◌∷◌, ◌++◌, Option, none, some, String,
  Eq-String, true, lt→ltb, All,
}
use p_r_i_s_m.Dict.{Dict, lookup, assign, evict}
use p_r_i_s_m.Dict.Order.{Distinct, assign_absent, evict-Distinct, append-Distinct}
use p_r_i_s_m.Dict.Sweep.{lookup-drop_where, unless}
use p_r_i_s_m.Worker.Store.{
  JobRecord, JobStore, Fields, set_status, set_result, set_error, is_stale, set_fields, new_record,
}
use p_r_i_s_m.Worker.Store
use p_r_i_s_m.Worker.Store.Postgres
use p_r_i_s_m.Worker.Store.Postgres.{
  Table, is_late, delete_late, delete_in, is_newer, beyond, find, insert, set_where, is_in,
}
use p_r_i_s_m.Worker.Store.Durable.{
  entry, dict_of, lookup-dict_of, evict-dict_of, drop_where-dict_of, Ascending, delete_in-beyond,
  map-append_one,
}
use p_r_i_s_m.Worker.Store.Refined.{
  store_of, IsInOrder, with_jobs, find_of_lookup, Ascending-delete_in, Ascending-append,
  All-delete_late, sweep-store_of, get-store_of,
}
use p_r_i_s_m.Worker.Store.Updated.{update-store_of}
use p_r_i_s_m.Worker.Store.Histories.{Call, creating, getting, updating, sweeping}

module _ {R : Type 0} where
  -- A row that is created has an id that is not there, and a later reading than all the others.
  abbrev pub IsFresh : ℕ → String → List (JobRecord R) → Type 0
  IsFresh now id rows = (find id rows ≡ none) × All (λ (row : JobRecord R). row.created < now) rows

  All-newer :
      (now : ℕ) (id : String) (owner : Option String) (rows : List (JobRecord R))
      → All (λ (row : JobRecord R). row.created < now) rows
      → All (λ (row : JobRecord R). is_newer (new_record now id owner) row ≡ true) rows
  unfolding is_newer new_record
  All-newer now id owner [] h = tt
  All-newer now id owner (row ∷ rows) h =
      (lt→ltb row.created now h.0, All-newer now id owner rows h.1)

  find-delete_late :
      (t : Table R) (now : ℕ) (id : String)
      → Distinct (dict_of t.rows)
      → find id t.rows ≡ none
      → find id (delete_late t.ttl now t.rows).0 ≡ none
  find-delete_late t now id d missing =
      sym (lookup-dict_of id (delete_late t.ttl now t.rows).0)
      ∙ ap (lookup id) (sym (drop_where-dict_of t.ttl now t.rows))
      ∙ lookup-drop_where (is_late t.ttl now) id (dict_of t.rows) d
      ∙ ap (unless (is_late t.ttl now)) (find_of_lookup id t.rows none missing)

  insert-dict_of :
      (limit : ℕ) (rec : JobRecord R) (rows : List (JobRecord R))
      → Distinct (dict_of rows)
      → Ascending rows
      → find rec.id rows ≡ none
      → All (λ (row : JobRecord R). is_newer rec row ≡ true) rows
      → (kept : List (JobRecord R)) × (insert limit rec rows ≡ some kept)
        × (evict limit (assign rec.id rec (dict_of rows)) ≡ dict_of kept)
        × Distinct (dict_of kept)
        × Ascending kept
  unfolding insert
  insert-dict_of limit rec rows d a missing newer =
      let all = rows ++ rec ∷ [] in
      let in_dict : assign rec.id rec (dict_of rows) ≡ dict_of all =
        assign_absent rec.id rec (dict_of rows) (find_of_lookup rec.id rows none missing)
        ∙ sym (map-append_one entry rows rec) in
      let distinct : Distinct (dict_of all) =
        subst Distinct (sym (map-append_one entry rows rec))
          (append-Distinct rec.id rec (dict_of rows) (find_of_lookup rec.id rows none missing) d) in
      let ascending = Ascending-append rows rec a newer in
      let oldest_go = delete_in-beyond limit all ascending distinct in
      let same : evict limit (dict_of all) ≡ dict_of (delete_in (beyond limit all) all) =
        evict-dict_of limit all ∙ ap dict_of (sym oldest_go) in
      (
        delete_in (beyond limit all) all,
        rw (missing, insert) refl,
        ap (evict limit) in_dict ∙ same,
        subst Distinct same (evict-Distinct limit (dict_of all) distinct),
        Ascending-delete_in (beyond limit all) all ascending,
      )

  create-store_of :
      (now : ℕ) (id : String) (owner : Option String) (t : Table R)
      → IsInOrder t
      → IsFresh now id t.rows
      → (t' : Table R) × (Postgres.create now id owner t ≡ some (t', new_record now id owner))
        × (Store.create now id owner (store_of t) ≡ (store_of t', new_record now id owner))
        × IsInOrder t'
  unfolding Postgres.create Store.create
  create-store_of now id owner t v (missing, earlier) =
      let rec = new_record now id owner in
      let (same_swept, v') = sweep-store_of now t v in
      let rows = (Postgres.sweep now t).0.rows in
      let (kept, inserted, evicted, distinct, ascending) =
        insert-dict_of t.max_jobs rec rows v'.distinct v'.ascending
          (unfold Postgres.sweep in find-delete_late t now id v.distinct missing)
          (unfold Postgres.sweep in
            All-delete_late _ t.ttl now t.rows (All-newer now id owner t.rows earlier)) in
      (
        record t { rows = kept },
        rw (inserted, Postgres.create) refl,
        ap
              (λ (p : JobStore R × ℕ).
                (record p.0 { jobs = evict p.0.max_jobs (assign id rec p.0.jobs) }, rec))
              same_swept
            ∙ ap (λ (jobs : Dict String (JobRecord R)). (with_jobs t jobs, rec)) evicted,
        record { distinct = distinct; ascending = ascending },
      )

-- What a call answers.
pub data Answer (R : Type 0) : Type 0 where
  created : JobRecord R → Answer R
  got : Option (JobRecord R) → Answer R
  updated refused : Answer R
  swept : ℕ → Answer R

module _ {R : Type 0} where
  unfoldable pub answer_memory : Call R → JobStore R → JobStore R × Answer R
  answer_memory (creating now id owner) s =
      let (s', rec) = Store.create now id owner s in (s', created rec)
  answer_memory (getting now id) s = let (s', rec) = Store.get now id s in (s', got rec)
  answer_memory (updating now id f) s = (Store.update now id f s, updated)
  answer_memory (sweeping now) s = let (s', n) = Store.sweep now s in (s', swept n)

  unfoldable pub answer_create : Table R → Option (Table R × JobRecord R) → Table R × Answer R
  answer_create t none = (t, refused)
  answer_create t (some (t', rec)) = (t', created rec)

  unfoldable pub answer_postgres : Call R → Table R → Table R × Answer R
  unfolding answer_create
  answer_postgres (creating now id owner) t = answer_create t (Postgres.create now id owner t)
  answer_postgres (getting now id) t = let (t', rec) = Postgres.get now id t in (t', got rec)
  answer_postgres (updating now id f) t = (Postgres.update now id f t, updated)
  answer_postgres (sweeping now) t = let (t', n) = Postgres.sweep now t in (t', swept n)

  unfoldable pub answers_memory : List (Call R) → JobStore R → List (Answer R)
  unfolding answer_memory
  answers_memory [] s = []
  answers_memory (c ∷ calls) s = let (s', a) = answer_memory c s in a ∷ answers_memory calls s'

  unfoldable pub answers_postgres : List (Call R) → Table R → List (Answer R)
  unfolding answer_postgres
  answers_postgres [] t = []
  answers_postgres (c ∷ calls) t =
      let (t', a) = answer_postgres c t in a ∷ answers_postgres calls t'

  -- A created job has a fresh id and a later reading than all the jobs that are stored.
  abbrev pub Fits : Call R → Table R → Type 0
  Fits (creating now id owner) t = IsFresh now id t.rows
  Fits _ t = Unit

  abbrev pub AllFit : List (Call R) → Table R → Type 0
  unfolding answer_postgres
  AllFit [] t = Unit
  AllFit (c ∷ calls) t = Fits c t × AllFit calls (answer_postgres c t).0

  answer-same :
      (c : Call R) (t : Table R)
      → IsInOrder t
      → Fits c t
      → (answer_memory c (store_of t) ≡ (store_of (answer_postgres c t).0, (answer_postgres c t).1))
        × IsInOrder (answer_postgres c t).0
  unfolding answer_memory answer_postgres answer_create
  answer-same (creating now id owner) t v fits =
      let (t', made, same, v') = create-store_of now id owner t v fits in
      rw made (ap (λ (p : JobStore R × JobRecord R). (p.0, created p.1)) same, v')
  answer-same (getting now id) t v fits =
      let (same, v') = get-store_of now id t v in
      (ap (λ (p : JobStore R × Option (JobRecord R)). (p.0, got p.1)) same, v')
  answer-same (updating now id f) t v fits =
      let (same, v') = update-store_of now id f t v in
      (ap (λ (s : JobStore R). (s, updated)) same, v')
  answer-same (sweeping now) t v fits =
      let (same, v') = sweep-store_of now t v in
      (ap (λ (p : JobStore R × ℕ). (p.0, swept p.1)) same, v')

  -- Whatever is called in whatever order, on a table whose rows have distinct ids and were created
  -- one after the other, and if each new job has an id that is not stored and a later reading than
  -- all the jobs that are: the Postgres store and the in-memory store give the same answers.
  pub stores_agree :
      (calls : List (Call R)) (t : Table R)
      → IsInOrder t
      → AllFit calls t
      → answers_postgres calls t ≡ answers_memory calls (store_of t)
  unfolding answers_postgres answers_memory
  stores_agree [] t v fit = refl
  stores_agree (c ∷ calls) t v fit =
      let (same, v') = answer-same c t v fit.0 in
      ap (◌∷◌ (answer_postgres c t).1) (stores_agree calls (answer_postgres c t).0 v' fit.1)
      ∙ sym (ap (λ (p : JobStore R × Answer R). p.1 ∷ answers_memory calls p.0) same)
