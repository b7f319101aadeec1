-- ===== src/Worker/Store/Updated.antt =====
-- `update` of the Postgres store changes the row as the in-memory store's changes its record.
use mathlib.Core.Option.{some-injective}
use p_r_i_s_m.Prelude.{
  ℕ, ◌≡◌, refl, sym, ap, ◌∙◌, subst, inl, inr, List, [], ◌∷◌, none, some, String, Eq-String, true,
  ◌==◌, ltb, arith, All, Bool-cases, Option-cases,
}
use p_r_i_s_m.Dict.{assign}
use p_r_i_s_m.Dict.Order.{Distinct, assign-Distinct}
use p_r_i_s_m.Worker.Store.{
  JobRecord, JobStore, Fields, set_status, set_result, set_error, is_stale, set_fields, new_record,
}
use p_r_i_s_m.Worker.Store
use p_r_i_s_m.Worker.Store.Postgres
use p_r_i_s_m.Worker.Store.Postgres.{
  Table, is_late, delete_late, delete_in, is_newer, beyond, find, insert, set_where, is_in,
}
use p_r_i_s_m.Worker.Store.Durable.{entry, dict_of, Ascending, find-none}
use p_r_i_s_m.Worker.Store.Refined.{store_of, IsInOrder, with_jobs, find_of_lookup}

module _ {R : Type 0} where
  -- An update leaves the id and the reading of the creation.
  changed : ℕ → Fields R → JobRecord R → JobRecord R
  changed now f row = record (set_fields f row) { updated = now }

  same_key :
      (now : ℕ) (f : Fields R) (row : JobRecord R)
      → ((changed now f row).id ≡ row.id) × ((changed now f row).created ≡ row.created)
  unfolding changed set_fields
  same_key now (set_status st) row = (refl, refl)
  same_key now (set_result st r) row = (refl, refl)
  same_key now (set_error st m) row = (refl, refl)

  All-set_where :
      (earlier : JobRecord R) (now : ℕ) (id : String) (f : Fields R) (rows : List (JobRecord R))
      → All (λ (row : JobRecord R). is_newer row earlier ≡ true) rows
      → All (λ (row : JobRecord R). is_newer row earlier ≡ true) (set_where now id f rows)
  unfolding set_where is_newer changed
  All-set_where earlier now id f [] h = tt
  All-set_where earlier now id f (row ∷ rows) h = elim (Bool-cases (row.id == id)) [
    | inl t ↦ rw t (rw ((same_key now f row).1) h.0, All-set_where earlier now id f rows h.1)
    | inr e ↦ rw e (h.0, All-set_where earlier now id f rows h.1)
  ]

  Ascending-set_where :
      (now : ℕ) (id : String) (f : Fields R) (rows : List (JobRecord R))
      → Ascending rows
      → Ascending (set_where now id f rows)
  unfolding set_where is_newer changed
  Ascending-set_where now id f [] h = tt
  Ascending-set_where now id f (row ∷ rows) h = elim (Bool-cases (row.id == id)) [
    | inl t ↦ rw t (
      subst
          (λ (c : ℕ).
            All (λ (later : JobRecord R). ltb c later.created ≡ true) (set_where now id f rows))
          (sym (same_key now f row).1) (All-set_where row now id f rows h.0),
      Ascending-set_where now id f rows h.1,
    )
    | inr e ↦ rw e (All-set_where row now id f rows h.0, Ascending-set_where now id f rows h.1)
  ]

  set_where_absent :
      (now : ℕ) (id : String) (f : Fields R) (rows : List (JobRecord R))
      → find id rows ≡ none
      → set_where now id f rows ≡ rows
  unfolding set_where find
  set_where_absent now id f [] h = refl
  set_where_absent now id f (row ∷ rows) h = elim (Bool-cases (row.id == id)) [
    | inl t ↦ absurd (ground arith)
    | inr e ↦ rw e (ap (◌∷◌ row) (set_where_absent now id f rows (ground arith)))
  ]

  assign-dict_of :
      (now : ℕ) (id : String) (f : Fields R) (rows : List (JobRecord R)) (found : JobRecord R)
      → Distinct (dict_of rows)
      → find id rows ≡ some found
      → assign id (changed now f found) (dict_of rows) ≡ dict_of (set_where now id f rows)
  unfolding assign set_where find changed
  assign-dict_of now id f [] found d e = absurd (ground arith)
  assign-dict_of now id f (row ∷ rows) found d e = elim (Bool-cases (row.id == id)) [
    | inl t ↦
        let same : row ≡ found = some-injective row found (ground arith) in
        let same_id : row.id ≡ id = (Eq-String.beq_iff row.id id).0 t in
        let gone : find id rows ≡ none =
          subst (λ (k : String). find k rows ≡ none) same_id (find-none row.id rows d.0) in
        rw t (
          ap (λ (r : JobRecord R). (row.id, changed now f r) ∷ dict_of rows) (sym same)
          ∙ ap (λ (k : String). (k, changed now f row) ∷ dict_of rows) (sym (same_key now f row).0)
          ∙ ap (λ (l : List (JobRecord R)). entry (changed now f row) ∷ dict_of l)
              (sym (set_where_absent now id f rows gone)))
    | inr other ↦
        rw other (ap (◌∷◌ (entry row)) (assign-dict_of now id f rows found d.1 (ground arith)))
  ]

  pub update-store_of :
      (now : ℕ) (id : String) (f : Fields R) (t : Table R)
      → IsInOrder t
      → (Store.update now id f (store_of t) ≡ store_of (Postgres.update now id f t))
        × IsInOrder (Postgres.update now id f t)
  unfolding Store.update Postgres.update changed
  update-store_of now id f t v = elim (Option-cases (find id t.rows)) [
    | inl missing ↦
        rw (set_where_absent now id f t.rows missing)
          (rw (find_of_lookup id t.rows none missing, Store.update) (refl, v))
    | inr (row, found) ↦
        let same = assign-dict_of now id f t.rows row v.distinct found in
        rw (find_of_lookup id t.rows (some row) found, Store.update)
          (
            ap (with_jobs t) same,
            record {
              distinct =
                  subst Distinct same
                    (assign-Distinct id (changed now f row) (dict_of t.rows) v.distinct);
              ascending = Ascending-set_where now id f t.rows v.ascending;
            },
          )
  ]
