-- ===== src/Worker/Store/Durable.antt =====
-- The table of the Postgres store does what the dict of the in-memory store does.
use p_r_i_s_m.Prelude.{
  ℕ, zero, suc, ◌≤◌, ◌≡◌, refl, sym, ap, ◌∙◌, inl, inr, List, [], ◌∷◌, ◌++◌, map, none, String,
  Eq-String, true, false, ◌||◌, ◌==◌, ltb, length, drop, arith, All, All-sort_by, Bool-cases,
  eq_self, length-sort_by, sort_by, insert_by, drop_all, length-map,
}
use p_r_i_s_m.Dict.{Dict, lookup, remove, evict, keys_where}
use p_r_i_s_m.Dict.Order.{Distinct}
use p_r_i_s_m.Dict.Sweep.{drop_where}
use p_r_i_s_m.Worker.Store.{JobRecord}
use p_r_i_s_m.Worker.Store.Postgres.{is_in, is_late, delete_late, delete_in, is_newer, beyond, find}

drop-append_one :
    {A : Type 0} (n : ℕ) (xs : List A) (x : A)
    → n ≤ length xs
    → drop n (xs ++ x ∷ []) ≡ drop n xs ++ x ∷ []
drop-append_one zero xs x h = refl
drop-append_one (suc n) [] x h = absurd (omega arith)
drop-append_one (suc n) (y ∷ xs) x h = drop-append_one n xs x (omega arith)

pub map-append_one :
    {A B : Type 0} (f : A → B) (xs : List A) (x : A) → map f (xs ++ x ∷ []) ≡ map f xs ++ f x ∷ []
map-append_one f [] x = refl
map-append_one f (y ∷ xs) x = ap (◌∷◌ (f y)) (map-append_one f xs x)

is_in-append_one :
    (id k : String) (ids : List String) → is_in id (ids ++ k ∷ []) ≡ (is_in id ids || (k == id))
unfolding is_in
is_in-append_one id k [] = ground arith
is_in-append_one id k (i ∷ ids) = ground (arith, is_in-append_one id k ids)

eq_comm : (a b : String) → (a == b) ≡ (b == a)
eq_comm a b = ground (arith, Eq-String.beq_iff a b, Eq-String.beq_iff b a)

module _ {R : Type 0} where
  -- The dict of the in-memory store that holds the rows.
  abbrev pub entry : JobRecord R → String × JobRecord R
  entry row = (row.id, row)

  abbrev pub dict_of : List (JobRecord R) → Dict String (JobRecord R)
  dict_of = map entry

  pub lookup-dict_of :
      (id : String) (rows : List (JobRecord R)) → lookup id (dict_of rows) ≡ find id rows
  unfolding lookup find
  lookup-dict_of id [] = refl
  lookup-dict_of id (row ∷ rows) = ground (arith, lookup-dict_of id rows)

  pub evict-dict_of :
      (limit : ℕ) (rows : List (JobRecord R))
      → evict limit (dict_of rows) ≡ dict_of (evict limit rows)
  unfolding evict
  evict-dict_of limit [] = refl
  evict-dict_of limit (row ∷ rows) =
      let same = length-map entry rows in
      let rest = evict-dict_of limit rows in
      elim (Bool-cases (ltb limit (suc (length rows)))) [
        | inl t ↦ rw (same, t) rest
        | inr f ↦ rw (same, f) refl
      ]

  pub remove-dict_of :
      (id : String) (rows : List (JobRecord R))
      → remove id (dict_of rows) ≡ dict_of (delete_in (id ∷ []) rows)
  unfolding remove delete_in is_in
  remove-dict_of id [] = refl
  remove-dict_of id (row ∷ rows) = elim (Bool-cases (row.id == id)) [
    | inl t ↦ rw (t, eq_comm id row.id, t) (remove-dict_of id rows)
    | inr f ↦ rw (f, eq_comm id row.id, f) (ap (◌∷◌ (entry row)) (remove-dict_of id rows))
  ]

  pub drop_where-dict_of :
      (ttl now : ℕ) (rows : List (JobRecord R))
      → drop_where (is_late ttl now) (dict_of rows) ≡ dict_of (delete_late ttl now rows).0
  unfolding drop_where delete_late
  drop_where-dict_of ttl now [] = refl
  drop_where-dict_of ttl now (row ∷ rows) = elim (Bool-cases (is_late ttl now row)) [
    | inl t ↦ rw t (drop_where-dict_of ttl now rows)
    | inr f ↦ rw f (ap (◌∷◌ (entry row)) (drop_where-dict_of ttl now rows))
  ]

  pub keys_where-dict_of :
      (ttl now : ℕ) (rows : List (JobRecord R))
      → length (keys_where (is_late ttl now) (dict_of rows)) ≡ (delete_late ttl now rows).1
  unfolding keys_where delete_late
  keys_where-dict_of ttl now [] = refl
  keys_where-dict_of ttl now (row ∷ rows) = elim (Bool-cases (is_late ttl now row)) [
    | inl t ↦ rw t (ap suc (keys_where-dict_of ttl now rows))
    | inr f ↦ rw f (keys_where-dict_of ttl now rows)
  ]

  -- Rows that were created one after the other.
  abbrev pub Ascending : List (JobRecord R) → Type 0
  Ascending [] = Unit
  Ascending (row ∷ rows) =
      All (λ (later : JobRecord R). is_newer later row ≡ true) rows × Ascending rows

  insert_last :
      (x : JobRecord R) (ys : List (JobRecord R))
      → All (λ (y : JobRecord R). is_newer y x ≡ true) ys
      → insert_by is_newer x ys ≡ ys ++ x ∷ []
  unfolding insert_by
  insert_last x [] h = refl
  insert_last x (y ∷ ys) h = rw (h.0) (ap (◌∷◌ y) (insert_last x ys h.1))

  delete_in_absent :
      (ids : List String) (k : String) (rows : List (JobRecord R))
      → find k rows ≡ none
      → delete_in (ids ++ k ∷ []) rows ≡ delete_in ids rows
  unfolding delete_in find
  delete_in_absent ids k [] h = refl
  delete_in_absent ids k (row ∷ rows) h =
      let other : (k == row.id) ≡ false = eq_comm k row.id ∙ ground arith in
      let same : is_in row.id (ids ++ k ∷ []) ≡ is_in row.id ids =
        is_in-append_one row.id k ids ∙ ground arith in
      let rest = delete_in_absent ids k rows (ground arith) in
      elim (Bool-cases (is_in row.id ids)) [
        | inl t ↦ rw (same, t) rest
        | inr f ↦ rw (same, f) (ap (◌∷◌ row) rest)
      ]

  delete_in_none : (rows : List (JobRecord R)) → delete_in [] rows ≡ rows
  unfolding delete_in is_in
  delete_in_none [] = refl
  delete_in_none (row ∷ rows) = ap (◌∷◌ row) (delete_in_none rows)

  pub find-none :
      (id : String) (rows : List (JobRecord R))
      → lookup id (dict_of rows) ≡ none
      → find id rows ≡ none
  find-none id rows h = sym (lookup-dict_of id rows) ∙ h

  beyond_first :
      (limit : ℕ) (row : JobRecord R) (rows : List (JobRecord R))
      → Ascending (row ∷ rows)
      → limit ≤ length rows
      → beyond limit (row ∷ rows) ≡ beyond limit rows ++ row.id ∷ []
  unfolding beyond sort_by
  beyond_first limit row rows a h =
      let sorted = sort_by is_newer rows in
      let newer =
        All-sort_by is_newer (λ (later : JobRecord R). is_newer later row ≡ true) rows a.0 in
      let size : limit ≤ length sorted = omega (arith, length-sort_by is_newer rows) in
      ap (λ (l : List (JobRecord R)). map (λ (r : JobRecord R). r.id) (drop limit l))
        (insert_last row sorted newer)
      ∙ ap (map (λ (r : JobRecord R). r.id)) (drop-append_one limit sorted row size)
      ∙ map-append_one (λ (r : JobRecord R). r.id) (drop limit sorted) row

  beyond_none :
      (limit : ℕ) (rows : List (JobRecord R)) → length rows ≤ limit → beyond limit rows ≡ []
  unfolding beyond
  beyond_none limit rows h =
      ap (map (λ (r : JobRecord R). r.id))
        (drop_all limit (sort_by is_newer rows) (omega (arith, length-sort_by is_newer rows)))

  delete_in_last :
      (ids : List String) (row : JobRecord R) (rows : List (JobRecord R))
      → delete_in (ids ++ row.id ∷ []) (row ∷ rows) ≡ delete_in (ids ++ row.id ∷ []) rows
  unfolding delete_in
  delete_in_last ids row rows =
      let listed : is_in row.id (ids ++ row.id ∷ []) ≡ true =
        is_in-append_one row.id row.id ids ∙ ground (arith, eq_self row.id) in
      rw listed refl

  -- On rows that were created one after the other, what lies beyond the limit are the oldest.
  pub delete_in-beyond :
      (limit : ℕ) (rows : List (JobRecord R))
      → Ascending rows
      → Distinct (dict_of rows)
      → delete_in (beyond limit rows) rows ≡ evict limit rows
  unfolding evict
  delete_in-beyond limit [] a d = unfold delete_in in refl
  delete_in-beyond limit (row ∷ rows) a d = elim (Bool-cases (ltb limit (suc (length rows)))) [
    | inl full ↦ rw full (
        ap (λ (ids : List String). delete_in ids (row ∷ rows))
          (beyond_first limit row rows a (ground arith))
        ∙ delete_in_last (beyond limit rows) row rows
        ∙ delete_in_absent (beyond limit rows) row.id rows (find-none row.id rows d.0)
        ∙ delete_in-beyond limit rows a.1 d.1)
    | inr room ↦ rw room (
        ap (λ (ids : List String). delete_in ids (row ∷ rows))
          (beyond_none limit (row ∷ rows) (ground arith))
        ∙ delete_in_none (row ∷ rows))
  ]
