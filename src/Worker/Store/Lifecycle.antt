-- ===== src/Worker/Store/Lifecycle.antt =====
-- The job store: a sweep drops exactly the stale records, the store stays within its bounds, and a
-- job can be polled from its creation until it expires.
use text.Mathlib.TextEquality.{eq_iff}
use p_r_i_s_m.Prelude.{
  ℕ, ◌+◌, ◌-◌, ◌*◌, ◌≤◌, ◌<◌, [], ◌∷◌, ◌++◌, Option, none, some, String, Eq-String, ◌≡◌, refl, ap,
  ◌∙◌, inl, inr, arith, ◌==◌, ltb, length, Bool-cases, Option-cases, if◌then◌else◌,
}
use p_r_i_s_m.Dict.Sweep.{
  drop_where, unless, lookup-drop_where, drop_where-Distinct, length-drop_where,
  remove_all-keys_where,
}
use p_r_i_s_m.Dict.{keys_where, Dict, lookup, evict, lookup-append, lookup-assign}
use p_r_i_s_m.Dict.Order.{
  lookup_first, length-assign_found, Distinct, remove-Distinct, assign-Distinct, evict-Distinct,
  evict_absent, assign_absent, length-remove-le, length-evict-le, evict-append,
}
use p_r_i_s_m.TtlCache.{second}
use p_r_i_s_m.Worker.Store.{
  JobRecord, JobStore, Fields, new_record, is_stale, sweep, create, get, update, set_fields,
}

module _ {R : Type 0} where
  -- `elim` on a lookup, as a function of its result
  abbrev pub alive : JobStore R → ℕ → Option (JobRecord R) → Option (JobRecord R)
  alive s now none = none
  alive s now (some rec) = if is_stale s now rec then none else some rec

  unless-alive :
      (s : JobStore R) (now : ℕ) (o : Option (JobRecord R))
      → unless (is_stale s now) o ≡ alive s now o
  unless-alive s now none = refl
  unless-alive s now (some rec) = refl

  pub record IsValid (s : JobStore R) : Type 0 where
    pub distinct : Distinct s.jobs
    pub bounded : length s.jobs ≤ s.max_jobs

  jobs-sweep :
      (now : ℕ) (s : JobStore R)
      → Distinct s.jobs
      → (sweep now s).0.jobs ≡ drop_where (is_stale s now) s.jobs
  unfolding sweep
  jobs-sweep now s h = remove_all-keys_where (is_stale s now) s.jobs h

  -- A sweep drops every stale record and no other, and returns how many it dropped.
  pub sweep_exact :
      (now : ℕ) (s : JobStore R)
      → Distinct s.jobs
      → ((j : String) → lookup j (sweep now s).0.jobs ≡ alive s now (lookup j s.jobs))
        × (length (sweep now s).0.jobs + (sweep now s).1 ≡ length s.jobs)
  unfolding sweep
  sweep_exact now s h =
      let q = jobs-sweep now s h in
      (
        (λ j.
            ap (lookup j) q
            ∙ lookup-drop_where (is_stale s now) j s.jobs h
            ∙ unless-alive s now (lookup j s.jobs)),
        ap
              (λ (d : Dict String (JobRecord R)).
                length d + length (keys_where (is_stale s now) s.jobs))
              q
            ∙ length-drop_where (is_stale s now) s.jobs,
      )

  pub sweep-Distinct : (now : ℕ) (s : JobStore R) → Distinct s.jobs → Distinct (sweep now s).0.jobs
  sweep-Distinct now s h = rw (jobs-sweep now s h) (drop_where-Distinct (is_stale s now) s.jobs h)

  pub create-IsValid :
      (now : ℕ) (id : String) (owner : Option String) (s : JobStore R)
      → IsValid s
      → IsValid (create now id owner s).0
  unfolding create
  create-IsValid now id owner s v = record {
    distinct =
        evict-Distinct s.max_jobs _
          (assign-Distinct id (new_record now id owner) _ (sweep-Distinct now s v.distinct));
    bounded = length-evict-le s.max_jobs _;
  }

  pub get-IsValid : (now : ℕ) (id : String) (s : JobStore R) → IsValid s → IsValid (get now id s).0
  unfolding get
  get-IsValid now id s v = elim (Option-cases (lookup id s.jobs)) [
    | inl e ↦ rw (e, get) v
    | inr (rec, e) ↦ elim (Bool-cases (is_stale s now rec)) [
      | inl t ↦
          rw (e, get)
            (rw t (record {
              distinct = remove-Distinct id s.jobs v.distinct;
              bounded = omega (arith, v.bounded, length-remove-le id s.jobs);
            }))
      | inr t ↦ rw (e, get) (rw t v)
    ]
  ]

  pub update-IsValid :
      (now : ℕ) (id : String) (f : Fields R) (s : JobStore R)
      → IsValid s
      → IsValid (update now id f s)
  unfolding update
  update-IsValid now id f s v = elim (Option-cases (lookup id s.jobs)) [
    | inl e ↦ rw (e, update) v
    | inr (rec, e) ↦
        rw (e, update)
          (record {
            distinct = assign-Distinct id _ s.jobs v.distinct;
            bounded = omega (
              arith,
              v.bounded,
              length-assign_found id (record (set_fields f rec) { updated = now }) rec s.jobs e,
            );
          })
  ]

  pub lookup-create :
      (now : ℕ) (id : String) (owner : Option String) (s : JobStore R)
      → Distinct s.jobs
      → 0 < s.max_jobs
      → lookup id s.jobs ≡ none
      → lookup id (create now id owner s).0.jobs ≡ some (new_record now id owner)
  unfolding create
  lookup-create now id owner s h room unused =
      let swept = (sweep now s).0.jobs in
      let n = s.max_jobs - 1 in
      let rec = new_record now id owner in
      let gone : lookup id swept ≡ none = (sweep_exact now s h).0 id ∙ ap (alive s now) unused in
      ap (λ (d : Dict String (JobRecord R)). lookup id (evict s.max_jobs d))
        (assign_absent id rec swept gone)
      ∙ ap (λ (m : ℕ). lookup id (evict m (swept ++ (id, rec) ∷ []))) (omega arith)
      ∙ ap (lookup id) (evict-append n swept (id, rec))
      ∙ lookup-append id (evict n swept) ((id, rec) ∷ [])
      ∙ rw (evict_absent n id swept gone) (lookup_first id rec [])

  pub get_found :
      (now : ℕ) (id : String) (s : JobStore R) (rec : JobRecord R)
      → lookup id s.jobs ≡ some rec
      → (get now id s).1 ≡ alive s now (some rec)
  unfolding get
  get_found now id s rec e = rw (e, get) (ground arith)

  -- A job that has just been created can be polled, as queued and with its owner, until its time
  -- to live has passed, and not after that. It does not matter how full the store was.
  pub get-create :
      (now now' : ℕ) (id : String) (owner : Option String) (s : JobStore R)
      → Distinct s.jobs
      → 0 < s.max_jobs
      → lookup id s.jobs ≡ none
      → (get now' id (create now id owner s).0).1
        ≡ (if ltb (now + s.ttl * second) now' then none else some (new_record now id owner))
  get-create now now' id owner s h room unused =
      get_found now' id (create now id owner s).0 (new_record now id owner)
        (lookup-create now id owner s h room unused)
      ∙ (unfold create is_stale new_record in refl)

  -- An update changes the record of its own id alone: the fields that it names and the time of
  -- the update. A job that is not in the store is not brought back.
  pub lookup-update :
      (now : ℕ) (id j : String) (f : Fields R) (s : JobStore R)
      → lookup j (update now id f s).jobs ≡ (
          if id == j
          then elim (lookup id s.jobs) [
            | none ↦ none
            | some rec ↦ some (record (set_fields f rec) { updated = now })
          ]
          else lookup j s.jobs)
  unfolding update
  lookup-update now id j f s = elim (Option-cases (lookup id s.jobs)) [
    | inl e ↦ rw (e, update) (ground (arith, e, eq_iff id j))
    | inr (rec, e) ↦
        rw (e, update) (lookup-assign id j (record (set_fields f rec) { updated = now }) s.jobs)
  ]
