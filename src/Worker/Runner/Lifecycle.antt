-- ===== src/Worker/Runner/Lifecycle.antt =====
-- What becomes of a job: it is answered in the end, and an answer may come from the cache.
use p_r_i_s_m.Prelude.{
  subst, ℕ, ◌+◌, ◌*◌, ◌<◌, ◌≤◌, ◌≡◌, refl, ap, ◌∙◌, sym, List, [], Option, none, some, String,
  Eq-String, Bool, true, ltb, if◌then◌else◌, arith, inl, inr, Option-cases, Bool-cases, eq_self,
}
use p_r_i_s_m.Dict.{lookup}
use p_r_i_s_m.Dict.Order.{Distinct}
use p_r_i_s_m.TtlCache
use p_r_i_s_m.TtlCache.{TtlCache, second}
use p_r_i_s_m.TtlCache.Freshness.{get-put}
use p_r_i_s_m.Worker.Store
use mathlib.Core.Option.{some-injective}
use mathlib.Core.Path.{Path}
use p_r_i_s_m.Worker.Store.{
  Status, JobStore, JobRecord, Fields, set_status, set_result, set_error, set_fields, running, done,
  error, new_record,
}
use p_r_i_s_m.Worker.Store.Lifecycle.{lookup-create, lookup-update, get_found, alive}
use p_r_i_s_m.Worker.Store.Histories.{Call, apply_all}
use p_r_i_s_m.Worker.Executor
use p_r_i_s_m.Worker.Executor.{Executor}
use p_r_i_s_m.Worker.Runner.Request.{CheckRequest, content_bytes}
use p_r_i_s_m.Worker.Runner.{
  Engine, Outcome, computed, rejected, failed, CheckRunner, queue_full, Times, submit, run, answer,
  fields_of, keep, compared, status,
}

module _ {R : Type 0} where
  -- A record of a job that has ended.
  pub data IsAnswered (rec : JobRecord R) : Type 0 where
    with_result : (r : R) → rec.status ≡ done → rec.result ≡ some r → IsAnswered rec
    with_error : (m : String) → rec.status ≡ error → rec.message ≡ some m → IsAnswered rec

  fields_answer :
      (engine : Engine R) (req : CheckRequest R) (outcome : Outcome R) (now : ℕ) (rec : JobRecord R)
      → IsAnswered (record (set_fields (fields_of engine req outcome) rec) { updated = now })
  unfolding fields_of set_fields
  fields_answer engine req (computed r) now rec = with_result (compared engine req r) refl refl
  fields_answer engine req (rejected m) now rec = with_error m refl refl
  fields_answer engine req failed now rec =
      with_error "Originality check failed. Please try again." refl refl

  lookup-update_found :
      (now : ℕ) (id : String) (f : Fields R) (s : JobStore R) (rec : JobRecord R)
      → lookup id s.jobs ≡ some rec
      → lookup id (Store.update now id f s).jobs
        ≡ some (record (set_fields f rec) { updated = now })
  lookup-update_found now id f s rec h = lookup-update now id id f s ∙ rw (eq_self id) (rw h refl)

  lookup-update_missing :
      (now : ℕ) (id : String) (f : Fields R) (s : JobStore R)
      → lookup id s.jobs ≡ none
      → lookup id (Store.update now id f s).jobs ≡ none
  lookup-update_missing now id f s h = lookup-update now id id f s ∙ rw (eq_self id) (rw h refl)

  ttl-update :
      (now : ℕ) (id : String) (f : Fields R) (s : JobStore R)
      → (Store.update now id f s).ttl ≡ s.ttl
  unfolding Store.update
  ttl-update now id f s = elim (Option-cases (lookup id s.jobs)) [
    | inl e ↦ rw (e, Store.update) refl
    | inr (rec, e) ↦ rw (e, Store.update) refl
  ]

  set_fields_again :
      (now later : ℕ) (st : Status) (f : Fields R) (rec : JobRecord R)
      → Path
          (JobRecord R)
          (record (set_fields f (record (set_fields (set_status st) rec) { updated = now })) {
            updated = later;
          })
          (record (set_fields f rec) { updated = later })
  unfolding set_fields
  set_fields_again now later st (set_status _) rec = refl
  set_fields_again now later st (set_result _ _) rec = refl
  set_fields_again now later st (set_error _ _) rec = refl

  -- However the computation ends, and whatever other threads do to the store meanwhile, a job that
  -- is in the store when its run has ended is answered: it is done and has a result, or it has
  -- failed and has a message. It is never left queued or running.
  pub run-IsAnswered :
      (engine : Engine R) (t : Times) (id : String) (req : CheckRequest R) (others : List (Call R))
      (s : CheckRunner R) (rec : JobRecord R)
      → lookup id (run engine t id req others s).store.jobs ≡ some rec
      → IsAnswered rec
  unfolding run
  run-IsAnswered engine t id req others s rec h =
      let store = apply_all others (Store.update t.started_at id (set_status running) s.store) in
      let outcome = (answer engine t req s.cache).1 in
      let fields = fields_of engine req outcome in
      elim (Option-cases (lookup id store.jobs)) [
        | inl missing ↦
            absurd (ground (arith, lookup-update_missing t.ended_at id fields store missing))
        | inr (old, found) ↦
            subst IsAnswered
              (some-injective _ _
                (sym (lookup-update_found t.ended_at id fields store old found) ∙ h))
              (fields_answer engine req outcome t.ended_at old)
      ]

  submit_taken :
      (now now' : ℕ) (id : String) (owner : Option String) (s : CheckRunner R) (x : Executor)
      → Executor.reserve s.executor ≡ some x
      → (submit now now' id true owner s).0 ≡ record s {
        store = (Store.create now id owner s.store).0;
        executor = Executor.hand_over x;
      }
  unfolding submit
  submit_taken now now' id owner s x h = rw (h, submit) refl

  -- A check that the executor takes is polled, once it has run with no other call in between, with
  -- the outcome of its computation, until its time to live after the run has passed, if the store
  -- had distinct ids and room for a job and the id is fresh.
  pub status-run :
      (engine : Engine R) (now now' later : ℕ) (id : String) (owner : Option String) (t : Times)
      (req : CheckRequest R) (s : CheckRunner R) (x : Executor)
      → Distinct s.store.jobs
      → 0 < s.store.max_jobs
      → lookup id s.store.jobs ≡ none
      → Executor.reserve s.executor ≡ some x
      → (status later id (run engine t id req [] (submit now now' id true owner s).0)).1 ≡ (
          if ltb (t.ended_at + s.store.ttl * second) later
          then none
          else some
              (record (set_fields
                (fields_of engine req (answer engine t req s.cache).1)
                (new_record now id owner)) { updated = t.ended_at }))
  status-run engine now now' later id owner t req s x distinct room unused taken =
      let created = (Store.create now id owner s.store).0 in
      let begun = Store.update t.started_at id (set_status running) created in
      let fields = fields_of engine req (answer engine t req s.cache).1 in
      let ended = Store.update t.ended_at id fields begun in
      let rec : JobRecord R = record (set_fields fields (new_record now id owner)) {
        updated = t.ended_at;
      } in
      let found : lookup id ended.jobs ≡ some rec =
        lookup-update_found t.ended_at id fields begun _ (
          lookup-update_found t.started_at id (set_status running) created _
            (lookup-create now id owner s.store distinct room unused))
        ∙ ap some
            (set_fields_again t.started_at t.ended_at running fields (new_record now id owner)) in
      let same_ttl : ended.ttl ≡ s.store.ttl =
        ttl-update t.ended_at id fields begun
        ∙ ttl-update t.started_at id (set_status running) created
        ∙ (unfold Store.create Store.sweep in refl) in
      let polled : (Store.get later id ended).1
          ≡ (if ltb (t.ended_at + ended.ttl * second) later then none else some rec) =
        get_found later id ended rec found ∙ (unfold Store.is_stale in refl) in
      let ran : (status later id (run engine t id req [] (submit now now' id true owner s).0)).1
          ≡ (Store.get later id ended).1 =
        ap (λ (c : CheckRunner R). (status later id (run engine t id req [] c)).1)
          (submit_taken now now' id owner s x taken)
        ∙ (unfold status run apply_all in refl) in
      ran
      ∙ polled
      ∙ ap (λ (n : ℕ). if ltb (t.ended_at + n * second) later then none else some rec) same_ttl

  -- If the executor is full, the job is kept, as failed and with a message, and the executor is as
  -- it was.
  pub submit_full :
      (now now' : ℕ) (id : String) (accepts : Bool) (owner : Option String) (s : CheckRunner R)
      → Distinct s.store.jobs
      → 0 < s.store.max_jobs
      → lookup id s.store.jobs ≡ none
      → Executor.reserve s.executor ≡ none
      → let (s', answered) = submit now now' id accepts owner s in
        (answered ≡ queue_full)
        × (s'.executor ≡ s.executor)
        × ((rec : JobRecord R) × (lookup id s'.store.jobs ≡ some rec) × IsAnswered rec)
  unfolding submit
  submit_full now now' id accepts owner s distinct room unused full =
      let created = (Store.create now id owner s.store).0 in
      let busy : String = "Server busy." in
      let found =
        lookup-update_found now' id (set_error error busy) created _
          (lookup-create now id owner s.store distinct room unused) in
      rw (full, submit) (refl, refl, (_, found, unfold set_fields in with_error busy refl refl))

  answer_missed :
      (engine : Engine R) (t : Times) (x : CheckRequest R) (c : TtlCache String R)
      → let key = engine.digest (content_bytes x) in
        (TtlCache.get t.read_at key c).1 ≡ none
        → answer engine t x c ≡ keep t key (engine.compute x) (TtlCache.get t.read_at key c).0
  unfolding answer
  answer_missed engine t x c h = rw (h, answer) refl

  answer_found :
      (engine : Engine R) (t : Times) (x : CheckRequest R) (c : TtlCache String R) (r : R)
      → (TtlCache.get t.read_at (engine.digest (content_bytes x)) c).1 ≡ some r
      → (answer engine t x c).1 ≡ computed r
  unfolding answer
  answer_found engine t x c r h = rw (h, answer) refl

  get-limits :
      (now : ℕ) (k : String) (c : TtlCache String R)
      → ((TtlCache.get now k c).0.max_size ≡ c.max_size) × ((TtlCache.get now k c).0.ttl ≡ c.ttl)
  unfolding TtlCache.get
  get-limits now k c = elim (Option-cases (lookup k c.entries)) [
    | inl e ↦ rw (e, TtlCache.get) (refl, refl)
    | inr ((ts, v), e) ↦ elim (Bool-cases (ltb (ts + c.ttl * second) now)) [
      | inl b ↦ rw (e, TtlCache.get) (rw b (refl, refl))
      | inr b ↦ rw (e, TtlCache.get) (rw b (refl, refl))
    ]
  ]

  -- A check that the cache has no result for, and that is computed, leaves its result there, if the
  -- cache has room for an entry: if the very next check to look into the cache has the same digested
  -- bytes, it gets that result, whatever its own computation says, as long as it looks before the time
  -- to live of the cache has passed since the result was put.
  pub answer_again :
      (engine : Engine R) (t u : Times) (x y : CheckRequest R) (c : TtlCache String R) (r : R)
      → 0 < c.max_size
      → content_bytes x ≡ content_bytes y
      → (TtlCache.get t.read_at (engine.digest (content_bytes x)) c).1 ≡ none
      → engine.compute x ≡ computed r
      → u.read_at ≤ t.put_at + c.ttl * second
      → (answer engine u y (answer engine t x c).0).1 ≡ computed r
  answer_again engine t u x y c r room same missed first alive =
      let key = engine.digest (content_bytes x) in
      let read = (TtlCache.get t.read_at key c).0 in
      let limits = get-limits t.read_at key c in
      let kept : (answer engine t x c).0 ≡ TtlCache.put t.put_at key r read =
        ap (λ (p : TtlCache String R × Outcome R). p.0) (answer_missed engine t x c missed)
        ∙ (unfold keep in rw first refl) in
      let found : (TtlCache.get u.read_at key (TtlCache.put t.put_at key r read)).1 ≡ some r =
        get-put t.put_at u.read_at key r read (omega (arith, limits.0, room))
        ∙ ground (arith, limits.1, alive) in
      answer_found engine u y (answer engine t x c).0 r (
        ap
          (λ (d : TtlCache String R).
            (TtlCache.get u.read_at (engine.digest (content_bytes y)) d).1)
          kept
        ∙ rw (sym same) found)
