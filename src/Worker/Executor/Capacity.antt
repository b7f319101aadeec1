-- ===== src/Worker/Executor/Capacity.antt =====
-- The counters of the executor tell the truth, and its bounds hold in every reachable state.
use p_r_i_s_m.Prelude.{
  ltb→lt, ltb, ◌*◌, ltb, ltb→lt, ℕ, ◌+◌, ◌<◌, ◌≤◌, ◌≡◌, inl, inr, Bool-cases, arith,
}
use p_r_i_s_m.Worker.Executor.{
  Executor, new, reserve, hand_over, withdraw, take_task, enter, finish, leave, cancel, busy, Step,
  Reachable,
}

-- What the two counters count, and the bounds on them and on the busy threads.
abbrev pub IsValid : ℕ → ℕ → Executor → Type 0
IsValid workers pending x =
    (x.max_workers ≡ workers)
    × (x.max_pending ≡ pending)
    × (x.pending ≡ x.reserved + x.waiting + x.started + x.cancelled)
    × (x.running ≡ x.inside + x.leaving)
    × (x.pending ≤ pending)
    × (x.started + x.inside + x.leaving ≤ workers)

Step-IsValid :
    (workers pending : ℕ) (x y : Executor)
    → Step x y
    → IsValid workers pending x
    → IsValid workers pending y
unfolding reserve hand_over withdraw take_task enter finish leave busy cancel
Step-IsValid workers pending x y (Step.reserving e) v = ground arith
Step-IsValid workers pending x _ (Step.handing h) v = ground arith
Step-IsValid workers pending x _ (Step.withdrawing h) v = ground arith
Step-IsValid workers pending x _ (Step.taking h k) v = ground arith
Step-IsValid workers pending x _ (Step.entering h) v = ground arith
Step-IsValid workers pending x _ (Step.finishing h) v = ground arith
Step-IsValid workers pending x _ (Step.cancelling h) v = ground arith
Step-IsValid workers pending x _ (Step.leaving_run h) v = ground arith

-- In every state that can be reached, `_pending` is the number of calls that are accepted and have
-- not begun, cancelled ones included, and `_running` the number that have begun and not left; the
-- first is at most `max_pending`, and both the busy threads and `_running` at most `max_workers`.
pub Reachable-IsValid :
    (workers pending : ℕ) (x : Executor)
    → Reachable workers pending x
    → IsValid workers pending x × (x.running ≤ workers)
unfolding new
Reachable-IsValid workers pending x Reachable.start = ground arith
Reachable-IsValid workers pending y (Reachable.then {x = x} r s) =
    let before = Reachable-IsValid workers pending x r in
    let after = Step-IsValid workers pending x y s before.0 in
    (after, omega (arith, after.3, after.5))

-- The steps that the accepted calls still have to make.
pub work_left : Executor → ℕ
work_left x = 5 * x.reserved + 4 * x.waiting + 3 * x.started + 2 * x.inside + x.leaving

-- As long as an accepted call that was not cancelled has not left, and there is a thread at all,
-- the executor can make a step that brings the calls nearer to their end: it never gets stuck.
pub Reachable-progress :
    (workers pending : ℕ) (x : Executor)
    → Reachable workers pending x
    → 0 < workers
    → x.cancelled < x.pending + x.running
    → (y : Executor) × Step x y × (work_left y < work_left x)
unfolding work_left hand_over take_task enter finish leave busy
Reachable-progress workers pending x r some_thread some_call =
    let v = (Reachable-IsValid workers pending x r).0 in
    elim (Bool-cases (ltb 0 x.leaving)) [
      | inl a ↦ (leave x, Step.leaving_run (ltb→lt 0 x.leaving a), ground arith)
      | inr a ↦ elim (Bool-cases (ltb 0 x.inside)) [
        | inl b ↦ (finish x, Step.finishing (ltb→lt 0 x.inside b), ground arith)
        | inr b ↦ elim (Bool-cases (ltb 0 x.started)) [
          | inl c ↦ (enter x, Step.entering (ltb→lt 0 x.started c), ground arith)
          | inr c ↦ elim (Bool-cases (ltb 0 x.waiting)) [
            | inl d ↦ (take_task x, Step.taking (ltb→lt 0 x.waiting d) (ground arith), ground arith)
            | inr d ↦ (hand_over x, Step.handing (ground arith), ground arith)
          ]
        ]
      ]
    ]
