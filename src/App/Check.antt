-- ===== src/App/Check.antt =====
-- The router backend/app/routers/check.py: the submission of a check, and its polling. `R` is the
-- type of results. The key of the rate limiter is an argument.
pub mod Uploads
pub mod Sizes
pub mod Accepted
pub mod Ownership
pub mod Recorded
pub mod Quota
use p_r_i_s_m.Prelude.{
  ℕ, ◌+◌, ◌-◌, ◌*◌, ◌/◌, max, List, Option, none, some, String, Eq-String, ◌==◌, Eq-ℕ, Bool, true,
  false, not, ◌&&◌, leb, if◌then◌else◌,
}
use p_r_i_s_m.Text.{Text, Eq-Text, codes}
use p_r_i_s_m.TtlCache.{second}
use p_r_i_s_m.App.Limits
use p_r_i_s_m.App.Limits.{RateLimiter}
use p_r_i_s_m.App.Auth.{Principal}
use p_r_i_s_m.App.Check.Uploads.{
  Settings, Form, Refusal, too_many_requests, quota_used, unknown_job, busy, Checked, pass, refuse,
  Used, validate,
}
use p_r_i_s_m.Worker.Store.{JobRecord, Status, done}
use p_r_i_s_m.Worker.Usage.Memory
use p_r_i_s_m.Worker.Usage.Memory.{Hits}
use p_r_i_s_m.Worker.Runner
use p_r_i_s_m.Worker.Runner.{CheckRunner, Submission, queue_full, refused_by_pool, submitted}
use p_r_i_s_m.Worker.Runner.Request.{CheckRequest}

-- `request.app.state`
pub record App (R : Type 0) : Type 0 where
  pub rate_limiter : RateLimiter
  pub usage : Hits
  pub runner : CheckRunner R

-- What a submission meets: the readings of the clock in their order, the fresh id, and whether the
-- pool takes the task.
pub record Moment : Type 0 where
  pub admitted_at : ℕ
  pub compared_at : ℕ
  pub created_at : ℕ
  pub failed_at : ℕ
  pub recorded_at : ℕ
  pub fresh_id : String
  pub pool_accepts : Bool

-- The response, with the task for the executor where the check is accepted; `crashed` is a 500.
pub data Response (R : Type 0) : Type 0 where
  accepted : String → CheckRequest R → Response R
  refused : Refusal → Response R
  crashed : Response R

-- `JobStatusResponse`, or the 404 for a job that is not there or is somebody else's
pub data Reply (R : Type 0) : Type 0 where
  job : String → Status → Option R → Option String → Reply R
  not_found : Reply R

-- `_enforce_quota`
unfoldable pub enforce_quota : Settings → ℕ → Principal → Hits → Option Refusal
enforce_quota settings now principal usage =
    if settings.quota_checks == 0
    then none
    else (let since = now - settings.quota_window_seconds * second in
        let used = Memory.count principal.user_id since usage in
        if leb settings.quota_checks used
        then some
            (quota_used settings.quota_checks (max 1 (settings.quota_window_seconds / 3600)) used)
        else none)

-- what `enforce_rate_limit` raises
too_many : Option ℕ → Option Refusal
too_many none = none
too_many (some seconds) = some (too_many_requests seconds)

-- `rec.owner is not None and (principal is None or principal.user_id != rec.owner)`
unfoldable pub is_hidden : Option Principal → Option String → Bool
is_hidden who none = false
is_hidden none (some owner) = true
is_hidden (some principal) (some owner) = not (principal.user_id == owner)

unfoldable pub is_done : Status → Bool
is_done done = true
is_done _ = false

-- `principal.user_id if principal else None`
unfoldable pub owner_of : Option Principal → Option String
owner_of none = none
owner_of (some principal) = some principal.user_id

-- `request.app.state.usage.record(principal.user_id)`
unfoldable pub record_usage : ℕ → Option Principal → Hits → Hits
unfolding Memory.add
record_usage now none usage = usage
record_usage now (some principal) usage = Memory.add principal.user_id now usage

module _ {R : Type 0} where
  -- the rate limit of an anonymous client, or the quota of a user
  unfoldable pub admit : Settings → ℕ → String → Option Principal → App R → App R × Option Refusal
  unfolding too_many enforce_quota Limits.check
  admit settings now key none app =
      let (limiter, retry) = Limits.check key now app.rate_limiter in
      (record app { rate_limiter = limiter }, too_many retry)
  admit settings now key (some principal) app =
      (app, enforce_quota settings now principal app.usage)

  -- the rule on the record of the job to compare to
  unfoldable pub usable : Option Principal → Option (JobRecord R) → Checked (Option R)
  unfolding is_hidden is_done
  usable who none = refuse unknown_job
  usable who (some rec) =
      if is_done rec.status && not (is_hidden who rec.owner)
      then elim rec.result [ none ↦ refuse unknown_job | some r ↦ pass (some r) ]
      else refuse unknown_job

  -- `if compare_to:`
  unfoldable pub find_previous :
      ℕ → Option Principal → Option String → CheckRunner R → CheckRunner R × Checked (Option R)
  unfolding usable Runner.status
  find_previous now who none runner = (runner, pass none)
  find_previous now who (some id) runner =
      let (runner', found) = Runner.status now id runner in
      if id == "" then (runner, pass none) else (runner', usable who found)

  -- `compare_to if previous is not None else None`
  previous_id : Option String → Option R → Option String
  previous_id compare_to none = none
  previous_id compare_to (some r) = compare_to

  -- `CheckRequest(…)`
  unfoldable pub request_of : Settings → Form → Used → Option R → CheckRequest R
  unfolding previous_id
  request_of settings form (refs, warnings) previous = record {
    paper = (
      if form.file.filename == codes "" then codes "document" else form.file.filename,
      form.file.content,
    );
    references = refs;
    use_academic = form.use_academic && settings.academic_enabled;
    base_warnings = warnings;
    previous = previous;
    previous_job_id = previous_id form.compare_to previous;
  }

  -- what follows the call of `runner.submit`
  unfoldable pub respond :
      Moment
      → Option Principal
      → CheckRequest R
      → App R
      → CheckRunner R × Submission R
      → App R × Response R
  unfolding record_usage
  respond m who req app (runner, queue_full) = (record app { runner = runner }, refused busy)
  respond m who req app (runner, refused_by_pool) = (record app { runner = runner }, crashed)
  respond m who req app (runner, submitted rec) = (
    record app { usage = record_usage m.recorded_at who app.usage; runner = runner },
    accepted rec.id req,
  )

  -- what follows the search for the job to compare to
  unfoldable pub hand_in :
      Settings
      → Moment
      → Option Principal
      → Form
      → Used
      → App R
      → CheckRunner R × Checked (Option R)
      → App R × Response R
  unfolding Runner.submit owner_of respond request_of
  hand_in settings m who form used app (runner, refuse r) =
      (record app { runner = runner }, refused r)
  hand_in settings m who form used app (runner, pass previous) =
      respond m who (request_of settings form used previous) app
        (Runner.submit m.created_at m.failed_at m.fresh_id m.pool_accepts (owner_of who) runner)

  -- what follows the checks on the upload
  unfoldable pub compare_and_submit :
      Settings → Moment → Option Principal → Form → App R → Checked Used → App R × Response R
  unfolding find_previous hand_in
  compare_and_submit settings m who form app (refuse r) = (app, refused r)
  compare_and_submit settings m who form app (pass used) =
      hand_in settings m who form used app
        (find_previous m.compared_at who form.compare_to app.runner)

  -- `submit_check`
  unfoldable pub submit_check :
      Settings
      → (Text → Text)
      → Moment
      → String
      → Option Principal
      → Form
      → App R
      → App R × Response R
  unfolding admit validate compare_and_submit
  submit_check settings lower m key who form app =
      let (app', refusal) = admit settings m.admitted_at key who app in
      elim refusal [
        | some r ↦ (app', refused r)
        | none ↦ compare_and_submit settings m who form app' (validate settings lower form)
      ]

  unfoldable pub reply : Option Principal → Option (JobRecord R) → Reply R
  unfolding is_hidden
  reply who none = not_found
  reply who (some rec) =
      if is_hidden who rec.owner then not_found else job rec.id rec.status rec.result rec.message

  -- `check_status`
  unfoldable pub check_status : ℕ → Option Principal → String → App R → App R × Reply R
  unfolding reply Runner.status
  check_status now who id app =
      let (runner, found) = Runner.status now id app.runner in
      (record app { runner = runner }, reply who found)
