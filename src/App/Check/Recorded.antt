-- ===== src/App/Check/Recorded.antt =====
-- What a submission records in the ledger, and how the counts grow.
use p_r_i_s_m.Prelude.{
  ℕ, ◌+◌, ◌≤◌, ◌≡◌, refl, ap, ◌∙◌, List, [], ◌∷◌, ◌++◌, length, Option, none, some, String,
  Eq-String, Eq-ℕ, ◌==◌, leb, arith, inl, inr, Option-cases, if◌then◌else◌,
}
use p_r_i_s_m.Text.{Text}
use p_r_i_s_m.App.Auth.{Principal}
use p_r_i_s_m.App.Check.Uploads.{Settings, Form, Checked, pass, refuse, Used, validate}
use p_r_i_s_m.App.Check.{
  request_of, App, Moment, Response, accepted, respond, hand_in, compare_and_submit, submit_check,
  find_previous, admit, record_usage,
}
use p_r_i_s_m.Worker.Runner.{CheckRunner, Submission, queue_full, refused_by_pool, submitted}
use p_r_i_s_m.Worker.Runner.Request.{CheckRequest}
use p_r_i_s_m.Worker.Usage.Memory
use p_r_i_s_m.Worker.Usage.Memory.{Hits, at_or_after, hits_of}
use p_r_i_s_m.Worker.Usage.Owners.{hits_of-add}

at_or_after-append :
    (since t : ℕ) (ts : List ℕ)
    → length (at_or_after since (ts ++ t ∷ []))
      ≡ length (at_or_after since ts) + (if leb since t then 1 else 0)
unfolding at_or_after
at_or_after-append since t [] = ground arith
at_or_after-append since t (u ∷ ts) = ground (arith, at_or_after-append since t ts)

at_or_after-antitone :
    (since later : ℕ) (ts : List ℕ)
    → since ≤ later
    → length (at_or_after later ts) ≤ length (at_or_after since ts)
unfolding at_or_after
at_or_after-antitone since later [] h = omega arith
at_or_after-antitone since later (t ∷ ts) h = ground (arith, at_or_after-antitone since later ts)

pub count-add-le :
    (user other : String) (since t : ℕ) (hits : Hits)
    → Memory.count user since (Memory.add other t hits)
      ≤ Memory.count user since hits + (if other == user then 1 else 0)
unfolding Memory.count
count-add-le user other since t hits =
    ground (arith, hits_of-add user other t hits, at_or_after-append since t (hits_of user hits))

pub count-add :
    (user other : String) (since t : ℕ) (hits : Hits)
    → Memory.count user since (Memory.add other t hits)
      ≡ Memory.count user since hits + (if other == user then (if leb since t then 1 else 0) else 0)
unfolding Memory.count
count-add user other since t hits =
    ground (arith, hits_of-add user other t hits, at_or_after-append since t (hits_of user hits))

pub count-antitone :
    (user : String) (since later : ℕ) (hits : Hits)
    → since ≤ later
    → Memory.count user later hits ≤ Memory.count user since hits
unfolding Memory.count
count-antitone user since later hits h = at_or_after-antitone since later (hits_of user hits) h

module _ {R : Type 0} where
  -- The ledger after a submission: one more row, for its user, where it is accepted.
  unfoldable pub usage_after : Moment → Option Principal → Hits → Response R → Hits
  usage_after m who usage (accepted id req) = record_usage m.recorded_at who usage
  usage_after m who usage _ = usage

  respond_usage :
      (m : Moment) (who : Option Principal) (req : CheckRequest R) (app : App R)
      (runner : CheckRunner R) (answered : Submission R)
      → let (app', response) = respond m who req app (runner, answered) in
        app'.usage ≡ usage_after m who app.usage response
  unfolding respond usage_after
  respond_usage m who req app runner queue_full = refl
  respond_usage m who req app runner refused_by_pool = refl
  respond_usage m who req app runner (submitted rec) = refl

  hand_in_usage :
      (settings : Settings) (m : Moment) (who : Option Principal) (form : Form) (used : Used)
      (app : App R) (runner : CheckRunner R) (previous : Checked (Option R))
      → let (app', response) = hand_in settings m who form used app (runner, previous) in
        app'.usage ≡ usage_after m who app.usage response
  unfolding hand_in
  hand_in_usage settings m who form used app runner (refuse r) = unfold usage_after in refl
  hand_in_usage settings m who form used app runner (pass p) =
      respond_usage m who (request_of settings form used p) app _ _

  compare_and_submit_usage :
      (settings : Settings) (m : Moment) (who : Option Principal) (form : Form) (app : App R)
      (checked : Checked Used)
      → let (app', response) = compare_and_submit settings m who form app checked in
        app'.usage ≡ usage_after m who app.usage response
  unfolding compare_and_submit
  compare_and_submit_usage settings m who form app (refuse r) = unfold usage_after in refl
  compare_and_submit_usage settings m who form app (pass used) =
      let searched = find_previous m.compared_at who form.compare_to app.runner in
      hand_in_usage settings m who form used app searched.0 searched.1

  admit_usage :
      (settings : Settings) (now : ℕ) (key : String) (who : Option Principal) (app : App R)
      → (admit settings now key who app).0.usage ≡ app.usage
  unfolding admit
  admit_usage settings now key none app = refl
  admit_usage settings now key (some p) app = refl

  -- Acceptance, and nothing else, is recorded: for the user who submits, once.
  pub submit_check_usage :
      (settings : Settings) (lower : Text → Text) (m : Moment) (key : String)
      (who : Option Principal) (form : Form) (app : App R)
      → let (app', response) = submit_check settings lower m key who form app in
        app'.usage ≡ usage_after m who app.usage response
  unfolding submit_check
  submit_check_usage settings lower m key who form app =
      elim (Option-cases (admit settings m.admitted_at key who app).1) [
        | inr (r, e) ↦
            rw (e, submit_check)
              (admit_usage settings m.admitted_at key who app ∙ (unfold usage_after in refl))
        | inl e ↦
            rw (e, submit_check)
              (compare_and_submit_usage settings m who form
                  (admit settings m.admitted_at key who app).0 (validate settings lower form)
                ∙ ap
                    (λ (hits : Hits).
                      usage_after m who hits
                        (compare_and_submit settings m who form
                          (admit settings m.admitted_at key who app).0
                          (validate settings lower form)).1)
                    (admit_usage settings m.admitted_at key who app))
      ]
