-- ===== src/App/Check/Accepted.antt =====
-- What is known of a check that was accepted.
use p_r_i_s_m.Prelude.{
  ◌≡◌, refl, ap, subst, ◌∙◌, Option, none, String, arith, inl, inr, Option-cases,
}
use p_r_i_s_m.Text.{Text}
use p_r_i_s_m.App.Auth.{Principal}
use p_r_i_s_m.App.Check.Uploads.{Settings, Form, Checked, pass, refuse, Used, validate}
use p_r_i_s_m.App.Check.Sizes.{IsWithin, validate-IsWithin}
use p_r_i_s_m.App.Check.{
  App, Moment, accepted, respond, hand_in, compare_and_submit, submit_check, find_previous, admit,
  request_of,
}
use p_r_i_s_m.Worker.Runner.{CheckRunner, Submission, queue_full, refused_by_pool, submitted}
use p_r_i_s_m.Worker.Runner.Request.{CheckRequest}

module _ {R : Type 0} where
  respond-request :
      (m : Moment) (who : Option Principal) (req : CheckRequest R) (app : App R)
      (runner : CheckRunner R) (answered : Submission R) (id : String)
      (accepted_req : CheckRequest R)
      → (respond m who req app (runner, answered)).1 ≡ accepted id accepted_req
      → req ≡ accepted_req
  unfolding respond
  respond-request m who req app runner queue_full id given h = absurd (ground arith)
  respond-request m who req app runner refused_by_pool id given h = absurd (ground arith)
  respond-request m who req app runner (submitted rec) id given h = ground arith

  hand_in-request :
      (settings : Settings) (m : Moment) (who : Option Principal) (form : Form) (used : Used)
      (app : App R) (runner : CheckRunner R) (previous : Checked (Option R)) (id : String)
      (req : CheckRequest R)
      → (hand_in settings m who form used app (runner, previous)).1 ≡ accepted id req
      → (p : Option R) × (previous ≡ pass p) × (request_of settings form used p ≡ req)
  unfolding hand_in
  hand_in-request settings m who form used app runner (refuse r) id req h = absurd (ground arith)
  hand_in-request settings m who form used app runner (pass p) id req h =
      (p, refl, respond-request m who (request_of settings form used p) app _ _ id req h)

  compare_and_submit-request :
      (settings : Settings) (m : Moment) (who : Option Principal) (form : Form) (app : App R)
      (checked : Checked Used) (id : String) (req : CheckRequest R)
      → (compare_and_submit settings m who form app checked).1 ≡ accepted id req
      → (used : Used) × (p : Option R) × (checked ≡ pass used)
        × ((find_previous m.compared_at who form.compare_to app.runner).1 ≡ pass p)
        × (request_of settings form used p ≡ req)
  unfolding compare_and_submit
  compare_and_submit-request settings m who form app (refuse r) id req h = absurd (ground arith)
  compare_and_submit-request settings m who form app (pass used) id req h =
      let (p, found, same) = hand_in-request settings m who form used app _ _ id req h in
      (used, p, refl, found, same)

  -- A check is accepted only if the rate limit or the quota allows it, and the job it compares to
  -- passes the rule of ownership. What is handed to the executor is then within the limits: the
  -- manuscript and each reference are not empty and no larger than a file may be, there are no more
  -- references than may be used, and with them the whole is no larger than a request may be.
  pub submit_check-IsWithin :
      (settings : Settings) (lower : Text → Text) (m : Moment) (key : String)
      (who : Option Principal) (form : Form) (app : App R) (id : String) (req : CheckRequest R)
      → (submit_check settings lower m key who form app).1 ≡ accepted id req
      → ((admit settings m.admitted_at key who app).1 ≡ none)
        × ((find_previous m.compared_at who form.compare_to
              (admit settings m.admitted_at key who app).0.runner).1
            ≡ pass req.previous)
        × IsWithin settings req.paper.1 req.references
  unfolding submit_check
  submit_check-IsWithin settings lower m key who form app id req h =
      elim (Option-cases (admit settings m.admitted_at key who app).1) [
        | inr (r, e) ↦ absurd (ground arith)
        | inl e ↦
            let app' = (admit settings m.admitted_at key who app).0 in
            let (used, p, checked, found, same) =
              compare_and_submit-request settings m who form app' (validate settings lower form) id
                req (ground arith) in
            let is_previous : p ≡ req.previous =
              unfold request_of in ap (λ (r : CheckRequest R). r.previous) same in
            (
              e,
              found ∙ ap pass is_previous,
              subst (λ (r : CheckRequest R). IsWithin settings r.paper.1 r.references) same
                  (unfold request_of in validate-IsWithin settings lower form used checked),
            )
      ]
