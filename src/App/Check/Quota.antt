-- ===== src/App/Check/Quota.antt =====
-- The quota of a user, over any sequence of submissions.
use p_r_i_s_m.Prelude.{
  ℕ, ◌+◌, ◌-◌, ◌*◌, ap, ◌∙◌, Bool, false, ◌&&◌, if◌then◌else◌, ◌≤◌, ◌<◌, ◌≡◌, refl, subst,
  eq_of_test, List, [], ◌∷◌, Option, none, some, String, Eq-String, Eq-ℕ, ◌==◌, leb, arith, inl,
  inr, Bool-cases,
}
use p_r_i_s_m.Text.{Text}
use p_r_i_s_m.TtlCache.{second}
use p_r_i_s_m.App.Auth.{Principal}
use p_r_i_s_m.App.Check.Uploads.{Settings, Form}
use p_r_i_s_m.App.Check.{
  refused, crashed, App, Moment, Response, accepted, submit_check, admit, enforce_quota,
  record_usage,
}
use p_r_i_s_m.App.Check.Accepted.{submit_check-IsWithin}
use p_r_i_s_m.Worker.Runner.Request.{CheckRequest}
use p_r_i_s_m.Worker.Usage.Memory
use p_r_i_s_m.Worker.Usage.Memory.{Hits, at_or_after, hits_of}
use p_r_i_s_m.App.Check.Recorded.{
  count-add-le, count-add, count-antitone, usage_after, submit_check_usage,
}

-- the oldest reading that counts against the quota
unfoldable pub since_of : Settings → ℕ → ℕ
since_of settings now = now - settings.quota_window_seconds * second

count_later :
    (settings : Settings) (user : String) (m : Moment) (hits : Hits)
    → m.admitted_at ≤ m.recorded_at
    → Memory.count user (since_of settings m.recorded_at) hits
      ≤ Memory.count user (since_of settings m.admitted_at) hits
unfolding since_of
count_later settings user m hits order = count-antitone user _ _ hits (omega (arith, order))

-- A call of `submit_check`.
pub record Call : Type 0 where
  pub moment : Moment
  pub key : String
  pub who : Option Principal
  pub form : Form

-- The calls come one after another: each records before the next is admitted.
unfoldable pub ComeInOrder : ℕ → List Call → Type 0
ComeInOrder now [] = Unit
ComeInOrder now (c ∷ calls) =
    (now ≤ c.moment.admitted_at)
    × (c.moment.admitted_at ≤ c.moment.recorded_at)
    × ComeInOrder c.moment.recorded_at calls

-- the reading of the clock when the last of them has recorded
pub end_of : ℕ → List Call → ℕ
end_of now [] = now
end_of now (c ∷ calls) = end_of c.moment.recorded_at calls

-- whether it is the user who submits
unfoldable pub is_by : String → Option Principal → Bool
is_by user none = false
is_by user (some p) = p.user_id == user

count-recorded :
    (user : String) (since now : ℕ) (who : Option Principal) (hits : Hits) (n : ℕ)
    → Memory.count user since (record_usage now who hits) + n
      ≡ Memory.count user since hits + ((if is_by user who && leb since now then 1 else 0) + n)
unfolding record_usage is_by
count-recorded user since now none hits n = omega arith
count-recorded user since now (some p) hits n =
    ground (arith, count-add user p.user_id since now hits)

module _ {R : Type 0} where
  allowed_below :
      (settings : Settings) (now : ℕ) (key : String) (p : Principal) (app : App R)
      → 0 < settings.quota_checks
      → (admit settings now key (some p) app).1 ≡ none
      → Memory.count p.user_id (since_of settings now) app.usage < settings.quota_checks
  unfolding admit enforce_quota since_of
  allowed_below settings now key p app positive h =
      elim (Bool-cases
        (leb settings.quota_checks (Memory.count p.user_id (since_of settings now) app.usage))) [
          | inl t ↦ absurd (ground arith)
          | inr t ↦ ground arith
        ]

  within_after :
      (settings : Settings) (user : String) (m : Moment) (key : String) (who : Option Principal)
      (app : App R) (response : Response R)
      → 0 < settings.quota_checks
      → m.admitted_at ≤ m.recorded_at
      → ((id : String) (req : CheckRequest R)
          → response ≡ accepted id req
          → (admit settings m.admitted_at key who app).1 ≡ none)
      → Memory.count user (since_of settings m.admitted_at) app.usage ≤ settings.quota_checks
      → Memory.count user (since_of settings m.recorded_at) (usage_after m who app.usage response)
        ≤ settings.quota_checks
  unfolding usage_after
  within_after settings user m key none app (accepted id req) positive order allowed h =
      unfold record_usage in omega (arith, h, count_later settings user m app.usage order)
  within_after settings user m key (some p) app (accepted id req) positive order allowed h =
      let older = since_of settings m.recorded_at in
      let added = count-add-le user p.user_id older m.recorded_at app.usage in
      let before = count_later settings user m app.usage order in
      unfold record_usage in
      elim (Bool-cases (p.user_id == user)) [
        | inl t ↦
            let below : Memory.count user (since_of settings m.admitted_at) app.usage
                < settings.quota_checks =
              subst
                (λ (u : String).
                  Memory.count u (since_of settings m.admitted_at) app.usage
                  < settings.quota_checks)
                (eq_of_test p.user_id user t)
                (allowed_below settings m.admitted_at key p app positive (allowed id req refl)) in
            ground (arith, added, before, below)
        | inr t ↦ ground (arith, added, before, h)
      ]
  within_after settings user m key who app (refused r) positive order allowed h =
      omega (arith, h, count_later settings user m app.usage order)
  within_after settings user m key who app crashed positive order allowed h =
      omega (arith, h, count_later settings user m app.usage order)

  unfoldable pub submit_all : Settings → (Text → Text) → List Call → App R → App R
  unfolding submit_check
  submit_all settings lower [] app = app
  submit_all settings lower (c ∷ calls) app =
      submit_all settings lower calls
        (submit_check settings lower c.moment c.key c.who c.form app).0

  -- The ledger never counts more than the quota.
  pub submit_all_ledger :
      (settings : Settings) (lower : Text → Text) (user : String) (now : ℕ) (calls : List Call)
      (app : App R)
      → 0 < settings.quota_checks
      → ComeInOrder now calls
      → Memory.count user (since_of settings now) app.usage ≤ settings.quota_checks
      → Memory.count user
          (since_of settings (end_of now calls))
          (submit_all settings lower calls app).usage
        ≤ settings.quota_checks
  unfolding submit_all end_of ComeInOrder
  submit_all_ledger settings lower user now [] app positive order h = h
  submit_all_ledger settings lower user now (c ∷ calls) app positive order h =
      let m = c.moment in
      let key = c.key in
      let who = c.who in
      let form = c.form in
      let app' = (submit_check settings lower m key who form app).0 in
      let response = (submit_check settings lower m key who form app).1 in
      let older : since_of settings now ≤ since_of settings m.admitted_at =
        unfold since_of in omega (arith, order.0) in
      let kept : Memory.count user (since_of settings m.recorded_at) app'.usage
          ≤ settings.quota_checks =
        rw (submit_check_usage settings lower m key who form app) (
          within_after settings user m key who app response positive order.1
            (λ id req e. (submit_check-IsWithin settings lower m key who form app id req e).0)
            (omega (arith, h, count-antitone user _ _ app.usage older))) in
      submit_all_ledger settings lower user m.recorded_at calls app' positive order.2 kept

  -- what each call is answered
  unfoldable pub answers : Settings → (Text → Text) → List Call → App R → List (Call × Response R)
  unfolding submit_check
  answers settings lower [] app = []
  answers settings lower (c ∷ calls) app =
      let (app', response) = submit_check settings lower c.moment c.key c.who c.form app in
      (c, response) ∷ answers settings lower calls app'

  -- how many checks of the user are accepted at a time since the given one
  unfoldable pub accepted_since : String → ℕ → List (Call × Response R) → ℕ
  accepted_since user since [] = 0
  accepted_since user since ((c, accepted id req) ∷ rest) =
      (if is_by user c.who && leb since c.moment.recorded_at then 1 else 0)
      + accepted_since user since rest
  accepted_since user since ((c, _) ∷ rest) = accepted_since user since rest

  -- An accepted check of the user is one more in the ledger, and nothing else is.
  count-usage_after :
      (user : String) (since : ℕ) (c : Call) (hits : Hits) (response : Response R)
      (rest : List (Call × Response R))
      → Memory.count user since (usage_after c.moment c.who hits response)
          + accepted_since user since rest
        ≡ Memory.count user since hits + accepted_since user since ((c, response) ∷ rest)
  unfolding usage_after accepted_since
  count-usage_after user since c hits (accepted id req) rest =
      count-recorded user since c.moment.recorded_at c.who hits (accepted_since user since rest)
  count-usage_after user since c hits (refused r) rest = refl
  count-usage_after user since c hits crashed rest = refl

  submit_all-accepted :
      (settings : Settings) (lower : Text → Text) (user : String) (since : ℕ) (calls : List Call)
      (app : App R)
      → Memory.count user since (submit_all settings lower calls app).usage
        ≡ Memory.count user since app.usage
          + accepted_since user since (answers settings lower calls app)
  unfolding submit_all answers
  submit_all-accepted settings lower user since [] app = unfold accepted_since in omega arith
  submit_all-accepted settings lower user since (c ∷ calls) app =
      let after = submit_check settings lower c.moment c.key c.who c.form app in
      let rest = answers settings lower calls after.0 in
      submit_all-accepted settings lower user since calls after.0
      ∙ ap (λ (hits : Hits). Memory.count user since hits + accepted_since user since rest)
          (submit_check_usage settings lower c.moment c.key c.who c.form app)
      ∙ count-usage_after user since c app.usage after.1 rest

  -- Where a quota is set, the checks of a user that are accepted in the window that ends with the last
  -- call are never more than the quota, together with those that the ledger held in that window
  -- before: whoever else submits, if the calls come one after another, and if the ledger held no more
  -- than the quota when they begin.
  pub submit_all_quota :
      (settings : Settings) (lower : Text → Text) (user : String) (now : ℕ) (calls : List Call)
      (app : App R)
      → 0 < settings.quota_checks
      → ComeInOrder now calls
      → Memory.count user (since_of settings now) app.usage ≤ settings.quota_checks
      → let since = since_of settings (end_of now calls) in
        Memory.count user since app.usage
          + accepted_since user since (answers settings lower calls app)
        ≤ settings.quota_checks
  submit_all_quota settings lower user now calls app positive order h =
      let since = since_of settings (end_of now calls) in
      omega (
        arith,
        submit_all_ledger settings lower user now calls app positive order h,
        submit_all-accepted settings lower user since calls app,
      )
