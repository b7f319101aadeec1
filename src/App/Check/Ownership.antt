-- ===== src/App/Check/Ownership.antt =====
-- Whose jobs a request can see.
use p_r_i_s_m.Prelude.{
  ℕ, ◌≡◌, ◌≢◌, refl, ap, Option, none, some, String, Eq-String, ◌==◌, true, false, arith, ◌⊎◌, inl,
  inr, Bool-cases, Option-cases, eq_of_test,
}
use text.Mathlib.TextEquality.{eq_iff}
use p_r_i_s_m.App.Auth.{Principal}
use p_r_i_s_m.App.Check.{App, job, is_hidden, is_done, usable, reply, check_status, owner_of}
use p_r_i_s_m.Worker.Store.{JobRecord}
use p_r_i_s_m.Worker.Runner

hidden_of :
    (who : Option Principal) (owner : String)
    → owner_of who ≢ some owner
    → is_hidden who (some owner) ≡ true
unfolding is_hidden owner_of
hidden_of none owner h = refl
hidden_of (some p) owner h = elim (Bool-cases (p.user_id == owner)) [
  | inl t ↦ absurd (h (ap some (eq_of_test p.user_id owner t)))
  | inr t ↦ rw t refl
]

owner_of_shown :
    (who : Option Principal) (owner : Option String)
    → is_hidden who owner ≡ false
    → (owner ≡ none) ⊎ (owner ≡ owner_of who)
unfolding is_hidden owner_of
owner_of_shown who none h = inl refl
owner_of_shown none (some owner) h = absurd (ground arith)
owner_of_shown (some p) (some owner) h = inr (ground (arith, eq_iff p.user_id owner))

module _ {R : Type 0} where
  -- A job that has an owner cannot be seen by anybody else: the polling of it, and the comparison
  -- with it, are answered as for a job that is not there. What polling shows is the record of the
  -- store itself, and its owner is the one who asks, if it has one.
  pub check_status-IsOwn :
      (now : ℕ) (who : Option Principal) (id : String) (app : App R)
      → ((rec : JobRecord R) (owner : String)
          → (Runner.status now id app.runner).1 ≡ some rec
          → rec.owner ≡ some owner
          → owner_of who ≢ some owner
          → ((check_status now who id app).1 ≡ reply who none)
            × (usable who (Runner.status now id app.runner).1 ≡ usable who none))
        × ((shown : JobRecord R)
            → (check_status now who id app).1 ≡ job shown.id shown.status shown.result shown.message
            → (rec : JobRecord R) × ((Runner.status now id app.runner).1 ≡ some rec)
              × ((rec.owner ≡ none) ⊎ (rec.owner ≡ owner_of who))
              × (rec.status ≡ shown.status)
              × (rec.result ≡ shown.result))
  unfolding check_status reply usable
  check_status-IsOwn now who id app = (
    λ rec owner found owned other.
        let hidden = hidden_of who owner other in
        (
          rw found (rw owned (rw hidden refl)),
          rw found (
              rw owned (
                rw hidden (elim (Bool-cases (is_done rec.status)) [
                  | inl d ↦ rw d refl
                  | inr d ↦ rw d refl
                ]))),
        ),
    λ shown h. elim (Option-cases (Runner.status now id app.runner).1) [
      | inl e ↦ absurd (ground arith)
      | inr (rec, e) ↦ elim (Bool-cases (is_hidden who rec.owner)) [
        | inl t ↦ absurd (ground arith)
        | inr t ↦ (rec, e, owner_of_shown who rec.owner t, ground arith, ground arith)
      ]
    ],
  )
