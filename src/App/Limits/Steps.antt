-- ===== src/App/Limits/Steps.antt =====
-- What one call of `check` does to the table of windows, branch by branch.
use p_r_i_s_m.Prelude.{
  ℕ, ◌+◌, ◌≤◌, ◌<◌, none, some, String, Eq-String, ◌≡◌, refl, ap, ◌∙◌, inl, inr, arith, ◌==◌, ltb,
  leb, length, Bool-cases, Option-cases, true, false,
}
use p_r_i_s_m.Dict.{lookup, lookup-assign_self, lookup-assign_other}
use p_r_i_s_m.Dict.Order.{Distinct, assign-Distinct}
use p_r_i_s_m.Dict.Sweep.{unless, lookup-drop_where, drop_where-Distinct, remove_all-keys_where}
use p_r_i_s_m.App.Limits.{Window, RateLimiter, is_over, sweep, retry_after, count_hit}

pub sweep-Distinct :
    (now : ℕ) (l : RateLimiter) → Distinct l.buckets → Distinct (sweep now l).buckets
unfolding sweep
sweep-Distinct now l h = elim (Bool-cases (ltb (length l.buckets) 1024)) [
  | inl t ↦ rw (t, sweep) h
  | inr t ↦
      rw (t, sweep)
        (rw (remove_all-keys_where (is_over l now) l.buckets h)
          (drop_where-Distinct (is_over l now) l.buckets h))
]

-- A sweep at `now` leaves a window alone that is still open at `now`.
pub lookup-sweep_open :
    (now : ℕ) (l : RateLimiter) (key : String) (w : Window)
    → Distinct l.buckets
    → lookup key l.buckets ≡ some w
    → is_over l now w ≡ false
    → lookup key (sweep now l).buckets ≡ some w
unfolding sweep
lookup-sweep_open now l key w h e f = elim (Bool-cases (ltb (length l.buckets) 1024)) [
  | inl t ↦ rw (t, sweep) e
  | inr t ↦
      rw (t, sweep)
        (ap (lookup key) (remove_all-keys_where (is_over l now) l.buckets h)
          ∙ lookup-drop_where (is_over l now) key l.buckets h
          ∙ ap (unless (is_over l now)) e
          ∙ rw f refl)
]

pub settings-sweep :
    (now : ℕ) (l : RateLimiter)
    → ((sweep now l).limit ≡ l.limit) × ((sweep now l).window ≡ l.window)
unfolding sweep
settings-sweep now l = ground arith

-- What one hit does to the table, once the table has been swept.
module _ (now : ℕ) (l : RateLimiter) where
  pub settings-count_hit :
      (key : String)
      → ((count_hit key now l).0.limit ≡ l.limit) × ((count_hit key now l).0.window ≡ l.window)
  unfolding count_hit
  settings-count_hit key = ground arith

  pub count_hit-Distinct :
      (key : String) → Distinct l.buckets → Distinct (count_hit key now l).0.buckets
  unfolding count_hit
  count_hit-Distinct key h = elim (Option-cases (lookup key l.buckets)) [
    | inl e ↦
        rw (e, count_hit) (assign-Distinct key (record { start = now; count = 1 }) l.buckets h)
    | inr (w, e) ↦ elim (Bool-cases (is_over l now w)) [
      | inl t ↦
          rw (e, count_hit)
            (rw t (assign-Distinct key (record { start = now; count = 1 }) l.buckets h))
      | inr t ↦ elim (Bool-cases (leb l.limit w.count)) [
        | inl full ↦ rw (e, count_hit) (rw (t, full) h)
        | inr room ↦
            rw (e, count_hit)
              (rw (t, room) (assign-Distinct key (record w { count = w.count + 1 }) l.buckets h))
      ]
    ]
  ]

  pub lookup-count_hit_other :
      (j key : String)
      → (j == key) ≡ false
      → lookup key (count_hit j now l).0.buckets ≡ lookup key l.buckets
  unfolding count_hit
  lookup-count_hit_other j key ne = elim (Option-cases (lookup j l.buckets)) [
    | inl e ↦
        rw (e, count_hit)
          (lookup-assign_other j key (record { start = now; count = 1 }) l.buckets ne)
    | inr (w, e) ↦ elim (Bool-cases (is_over l now w)) [
      | inl t ↦
          rw (e, count_hit)
            (rw t (lookup-assign_other j key (record { start = now; count = 1 }) l.buckets ne))
      | inr t ↦ elim (Bool-cases (leb l.limit w.count)) [
        | inl full ↦ rw (e, count_hit) (rw (t, full) refl)
        | inr room ↦
            rw (e, count_hit)
              (rw (t, room)
                (lookup-assign_other j key (record w { count = w.count + 1 }) l.buckets ne))
      ]
    ]
  ]

  -- a client with an open window and hits left
  pub count_hit_room :
      (key : String) (w : Window)
      → lookup key l.buckets ≡ some w
      → is_over l now w ≡ false
      → w.count < l.limit
      → ((count_hit key now l).1 ≡ none)
        × (lookup key (count_hit key now l).0.buckets ≡ some (record w { count = w.count + 1 }))
  unfolding count_hit
  count_hit_room key w e t room =
      let f : leb l.limit w.count ≡ false = ground arith in
      rw (e, count_hit)
        (rw (t, f) (refl, lookup-assign_self key (record w { count = w.count + 1 }) l.buckets))

  -- a client whose window is full
  pub count_hit_full :
      (key : String) (w : Window)
      → lookup key l.buckets ≡ some w
      → is_over l now w ≡ false
      → l.limit ≤ w.count
      → count_hit key now l ≡ (l, some (retry_after l now w))
  unfolding count_hit
  count_hit_full key w e t full =
      let f : leb l.limit w.count ≡ true = ground arith in rw (e, count_hit) (rw (t, f) refl)
