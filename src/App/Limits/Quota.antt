-- ===== src/App/Limits/Quota.antt =====
-- In one window a client is allowed exactly as many checks as the limit says, whoever else calls
-- and whenever stale windows are swept.
use p_r_i_s_m.Prelude.{
  tests, ltb→lt, ℕ, suc, ◌+◌, ◌-◌, ◌*◌, ◌≤◌, ◌<◌, min, List, [], ◌∷◌, Option, none, some, String,
  Eq-String, ◌≡◌, refl, ap, ◌∙◌, inl, inr, arith, ◌==◌, ltb, length, Bool-cases, if◌then◌else◌,
  eq_self, eq_of_test, true, false, All,
}
use p_r_i_s_m.Dict.{lookup, lookup-assign_self}
use p_r_i_s_m.Dict.Order.{Distinct}
use p_r_i_s_m.Dict.Sweep.{unless, lookup-drop_where, remove_all-keys_where}
use p_r_i_s_m.TtlCache.{second}
use p_r_i_s_m.App.Limits.{Window, RateLimiter, is_over, sweep, count_hit, check}
use p_r_i_s_m.App.Limits.Steps.{
  sweep-Distinct, lookup-sweep_open, settings-sweep, settings-count_hit, count_hit-Distinct,
  lookup-count_hit_other, count_hit_room, count_hit_full,
}

-- The hits of `key` among a sequence of hits by any clients, and those that are allowed.
abbrev pub Hit : Type 0
Hit = String × ℕ

pub requests : String → List Hit → ℕ
requests key [] = 0
requests key ((j, now) ∷ hits) = (if j == key then 1 else 0) + requests key hits

abbrev allowance : Option ℕ → ℕ
allowance none = 1
allowance (some seconds) = 0

pub allowed : String → List Hit → RateLimiter → ℕ
allowed key [] l = 0
allowed key ((j, now) ∷ hits) l =
    let (l', r) = check j now l in (if j == key then allowance r else 0) + allowed key hits l'

-- `w` is the window of `key` in a table of an enabled limiter with these settings.
record IsOpen (limit window : ℕ) (key : String) (w : Window) (l : RateLimiter) : Type 0 where
  distinct : Distinct l.buckets
  same_limit : l.limit ≡ limit
  same_window : l.window ≡ window
  enabled : 0 < limit
  open_at : lookup key l.buckets ≡ some w
  in_limit : w.count ≤ limit

module _ (limit window : ℕ) (key : String) where
  not_over :
      (l : RateLimiter) (w : Window) (now : ℕ)
      → l.window ≡ window
      → now < w.start + window * second
      → is_over l now w ≡ false
  unfolding is_over
  not_over l w now e h = ground (arith, ap (λ (x : ℕ). w.start + x * second) e)

  sweep-IsOpen :
      (w : Window) (l : RateLimiter) (now : ℕ)
      → now < w.start + window * second
      → IsOpen limit window key w l
      → IsOpen limit window key w (sweep now l)
  sweep-IsOpen w l now h o = record {
    distinct = sweep-Distinct now l o.distinct;
    same_limit = (settings-sweep now l).0 ∙ o.same_limit;
    same_window = (settings-sweep now l).1 ∙ o.same_window;
    enabled = o.enabled;
    open_at = lookup-sweep_open now l key w o.distinct o.open_at (not_over l w now o.same_window h);
    in_limit = o.in_limit;
  }

  check_enabled :
      (j : String) (now : ℕ) (l : RateLimiter)
      → l.limit ≡ limit
      → 0 < limit
      → check j now l ≡ count_hit j now (sweep now l)
  unfolding check
  check_enabled j now l e pos = let t : ltb 0 l.limit ≡ true = ground arith in rw t refl

  count_hit-IsOpen :
      (w : Window) (l : RateLimiter) (j : String) (now : ℕ) (w' : Window)
      → IsOpen limit window key w l
      → lookup key (count_hit j now l).0.buckets ≡ some w'
      → w'.count ≤ limit
      → IsOpen limit window key w' (count_hit j now l).0
  count_hit-IsOpen w l j now w' o e le = record {
    distinct = count_hit-Distinct now l j o.distinct;
    same_limit = (settings-count_hit now l j).0 ∙ o.same_limit;
    same_window = (settings-count_hit now l j).1 ∙ o.same_window;
    enabled = o.enabled;
    open_at = e;
    in_limit = le;
  }

  window_quota :
      (hits : List Hit) (w : Window) (l : RateLimiter)
      → IsOpen limit window key w l
      → All (λ (h : Hit). h.1 < w.start + window * second) hits
      → allowed key hits l ≡ min (requests key hits) (limit - w.count)
  unfolding allowed requests
  window_quota [] w l o h = omega arith
  window_quota ((j, now) ∷ hits) w l o h =
      let m = sweep now l in
      let o' = sweep-IsOpen w l now h.0 o in
      let closed = not_over m w now o'.same_window h.0 in
      let step = check_enabled j now l o.same_limit o.enabled in
      rw step (elim (Bool-cases (j == key)) [
        | inl t ↦
            let q : count_hit j now m ≡ count_hit key now m =
              ap (λ (x : String). count_hit x now m) (eq_of_test j key t) in
            rw (t, q)
              (elim (Bool-cases (ltb w.count limit)) [
                | inl room ↦
                    let below : w.count < m.limit =
                      omega (tests, room, o'.same_limit, ltb→lt w.count limit room) in
                    let (r, e) = count_hit_room now m key w o'.open_at closed below in
                    let o'' =
                      count_hit-IsOpen w m key now (record w { count = w.count + 1 }) o' e
                        (omega (arith, ltb→lt w.count limit room)) in
                    omega (
                      arith,
                      ap allowance r,
                      ltb→lt w.count limit room,
                      window_quota hits (record w { count = w.count + 1 }) (count_hit key now m).0
                          o'' h.1,
                    )
                | inr full ↦
                    let least : limit ≤ w.count = ground arith in
                    rw
                      (count_hit_full now m key w o'.open_at closed
                        (omega (arith, least, o'.same_limit)))
                      (omega (arith, least, window_quota hits w m o' h.1))
              ])
        | inr t ↦ rw t (
            omega (
              arith,
              window_quota hits w (count_hit j now m).0
                  (count_hit-IsOpen w m j now w o'
                    (lookup-count_hit_other now m j key t ∙ o'.open_at) o'.in_limit)
                  h.1,
            ))
      ])

lookup-sweep_absent :
    (now : ℕ) (l : RateLimiter) (key : String)
    → Distinct l.buckets
    → lookup key l.buckets ≡ none
    → lookup key (sweep now l).buckets ≡ none
unfolding sweep
lookup-sweep_absent now l key h e = elim (Bool-cases (ltb (length l.buckets) 1024)) [
  | inl t ↦ rw (t, sweep) e
  | inr t ↦
      rw (t, sweep)
        (ap (lookup key) (remove_all-keys_where (is_over l now) l.buckets h)
          ∙ lookup-drop_where (is_over l now) key l.buckets h
          ∙ ap (unless (is_over l now)) e)
]

count_hit_new :
    (now : ℕ) (l : RateLimiter) (key : String)
    → lookup key l.buckets ≡ none
    → ((count_hit key now l).1 ≡ none)
      × (lookup key (count_hit key now l).0.buckets ≡ some (record { start = now; count = 1 }))
unfolding count_hit
count_hit_new now l key e =
    rw (e, count_hit) (refl, lookup-assign_self key (record { start = now; count = 1 }) l.buckets)

-- A client with no window yet, in an enabled limiter: of its first hit and all its hits before the
-- window that this opens is over, exactly as many are allowed as the limit says, or all of them if
-- they are fewer. Other clients' hits in between, and sweeps, change nothing.
pub limit_exact :
    (l : RateLimiter) (key : String) (now : ℕ) (hits : List Hit)
    → 0 < l.limit
    → Distinct l.buckets
    → lookup key l.buckets ≡ none
    → All (λ (h : Hit). h.1 < now + l.window * second) hits
    → allowed key ((key, now) ∷ hits) l ≡ min (suc (requests key hits)) l.limit
unfolding allowed
limit_exact l key now hits pos h e within =
    let m = sweep now l in
    let (r, at) = count_hit_new now m key (lookup-sweep_absent now l key h e) in
    let o : IsOpen l.limit l.window key (record { start = now; count = 1 })
        (count_hit key now m).0 =
      record {
        distinct = count_hit-Distinct now m key (sweep-Distinct now l h);
        same_limit = (settings-count_hit now m key).0 ∙ (settings-sweep now l).0;
        same_window = (settings-count_hit now m key).1 ∙ (settings-sweep now l).1;
        enabled = pos;
        open_at = at;
        in_limit = pos;
      } in
    rw (check_enabled l.limit l.window key key now l refl pos) (
      rw (eq_self key) (
        omega (
          arith,
          ap allowance r,
          window_quota l.limit l.window key hits (record { start = now; count = 1 })
              (count_hit key now m).0 o within,
        )))
