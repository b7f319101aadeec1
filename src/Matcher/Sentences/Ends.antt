-- ===== src/Matcher/Sentences/Ends.antt =====
-- The places where the search for sentences ends one rise and stay inside the text.
use p_r_i_s_m.Prelude.{
  ℕ, suc, ◌+◌, ◌≤◌, ◌<◌, inl, inr, List, [], ◌∷◌, ◌++◌, Bool, true, false, length, arith,
  Bool-cases, if◌then◌else◌, nat_eq,
}
use p_r_i_s_m.Text.{Text}
use p_r_i_s_m.Matcher.Sentences.{
  Scan, idle, terminators, closers, newlines, start_at, scan_step, scan_end, find_ends,
  is_terminator, is_closer,
}

-- Spans with ends that rise, from an offset on and inside the text.
abbrev pub Rising : ℕ → ℕ → List (ℕ × ℕ) → Type 0
Rising n lo [] = Unit
Rising n lo (m ∷ ms) = (lo < m.1) × (m.1 ≤ n) × Rising n m.1 ms

abbrev Room : Scan → ℕ → ℕ → Type 0
Room idle lo pos = lo ≤ pos
Room (terminators s) lo pos = lo < pos
Room (closers s) lo pos = lo < pos
Room (newlines s) lo pos = lo < pos

Room-start_at : (lo pos c : ℕ) → lo ≤ pos → Room (start_at pos c) lo (suc pos)
unfolding start_at
Room-start_at lo pos c h = elim (Bool-cases (is_terminator c)) [
  | inl t ↦ rw t (omega arith)
  | inr f ↦ elim (Bool-cases (nat_eq c 10)) [
    | inl nl ↦ rw f (rw nl (omega arith))
    | inr other ↦ rw f (rw other (omega arith))
  ]
]

-- What a step leaves, with the matches that it ends in front of those that the rest ends.
abbrev Steps : ℕ → ℕ → ℕ → List (ℕ × ℕ) × Scan → Type 0
Steps n lo pos (found, state) =
    (later : List (ℕ × ℕ))
    → pos ≤ n
    → ((from : ℕ) → Room state from (suc pos) → Rising n from later)
    → Rising n lo (found ++ later)

ended : (n lo s pos c : ℕ) → lo < pos → Steps n lo pos ((s, pos) ∷ [], start_at pos c)
ended n lo s pos c h later inside rest =
    (h, inside, rest pos (Room-start_at pos pos c (omega arith)))

if-Steps :
    (n lo pos : ℕ) (b : Bool) (x y : List (ℕ × ℕ) × Scan)
    → Steps n lo pos x
    → Steps n lo pos y
    → Steps n lo pos (if b then x else y)
if-Steps n lo pos true x y hx hy = hx
if-Steps n lo pos false x y hx hy = hy

scan_step-Steps :
    (n lo : ℕ) (state : Scan) (pos c : ℕ)
    → Room state lo pos
    → Steps n lo pos (scan_step state pos c)
unfolding scan_step
scan_step-Steps n lo idle pos c h = λ later inside rest. rest lo (Room-start_at lo pos c h)
scan_step-Steps n lo (terminators s) pos c h =
    if-Steps n lo pos (is_terminator c) ([], terminators s)
      (if is_closer c then ([], closers s) else ((s, pos) ∷ [], start_at pos c))
      (λ later inside rest. rest lo (omega arith))
      (if-Steps n lo pos (is_closer c) ([], closers s) ((s, pos) ∷ [], start_at pos c)
        (λ later inside rest. rest lo (omega arith)) (ended n lo s pos c h))
scan_step-Steps n lo (closers s) pos c h =
    if-Steps n lo pos (is_closer c) ([], closers s) ((s, pos) ∷ [], start_at pos c)
      (λ later inside rest. rest lo (omega arith)) (ended n lo s pos c h)
scan_step-Steps n lo (newlines s) pos c h =
    if-Steps n lo pos (nat_eq c 10) ([], newlines s) ((s, pos) ∷ [], start_at pos c)
      (λ later inside rest. rest lo (omega arith)) (ended n lo s pos c h)

scan_end-Rising :
    (n lo : ℕ) (state : Scan) (pos : ℕ)
    → pos ≤ n
    → Room state lo pos
    → Rising n lo (scan_end state pos)
unfolding scan_end
scan_end-Rising n lo idle pos i h = tt
scan_end-Rising n lo (terminators s) pos i h = (h, i, tt)
scan_end-Rising n lo (closers s) pos i h = (h, i, tt)
scan_end-Rising n lo (newlines s) pos i h = (h, i, tt)

pub find_ends-Rising :
    (n lo pos : ℕ) (state : Scan) (text : Text)
    → pos + length text ≤ n
    → Room state lo pos
    → Rising n lo (find_ends pos state text)
unfolding find_ends
find_ends-Rising n lo pos state [] i h = scan_end-Rising n lo state pos (omega arith) h
find_ends-Rising n lo pos state (c ∷ text) i h =
    scan_step-Steps n lo state pos c h _ (omega arith) (λ from room.
      find_ends-Rising n from (suc pos) (scan_step state pos c).1 text (omega arith) room)

pub Rising-weaken : (n lo lo' : ℕ) (ms : List (ℕ × ℕ)) → lo ≤ lo' → Rising n lo' ms → Rising n lo ms
Rising-weaken n lo lo' [] h r = tt
Rising-weaken n lo lo' (m ∷ ms) h r = (omega (arith, r.0), r.1, r.2)
