-- ===== src/Matcher/Emit/Offsets.antt =====
-- Offsets of tokens by their position: a later token lies behind an earlier one.
use p_r_i_s_m.Prelude.{subst, ℕ, zero, suc, ◌≤◌, ◌<◌, ◌≡◌, List, [], ◌∷◌, some, get_elem?, arith}
use p_r_i_s_m.Matcher.Tokens.{Token}
use p_r_i_s_m.Matcher.Tokens.Spans.{Ascending, offsets}

Ascending-le : (lo hi : ℕ) (tokens : List Token) → Ascending lo hi (offsets tokens) → lo ≤ hi
Ascending-le lo hi [] a = a
Ascending-le lo hi (x ∷ tokens) a = omega (arith, a.0, a.1, Ascending-le x.stop hi tokens a.2)

pub at_least :
    (lo hi : ℕ) (tokens : List Token) (i : ℕ) (t : Token)
    → Ascending lo hi (offsets tokens)
    → get_elem? tokens i ≡ some t
    → (lo ≤ t.start) × (t.start < t.stop) × (t.stop ≤ hi)
at_least lo hi [] i t a e = ground arith
at_least lo hi (x ∷ tokens) zero t a e =
    let q : x ≡ t = cc in
    subst (λ (y : Token). (lo ≤ y.start) × (y.start < y.stop) × (y.stop ≤ hi)) q
      (a.0, a.1, Ascending-le x.stop hi tokens a.2)
at_least lo hi (x ∷ tokens) (suc i) t a e =
    let (l, m, h) = at_least x.stop hi tokens i t a.2 e in (omega (arith, a.0, a.1), m, h)

-- A token behind another begins where the other has ended, or later.
pub tokens_in_order :
    (lo hi : ℕ) (tokens : List Token) (i j : ℕ) (s t : Token)
    → Ascending lo hi (offsets tokens)
    → i < j
    → get_elem? tokens i ≡ some s
    → get_elem? tokens j ≡ some t
    → s.stop ≤ t.start
tokens_in_order lo hi [] i j s t a h es et = ground arith
tokens_in_order lo hi (x ∷ tokens) i zero s t a h es et = absurd (omega arith)
tokens_in_order lo hi (x ∷ tokens) zero (suc j) s t a h es et =
    let q : x ≡ s = cc in
    subst (λ (y : Token). y.stop ≤ t.start) q (at_least x.stop hi tokens j t a.2 et).0
tokens_in_order lo hi (x ∷ tokens) (suc i) (suc j) s t a h es et =
    tokens_in_order x.stop hi tokens i j s t a.2 (omega arith) es et
