-- ===== src/Pipeline/Localize/Located.antt =====
-- A match is placed in the paragraph in which it begins.
use p_r_i_s_m.Prelude.{
  ℕ, zero, suc, ◌≤◌, ◌<◌, List, [], ◌∷◌, map, some, get_elem?, ◌≡◌, refl, ◌∙◌, ap, arith, All,
}
use p_r_i_s_m.Matcher.Types.{Match}
use p_r_i_s_m.Triage.Signals.{Paragraph}
use p_r_i_s_m.Pipeline.Localize.{bisect_right, paragraph_at, place, localize}

-- Every paragraph ends before the later ones begin.
unfoldable pub IsLaidOut : List Paragraph → Type 0
IsLaidOut [] = Unit
IsLaidOut (p ∷ ps) = (p.start ≤ p.stop) × All (λ q. p.stop ≤ q.start) ps × IsLaidOut ps

abbrev starts : List Paragraph → List ℕ
starts = map (λ p. p.start)

get_elem?-All :
    (n i : ℕ) (p : Paragraph) (ps : List Paragraph)
    → All (λ q. n ≤ q.start) ps
    → get_elem? ps i ≡ some p
    → n ≤ p.start
get_elem?-All n i p [] h e = ground arith
get_elem?-All n zero p (q ∷ ps) h e = ground arith
get_elem?-All n (suc i) p (q ∷ ps) h e = get_elem?-All n i p ps h.1 e

bisect_right_above :
    (n x : ℕ) (ps : List Paragraph)
    → All (λ q. n ≤ q.start) ps
    → x < n
    → bisect_right (starts ps) x ≡ 0
unfolding bisect_right
bisect_right_above n x [] h k = refl
bisect_right_above n x (q ∷ ps) h k = ground arith

bisect_right_inside :
    (i x : ℕ) (p : Paragraph) (ps : List Paragraph)
    → IsLaidOut ps
    → get_elem? ps i ≡ some p
    → p.start ≤ x
    → x < p.stop
    → bisect_right (starts ps) x ≡ suc i
unfolding bisect_right IsLaidOut
bisect_right_inside i x p [] h e a b = ground arith
bisect_right_inside zero x p (q ∷ ps) h e a b = ground (arith, bisect_right_above q.stop x ps h.1)
bisect_right_inside (suc i) x p (q ∷ ps) h e a b =
    ground (arith, bisect_right_inside i x p ps h.2 e, get_elem?-All q.stop i p ps h.1 e)

-- In paragraphs that follow each other, a match that begins inside one of them gets its index and
-- its page, and nothing else of the match is changed.
pub localize_inside :
    (i : ℕ) (p : Paragraph) (ps : List Paragraph) (m : Match)
    → IsLaidOut ps
    → get_elem? ps i ≡ some p
    → p.start ≤ m.doc_start
    → m.doc_start < p.stop
    → localize ps m ≡ record m { paragraph_index = some p.index; page = p.page }
unfolding localize paragraph_at place
localize_inside i p ps m h e a b =
    ap (λ n. place (paragraph_at ps n) m) (bisect_right_inside i m.doc_start p ps h e a b)
    ∙ ap (λ o. place o m) e
