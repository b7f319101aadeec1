-- ===== src/Pipeline/Localize.antt =====
-- `LocalizeStage` of backend/pipeline/stages.py: the paragraph and the page of each match.
pub mod Located
pub mod Context
use p_r_i_s_m.Prelude.{
  ℕ, zero, suc, List, [], ◌∷◌, map, Option, none, some, leb, get_elem?, if◌then◌else◌,
}
use p_r_i_s_m.Matcher.Types.{Match}
use p_r_i_s_m.Triage.Signals.{Paragraph}

-- `bisect_right` on an ascending list: how many items are not above `x`
pub bisect_right : List ℕ → ℕ → ℕ
bisect_right [] x = 0
bisect_right (y ∷ ys) x = let rest = bisect_right ys x in if leb y x then suc rest else 0

-- `paragraphs[pi]` for `pi = count - 1`, where that is an index
pub paragraph_at : List Paragraph → ℕ → Option Paragraph
paragraph_at paragraphs zero = none
paragraph_at paragraphs (suc i) = get_elem? paragraphs i

pub place : Option Paragraph → Match → Match
place none m = record m { paragraph_index = none; page = none }
place (some p) m = record m { paragraph_index = some p.index; page = p.page }

-- The body of the loop.
unfoldable pub localize : List Paragraph → Match → Match
unfolding bisect_right paragraph_at place
localize paragraphs m =
    place (paragraph_at paragraphs (bisect_right (map (λ p. p.start) paragraphs) m.doc_start)) m

-- `run`
pub run : List Paragraph → List Match → List Match
unfolding localize
run paragraphs ms = map (localize paragraphs) ms
