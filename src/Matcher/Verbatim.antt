-- ===== src/Matcher/Verbatim.antt =====
-- `PlagiarismMatcher._verbatim_matches` of backend/services/plagiarism_matcher.py: the index of
-- k-grams, the greedy extension of a candidate, and the scan over the document's words. The scan
-- yields an anchor for each match; `Emit` turns an anchor into the dict that the report holds.
pub mod Runs
pub mod Index
pub mod Best
pub mod Anchors
pub mod Scan
use p_r_i_s_m.Prelude.{
  ℕ, zero, suc, ◌+◌, ◌-◌, List, [], ◌∷◌, ◌++◌, Bool, true, false, ◌&&◌, Option, none, some, ltb,
  leb, length, get_elem?, take, drop, ◌==◌, if◌then◌else◌,
}
use p_r_i_s_m.Text.{Text, Eq-Text, slice}

-- A place in the sources: the source's index, and the position of a word in it.
abbrev pub Place : Type 0
Place = ℕ × ℕ

-- The dict from k-grams to the places where they stand, as an association list.
abbrev pub GramIndex : Type 0
GramIndex = List (List Text × List Place)

-- `norms[i:i + k]`
abbrev pub gram : ℕ → List Text → ℕ → List Text
gram k norms i = slice norms i (i + k)

pub same_gram : List Text → List Text → Bool
same_gram [] [] = true
same_gram (v ∷ g) (w ∷ h) = v == w && same_gram g h
same_gram _ _ = false

-- `index.get(key)`; a missing key and an empty list are treated alike by the caller
pub get_places : List Text → GramIndex → List Place
get_places key [] = []
get_places key ((g, places) ∷ index) = if same_gram g key then places else get_places key index

-- `index.setdefault(key, []).append(place)`
pub add_place : List Text → Place → GramIndex → GramIndex
add_place key place [] = (key, place ∷ []) ∷ []
add_place key place ((g, places) ∷ index) =
    if same_gram g key
    then (g, places ++ place ∷ []) ∷ index
    else (g, places) ∷ add_place key place index

-- `for i in range(len(norms) - k + 1)`: `left` rounds are left, the next one is `i`
pub index_grams : ℕ → ℕ → List Text → ℕ → ℕ → GramIndex → GramIndex
index_grams k s norms zero i index = index
index_grams k s norms (suc left) i index =
    index_grams k s norms left (suc i) (add_place (gram k norms i) (s, i) index)

-- `for s_idx, src in enumerate(sources)`
pub index_sources : ℕ → ℕ → List (List Text) → GramIndex → GramIndex
index_sources k s [] index = index
index_sources k s (norms ∷ sources) index =
    index_sources k (suc s) sources (index_grams k s norms (length norms + 1 - k) 0 index)

-- `doc_norm[a] == sn[b]` for two positions that may be out of range
pub same_item : Option Text → Option Text → Bool
same_item (some v) (some w) = v == w
same_item _ _ = false

-- The test of the inner `while`.
pub goes_on : List Text → List Text → ℕ → ℕ → Bool
unfolding same_item
goes_on doc norms a b =
    ltb a (length doc) && (ltb b (length norms) && same_item (get_elem? doc a) (get_elem? norms b))

-- The inner `while`: `length += 1` as long as the words agree. The document's length is fuel enough.
pub extend : ℕ → List Text → List Text → ℕ → ℕ → ℕ → ℕ
extend zero doc norms di si len = len
extend (suc fuel) doc norms di si len = elim (goes_on doc norms (di + len) (si + len)) [
  | true ↦ extend fuel doc norms di si (suc len)
  | false ↦ len
]

-- `src_norm[s_idx]`; every index comes from `enumerate`, so the default is never read
pub source_at : List (List Text) → ℕ → List Text
source_at [] s = []
source_at (norms ∷ sources) zero = norms
source_at (norms ∷ sources) (suc s) = source_at sources s

-- A match before its offsets are looked up: `best_len` words from word `di` of the document and
-- from word `si` of source `src`.
pub record Anchor : Type 0 where
  pub di : ℕ
  pub len : ℕ
  pub src : ℕ
  pub si : ℕ

module _ (k min_words : ℕ) (doc : List Text) (sources : List (List Text)) where
  pub match_length : ℕ → Place → ℕ
  match_length di (s, si) = extend (length doc) doc (source_at sources s) di si k

  -- `for s_idx, si in candidates`: the first longest match is kept
  pub best_of : List Place → Anchor → Anchor
  best_of [] best = best
  best_of ((s, si) ∷ places) best =
      let length = match_length best.di (s, si) in
      best_of places (
        if ltb best.len length
        then record { di = best.di; len = length; src = s; si = si }
        else best)

  -- One round of the outer `while` at word `di`: `some` is the match that is appended.
  -- (`best_src` and `best_si` start at -1 in the code, and are not read while `best_len` is 0.)
  pub found_in : ℕ → List Place → Option Anchor
  found_in di [] = none
  found_in di (place ∷ places) =
      let best = best_of (place ∷ places) (record { di = di; len = 0; src = 0; si = 0 }) in
      if leb min_words best.len then some best else none

  -- The outer `while di <= n - k`.
  pub scan : ℕ → GramIndex → ℕ → List Anchor
  scan zero index di = []
  scan (suc fuel) index di = elim (leb (di + k) (length doc)) [
    | true ↦ elim (found_in di (get_places (gram k doc di) index)) [
      | none ↦ scan fuel index (suc di)
      | some a ↦ a ∷ scan fuel index (di + a.len)
    ]
    | false ↦ []
  ]

  -- Every round moves `di` on by one word at least, so there are at most `n` rounds.
  unfoldable pub verbatim_anchors : List Anchor
  unfolding scan found_in best_of match_length extend goes_on same_item source_at get_places
      add_place same_gram index_grams index_sources
  verbatim_anchors = scan (suc (length doc)) (index_sources k 0 sources []) 0
