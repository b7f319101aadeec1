-- ===== src/Worker/Runner/Coverage.antt =====
-- `_coverage_statement` of backend/worker/runner.py, and the figures about the sources that it states.
use p_r_i_s_m.Prelude.{
  ℕ, ◌+◌, List, [], ◌∷◌, ◌++◌, map, Bool, true, false, not, ◌||◌, String, Eq-String, ◌==◌, nat_eq,
  if◌then◌else◌, sort_by,
}
use Prim.Native.Nat.{Ordering}
use Prim.Native.String.{compare as compare_text}
use p_r_i_s_m.Text.{Text, codes, decimal}
use p_r_i_s_m.Matcher.Types.{SourceDoc, SourceKind, fulltext, abstract_only}

-- `"s" if n != 1 else ""`
unfoldable pub plural : ℕ → Text
plural n = if nat_eq n 1 then [] else codes "s"

-- `_PROVIDER_LABELS.get(p, p)`
unfoldable pub provider_label : String → Text
provider_label p =
    if p == "openalex"
    then codes "OpenAlex"
    else if p == "arxiv"
    then codes "arXiv"
    else if p == "semanticscholar"
    then codes "Semantic Scholar"
    else codes p

-- `separator.join(parts)`
unfoldable pub join : Text → List Text → Text
join separator [] = []
join separator (part ∷ []) = part
join separator (part ∷ next ∷ parts) = part ++ separator ++ join separator (next ∷ parts)

unfoldable pub or_else : Text → Text → Text
or_else other [] = other
or_else other (c ∷ text) = c ∷ text

-- the figures in brackets behind the open-access sources
unfoldable pub detail : ℕ → ℕ → List Text
detail n_fulltext n_abstract =
    (if nat_eq n_fulltext 0 then [] else (decimal n_fulltext ++ codes " with full text") ∷ [])
    ++ (if nat_eq n_abstract 0 then [] else (decimal n_abstract ++ codes " abstract-only") ∷ [])

unfoldable pub bracketed : List Text → Text
bracketed [] = []
bracketed (part ∷ parts) = codes " (" ++ join (codes ", ") (part ∷ parts) ++ codes ")"

-- `_coverage_statement`
unfoldable pub coverage_statement : ℕ → Bool → ℕ → ℕ → List String → Text
unfolding plural provider_label join or_else detail bracketed
coverage_statement n_uploads academic n_fulltext n_abstract providers =
    let uploads =
      if nat_eq n_uploads 0
      then []
      else (decimal n_uploads ++ codes " uploaded reference file" ++ plural n_uploads) ∷ [] in
    let names =
      or_else (codes "open-access databases") (join (codes ", ") (map provider_label providers)) in
    let academic_part =
      if academic
      then (decimal (n_fulltext + n_abstract)
          ++ codes " open-access sources from "
          ++ names
          ++ bracketed (detail n_fulltext n_abstract))
        ∷ []
      else [] in
    codes "Checked against "
    ++ or_else (codes "no sources") (join (codes " and ") (uploads ++ academic_part))
    ++ codes
        ". Not checked: the wider web, subscription journal databases, or student-paper repositories — a clean result here is not a guaranteed pass elsewhere."

-- `x.origin != "upload"`
unfoldable pub is_academic : SourceDoc → Bool
is_academic s = not (s.origin == "upload")

unfoldable pub academic_sources : List SourceDoc → List SourceDoc
academic_sources [] = []
academic_sources (s ∷ sources) =
    let rest = academic_sources sources in if is_academic s then s ∷ rest else rest

unfoldable pub is_fulltext : SourceKind → Bool
is_fulltext fulltext = true
is_fulltext abstract_only = false

unfoldable pub count_fulltext : List SourceDoc → ℕ
count_fulltext [] = 0
count_fulltext (s ∷ sources) = (if is_fulltext s.kind then 1 else 0) + count_fulltext sources

unfoldable pub is_named : String → List String → Bool
is_named name [] = false
is_named name (other ∷ names) = (name == other) || is_named name names

unfoldable pub origins : List SourceDoc → List String
origins [] = []
origins (s ∷ sources) =
    let rest = origins sources in if is_named s.origin rest then rest else s.origin ∷ rest

unfoldable pub text_before : String → String → Bool
text_before a b = elim (compare_text a b) [ Ordering.lt ↦ true | _ ↦ false ]

-- `sorted({x.origin for x in acad})`
unfoldable pub providers_of : List SourceDoc → List String
unfolding origins text_before sort_by
providers_of sources = sort_by text_before (origins sources)
