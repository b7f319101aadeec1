-- ===== src/Matcher/Coverage.antt =====
-- `confidence_breakdown`, `_aggregate`, `_token_range`, `_overlap_ratio` and `_empty_report` of
-- backend/services/plagiarism_matcher.py: how much of the document the matches cover.
-- A set of token indices is the list of its members, each once, as `set.update` leaves it.
pub mod Sets
pub mod Filled
pub mod Shares
use p_r_i_s_m.Text.{Text}
use p_r_i_s_m.Prelude.{
  ℕ, zero, suc, ◌+◌, ◌-◌, List, [], ◌∷◌, ◌++◌, map, Bool, true, false, not, ◌&&◌, ◌||◌, Option,
  some, none, String, ltb, nat_eq, length, ◌==◌, Eq-String, if◌then◌else◌,
}
use p_r_i_s_m.Matcher.Types.{
  SourceDoc, SourceKind, Match, MatchType, verbatim, paraphrase, translated, Confidence, confident,
  review,
}
use p_r_i_s_m.Matcher.Tokens.{Token}

-- `bisect_left` on an ascending list: how many items lie below `x`
pub bisect_left : List ℕ → ℕ → ℕ
bisect_left [] x = 0
bisect_left (y ∷ ys) x = if ltb y x then suc (bisect_left ys x) else 0

-- `range(lo, hi)`
pub range_from : ℕ → ℕ → List ℕ
range_from lo zero = []
range_from lo (suc n) = lo ∷ range_from (suc lo) n

-- `_token_range`: the indices of the tokens whose start offset lies in `[a, b)`
pub token_range : List ℕ → ℕ → ℕ → List ℕ
unfolding bisect_left range_from
token_range starts a b = let lo = bisect_left starts a in range_from lo (bisect_left starts b - lo)

-- `x in s`
pub contains : ℕ → List ℕ → Bool
contains x [] = false
contains x (y ∷ s) = nat_eq x y || contains x s

-- `s.update(xs)`
pub update : List ℕ → List ℕ → List ℕ
update s [] = s
update s (x ∷ xs) = update (if contains x s then s else x ∷ s) xs

-- `s - t`
pub difference : List ℕ → List ℕ → List ℕ
difference [] t = []
difference (x ∷ s) t = let rest = difference s t in if contains x t then rest else x ∷ rest

unfoldable pub is_review : Confidence → Bool
is_review confident = false
is_review review = true

-- The loop of `confidence_breakdown`, over the pair of sets it fills.
pub split_bands : List ℕ → List Match → List ℕ × List ℕ → List ℕ × List ℕ
unfolding token_range update is_review
split_bands starts [] sets = sets
split_bands starts (m ∷ ms) (c, r) =
    let idx = token_range starts m.doc_start m.doc_end in
    split_bands starts ms (if is_review m.confidence then (c, update r idx) else (update c idx, r))

pub count_review : List Match → ℕ
count_review [] = 0
count_review (m ∷ ms) = if is_review m.confidence then suc (count_review ms) else count_review ms

-- Python's float division and `round`, which the model leaves open: `percent x total` is
-- `round(100.0 * x / total, 2)` in hundredths of a percent.
pub record Rounding : Type 0 where
  pub percent : ℕ → ℕ → ℕ

-- `pct`
pub pct : Rounding → ℕ → ℕ → ℕ
pct r total x = if nat_eq total 0 then 0 else r.percent x total

pub record Bands : Type 0 where
  pub confident_words : ℕ
  pub review_words : ℕ
  pub confident_pct : ℕ
  pub review_pct : ℕ
  pub review_count : ℕ

pub token_starts : List Token → List ℕ
token_starts = map (λ t. t.start)

-- `confidence_breakdown`; the model also keeps the two set sizes that it turns into percentages
unfoldable pub confidence_breakdown : Rounding → List Token → List Match → Bands
unfolding split_bands difference count_review pct token_starts
confidence_breakdown r doc_tokens ms =
    let total = length doc_tokens in
    let (c, v) = split_bands (token_starts doc_tokens) ms ([], []) in
    let only = difference v c in
    record {
      confident_words = length c;
      review_words = length only;
      confident_pct = pct r total (length c);
      review_pct = pct r total (length only);
      review_count = count_review ms;
    }

-- The sets that `_aggregate` fills.
pub record Buckets : Type 0 where
  pub verbatim_tokens : List ℕ
  pub paraphrase_tokens : List ℕ
  pub translated_tokens : List ℕ
  pub per_source : List (String × List ℕ)

-- `per_source_tokens.setdefault(id, set()).update(idx)`
pub update_source : String → List ℕ → List (String × List ℕ) → List (String × List ℕ)
unfolding update
update_source id idx [] = (id, update [] idx) ∷ []
update_source id idx ((j, s) ∷ d) =
    if j == id then (j, update s idx) ∷ d else (j, s) ∷ update_source id idx d

pub add_to_type : MatchType → List ℕ → Buckets → Buckets
unfolding update
add_to_type verbatim idx b = record b { verbatim_tokens = update b.verbatim_tokens idx }
add_to_type translated idx b = record b { translated_tokens = update b.translated_tokens idx }
add_to_type paraphrase idx b = record b { paraphrase_tokens = update b.paraphrase_tokens idx }

pub add_match : List ℕ → Match → Buckets → Buckets
unfolding token_range add_to_type update_source
add_match starts m b =
    let idx = token_range starts m.doc_start m.doc_end in
    let b' = add_to_type m.match_type idx b in
    record b' { per_source = update_source m.source_id idx b'.per_source }

pub fill_buckets : List ℕ → List Match → Buckets → Buckets
unfolding add_match
fill_buckets starts [] b = b
fill_buckets starts (m ∷ ms) b = fill_buckets starts ms (add_match starts m b)

-- `{s.id: set() for s in sources}`
pub empty_sources : List SourceDoc → List (String × List ℕ)
unfolding update_source
empty_sources [] = []
empty_sources (s ∷ rest) = update_source s.id [] (empty_sources rest)

pub empty_buckets : List SourceDoc → Buckets
unfolding empty_sources
empty_buckets sources = record {
  verbatim_tokens = [];
  paraphrase_tokens = [];
  translated_tokens = [];
  per_source = empty_sources sources;
}

pub record Overall : Type 0 where
  pub similarity_pct : ℕ
  pub verbatim_words : ℕ
  pub verbatim_pct : ℕ
  pub paraphrase_words : ℕ
  pub paraphrase_pct : ℕ
  pub translated_words : ℕ
  pub translated_pct : ℕ
  pub bands : Bands
  pub matched_words : ℕ
  pub total_words : ℕ
  pub match_count : ℕ
  pub source_count : ℕ

pub record SourceRow : Type 0 where
  pub id : String
  pub name : Text
  pub origin : String
  pub url : Option String
  pub kind : SourceKind
  pub matched_words : ℕ
  pub similarity_pct : ℕ

-- `per_source_tokens.get(id, set())`
pub get_source : String → List (String × List ℕ) → List ℕ
get_source id [] = []
get_source id ((j, s) ∷ d) = if j == id then s else get_source id d

pub source_row : Rounding → ℕ → Buckets → SourceDoc → SourceRow
unfolding get_source pct
source_row r total b s =
    let n = length (get_source s.id b.per_source) in
    record {
      id = s.id;
      name = s.name;
      origin = s.origin;
      url = s.url;
      kind = s.kind;
      matched_words = n;
      similarity_pct = pct r total n;
    }

-- `per_source.sort(key=matched_words, reverse=True)`, which keeps the order of equal rows
pub insert_row : SourceRow → List SourceRow → List SourceRow
insert_row x [] = x ∷ []
insert_row x (y ∷ ys) =
    if ltb x.matched_words y.matched_words then y ∷ insert_row x ys else x ∷ y ∷ ys

pub sort_rows : List SourceRow → List SourceRow
unfolding insert_row
sort_rows [] = []
sort_rows (x ∷ xs) = insert_row x (sort_rows xs)

-- `len({m["source_id"] for m in matches})`
pub mentions : String → List Match → Bool
mentions id [] = false
mentions id (m ∷ ms) = m.source_id == id || mentions id ms

pub count_sources : List Match → ℕ
unfolding mentions
count_sources [] = 0
count_sources (m ∷ ms) =
    if mentions m.source_id ms then count_sources ms else suc (count_sources ms)

-- `_aggregate`
unfoldable pub aggregate :
    Rounding → List Token → List Match → List SourceDoc → Overall × List SourceRow
unfolding contains fill_buckets empty_buckets difference confidence_breakdown count_sources
    sort_rows source_row token_starts pct update
aggregate r doc_tokens ms sources =
    let total = length doc_tokens in
    let b = fill_buckets (token_starts doc_tokens) ms (empty_buckets sources) in
    let paraphrase_only =
      difference (difference b.paraphrase_tokens b.verbatim_tokens) b.translated_tokens in
    let translated_only = difference b.translated_tokens b.verbatim_tokens in
    let matched = update (update b.verbatim_tokens b.paraphrase_tokens) b.translated_tokens in
    (
      record {
        similarity_pct = pct r total (length matched);
        verbatim_words = length b.verbatim_tokens;
        verbatim_pct = pct r total (length b.verbatim_tokens);
        paraphrase_words = length paraphrase_only;
        paraphrase_pct = pct r total (length paraphrase_only);
        translated_words = length translated_only;
        translated_pct = pct r total (length translated_only);
        bands = confidence_breakdown r doc_tokens ms;
        matched_words = length matched;
        total_words = total;
        match_count = length ms;
        source_count = count_sources ms;
      },
      sort_rows (map (source_row r total b) sources),
    )
