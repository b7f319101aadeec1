-- ===== src/Matcher/Check/Reported.antt =====
-- The report of `check` is well formed whatever the search for paraphrases finds.
use p_r_i_s_m.Prelude.{
  ℕ, suc, ◌≤◌, ◌<◌, ◌≡◌, refl, subst, sym, ◌∙◌, List, [], ◌∷◌, ◌++◌, true, false, ◌||◌, some, min,
  max, nat_eq, ltb, length, arith, inl, inr, Bool-cases, if◌then◌else◌, All, IsOrderedBy,
  sort_by-IsOrderedBy,
}
use mathlib.Core.Option.{some-injective}
use p_r_i_s_m.Text.{Text, Unicode, slice}
use p_r_i_s_m.Matcher.Types.{SourceDoc, Match}
use p_r_i_s_m.Matcher.Tokens.{tokenize}
use p_r_i_s_m.Matcher.Emit.Reports.{verbatim_matches-IsCopy}
use p_r_i_s_m.Matcher.Coverage.{Rounding, aggregate}
use p_r_i_s_m.Matcher.Check.{
  PlagiarismMatcher, new, confident_threshold_for, Search, Report, is_blank, usable_sources,
  empty_report, no_readable_sources, no_readable_text, paraphrases_of, Warning, starts_before,
  label, assemble, check,
}

-- The cutoff lies between the configured one and the ceiling, whichever is higher, and where the
-- configured one is not above the ceiling, no corpus lowers it.
pub confident_threshold_for-bounds :
    (scaled : ℕ → ℕ → ℕ → ℕ) (matcher : PlagiarismMatcher) (n : ℕ)
    → let cutoff = confident_threshold_for scaled matcher n in
      (min matcher.confident_threshold matcher.confidence_ceiling ≤ cutoff)
      × (cutoff ≤ max matcher.confident_threshold matcher.confidence_ceiling)
      × (matcher.confident_threshold ≤ matcher.confidence_ceiling
          → matcher.confident_threshold ≤ cutoff)
unfolding confident_threshold_for
confident_threshold_for-bounds scaled matcher n = (ground arith, ground arith, λ h. ground arith)

-- Numbered from `i` on, each with the part of the document that it covers.
pub IsNumbered : Text → ℕ → List Match → Type 0
IsNumbered doc_text i [] = Unit
IsNumbered doc_text i (m ∷ ms) =
    (m.id ≡ some i)
    × (m.doc_excerpt ≡ some (slice doc_text m.doc_start m.doc_end))
    × IsNumbered doc_text (suc i) ms

-- A report of `check`: the matches are numbered from 0 and stand in the order of their offsets, each
-- carries the part of the document that it covers, and the figures count them and the words.
pub record IsReport (u : Unicode) (doc_text : Text) (report : Report) : Type 0 where
  pub numbered : IsNumbered doc_text 0 report.matches
  pub ordered : IsOrderedBy starts_before report.matches
  pub counted :
      (report.overall.match_count ≡ length report.matches)
      × (report.overall.total_words ≡ length (tokenize u doc_text))

label-IsNumbered :
    (doc_text : Text) (i : ℕ) (ms : List Match) → IsNumbered doc_text i (label doc_text i ms)
unfolding label IsNumbered
label-IsNumbered doc_text i [] = tt
label-IsNumbered doc_text i (m ∷ ms) = (refl, refl, label-IsNumbered doc_text (suc i) ms)

before_asym : (m n : Match) → starts_before m n ≡ true → starts_before n m ≡ false
unfolding starts_before
before_asym m n h = ground arith

before_through :
    (m n o : Match)
    → starts_before n m ≡ false
    → starts_before o n ≡ false
    → starts_before o m ≡ false
unfolding starts_before
before_through m n o h k = ground arith

none_labelled_before :
    (doc_text : Text) (i : ℕ) (m m' : Match) (ms : List Match)
    → m'.doc_start ≡ m.doc_start
    → m'.doc_end ≡ m.doc_end
    → All (λ n. starts_before n m ≡ false) ms
    → All (λ n. starts_before n m' ≡ false) (label doc_text i ms)
unfolding label starts_before
none_labelled_before doc_text i m m' [] s e h = tt
none_labelled_before doc_text i m m' (n ∷ ms) s e h =
    (rw s (rw e h.0), none_labelled_before doc_text (suc i) m m' ms s e h.1)

label-IsOrderedBy :
    (doc_text : Text) (i : ℕ) (ms : List Match)
    → IsOrderedBy starts_before ms
    → IsOrderedBy starts_before (label doc_text i ms)
unfolding label IsOrderedBy
label-IsOrderedBy doc_text i [] h = tt
label-IsOrderedBy doc_text i (m ∷ ms) h = (
  none_labelled_before doc_text (suc i) m _ ms refl refl h.0,
  label-IsOrderedBy doc_text (suc i) ms h.1,
)

assemble-IsReport :
    (u : Unicode) (r : Rounding) (matcher : PlagiarismMatcher) (search : Search) (doc_text : Text)
    (sources : List SourceDoc) (verbatim : List Match)
    → IsReport u doc_text
        (assemble r matcher search doc_text (tokenize u doc_text) sources verbatim)
unfolding assemble
assemble-IsReport u r matcher search doc_text sources verbatim = record {
  numbered = label-IsNumbered doc_text 0 _;
  ordered = label-IsOrderedBy doc_text 0 _ (
      sort_by-IsOrderedBy starts_before before_asym before_through
        (verbatim ++ paraphrases_of search.outcome));
  counted = unfold aggregate in (refl, refl);
}

empty-IsReport :
    (u : Unicode) (doc_text : Text) (warnings : List Warning)
    → IsReport u doc_text (empty_report (length (tokenize u doc_text)) warnings)
unfolding empty_report IsNumbered IsOrderedBy
empty-IsReport u doc_text warnings = record { numbered = tt; ordered = tt; counted = (refl, refl) }

new-limits :
    (given matcher : PlagiarismMatcher)
    → new given ≡ some matcher
    → (0 < matcher.min_verbatim_words) × (matcher.ngram ≤ matcher.min_verbatim_words)
unfolding new
new-limits given matcher built = elim (Bool-cases (ltb given.ngram 1)) [
  | inl t ↦ absurd (ground arith)
  | inr t ↦
      let made : PlagiarismMatcher = record given {
        confidence_scale_pivot = max 1 given.confidence_scale_pivot;
        min_verbatim_words = max given.min_verbatim_words given.ngram;
        confident_threshold = max given.confident_threshold given.paraphrase_threshold;
      } in
      let is : new given ≡ some made = rw (t, new) refl in
      subst
        (λ (m : PlagiarismMatcher). (0 < m.min_verbatim_words) × (m.ngram ≤ m.min_verbatim_words))
        (some-injective made matcher (sym is ∙ built)) (ground arith, ground arith)
]

-- A matcher that its constructor accepts never fails: for every document, all sources and whatever
-- the search for paraphrases does, `check` returns a report. Its matches are numbered from 0 and
-- stand in the order of their offsets, each carries the part of the document that it covers, and
-- the figures count the matches and the words of the document.
pub check-IsReport :
    (u : Unicode) (r : Rounding) (given matcher : PlagiarismMatcher)
    (paraphrase : List SourceDoc → List Match → Search) (doc_text : Text) (sources : List SourceDoc)
    → new given ≡ some matcher
    → (report : Report) × (check u r matcher paraphrase doc_text sources ≡ some report)
      × IsReport u doc_text report
unfolding check
check-IsReport u r given matcher paraphrase doc_text sources built =
    let doc_tokens = tokenize u doc_text in
    let usable = usable_sources u sources in
    let no_sources = nat_eq (length usable) 0 in
    let no_words = nat_eq (length doc_tokens) 0 in
    let (lower, seeds) = new-limits given matcher built in
    elim (Bool-cases (is_blank u doc_text || (no_sources || no_words))) [
      | inl t ↦
          let warnings =
            (if no_sources then no_readable_sources ∷ [] else [])
            ++ (if no_words then no_readable_text ∷ [] else []) in
          (empty_report (length doc_tokens) warnings, rw t refl, empty-IsReport u doc_text warnings)
      | inr t ↦
          let (verbatim, same, copies, ascending) =
            verbatim_matches-IsCopy u matcher.ngram matcher.min_verbatim_words doc_text usable lower
              seeds in
          let search = paraphrase usable verbatim in
          (
            assemble r matcher search doc_text doc_tokens usable verbatim,
            rw t (rw same refl),
            assemble-IsReport u r matcher search doc_text usable verbatim,
          )
    ]
