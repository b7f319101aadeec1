-- ===== src/Pipeline/Stages/Completed.antt =====
-- A pipeline ends with a complete context or with an error for the user, unless one of two libraries
-- fails it.
use p_r_i_s_m.Pipeline.Rerank.{Scores}
use p_r_i_s_m.Prelude.{
  ◌<◌, ◌≡◌, refl, ap, List, Bool, true, false, Option, none, some, String, nat_eq, length, arith,
  inl, inr, Bool-cases, Memᴰ,
}
use p_r_i_s_m.Text.{Text}
use p_r_i_s_m.Matcher.Types.{SourceDoc, Match}
use p_r_i_s_m.Matcher.Check
use p_r_i_s_m.Matcher.Check.{PlagiarismMatcher, Search, Report, is_blank}
use p_r_i_s_m.Matcher.Check.Reported.{check-IsReport}
use p_r_i_s_m.Parser.{ParserLibraries}
use p_r_i_s_m.Parser.Failures.{IsUnreadableFile}
use p_r_i_s_m.Triage.Signals.{Python}
use p_r_i_s_m.Triage.Summary.{triage_matches}
use p_r_i_s_m.Pipeline.Rerank
use p_r_i_s_m.Pipeline.Rerank.{RerankStage}
use p_r_i_s_m.Pipeline.Rerank.Described.{Unscored}
use p_r_i_s_m.Pipeline.Rerank.Scored.{run-eq-none}
use p_r_i_s_m.Pipeline.Stages.{
  Rounding, Unicode, RawInput, Document, CheckContext, Stage, extend_warnings, with_document, ask,
  rerank_report, localize_report, answer_of, require_sources, add_academic, retrieve, take_report,
  match, put_back, rerank, localize, matches_of, triage, run_pipeline, Collaborators, check_stages,
  search_of,
}
use p_r_i_s_m.Pipeline.Stages.Begun.{
  Ends, completes, refuses, fails, bind-Ends, HasDocument, HasSources, HasReport, parse-Ends,
}

require_sources-Ends :
    {F : Type 0} (ctx : CheckContext) → HasDocument ctx → Ends F HasSources (require_sources ctx)
unfolding require_sources
require_sources-Ends ctx has = elim (Bool-cases (nat_eq (length ctx.sources) 0)) [
  | inl t ↦ rw t refuses
  | inr t ↦ rw t (completes (has, ground arith))
]

add_academic-HasDocument :
    (answer : Option (List SourceDoc × List String)) (ctx : CheckContext)
    → HasDocument ctx
    → HasDocument (add_academic answer ctx)
unfolding add_academic
add_academic-HasDocument none ctx has = has
add_academic-HasDocument (some found) ctx has = has

retrieve-Ends :
    {F : Type 0} (look_up : Text → Option (List SourceDoc × List String)) (use_academic : Bool)
    (ctx : CheckContext)
    → HasDocument ctx
    → Ends F HasSources (retrieve look_up use_academic ctx)
unfolding retrieve
retrieve-Ends look_up true ctx has =
    require_sources-Ends (add_academic (answer_of look_up ctx.document) ctx)
      (add_academic-HasDocument (answer_of look_up ctx.document) ctx has)
retrieve-Ends look_up false ctx has = require_sources-Ends ctx has

-- A stage that asks for the document gets it.
ask-Ends :
    {F : Type 0} {Q : CheckContext → Type 0} (given : Option Document) (stage : Document → Stage)
    (ctx : CheckContext)
    → ctx.document ≡ given
    → HasDocument ctx
    → ((doc : Document) → ctx.document ≡ some doc → Ends F Q (stage doc ctx))
    → Ends F Q (ask given stage ctx)
unfolding ask
ask-Ends none stage ctx e (doc, e') next = absurd (ground arith)
ask-Ends (some doc) stage ctx e has next = next doc e

with_document-Ends :
    {F : Type 0} {Q : CheckContext → Type 0} (stage : Document → Stage) (ctx : CheckContext)
    → HasDocument ctx
    → ((doc : Document) → ctx.document ≡ some doc → Ends F Q (stage doc ctx))
    → Ends F Q (with_document stage ctx)
unfolding with_document
with_document-Ends stage ctx has next = ask-Ends ctx.document stage ctx refl has next

match-Ends :
    {F : Type 0} (u : Unicode) (r : Rounding) (given matcher : PlagiarismMatcher)
    (paraphrase : Text → List SourceDoc → List Match → Search) (ctx : CheckContext)
    → Check.new given ≡ some matcher
    → HasSources ctx
    → Ends F HasReport (match u r matcher paraphrase ctx)
unfolding match take_report extend_warnings
match-Ends u r given matcher paraphrase ctx built has = with_document-Ends _ ctx has.0 (λ doc e.
    let (report, same, well_formed) =
      check-IsReport u r given matcher (paraphrase doc.text) doc.text ctx.sources built in
    rw same (completes (has, (report, refl))))

-- The reranking, where `F` is what an answer that is no number gives.
module _ (u : Unicode) (r : Rounding) {F : Type 0} where
  put_back-Ends :
      (given : Option Document) (report : Report) (ctx : CheckContext)
      (after : Option Rerank.Context)
      → ctx.document ≡ given
      → HasSources ctx
      → (after ≡ none → F)
      → Ends F HasReport (put_back u r given report ctx after)
  unfolding put_back
  put_back-Ends given report ctx none e has cause = fails (cause refl)
  put_back-Ends none report ctx (some after) e has cause = absurd (ground (arith, has.0.1))
  put_back-Ends (some doc) report ctx (some after) e has cause = completes (has, (_, refl))

  module _ (sc : Scores) (stage : RerankStage) (predict : List Match → Option (List sc.Raw)) where
    rerank_report-Ends :
        (given : Option Report) (ctx : CheckContext)
        → ctx.report ≡ given
        → HasReport ctx
        → (Unscored sc predict → F)
        → Ends F HasReport (rerank_report u r sc stage predict given ctx)
    unfolding rerank_report
    rerank_report-Ends none ctx e has cause = completes has
    rerank_report-Ends (some report) ctx e has cause =
        put_back-Ends ctx.document report ctx _ refl has.0
          (λ failed. cause (run-eq-none sc stage u r _ predict _ failed))

    rerank-Ends :
        (ctx : CheckContext)
        → HasReport ctx
        → (Unscored sc predict → F)
        → Ends F HasReport (rerank u r sc stage predict ctx)
    unfolding rerank
    rerank-Ends ctx has cause = rerank_report-Ends ctx.report ctx refl has cause

localize_report-Ends :
    {F : Type 0} (given : Option Report) (doc : Document) (ctx : CheckContext)
    → HasReport ctx
    → Ends F HasReport (localize_report given doc ctx)
unfolding localize_report
localize_report-Ends none doc ctx has = completes has
localize_report-Ends (some report) doc ctx has = completes (has.0, (_, refl))

localize-Ends : {F : Type 0} (ctx : CheckContext) → HasReport ctx → Ends F HasReport (localize ctx)
unfolding localize
localize-Ends ctx has =
    with_document-Ends (localize_report ctx.report) ctx has.0.0
      (λ doc e. localize_report-Ends ctx.report doc ctx has)

-- What a check that completes leaves: the document, at least one source, the report, and the triage
-- of the report's matches over the document and the sources.
pub record IsComplete (py : Python) (ctx : CheckContext) : Type 0 where
  pub doc : Document
  pub report : Report
  pub has_document : ctx.document ≡ some doc
  pub has_sources : 0 < length ctx.sources
  pub has_report : ctx.report ≡ some report
  pub is_triaged :
      ctx.triage ≡ some (triage_matches py doc.text doc.paragraphs report.matches ctx.sources)

triage-Ends :
    {F : Type 0} (py : Python) (ctx : CheckContext)
    → HasReport ctx
    → Ends F (IsComplete py) (triage py ctx)
unfolding triage matches_of
triage-Ends py ctx has = with_document-Ends _ ctx has.0.0 (λ doc e. completes (record {
  doc = doc;
  report = has.1.0;
  has_document = e;
  has_sources = has.0.1;
  has_report = has.1.1;
  is_triaged =
      ap
        (λ (r : Option Report).
          some (triage_matches py doc.text doc.paragraphs (matches_of r) ctx.sources))
        has.1.1;
}))

-- Why a check may fail with an exception that is not for the user: PyMuPDF does not deliver what the
-- parser asks for of the manuscript or of a reference, or an answer of the cross-encoder is no number.
pub data IsUnfit (lib : ParserLibraries) (sc : Scores) (predict : List Match → Option (List sc.Raw))
    (ctx : CheckContext) : Type 0 where
  unreadable_manuscript :
      (file : RawInput)
      → ctx.raw_document ≡ some file
      → IsUnreadableFile lib file.content
      → IsUnfit lib sc predict ctx
  unreadable_reference :
      (file : RawInput)
      → Memᴰ file ctx.raw_sources
      → IsUnreadableFile lib file.content
      → IsUnfit lib sc predict ctx
  unscored : Unscored sc predict → IsUnfit lib sc predict ctx

-- With a matcher that its constructor accepts, a check ends: with an error that the user is shown,
-- or with a document, at least one source, a report, and the triage of the report's matches. It ends
-- with another exception only if PyMuPDF raises while it reads the manuscript or a reference that it
-- has opened, or the cross-encoder answers with something that is no number.
pub run_pipeline-Ends :
    (c : Collaborators) (given : PlagiarismMatcher) (ctx : CheckContext)
    → Check.new given ≡ some c.matcher
    → Ends
        (IsUnfit c.parser c.scores c.predict ctx)
        (IsComplete c.python)
        (run_pipeline (check_stages c) ctx)
unfolding run_pipeline check_stages
run_pipeline-Ends c given ctx built =
    let u = c.parser.unicode in
    bind-Ends _ _
      (parse-Ends c.parser c.max_pdf_pages c.max_document_chars c.source_id ctx
        unreadable_manuscript unreadable_reference)
      (λ ctx₁ p₁. bind-Ends _ _ (retrieve-Ends c.look_up c.use_academic ctx₁ p₁) (λ ctx₂ p₂.
        bind-Ends _ _ (match-Ends u c.rounding given c.matcher (search_of c) ctx₂ built p₂)
          (λ ctx₃ p₃.
            bind-Ends _ _
              (rerank-Ends u c.rounding c.scores c.rerank_stage c.predict ctx₃ p₃ unscored)
              (λ ctx₄ p₄. bind-Ends _ _ (localize-Ends ctx₄ p₄) (λ ctx₅ p₅.
                bind-Ends _ _ (triage-Ends c.python ctx₅ p₅) (λ ctx₆ p₆. completes p₆))))))
