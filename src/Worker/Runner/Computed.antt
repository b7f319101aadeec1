-- ===== src/Worker/Runner/Computed.antt =====
-- What a check computes: a coherent result, or an error for the user, unless one of two libraries fails
-- it.
use p_r_i_s_m.Prelude.{ℕ, ◌<◌, ◌≡◌, refl, sym, ◌∙◌, Option, none, some, String, Bool, ◌&&◌, length}
use mathlib.Core.Option.{some-injective, none-ne-some}
use p_r_i_s_m.Matcher.Check
use p_r_i_s_m.Matcher.Check.{PlagiarismMatcher}
use p_r_i_s_m.Triage.Signals.{Python}
use p_r_i_s_m.Triage.Summary.{triage_matches}
use p_r_i_s_m.Report.{build_report}
use p_r_i_s_m.Pipeline.Stages.{
  Document, CheckContext, Result, ok, error, crashed, PipelineError, Collaborators, run_pipeline,
  build_check_stages,
}
use p_r_i_s_m.Pipeline.Stages.Begun.{Ends, completes, refuses, fails}
use p_r_i_s_m.Pipeline.Stages.Completed.{IsComplete, IsUnfit}
use p_r_i_s_m.Pipeline.Stages.Coached.{build_check_stages-Ends}
use p_r_i_s_m.Worker.Runner.Request.{CheckRequest}
use p_r_i_s_m.Worker.Runner.{Outcome, computed, rejected, failed}
use p_r_i_s_m.Worker.Runner.Assembly.{
  CheckResult, assemble_from, from_assembly, outcome_of, compute, context_of, summary_of,
}

-- A result whose triage is that of its own matches over its own document and sources, of which there
-- is one at least, and whose report is built from its own figures and that triage.
pub record IsCoherent (py : Python) (r : CheckResult) : Type 0 where
  pub has_sources : 0 < length r.sources
  pub is_triaged :
      r.triage ≡ some (triage_matches py r.document_text r.paragraphs r.matched.matches r.sources)
  pub is_reported : r.report ≡ build_report r.matched.overall (summary_of r.triage) r.coverage

-- An outcome that the user can read, which is a coherent result or the message of an error; or a
-- failure with a cause of the kind `F`.
pub data IsReadable (F : Type 0) (py : Python) : Outcome CheckResult → Type 0 where
  coherent : {r : CheckResult} → IsCoherent py r → IsReadable F py (computed r)
  message : {m : String} → IsReadable F py (rejected m)
  failure : F → IsReadable F py failed

from_assembly-IsReadable :
    {F : Type 0} (py : Python) (base n_uploads : ℕ) (ctx : CheckContext) (doc : Option Document)
    (matched : Option Check.Report)
    → IsComplete py ctx
    → ctx.document ≡ doc
    → ctx.report ≡ matched
    → IsReadable F py (from_assembly (assemble_from base n_uploads ctx doc matched))
unfolding assemble_from from_assembly
from_assembly-IsReadable py base n_uploads ctx none matched c d m =
    absurd (none-ne-some c.doc (sym d ∙ c.has_document))
from_assembly-IsReadable py base n_uploads ctx (some doc) none c d m =
    absurd (none-ne-some c.report (sym m ∙ c.has_report))
from_assembly-IsReadable py base n_uploads ctx (some doc) (some matched) c d m =
    let same_doc = some-injective c.doc doc (sym c.has_document ∙ d) in
    let same_report = some-injective c.report matched (sym c.has_report ∙ m) in
    let triaged : ctx.triage
        ≡ some (triage_matches py doc.text doc.paragraphs matched.matches ctx.sources) =
      cc (c.is_triaged, same_doc, same_report) in
    coherent (record { has_sources = c.has_sources; is_triaged = triaged; is_reported = refl })

outcome_of-IsReadable :
    {F : Type 0} (py : Python) (text : PipelineError → String) (base n_uploads : ℕ)
    (result : Result)
    → Ends F (IsComplete py) result
    → IsReadable F py (outcome_of text base n_uploads result)
unfolding outcome_of
outcome_of-IsReadable py text base n_uploads (error e) refuses = message
outcome_of-IsReadable py text base n_uploads crashed (fails f) = failure f
outcome_of-IsReadable py text base n_uploads (ok ctx) (completes c) =
    from_assembly-IsReadable py base n_uploads ctx ctx.document ctx.report c refl refl

-- With a matcher that its constructor accepts, the computation of a check ends with a result or with
-- the message of an error for the user; it fails otherwise only if PyMuPDF raises while it reads the
-- manuscript or a reference that it has opened, or the cross-encoder answers with something that is no
-- number. A result has a source at least, its triage is that of its own matches over its own document
-- and sources, and its report is built from its own figures and that triage.
pub compute-IsReadable :
    (text : PipelineError → String) (academic_enabled : Bool) (c : Collaborators)
    (given : PlagiarismMatcher) (req : CheckRequest CheckResult)
    → Check.new given ≡ some c.matcher
    → IsReadable
        (IsUnfit c.parser c.scores c.predict (context_of req))
        c.python
        (compute text academic_enabled c req)
unfolding compute
compute-IsReadable text academic_enabled c given req built =
    let c' : Collaborators = record c { use_academic = req.use_academic && academic_enabled } in
    outcome_of-IsReadable c.python text c.matcher.confident_threshold (length req.references)
      (run_pipeline (build_check_stages c') (context_of req))
      (build_check_stages-Ends c' given (context_of req) built)
