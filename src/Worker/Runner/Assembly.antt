-- ===== src/Worker/Runner/Assembly.antt =====
-- `_compute`, `_assemble` and `_coverage_statement` of backend/worker/runner.py: what the runner
-- computes, over the pipeline. The version, the names of models and the timings are left out of the
-- result; the cards that the coach writes into the matches are in its session.
use p_r_i_s_m.Prelude.{
  ℕ, List, [], ◌∷◌, map, Bool, false, not, ◌&&◌, ◌-◌, Option, none, some, String, Eq-String, nat_eq,
  length, if◌then◌else◌,
}
use p_r_i_s_m.Text.{Text}
use p_r_i_s_m.Matcher.Types.{SourceDoc, Match}
use p_r_i_s_m.Matcher.Check
use p_r_i_s_m.Triage.Signals.{Paragraph}
use p_r_i_s_m.Triage.Summary.{Triage, Summary}
use p_r_i_s_m.Report
use p_r_i_s_m.Report.{build_report}
use p_r_i_s_m.Report.Compare.{Flagged, Compared, Comparison, compare}
use p_r_i_s_m.Pipeline.Stages.{
  CoachResult, requested, RawInput, Document, CheckContext, Result, ok, error, crashed,
  PipelineError, Warning, Collaborators, build_check_stages, run_pipeline,
}
use p_r_i_s_m.Worker.Runner.Request.{Bytes, CheckRequest}
use p_r_i_s_m.Worker.Runner.{Engine, Outcome, computed, rejected, failed}
use p_r_i_s_m.Worker.Runner.Coverage.{
  coverage_statement, academic_sources, count_fulltext, is_fulltext, providers_of,
}

pub record CheckResult : Type 0 where
  pub filename : Text
  pub report : Report.Report
  pub recheck : Option Comparison
  pub document_text : Text
  pub paragraphs : List Paragraph
  pub page_count : Option ℕ
  pub academic_used : Bool
  pub sources : List SourceDoc
  pub matched : Check.Report
  pub warnings : List Warning
  pub triage : Option (List Triage × Summary)
  pub coach : Option CoachResult
  pub confident_threshold : ℕ
  pub reranked : Bool
  pub coverage : Text

unfoldable pub summary_of : Option (List Triage × Summary) → Option Summary
summary_of none = none
summary_of (some (ts, s)) = some s

-- `ctx.artifacts.get("confident_threshold_used") or self.matcher.confident_threshold`
pub cutoff_of : ℕ → Option ℕ → ℕ
cutoff_of base none = base
cutoff_of base (some c) = if nat_eq c 0 then base else c

-- `bool(ctx.artifacts.get("reranked_count"))`
pub is_reranked : Option ℕ → Bool
is_reranked none = false
is_reranked (some n) = not (nat_eq n 0)

-- `_assemble`, on the document and the report of the context, which the code takes to be there
unfoldable pub assemble_from :
    ℕ → ℕ → CheckContext → Option Document → Option Check.Report → Option CheckResult
unfolding coverage_statement academic_sources count_fulltext is_fulltext providers_of summary_of
    cutoff_of is_reranked build_report
assemble_from base n_uploads ctx none matched = none
assemble_from base n_uploads ctx (some doc) none = none
assemble_from base n_uploads ctx (some doc) (some matched) =
    let acad = academic_sources ctx.sources in
    let n_fulltext = count_fulltext acad in
    let coverage =
      coverage_statement n_uploads ctx.academic_used n_fulltext (length acad - n_fulltext)
        (providers_of acad) in
    some (record {
      filename = doc.name;
      report = build_report matched.overall (summary_of ctx.triage) coverage;
      recheck = none;
      document_text = doc.text;
      paragraphs = doc.paragraphs;
      page_count = doc.page_count;
      academic_used = ctx.academic_used;
      sources = ctx.sources;
      matched = matched;
      warnings = ctx.warnings;
      triage = ctx.triage;
      coach = ctx.coach;
      confident_threshold = cutoff_of base matched.confident_threshold_used;
      reranked = is_reranked ctx.reranked_count;
      coverage = coverage;
    })

-- An `AssertionError` or a `KeyError` of `_assemble` is one of the other exceptions.
unfoldable pub from_assembly : Option CheckResult → Outcome CheckResult
from_assembly none = failed
from_assembly (some result) = computed result

-- `return self._assemble(ctx, req)`, and the exceptions of the pipeline; `message` is `str(exc)`.
unfoldable pub outcome_of : (PipelineError → String) → ℕ → ℕ → Result → Outcome CheckResult
unfolding assemble_from from_assembly
outcome_of message base n_uploads (ok ctx) =
    from_assembly (assemble_from base n_uploads ctx ctx.document ctx.report)
outcome_of message base n_uploads (error e) = rejected (message e)
outcome_of message base n_uploads crashed = failed

pub to_input : Text × Bytes → RawInput
to_input (name, content) = record { name = name; content = content }

-- the context that `_compute` begins with; `given` are the warnings of the request
unfoldable pub context_of : CheckRequest CheckResult → CheckContext
unfolding to_input
context_of req = record {
  document = none;
  raw_document = some (to_input req.paper);
  raw_sources = map to_input req.references;
  sources = [];
  warnings = map requested req.base_warnings;
  report = none;
  academic_used = false;
  reranked_count = none;
  triage = none;
  coach = none;
}

-- `_compute`; `academic_enabled` is the setting.
unfoldable pub compute :
    (PipelineError → String) → Bool → Collaborators → CheckRequest CheckResult → Outcome CheckResult
unfolding build_check_stages run_pipeline context_of outcome_of
compute message academic_enabled c req =
    let c' : Collaborators = record c { use_academic = req.use_academic && academic_enabled } in
    outcome_of message c.matcher.confident_threshold (length req.references)
      (run_pipeline (build_check_stages c') (context_of req))

-- the matches of a result with their triage
pub flagged_of : List Match → List Triage → List Flagged
flagged_of [] ts = []
flagged_of (m ∷ ms) [] = (m, none) ∷ flagged_of ms []
flagged_of (m ∷ ms) (t ∷ ts) = (m, some t) ∷ flagged_of ms ts

pub triages_of : Option (List Triage × Summary) → List Triage
triages_of none = []
triages_of (some (ts, s)) = ts

pub to_compare : CheckResult → Compared
to_compare r = record {
  filename = r.filename;
  overall = r.matched.overall;
  triage_summary = summary_of r.triage;
  report = r.report;
  matches = flagged_of r.matched.matches (triages_of r.triage);
}

-- The runner's engine with the pipeline, and with `compare` at its five examples.
unfoldable pub engine_of :
    (Bytes → String)
    → (PipelineError → String)
    → Bool
    → (Text → Text)
    → Collaborators
    → Engine CheckResult
unfolding compute to_compare flagged_of triages_of compare
engine_of digest message academic_enabled casefold c = record {
  digest = digest;
  compute = compute message academic_enabled c;
  add_recheck = λ previous id result. record result {
    recheck =
        some (compare c.parser.unicode casefold id 5 (to_compare previous) (to_compare result));
  };
}
