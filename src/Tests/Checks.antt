-- ===== src/Tests/Checks.antt =====
-- The matcher's report and a whole check at concrete inputs.
use p_r_i_s_m.Prelude.{◌≡◌, refl, List, [], ◌∷◌, none, some, true, false}
use p_r_i_s_m.Text.{codes, decimal, digits, text_eq, ends_with, strip}
use p_r_i_s_m.Matcher.Types.{SourceDoc, Match}
use p_r_i_s_m.Matcher.Check
use p_r_i_s_m.Matcher.Check.{
  PlagiarismMatcher, Search, found, Report, check, is_blank, confident_threshold_for,
}
use p_r_i_s_m.Matcher.Check.Reported.{IsReport, check-IsReport}
use p_r_i_s_m.Pipeline.Stages.{
  CheckContext, Collaborators, check_stages, run_pipeline, build_check_stages, ◌>>=◌, error,
  crashed, no_document_provided,
}
use p_r_i_s_m.Pipeline.Stages.Begun.{Ends}
use p_r_i_s_m.Pipeline.Stages.Completed.{IsUnfit, IsComplete, run_pipeline-Ends}
use p_r_i_s_m.Worker.Runner.Request.{CheckRequest}
use p_r_i_s_m.Worker.Runner.Assembly.{CheckResult, context_of, compute}
use p_r_i_s_m.Worker.Runner.Coverage.{coverage_statement}
use p_r_i_s_m.Worker.Runner.Computed.{IsReadable, compute-IsReadable}
use p_r_i_s_m.Pipeline.Stages.Coached.{IsCoached, build_check_stages-IsCoached}
use p_r_i_s_m.Tests.Coach.{coach_stage, client}
use p_r_i_s_m.Tests.Paraphrase.{counted, tools, search_settings}
use p_r_i_s_m.Tests.Triage.{python}
use p_r_i_s_m.Tests.Parser.{libraries, bytes}
use p_r_i_s_m.Parser.{Pdf, parse_document, assemble, exclude_reference_list}
use p_r_i_s_m.Tests.Pipeline.{ten_thousandths, stage, rounding, predict}

abbrev given : PlagiarismMatcher
given = record {
  ngram = 2;
  min_verbatim_words = 1;
  paraphrase_threshold = 6600;
  confident_threshold = 7800;
  confidence_scaling = true;
  confidence_scale_pivot = 500;
  confidence_ceiling = 9200;
}

abbrev matcher : PlagiarismMatcher
matcher = record given { min_verbatim_words = 2 }

-- the cutoff against 5 000 sentences, where the scaled one is 0.84
raised : confident_threshold_for (λ base n pivot. 8400) matcher 5000 ≡ 8400
unfolding confident_threshold_for
raised = refl

abbrev paraphrase : List SourceDoc → List Match → Search
paraphrase sources verbatim = record {
  outcome = found [];
  warnings = [];
  cutoff = none;
  corpus_sentences = 0;
}

check-IsReport_example :
    (report : Report) × (check python.unicode rounding matcher paraphrase (codes "cats purr") []
      ≡ some report)
    × IsReport python.unicode (codes "cats purr") report
unfolding Check.new
check-IsReport_example =
    check-IsReport python.unicode rounding given matcher paraphrase (codes "cats purr") [] refl

abbrev collaborators : Collaborators
collaborators = record {
  parser = libraries;
  python = python;
  rounding = rounding;
  scores = ten_thousandths;
  source_id = λ i. "src-0";
  max_pdf_pages = 300;
  max_document_chars = 2000;
  use_academic = false;
  look_up = λ text. none;
  matcher = matcher;
  similarities = counted;
  tools = tools;
  search_settings = search_settings;
  rerank_stage = stage;
  predict = predict;
  coach = none;
}

abbrev upload : CheckContext
upload = record {
  document = none;
  raw_document = some (record { name = codes "a.txt"; content = bytes });
  raw_sources = record { name = codes "b.txt"; content = bytes } ∷ [];
  sources = [];
  warnings = [];
  report = none;
  academic_used = false;
  reranked_count = none;
  triage = none;
  coach = none;
}

run_pipeline-Ends_example :
    Ends
      (IsUnfit libraries ten_thousandths predict upload)
      (IsComplete python)
      (run_pipeline (check_stages collaborators) upload)
unfolding Check.new
run_pipeline-Ends_example = run_pipeline-Ends collaborators given upload refl

nothing_uploaded :
    run_pipeline (check_stages collaborators) (record upload { raw_document = none })
    ≡ error no_document_provided
unfolding run_pipeline check_stages ◌>>=◌
nothing_uploaded = refl

-- A PDF whose second page PyMuPDF cannot read makes a check fail, be it a reference alone.
abbrev broken_pdf : Pdf
broken_pdf = record {
  page_count = some 2;
  is_encrypted = some false;
  opens_without_password = none;
  pages = some [] ∷ none ∷ [];
}

broken_reference :
    run_pipeline
      (check_stages (record collaborators {
        parser = record libraries { open_pdf = λ bytes. some broken_pdf };
      }))
      (record upload { raw_sources = record { name = codes "b.pdf"; content = bytes } ∷ [] })
    ≡ crashed
unfolding run_pipeline check_stages ◌>>=◌ parse_document assemble exclude_reference_list text_eq
    ends_with strip is_blank
broken_reference = refl

abbrev request : CheckRequest CheckResult
request = record {
  paper = (codes "a.txt", bytes);
  references = (codes "b.txt", bytes) ∷ [];
  use_academic = true;
  base_warnings = [];
  previous = none;
  previous_job_id = none;
}

compute-IsReadable_example :
    IsReadable
      (IsUnfit libraries ten_thousandths predict (context_of request))
      python
      (compute (λ e. "The check was refused.") false collaborators request)
unfolding Check.new
compute-IsReadable_example =
    compute-IsReadable (λ e. "The check was refused.") false collaborators given request refl

checked_against :
    coverage_statement 2 true 1 0 ("arxiv" ∷ [])
    ≡ codes
        "Checked against 2 uploaded reference files and 1 open-access sources from arXiv (1 with full text). Not checked: the wider web, subscription journal databases, or student-paper repositories — a clean result here is not a guaranteed pass elsewhere."
unfolding coverage_statement decimal digits
checked_against = refl

build_check_stages-IsCoached_example :
    Ends
      (IsUnfit libraries ten_thousandths predict upload)
      (IsCoached python coach_stage client)
      (run_pipeline (build_check_stages (record collaborators { coach = some coach_stage })) upload)
unfolding Check.new
build_check_stages-IsCoached_example =
    build_check_stages-IsCoached (record collaborators { coach = some coach_stage }) given
      coach_stage client upload refl refl refl tt
