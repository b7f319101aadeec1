-- ===== src/Pipeline/Stages.antt =====
-- backend/pipeline/: the context of base.py, the stages of stages.py that parse, retrieve, match and
-- triage, and `run_pipeline` and `build_check_stages` of orchestrator.py. The timings are left out.
mod Context
pub mod Begun
pub mod Coached
pub mod Coaching
pub mod Completed
unfoldable pub use Context.*
use p_r_i_s_m.Prelude.{
  ℕ, zero, suc, ◌+◌, List, [], ◌∷◌, ◌++◌, map, Bool, true, false, not, Option, none, some, String,
  ltb, nat_eq, length, if◌then◌else◌,
}
use p_r_i_s_m.Text.{Text, Unicode, codes}
use p_r_i_s_m.Matcher.Types.{SourceDoc, Match, fulltext}
use p_r_i_s_m.Matcher.Tokens.{tokenize}
use p_r_i_s_m.Matcher.Coverage.{Rounding}
use p_r_i_s_m.Matcher.Check
use p_r_i_s_m.Matcher.Check.{PlagiarismMatcher, Search, Report, is_blank}
use p_r_i_s_m.Matcher.Paraphrase.{Similarities, Tools, SearchSettings, paraphrase_matches}
use p_r_i_s_m.Parser
use p_r_i_s_m.Parser.{ParserLibraries, Parsed, ParsedDocument, ParseLimit, parse_document}
use p_r_i_s_m.Triage.Signals.{Paragraph, Python}
use p_r_i_s_m.Triage.Summary.{Triage, Summary, triage_matches}
use p_r_i_s_m.Pipeline.Localize
use p_r_i_s_m.Pipeline.Rerank
use p_r_i_s_m.Pipeline.Rerank.{Scores, RerankStage}
use p_r_i_s_m.Pipeline.Stages.Coaching
use p_r_i_s_m.Pipeline.Stages.Coaching.{CoachStage}

-- `ctx.raw_sources = []`
unfoldable pub drop_uploads : Stage
drop_uploads ctx = ok (record ctx { raw_sources = [] })

module _ (lib : ParserLibraries) (max_pdf_pages max_chars : ℕ) where
  -- what follows the call of `parse_document` on the manuscript
  unfoldable pub take_manuscript : RawInput → Parsed ParsedDocument → Stage
  unfolding extend_warnings
  take_manuscript raw (Parser.exceeded limit) ctx = error (limit_exceeded limit)
  take_manuscript raw Parser.raised ctx = crashed
  take_manuscript raw (Parser.ok parsed) ctx =
      if is_blank lib.unicode parsed.text
      then error no_readable_text
      else ok (record (extend_warnings (map parsing parsed.warnings) ctx) {
        document = some (record {
          name = raw.name;
          text = parsed.text;
          paragraphs = parsed.paragraphs;
          page_count = parsed.page_count;
        });
      })

  -- the first part of `ParseStage.run`, on the two documents of the context
  unfoldable pub parse_given : Option Document → Option RawInput → Stage
  unfolding take_manuscript
  parse_given (some doc) raw ctx = ok ctx
  parse_given none none ctx = error no_document_provided
  parse_given none (some raw) ctx =
      take_manuscript raw (parse_document lib raw.name raw.content max_pdf_pages max_chars) ctx

  -- a reference that was parsed: a source with its id, or a warning
  unfoldable pub take_source : String → RawInput → Parsed ParsedDocument → Stage
  take_source id raw (Parser.exceeded limit) ctx =
      ok (record ctx { warnings = ctx.warnings ++ skipped_over_limit raw.name limit ∷ [] })
  take_source id raw Parser.raised ctx = crashed
  take_source id raw (Parser.ok parsed) ctx =
      if is_blank lib.unicode parsed.text
      then ok (record ctx { warnings = ctx.warnings ++ skipped_without_text raw.name ∷ [] })
      else ok (record ctx {
        sources =
            ctx.sources
            ++ record {
              id = id;
              name = raw.name;
              text = parsed.text;
              origin = "upload";
              url = none;
              kind = fulltext;
            }
              ∷ [];
      })

  -- the loop over the references; `source_id` is the format `f"src-{i}"`
  unfoldable pub parse_sources : (ℕ → String) → ℕ → List RawInput → Stage
  unfolding take_source
  parse_sources source_id i [] ctx = ok ctx
  parse_sources source_id i (raw ∷ raws) ctx =
      take_source (source_id i) raw
        (parse_document lib raw.name raw.content max_pdf_pages max_chars) ctx
      >>= parse_sources source_id (suc i) raws

  unfoldable pub add_sources : (ℕ → String) → Stage
  unfolding parse_sources drop_uploads
  add_sources source_id ctx = parse_sources source_id 0 ctx.raw_sources ctx >>= drop_uploads

  -- `ParseStage.run`
  unfoldable pub parse : (ℕ → String) → Stage
  unfolding parse_given add_sources
  parse source_id ctx = parse_given ctx.document ctx.raw_document ctx >>= add_sources source_id

-- `if not ctx.sources`
unfoldable pub require_sources : Stage
require_sources ctx = if nat_eq (length ctx.sources) 0 then error no_usable_sources else ok ctx

-- the search, which returns sources and warnings or raises
unfoldable pub add_academic : Option (List SourceDoc × List String) → CheckContext → CheckContext
add_academic none ctx = record ctx { warnings = ctx.warnings ++ search_failed ∷ [] }
add_academic (some (found, messages)) ctx = record ctx {
  sources = ctx.sources ++ found;
  warnings = ctx.warnings ++ map searching messages;
  academic_used = ltb 0 (length found);
}

answer_of :
    (Text → Option (List SourceDoc × List String))
    → Option Document
    → Option (List SourceDoc × List String)
answer_of look_up none = none
answer_of look_up (some doc) = look_up doc.text

-- `RetrieveStage.run`. A missing document is one of the exceptions that the stage catches.
unfoldable pub retrieve : (Text → Option (List SourceDoc × List String)) → Bool → Stage
unfolding add_academic require_sources answer_of
retrieve look_up use_academic ctx =
    require_sources
      (if use_academic then add_academic (answer_of look_up ctx.document) ctx else ctx)

module _ (u : Unicode) (r : Rounding) where
  -- `MatchStage.run`, on the report of the matcher
  unfoldable pub take_report : Option Report → Stage
  unfolding extend_warnings
  take_report none ctx = crashed
  take_report (some report) ctx =
      ok (record (extend_warnings (map matching report.warnings) ctx) { report = some report })

  unfoldable pub match : PlagiarismMatcher → (Text → List SourceDoc → List Match → Search) → Stage
  unfolding take_report with_document
  match matcher paraphrase = with_document (λ doc ctx.
      take_report (Check.check u r matcher (paraphrase doc.text) doc.text ctx.sources) ctx)

  -- `RerankStage.run`, on the part of the context that it reads and writes. The document is asked
  -- for only where there is something to score.
  unfoldable pub put_back : Option Document → Report → CheckContext → Option Rerank.Context → Result
  put_back doc report ctx none = crashed
  put_back none report ctx (some after) = elim after.reranked_count [
    | none ↦ ok (record ctx {
      warnings = ctx.warnings ++ (if after.warned then rerank_skipped ∷ [] else []);
    })
    | some n ↦ error no_document_to_check
  ]
  put_back (some doc) report ctx (some after) = ok (record ctx {
    report = some (record report { matches = after.matches; overall = after.overall });
    reranked_count = elim after.reranked_count [ none ↦ ctx.reranked_count | some n ↦ some n ];
    warnings = ctx.warnings ++ (if after.warned then rerank_skipped ∷ [] else []);
  })

  text_of : Option Document → Text
  text_of none = []
  text_of (some doc) = doc.text

  unfoldable pub rerank_report :
      (sc : Scores) → RerankStage → (List Match → Option (List sc.Raw)) → Option Report → Stage
  unfolding put_back text_of
  rerank_report sc stage predict none ctx = ok ctx
  rerank_report sc stage predict (some report) ctx = put_back ctx.document report ctx (
      Rerank.run sc stage u r (tokenize u (text_of ctx.document)) predict (record {
        matches = report.matches;
        overall = report.overall;
        confident_threshold_used = report.confident_threshold_used;
        reranked_count = none;
        warned = false;
      }))

  unfoldable pub rerank : (sc : Scores) → RerankStage → (List Match → Option (List sc.Raw)) → Stage
  unfolding rerank_report
  rerank sc stage predict ctx = rerank_report sc stage predict ctx.report ctx

unfoldable pub localize_report : Option Report → Document → Stage
localize_report none doc ctx = ok ctx
localize_report (some report) doc ctx = ok (record ctx {
  report = some (record report { matches = Localize.run doc.paragraphs report.matches });
})

-- `LocalizeStage.run`
unfoldable pub localize : Stage
unfolding with_document localize_report
localize ctx = with_document (localize_report ctx.report) ctx

-- the matches of the report, if there is one
unfoldable pub matches_of : Option Report → List Match
matches_of none = []
matches_of (some report) = report.matches

-- `TriageStage.run`
unfoldable pub triage : Python → Stage
unfolding with_document matches_of
triage py = with_document (λ doc ctx. ok (record ctx {
  triage = some (triage_matches py doc.text doc.paragraphs (matches_of ctx.report) ctx.sources);
}))

-- `run_pipeline`
unfoldable pub run_pipeline : List Stage → Stage
run_pipeline [] ctx = ok ctx
run_pipeline (stage ∷ stages) ctx = stage ctx >>= run_pipeline stages

-- What the stages are built from: the libraries, the matcher with its search for paraphrases, the
-- academic search, the cross-encoder, and the settings.
pub record Collaborators : Type 1 where
  pub parser : ParserLibraries
  pub python : Python
  pub rounding : Rounding
  pub scores : Scores
  pub source_id : ℕ → String
  pub max_pdf_pages : ℕ
  pub max_document_chars : ℕ
  pub use_academic : Bool
  pub look_up : Text → Option (List SourceDoc × List String)
  pub matcher : PlagiarismMatcher
  pub similarities : Similarities
  pub tools : Tools similarities
  pub search_settings : SearchSettings
  pub rerank_stage : RerankStage
  pub predict : List Match → Option (List scores.Raw)
  pub coach : Option CoachStage

-- `_paraphrase_matches` of the matcher
unfoldable pub search_of : Collaborators → Text → List SourceDoc → List Match → Search
unfolding paraphrase_matches
search_of c = paraphrase_matches c.similarities c.tools c.matcher c.search_settings

-- the stages of every check
unfoldable pub check_stages : Collaborators → List Stage
unfolding parse retrieve match rerank localize triage search_of
check_stages c =
    let u = c.parser.unicode in
    parse c.parser c.max_pdf_pages c.max_document_chars c.source_id
    ∷ retrieve c.look_up c.use_academic
    ∷ match u c.rounding c.matcher (search_of c)
    ∷ rerank u c.rounding c.scores c.rerank_stage c.predict
    ∷ localize
    ∷ triage c.python
    ∷ []

unfoldable pub coach_stages : Option CoachStage → List Stage
unfolding Coaching.coach
coach_stages none = []
coach_stages (some stage) = Coaching.coach stage ∷ []

-- `build_check_stages`
unfoldable pub build_check_stages : Collaborators → List Stage
unfolding check_stages coach_stages
build_check_stages c = check_stages c ++ coach_stages c.coach
