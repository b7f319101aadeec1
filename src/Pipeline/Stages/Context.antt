-- ===== src/Pipeline/Stages/Context.antt =====
-- backend/pipeline/base.py: the context of a check, and how a stage ends.
use p_r_i_s_m.Prelude.{ℕ, List, ◌++◌, Bool, Option, none, some, String}
use p_r_i_s_m.Text.{Text}
use p_r_i_s_m.Matcher.Types.{SourceDoc}
use p_r_i_s_m.Matcher.Check
use p_r_i_s_m.Matcher.Check.{PlagiarismMatcher, Search, Report, is_blank}
use p_r_i_s_m.Parser
use p_r_i_s_m.Parser.{ParserLibraries, Parsed, ParsedDocument, ParseLimit, parse_document}
use p_r_i_s_m.Triage.Signals.{Paragraph}
use p_r_i_s_m.Triage.Summary.{Triage, Summary}
use p_r_i_s_m.Coach.Session.{Session}
use p_r_i_s_m.Coach.Summary.{CoachSummary}

pub record RawInput : Type 0 where
  pub name : Text
  pub content : List ℕ

pub record Document : Type 0 where
  pub name : Text
  pub text : Text
  pub paragraphs : List Paragraph
  pub page_count : Option ℕ

-- The warnings, the first with the text of a warning of the request.
pub data Warning : Type 0 where
  requested : Text → Warning
  parsing : Parser.Warning → Warning
  skipped_over_limit : Text → ParseLimit → Warning
  skipped_without_text : Text → Warning
  searching : String → Warning
  search_failed rerank_skipped : Warning
  matching : Check.Warning → Warning

-- The errors that the user is shown.
pub data PipelineError : Type 0 where
  no_document_provided no_document_to_check no_readable_text no_usable_sources : PipelineError
  limit_exceeded : ParseLimit → PipelineError

-- What the coach leaves: the flags with their cards, the cache and the budget, and the summary.
pub record CoachResult : Type 0 where
  pub session : Session
  pub summary : CoachSummary

-- The keys of `artifacts` are fields: `report` holds those that the match stage sets.
pub record CheckContext : Type 0 where
  pub document : Option Document
  pub raw_document : Option RawInput
  pub raw_sources : List RawInput
  pub sources : List SourceDoc
  pub warnings : List Warning
  pub report : Option Report
  pub academic_used : Bool
  pub reranked_count : Option ℕ
  pub triage : Option (List Triage × Summary)
  pub coach : Option CoachResult

-- How a stage ends: with the context, with a `PipelineError`, or with any other exception.
pub data Result : Type 0 where
  ok : CheckContext → Result
  error : PipelineError → Result
  crashed : Result

abbrev pub Stage : Type 0
Stage = CheckContext → Result

infixl 5 ◌>>=◌
unfoldable pub ◌>>=◌ : Result → Stage → Result
ok ctx >>= stage = stage ctx
error e >>= stage = error e
crashed >>= stage = crashed

-- `warn` and `extend_warnings`, for messages that are not empty
unfoldable pub extend_warnings : List Warning → CheckContext → CheckContext
extend_warnings messages ctx = record ctx { warnings = ctx.warnings ++ messages }

unfoldable pub ask : Option Document → (Document → Stage) → Stage
ask none stage ctx = error no_document_to_check
ask (some doc) stage ctx = stage doc ctx

-- a stage that begins with `require_document`
unfoldable pub with_document : (Document → Stage) → Stage
unfolding ask
with_document stage ctx = ask ctx.document stage ctx
