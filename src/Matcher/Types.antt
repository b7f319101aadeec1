-- ===== src/Matcher/Types.antt =====
-- `SourceDoc`, and the dict that describes one match, of backend/services/plagiarism_matcher.py.
-- A float that the code has rounded to d decimals is a whole number of units of the last place:
-- a similarity or a cutoff counts ten-thousandths, a percentage counts hundredths.
use p_r_i_s_m.Prelude.{ℕ, Bool, Option, String}
use p_r_i_s_m.Text.{Text}

-- `kind`: what `text` is
pub data SourceKind : Type 0 where
  fulltext abstract_only : SourceKind

pub record SourceDoc : Type 0 where
  pub id : String
  pub name : Text
  pub text : Text
  pub origin : String
  pub url : Option String
  pub kind : SourceKind

pub data MatchType : Type 0 where
  verbatim paraphrase translated : MatchType

pub data Confidence : Type 0 where
  confident review : Confidence

-- The keys of a match. A key that the code leaves out until a later stage sets it is `none`,
-- and a missing `numeric_conflict` is `false`, as its readers take it.
pub record Match : Type 0 where
  pub match_type : MatchType
  pub similarity : ℕ
  pub confidence : Confidence
  pub numeric_conflict : Bool
  pub words : ℕ
  pub doc_start : ℕ
  pub doc_end : ℕ
  pub source_id : String
  pub source_name : Text
  pub source_origin : String
  pub source_url : Option String
  pub source_start : ℕ
  pub source_end : ℕ
  pub source_excerpt : Text
  pub source_context : Text
  pub doc_lang : Option String
  pub source_lang : Option String
  pub doc_excerpt : Option Text
  pub id : Option ℕ
  pub paragraph_index : Option ℕ
  pub page : Option ℕ
  pub rerank_score : Option ℕ
