-- ===== src/Parser/Types.antt =====
-- The data of backend/services/document_parser.py, and what other code brings to it.
use p_r_i_s_m.Prelude.{
  ℕ, suc, ◌+◌, List, [], ◌∷◌, ◌++◌, Bool, Option, none, some, nat_eq, length, if◌then◌else◌,
}
use p_r_i_s_m.Text.{Text, Eq-Text, Unicode}
use p_r_i_s_m.Triage.Signals.{Paragraph}

-- A block of text, with its page where the file has pages.
abbrev pub Block : Type 0
Block = Option ℕ × Text

-- The patterns that the parser substitutes, and those that it tests.
pub data Substitution : Type 0 where
  wrap_hyphen hard_wrap line_breaks runs_of_spaces digits : Substitution

pub data Heading : Type 0 where
  bibliography page_number : Heading

-- A block as PyMuPDF returns it.
pub record PdfBlock : Type 0 where
  pub text : Text
  pub is_image : Bool

-- A PDF that PyMuPDF has opened. `none` stands for an exception that PyMuPDF raises where the code
-- asks for the value, or comes to the page and asks for its blocks.
pub record Pdf : Type 0 where
  pub page_count : Option ℕ
  pub is_encrypted : Option Bool
  pub opens_without_password : Option Bool
  pub pages : List (Option (List PdfBlock))

-- What other code brings: the Unicode database and the foldings of a text, the regular
-- expressions, the decoding of bytes as UTF-8 with replacement, and PyMuPDF, with the order of two
-- blocks by their rounded positions.
pub record ParserLibraries : Type 0 where
  pub unicode : Unicode
  pub lower : Text → Text
  pub casefold : Text → Text
  pub substitute : Substitution → Text → Text
  pub matches : Heading → Text → Bool
  pub split_at_blank_lines : Text → List Text
  pub decode : List ℕ → Text
  pub open_pdf : List ℕ → Option Pdf
  pub above : PdfBlock → PdfBlock → Bool

-- The warnings, and the errors of the class `ParseLimitExceeded`, with the figures they name.
pub data Warning : Type 0 where
  cannot_open password_protected no_text : Warning
  reference_list_excluded : ℕ → Warning

pub data ParseLimit : Type 0 where
  too_many_pages : ℕ → ℕ → ParseLimit
  too_many_characters : ℕ → ℕ → ParseLimit

-- How the parser ends: with a value, with a `ParseLimitExceeded`, or with an exception of PyMuPDF,
-- which nothing in the parser catches once the PDF is open.
pub data Parsed (A : Type 0) : Type 0 where
  ok : A → Parsed A
  exceeded : ParseLimit → Parsed A
  raised : Parsed A

infixl 5 ◌>>=◌
abbrev pub ◌>>=◌ : {A B : Type 0} → Parsed A → (A → Parsed B) → Parsed B
ok a >>= f = f a
exceeded e >>= f = exceeded e
raised >>= f = raised

-- what PyMuPDF is asked for
abbrev pub delivered : {A : Type 0} → Option A → Parsed A
delivered none = raised
delivered (some a) = ok a

pub record ParsedDocument : Type 0 where
  pub text : Text
  pub paragraphs : List Paragraph
  pub page_count : Option ℕ
  pub is_pdf : Bool
  pub warnings : List Warning
  pub excluded_reference_paragraphs : ℕ

-- `.replace("\r\n", "\n").replace("\r", "\n")`
unfoldable pub normalise_newlines : Text → Text
normalise_newlines [] = []
normalise_newlines (c ∷ []) = (if nat_eq c 13 then 10 else c) ∷ []
normalise_newlines (c ∷ d ∷ text) =
    let rest = normalise_newlines (d ∷ text) in
    if nat_eq c 13 then (if nat_eq d 10 then rest else 10 ∷ rest) else c ∷ rest

-- `_PARAGRAPH_SEP`
abbrev pub paragraph_sep : Text
paragraph_sep = 10 ∷ 10 ∷ []

-- The loop of `_assemble`; `pos` is the offset and `i` the index of the next block.
unfoldable pub assemble_from : ℕ → ℕ → List Block → Text × List Paragraph
assemble_from pos i [] = ([], [])
assemble_from pos i ((page, text) ∷ blocks) =
    let stop = pos + length text in
    let (rest, paragraphs) = assemble_from (stop + 2) (suc i) blocks in
    (
      text ++ (paragraph_sep ++ rest),
      record { index = i; start = pos; stop = stop; text = some text; page = page } ∷ paragraphs,
    )

-- `_assemble`
unfoldable pub assemble : List Block → Text × List Paragraph
unfolding assemble_from
assemble blocks = assemble_from 0 0 blocks
