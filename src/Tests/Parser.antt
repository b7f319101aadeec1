-- ===== src/Tests/Parser.antt =====
-- The parser on a plain text of two paragraphs, and on a PDF of too many pages.
use p_r_i_s_m.Prelude.{
  ℕ, List, [], ◌∷◌, ◌++◌, ◌≡◌, refl, true, false, none, some, nat_eq, ◌&&◌, arith,
}
use p_r_i_s_m.Text.{Text, codes, slice, text_eq, ends_with, strip}
use p_r_i_s_m.Triage.Signals.{Paragraph, paragraph_text}
use p_r_i_s_m.Pipeline.Localize.{localize}
use p_r_i_s_m.Pipeline.Localize.Context.{paragraph_text-localize}
use p_r_i_s_m.Parser.{
  Block, Pdf, ParserLibraries, ParsedDocument, ok, assemble, exclude_reference_list, parse_document,
}
use p_r_i_s_m.Parser.Anchors.{IsParsed, parse_document-IsParsed}
use p_r_i_s_m.Tests.Triage.{python, restated}

-- the chunks between two newlines in a row; `chunk` is the one that is read
abbrev pub split_from : Text → Text → List Text
split_from chunk [] = chunk ∷ []
split_from chunk (c ∷ []) = (chunk ++ c ∷ []) ∷ []
split_from chunk (c ∷ d ∷ text) = elim (nat_eq c 10 && nat_eq d 10) [
  | true ↦ chunk ∷ split_from [] text
  | false ↦ split_from (chunk ++ c ∷ []) (d ∷ text)
]

abbrev pub long_pdf : Pdf
long_pdf = record {
  page_count = some 400;
  is_encrypted = some false;
  opens_without_password = some false;
  pages = [];
}

abbrev pub libraries : ParserLibraries
libraries = record {
  unicode = python.unicode;
  lower = λ text. text;
  casefold = λ text. text;
  substitute = λ s text. text;
  matches = λ h text. text_eq text (codes "references");
  split_at_blank_lines = split_from [];
  decode = λ bytes. bytes;
  open_pdf = λ bytes. some long_pdf;
  above = λ a b. false;
}

abbrev pub bytes : List ℕ
bytes = codes "cats purr." ++ 10 ∷ 10 ∷ codes "dogs bark."

abbrev name : Text
name = codes "a.txt"

abbrev first : Paragraph
first = record { index = 0; start = 0; stop = 10; text = some (codes "cats purr."); page = none }

abbrev second : Paragraph
second = record { index = 1; start = 12; stop = 22; text = some (codes "dogs bark."); page = none }

abbrev parsed : ParsedDocument
parsed = record {
  text = bytes ++ 10 ∷ 10 ∷ [];
  paragraphs = first ∷ second ∷ [];
  page_count = none;
  is_pdf = false;
  warnings = [];
  excluded_reference_paragraphs = 0;
}

run : Unit {0}
unfolding parse_document assemble exclude_reference_list text_eq ends_with strip
run = tt

the_document : parse_document libraries name bytes 300 1000 ≡ ok parsed
unfolding run
the_document = refl

parse_document-IsParsed_example : IsParsed 1000 parsed
parse_document-IsParsed_example =
    parse_document-IsParsed libraries name bytes 300 1000 parsed the_document

paragraph_text-localize_example :
    let m = record restated { doc_start = 12 } in
    paragraph_text python parsed.text parsed.paragraphs (localize parsed.paragraphs m)
    ≡ slice parsed.text second.start second.stop
paragraph_text-localize_example =
    paragraph_text-localize libraries python name bytes 300 1000 parsed 1 second
      (record restated { doc_start = 12 }) the_document refl (omega arith) (omega arith)

abbrev blocks : List Block
blocks =
    (none, codes "a")
    ∷ (none, codes "b")
    ∷ (none, codes "c")
    ∷ (none, codes "references")
    ∷ (none, codes "d")
    ∷ []
