-- ===== src/Parser/Anchors.antt =====
-- The paragraphs' offsets cut exactly the paragraphs out of the text.
use p_r_i_s_m.Prelude.{
  ℕ, suc, ◌+◌, ◌-◌, ◌≤◌, List, [], ◌∷◌, ◌++◌, ◌≡◌, refl, sym, ap, subst, ◌∙◌, Option, some, All,
  length, length-append, take, drop, arith,
}
use p_r_i_s_m.Text.{Text, slice}
use p_r_i_s_m.Triage.Signals.{Paragraph}
use p_r_i_s_m.Pipeline.Localize.Located.{IsLaidOut}
use p_r_i_s_m.Parser.{
  Warning, Block, ParserLibraries, Parsed, ok, exceeded, raised, ParsedDocument, paragraph_sep,
  assemble_from, ◌>>=◌, Warning, assemble, exclude_reference_list, read_blocks, finish,
  parse_document,
}

append_assoc : (xs ys zs : Text) → (xs ++ ys) ++ zs ≡ xs ++ (ys ++ zs)
append_assoc [] ys zs = refl
append_assoc (x ∷ xs) ys zs = ap (λ (l : Text). x ∷ l) (append_assoc xs ys zs)

drop-append : (xs ys : Text) → drop (length xs) (xs ++ ys) ≡ ys
drop-append [] ys = refl
drop-append (x ∷ xs) ys = drop-append xs ys

take-append : (xs ys : Text) → take (length xs) (xs ++ ys) ≡ xs
take-append [] ys = refl
take-append (x ∷ xs) ys = ap (λ (l : Text). x ∷ l) (take-append xs ys)

slice-append : (a b c : Text) → slice (a ++ (b ++ c)) (length a) (length a + length b) ≡ b
slice-append a b c =
    let len : length a + length b - length a ≡ length b = omega arith in
    rw (len, drop-append a (b ++ c)) (take-append b c)

-- A paragraph's anchor: its text stands in the document between its offsets.
unfoldable pub IsAnchored : Text → Paragraph → Type 0
IsAnchored text p = p.text ≡ some (slice text p.start p.stop)

-- The indices count up.
unfoldable pub IsNumbered : ℕ → List Paragraph → Type 0
IsNumbered i [] = Unit
IsNumbered i (p ∷ ps) = (p.index ≡ i) × IsNumbered (suc i) ps

assemble_from-IsNumbered :
    (pos i : ℕ) (blocks : List Block) → IsNumbered i (assemble_from pos i blocks).1
unfolding assemble_from IsNumbered
assemble_from-IsNumbered pos i [] = tt
assemble_from-IsNumbered pos i ((page, t) ∷ blocks) =
    (refl, assemble_from-IsNumbered (pos + length t + 2) (suc i) blocks)

assemble_from-IsAnchored :
    (before : Text) (i pos : ℕ) (blocks : List Block)
    → length before ≡ pos
    → All (IsAnchored (before ++ (assemble_from pos i blocks).0)) (assemble_from pos i blocks).1
unfolding assemble_from IsAnchored
assemble_from-IsAnchored before i pos [] h = tt
assemble_from-IsAnchored before i pos ((page, t) ∷ blocks) h =
    let rest = (assemble_from (pos + length t + 2) (suc i) blocks).0 in
    let shift : before ++ (t ++ (paragraph_sep ++ rest))
        ≡ (before ++ (t ++ paragraph_sep)) ++ rest =
      ap (λ (l : Text). before ++ l) (sym (append_assoc t paragraph_sep rest))
      ∙ sym (append_assoc before (t ++ paragraph_sep) rest) in
    let len : length (before ++ (t ++ paragraph_sep)) ≡ pos + length t + 2 =
      omega (arith, length-append before (t ++ paragraph_sep), length-append t paragraph_sep) in
    (
      subst (λ n. some t ≡ some (slice (before ++ (t ++ (paragraph_sep ++ rest))) n (n + length t)))
          h (ap some (sym (slice-append before t (paragraph_sep ++ rest)))),
      subst
          (λ (whole : Text).
            All (IsAnchored whole) (assemble_from (pos + length t + 2) (suc i) blocks).1)
          (sym shift)
          (assemble_from-IsAnchored (before ++ (t ++ paragraph_sep)) (suc i) (pos + length t + 2)
            blocks len),
    )

assemble_from-later :
    (n pos i : ℕ) (blocks : List Block)
    → n ≤ pos
    → All (λ p. n ≤ p.start) (assemble_from pos i blocks).1
unfolding assemble_from
assemble_from-later n pos i [] h = tt
assemble_from-later n pos i ((page, t) ∷ blocks) h =
    (h, assemble_from-later n (pos + length t + 2) (suc i) blocks (omega arith))

assemble_from-IsLaidOut :
    (pos i : ℕ) (blocks : List Block) → IsLaidOut (assemble_from pos i blocks).1
unfolding assemble_from IsLaidOut
assemble_from-IsLaidOut pos i [] = tt
assemble_from-IsLaidOut pos i ((page, t) ∷ blocks) = (
  omega arith,
  assemble_from-later (pos + length t) (pos + length t + 2) (suc i) blocks (omega arith),
  assemble_from-IsLaidOut (pos + length t + 2) (suc i) blocks,
)

-- What is true of every document that the parser hands out.
pub record IsParsed (max_chars : ℕ) (d : ParsedDocument) : Type 0 where
  pub anchored : All (IsAnchored d.text) d.paragraphs
  pub numbered : IsNumbered 0 d.paragraphs
  pub laid_out : IsLaidOut d.paragraphs
  pub in_limit : length d.text ≤ max_chars

assemble-IsParsed :
    (max_chars : ℕ) (blocks : List Block) (d : ParsedDocument)
    → d.text ≡ (assemble blocks).0
    → d.paragraphs ≡ (assemble blocks).1
    → length d.text ≤ max_chars
    → IsParsed max_chars d
unfolding assemble
assemble-IsParsed max_chars blocks d text paragraphs limit = record {
  anchored = rw (text, paragraphs) (assemble_from-IsAnchored [] 0 0 blocks refl);
  numbered = rw paragraphs (assemble_from-IsNumbered 0 0 blocks);
  laid_out = rw paragraphs (assemble_from-IsLaidOut 0 0 blocks);
  in_limit = limit;
}

finish-IsParsed :
    (lib : ParserLibraries) (name : Text) (bytes : List ℕ) (max_chars : ℕ)
    (read : List Block × Option ℕ × List Warning) (d : ParsedDocument)
    → finish lib name bytes max_chars read ≡ ok d
    → IsParsed max_chars d
unfolding finish
finish-IsParsed lib name bytes max_chars (blocks, page_count, warnings) d h =
    assemble-IsParsed max_chars (exclude_reference_list lib blocks).0 d (ground arith)
      (ground arith) (ground arith)

then_finish-IsParsed :
    (lib : ParserLibraries) (name : Text) (bytes : List ℕ) (max_chars : ℕ)
    (read : Parsed (List Block × Option ℕ × List Warning)) (d : ParsedDocument)
    → (read >>= finish lib name bytes max_chars) ≡ ok d
    → IsParsed max_chars d
then_finish-IsParsed lib name bytes max_chars (ok r) d h =
    finish-IsParsed lib name bytes max_chars r d h
then_finish-IsParsed lib name bytes max_chars (exceeded e) d h = cc
then_finish-IsParsed lib name bytes max_chars raised d h = cc

-- Whatever the file and the libraries, a document that the parser hands out is no longer than the
-- limit, its paragraphs are numbered from 0 and follow each other, and each paragraph's text is
-- exactly what stands in the document's text between its two offsets.
pub parse_document-IsParsed :
    (lib : ParserLibraries) (name : Text) (bytes : List ℕ) (max_pdf_pages max_chars : ℕ)
    (d : ParsedDocument)
    → parse_document lib name bytes max_pdf_pages max_chars ≡ ok d
    → IsParsed max_chars d
unfolding parse_document
parse_document-IsParsed lib name bytes max_pdf_pages max_chars d h =
    then_finish-IsParsed lib name bytes max_chars (read_blocks lib name bytes max_pdf_pages) d h
