-- ===== src/Pipeline/Localize/Context.antt =====
-- The parser, the localize stage and the triage together: citations are looked for in the paragraph
-- in which a match begins.
use p_r_i_s_m.Prelude.{
  ℕ, zero, suc, ◌+◌, ◌≤◌, ◌<◌, List, [], ◌∷◌, some, subst, get_elem?, ◌≡◌, ap, arith, All,
}
use p_r_i_s_m.Text.{Text, slice}
use p_r_i_s_m.Matcher.Types.{Match}
use p_r_i_s_m.Triage.Signals.{Paragraph, Python, paragraph_text}
use p_r_i_s_m.Parser.{ParserLibraries, ParsedDocument, ok, parse_document}
use p_r_i_s_m.Parser.Anchors.{IsAnchored, IsNumbered, parse_document-IsParsed}
use p_r_i_s_m.Pipeline.Localize.{localize}
use p_r_i_s_m.Pipeline.Localize.Located.{localize_inside}

index_at :
    (j i : ℕ) (p : Paragraph) (ps : List Paragraph)
    → IsNumbered j ps
    → get_elem? ps i ≡ some p
    → p.index ≡ j + i
unfolding IsNumbered
index_at j i p [] h e = ground arith
index_at j zero p (q ∷ ps) h e = ground arith
index_at j (suc i) p (q ∷ ps) h e = omega (arith, index_at (suc j) i p ps h.1 e)

anchored_at :
    (text : Text) (i : ℕ) (p : Paragraph) (ps : List Paragraph)
    → All (IsAnchored text) ps
    → get_elem? ps i ≡ some p
    → p.text ≡ some (slice text p.start p.stop)
unfolding IsAnchored
anchored_at text i p [] h e = ground arith
anchored_at text zero p (q ∷ ps) h e =
    let same : q ≡ p = ground arith in
    subst (λ x. x.text ≡ some (slice text x.start x.stop)) same h.0
anchored_at text (suc i) p (q ∷ ps) h e = anchored_at text i p ps h.1 e

module _ (py : Python) (text : Text) where
  paragraph_text_numbered :
      (j i : ℕ) (p : Paragraph) (ps : List Paragraph) (m : Match) (t : Text)
      → IsNumbered j ps
      → get_elem? ps i ≡ some p
      → m.paragraph_index ≡ some p.index
      → p.text ≡ some t
      → paragraph_text py text ps m ≡ t
  unfolding paragraph_text IsNumbered
  paragraph_text_numbered j i p [] m t n e at has = ground arith
  paragraph_text_numbered j zero p (q ∷ ps) m t n e at has = ground arith
  paragraph_text_numbered j (suc i) p (q ∷ ps) m t n e at has =
      let later = index_at (suc j) i p ps n.1 e in
      ground (arith, paragraph_text_numbered (suc j) i p ps m t n.1 e at has)

-- In every document that the parser hands out, for a match that begins inside its paragraph `i`,
-- the localize stage leads the triage to exactly the text between that paragraph's offsets.
pub paragraph_text-localize :
    (lib : ParserLibraries) (py : Python) (name : Text) (bytes : List ℕ)
    (max_pdf_pages max_chars : ℕ) (d : ParsedDocument) (i : ℕ) (p : Paragraph) (m : Match)
    → parse_document lib name bytes max_pdf_pages max_chars ≡ ok d
    → get_elem? d.paragraphs i ≡ some p
    → p.start ≤ m.doc_start
    → m.doc_start < p.stop
    → paragraph_text py d.text d.paragraphs (localize d.paragraphs m) ≡ slice d.text p.start p.stop
paragraph_text-localize lib py name bytes max_pdf_pages max_chars d i p m h e a b =
    let parsed = parse_document-IsParsed lib name bytes max_pdf_pages max_chars d h in
    let placed = localize_inside i p d.paragraphs m parsed.laid_out e a b in
    paragraph_text_numbered py d.text 0 i p d.paragraphs (localize d.paragraphs m)
      (slice d.text p.start p.stop) parsed.numbered e (ap (λ x. x.paragraph_index) placed)
      (anchored_at d.text i p d.paragraphs parsed.anchored e)
