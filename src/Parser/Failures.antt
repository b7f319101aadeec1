-- ===== src/Parser/Failures.antt =====
-- When the parser ends with an exception that is not its own.
use p_r_i_s_m.Prelude.{
  ℕ, List, [], ◌∷◌, ◌≡◌, refl, ◌⊎◌, Option, none, some, true, false, Bool, ltb, inl, inr,
  Bool-cases, Option-cases, Memᴰ, arith,
}
use p_r_i_s_m.Text.{Text}
use p_r_i_s_m.Parser.{
  ◌>>=◌, ParserLibraries, Parsed, Pdf, PdfBlock, ok, exceeded, raised, delivered, read_pages,
  is_locked, unlocked_blocks, counted_blocks, pdf_blocks, looks_like_pdf, read_blocks, finish,
  parse_document,
}

-- A PDF of which PyMuPDF does not deliver something that the parser asks for.
pub data IsUnreadable (pdf : Pdf) : Type 0 where
  uncounted : pdf.page_count ≡ none → IsUnreadable pdf
  of_unknown_encryption : pdf.is_encrypted ≡ none → IsUnreadable pdf
  not_authenticated : pdf.opens_without_password ≡ none → IsUnreadable pdf
  with_broken_page : Memᴰ none pdf.pages → IsUnreadable pdf

-- An inversion of a bind that ends with such an exception.
bind-eq-raised :
    {A B : Type 0} (m : Parsed A) (f : A → Parsed B)
    → (m >>= f) ≡ raised
    → (m ≡ raised) ⊎ ((a : A) × (m ≡ ok a) × (f a ≡ raised))
bind-eq-raised (ok a) f h = inr (a, refl, h)
bind-eq-raised (exceeded e) f h = cc
bind-eq-raised raised f h = inl refl

delivered-raised : {A : Type 0} (value : Option A) → delivered value ≡ raised → value ≡ none
delivered-raised none h = refl
delivered-raised (some a) h = cc

module _ (lib : ParserLibraries) where
  read_pages-raised :
      (pages : List (Option (List PdfBlock))) → read_pages lib pages ≡ raised → Memᴰ none pages
  unfolding read_pages
  read_pages-raised [] h = cc
  read_pages-raised (none ∷ pages) h = Memᴰ.head refl
  read_pages-raised (some page ∷ pages) h = elim (bind-eq-raised (read_pages lib pages) _ h) [
    | inl e ↦ Memᴰ.tail (read_pages-raised pages e)
    | inr (rest, e, wrong) ↦ cc
  ]

  is_locked-raised : (pdf : Pdf) → is_locked lib pdf ≡ raised → IsUnreadable pdf
  unfolding is_locked
  is_locked-raised pdf h = elim (Option-cases pdf.is_encrypted) [
    | inl e ↦ of_unknown_encryption e
    | inr (true, e) ↦ elim (Option-cases pdf.opens_without_password) [
      | inl e' ↦ not_authenticated e'
      | inr (opens, e') ↦ absurd (ground arith)
    ]
    | inr (false, e) ↦ absurd (ground arith)
  ]

  unlocked_blocks-raised :
      (pdf : Pdf) (page_count : ℕ) (locked : Bool)
      → unlocked_blocks lib pdf page_count locked ≡ raised
      → IsUnreadable pdf
  unfolding unlocked_blocks
  unlocked_blocks-raised pdf page_count true h = cc
  unlocked_blocks-raised pdf page_count false h =
      elim (bind-eq-raised (read_pages lib pdf.pages) _ h) [
        | inl e ↦ with_broken_page (read_pages-raised pdf.pages e)
        | inr (per_page, e, wrong) ↦ cc
      ]

  counted_blocks-raised :
      (pdf : Pdf) (max_pdf_pages page_count : ℕ)
      → counted_blocks lib pdf max_pdf_pages page_count ≡ raised
      → IsUnreadable pdf
  unfolding counted_blocks
  counted_blocks-raised pdf max_pdf_pages page_count h =
      elim (Bool-cases (ltb max_pdf_pages page_count)) [
        | inl many ↦ absurd (ground arith)
        | inr few ↦ elim (bind-eq-raised (is_locked lib pdf) _ (rw few at h)) [
          | inl e ↦ is_locked-raised pdf e
          | inr (locked, e, later) ↦ unlocked_blocks-raised pdf page_count locked later
        ]
      ]

  -- What makes the reading of these bytes fail.
  unfoldable pub IsUnreadableFile : List ℕ → Type 0
  IsUnreadableFile bytes = (pdf : Pdf) × (lib.open_pdf bytes ≡ some pdf) × IsUnreadable pdf

  pdf_blocks-raised :
      (bytes : List ℕ) (max_pdf_pages : ℕ)
      → pdf_blocks lib bytes max_pdf_pages ≡ raised
      → IsUnreadableFile bytes
  unfolding pdf_blocks IsUnreadableFile
  pdf_blocks-raised bytes max_pdf_pages h = elim (Option-cases (lib.open_pdf bytes)) [
    | inl e ↦ absurd (ground arith)
    | inr (pdf, e) ↦
        let later : (delivered pdf.page_count >>= counted_blocks lib pdf max_pdf_pages) ≡ raised =
          rw (e, pdf_blocks) at h in
        elim (bind-eq-raised (delivered pdf.page_count) _ later) [
          | inl d ↦ (pdf, e, uncounted (delivered-raised pdf.page_count d))
          | inr (n, d, wrong) ↦ (pdf, e, counted_blocks-raised pdf max_pdf_pages n wrong)
        ]
  ]

  -- The parser ends with an exception that is not its own only on a PDF that PyMuPDF opens, and of
  -- which it does not deliver the number of pages, the encryption, the check of the empty password or
  -- a page.
  pub parse_document-raised :
      (name : Text) (bytes : List ℕ) (max_pdf_pages max_chars : ℕ)
      → parse_document lib name bytes max_pdf_pages max_chars ≡ raised
      → IsUnreadableFile bytes
  unfolding parse_document read_blocks finish
  parse_document-raised name bytes max_pdf_pages max_chars h =
      elim (bind-eq-raised (read_blocks lib name bytes max_pdf_pages) _ h) [
        | inr (blocks, e, wrong) ↦ absurd (ground arith)
        | inl e ↦ elim (Bool-cases (looks_like_pdf lib name bytes)) [
          | inr plain ↦ absurd (ground arith)
          | inl looks ↦
              elim (bind-eq-raised (pdf_blocks lib bytes max_pdf_pages) _
                (rw (looks, read_blocks) at e)) [
                  | inl e' ↦ pdf_blocks-raised bytes max_pdf_pages e'
                  | inr (read, e', wrong) ↦ absurd (ground arith)
                ]
        ]
      ]
