-- ===== src/Parser/Limits.antt =====
-- What the parser refuses, and what it leaves out.
use p_r_i_s_m.Prelude.{
  ℕ, suc, ◌+◌, ◌-◌, ◌*◌, ◌≤◌, ◌<◌, List, [], ◌∷◌, ◌≡◌, refl, ap, Option, none, some, true, false,
  length, take, get_elem?, inside_of_get_elem?, subst, sym, arith, inl, inr, ◌⊎◌, Bool-cases,
  Option-cases, ltb, leb, ◌&&◌,
}
use p_r_i_s_m.Text.{Text}
use p_r_i_s_m.Parser.{
  ◌>>=◌, Block, ParserLibraries, Pdf, exceeded, too_many_pages, last_heading, bibliography,
  exclude_reference_list, looks_like_pdf, read_blocks, pdf_blocks, counted_blocks, finish,
  parse_document,
}

module _ (lib : ParserLibraries) where
  -- a block that starts a reference list
  pub IsHeading : Block → Type 0
  IsHeading b = (leb (length b.1) 40 && lib.matches bibliography b.1) ≡ true

  -- the heading found stands at its index, in the blocks looked at or before them
  last_heading_lem :
      (i j : ℕ) (blocks : List Block) (found : Option ℕ)
      → last_heading lib i blocks found ≡ some j
      → (found ≡ some j)
        ⊎ ((k : ℕ) × (b : Block) × (j ≡ i + k) × (get_elem? blocks k ≡ some b) × IsHeading b)
  unfolding last_heading IsHeading
  last_heading_lem i j [] found h = inl h
  last_heading_lem i j ((page, t) ∷ blocks) found h =
      elim (Bool-cases (leb (length t) 40 && lib.matches bibliography t)) [
        | inl y ↦ elim (last_heading_lem (suc i) j blocks (some i) (rw y at h)) [
          | inl e ↦ inr (0, (page, t), ground arith, refl, y)
          | inr (k, b, e, g, s) ↦ inr (suc k, b, omega arith, g, s)
        ]
        | inr y ↦ elim (last_heading_lem (suc i) j blocks found (rw y at h)) [
          | inl e ↦ inl e
          | inr (k, b, e, g, s) ↦ inr (suc k, b, omega arith, g, s)
        ]
      ]

  -- What leaves the blocks out of the check: a heading of a reference list among them, in the last
  -- two fifths of at least five blocks.
  pub IsExcluded : List Block → List Block × ℕ → Type 0
  unfolding IsHeading
  IsExcluded blocks (kept, excluded) =
      (k : ℕ) × (b : Block) × (get_elem? blocks k ≡ some b)
      × IsHeading b
      × (5 ≤ length blocks)
      × (6 * length blocks ≤ 10 * k)
      × (kept ≡ take k blocks)
      × (k + 1 + excluded ≡ length blocks)

  late_IsExcluded :
      (blocks : List Block) (i : ℕ)
      → ltb (length blocks) 5 ≡ false
      → last_heading lib 0 blocks none ≡ some i
      → ltb (10 * i) (6 * length blocks) ≡ false
      → IsExcluded blocks (exclude_reference_list lib blocks)
  unfolding exclude_reference_list IsExcluded
  late_IsExcluded blocks i long e late =
      let value : exclude_reference_list lib blocks ≡ (take i blocks, length blocks - i - 1) =
        rw (long, e) (rw late refl) in
      elim (last_heading_lem 0 i blocks none e) [
        | inl absent ↦ cc
        | inr (k, b, at_k, found, heading) ↦
            let inside = inside_of_get_elem? blocks k found in
            let same : i ≡ k = omega arith in
            subst (IsExcluded blocks) (sym value) (
              k,
              b,
              found,
              heading,
              ground arith,
              ground arith,
              ap (λ n. take n blocks) same,
              omega arith,
            )
      ]

  -- Either every block stays and nothing is reported, or the blocks before such a heading stay, and
  -- the number of blocks behind it is what is reported: the list is never dropped silently.
  pub exclude_reference_list_lem :
      (blocks : List Block)
      → (exclude_reference_list lib blocks ≡ (blocks, 0))
        ⊎ IsExcluded blocks (exclude_reference_list lib blocks)
  unfolding exclude_reference_list IsExcluded
  exclude_reference_list_lem blocks = elim (Bool-cases (ltb (length blocks) 5)) [
    | inl short ↦ inl (rw short refl)
    | inr long ↦ elim (Option-cases (last_heading lib 0 blocks none)) [
      | inl e ↦ inl (rw (long, e) refl)
      | inr (i, e) ↦ elim (Bool-cases (ltb (10 * i) (6 * length blocks))) [
        | inl early ↦ inl (rw (long, e) (rw early refl))
        | inr late ↦ inr (late_IsExcluded blocks i long e late)
      ]
    ]
  ]

  pdf_blocks_pages :
      (bytes : List ℕ) (max_pdf_pages n : ℕ) (pdf : Pdf)
      → lib.open_pdf bytes ≡ some pdf
      → pdf.page_count ≡ some n
      → max_pdf_pages < n
      → pdf_blocks lib bytes max_pdf_pages ≡ exceeded (too_many_pages n max_pdf_pages)
  unfolding pdf_blocks counted_blocks
  pdf_blocks_pages bytes max_pdf_pages n pdf opens counted many = ground arith

  read_blocks_pages :
      (name : Text) (bytes : List ℕ) (max_pdf_pages n : ℕ) (pdf : Pdf)
      → looks_like_pdf lib name bytes ≡ true
      → lib.open_pdf bytes ≡ some pdf
      → pdf.page_count ≡ some n
      → max_pdf_pages < n
      → read_blocks lib name bytes max_pdf_pages ≡ exceeded (too_many_pages n max_pdf_pages)
  unfolding read_blocks
  read_blocks_pages name bytes max_pdf_pages n pdf looks opens counted many =
      rw (looks, pdf_blocks_pages bytes max_pdf_pages n pdf opens counted many) refl

  -- A PDF of too many pages is refused before any text is read, with both numbers.
  pub parse_document_pages :
      (name : Text) (bytes : List ℕ) (max_pdf_pages max_chars n : ℕ) (pdf : Pdf)
      → looks_like_pdf lib name bytes ≡ true
      → lib.open_pdf bytes ≡ some pdf
      → pdf.page_count ≡ some n
      → max_pdf_pages < n
      → parse_document lib name bytes max_pdf_pages max_chars
        ≡ exceeded (too_many_pages n max_pdf_pages)
  unfolding parse_document
  parse_document_pages name bytes max_pdf_pages max_chars n pdf looks opens counted many =
      ap (λ r. r >>= finish lib name bytes max_chars)
        (read_blocks_pages name bytes max_pdf_pages n pdf looks opens counted many)
