-- ===== src/Parser.antt =====
-- backend/services/document_parser.py: an uploaded file becomes one text with paragraph anchors.
mod Types
pub mod Anchors
pub mod Failures
pub mod Limits
unfoldable pub use Types.*
use p_r_i_s_m.Prelude.{
  ◌-◌, ℕ, zero, suc, ◌+◌, ◌*◌, ◌/◌, List, [], ◌∷◌, ◌++◌, map, Bool, true, false, not, ◌&&◌, ◌||◌,
  Option, none, some, ltb, leb, nat_eq, length, take, max, ◌==◌, if◌then◌else◌, sort_by,
}
use p_r_i_s_m.Text.{Text, Eq-Text, Unicode, strip, text_eq, codes, ends_with}
use p_r_i_s_m.Dict.{Dict, keys_where}
use p_r_i_s_m.Dict.Tally.{tally}
use p_r_i_s_m.Matcher.Tokens.{find_words}
use p_r_i_s_m.Triage.Signals.{Paragraph, is_in}

module _ (lib : ParserLibraries) where
  -- `_unwrap`
  pub unwrap : Text → Text
  unwrap text = lib.substitute hard_wrap (lib.substitute wrap_hyphen text)

  pub unwrap_chunks : List Text → List Block
  unfolding unwrap
  unwrap_chunks [] = []
  unwrap_chunks (chunk ∷ chunks) =
      let rest = unwrap_chunks chunks in
      let stripped = strip lib.unicode chunk in
      if nat_eq (length stripped) 0 then rest else (none, unwrap stripped) ∷ rest

  -- `_plaintext_blocks`
  pub plaintext_blocks : List ℕ → List Block
  unfolding unwrap_chunks normalise_newlines
  plaintext_blocks bytes =
      unwrap_chunks (lib.split_at_blank_lines (normalise_newlines (lib.decode bytes)))

  -- `_clean_block`
  pub clean_block : Text → Text
  clean_block text =
      strip lib.unicode (
        lib.substitute runs_of_spaces
          (lib.substitute line_breaks (lib.substitute wrap_hyphen text)))

  -- the blocks of one page that are kept
  pub keep_blocks : List PdfBlock → List Text
  unfolding clean_block
  keep_blocks [] = []
  keep_blocks (b ∷ blocks) =
      let rest = keep_blocks blocks in
      let cleaned = clean_block b.text in
      if b.is_image || nat_eq (length cleaned) 0
      then rest
      else if leb 3 (length (find_words lib.unicode cleaned)) || lib.matches bibliography cleaned
      then cleaned ∷ rest
      else rest

  -- `_norm_key`
  pub norm_key : Text → Text
  norm_key text = take 120 (lib.substitute digits (lib.casefold text))

  -- `{_norm_key(t) for t in texts if len(t) <= 160}`, each key once
  pub page_keys : List Text → List Text → List Text
  unfolding norm_key is_in
  page_keys seen [] = seen
  page_keys seen (t ∷ texts) =
      page_keys
        (if leb (length t) 160 && not (is_in (λ a b. a == b) (norm_key t) seen)
          then norm_key t ∷ seen
          else seen)
        texts

  pub count_keys : List Text → Dict Text ℕ → Dict Text ℕ
  unfolding tally
  count_keys [] counts = counts
  count_keys (k ∷ ks) counts = count_keys ks (tally k counts)

  pub count_pages : List (List Text) → Dict Text ℕ → Dict Text ℕ
  unfolding count_keys page_keys
  count_pages [] counts = counts
  count_pages (texts ∷ pages) counts = count_pages pages (count_keys (page_keys [] texts) counts)

  -- `_repeated_boilerplate`
  pub repeated_boilerplate : List (List Text) → List Text
  unfolding count_pages keys_where
  repeated_boilerplate pages =
      let n = length pages in
      if ltb n 3 then [] else keys_where (λ c. leb (max 3 (n / 2)) c) (count_pages pages [])

  pub page_blocks : List Text → ℕ → List Text → List Block
  unfolding norm_key is_in
  page_blocks boilerplate page [] = []
  page_blocks boilerplate page (t ∷ texts) =
      let rest = page_blocks boilerplate page texts in
      if is_in (λ a b. a == b) (norm_key t) boilerplate || lib.matches page_number t
      then rest
      else (some page, t) ∷ rest

  pub number_pages : List Text → ℕ → List (List Text) → List Block
  unfolding page_blocks
  number_pages boilerplate page [] = []
  number_pages boilerplate page (texts ∷ pages) =
      page_blocks boilerplate page texts ++ number_pages boilerplate (suc page) pages

  -- the loop over the pages, which an exception of PyMuPDF ends
  pub read_pages : List (Option (List PdfBlock)) → Parsed (List (List Text))
  unfolding keep_blocks sort_by
  read_pages [] = ok []
  read_pages (none ∷ pages) = raised
  read_pages (some page ∷ pages) = do
    rest ← read_pages pages
    ok (keep_blocks (sort_by lib.above page) ∷ rest)

  -- `doc.is_encrypted and not doc.authenticate("")`
  pub is_locked : Pdf → Parsed Bool
  is_locked pdf = elim pdf.is_encrypted [
    | none ↦ raised
    | some false ↦ ok false
    | some true ↦ elim pdf.opens_without_password [ none ↦ raised | some opens ↦ ok (not opens) ]
  ]

  -- what follows the loop over the pages
  pub text_blocks : ℕ → List (List Text) → List Block × ℕ × List Warning
  unfolding repeated_boilerplate number_pages
  text_blocks page_count per_page =
      let out = number_pages (repeated_boilerplate per_page) 1 per_page in
      (out, page_count, if nat_eq (length out) 0 then no_text ∷ [] else [])

  pub unlocked_blocks : Pdf → ℕ → Bool → Parsed (List Block × ℕ × List Warning)
  unfolding read_pages text_blocks
  unlocked_blocks pdf page_count true = ok ([], page_count, password_protected ∷ [])
  unlocked_blocks pdf page_count false = do
    per_page ← read_pages pdf.pages
    ok (text_blocks page_count per_page)

  -- from the test of the page count on
  pub counted_blocks : Pdf → ℕ → ℕ → Parsed (List Block × ℕ × List Warning)
  unfolding is_locked unlocked_blocks
  counted_blocks pdf max_pdf_pages page_count =
      if ltb max_pdf_pages page_count
      then exceeded (too_many_pages page_count max_pdf_pages)
      else is_locked pdf >>= unlocked_blocks pdf page_count

  -- `_pdf_blocks`: the blocks, the page count and the warnings
  pub pdf_blocks : List ℕ → ℕ → Parsed (List Block × ℕ × List Warning)
  unfolding counted_blocks
  pdf_blocks bytes max_pdf_pages = elim (lib.open_pdf bytes) [
    | none ↦ ok ([], 0, cannot_open ∷ [])
    | some pdf ↦ delivered pdf.page_count >>= counted_blocks pdf max_pdf_pages
  ]

  -- The loop of `_exclude_reference_list`: the index of the last heading.
  unfoldable pub last_heading : ℕ → List Block → Option ℕ → Option ℕ
  last_heading i [] found = found
  last_heading i ((page, t) ∷ blocks) found =
      last_heading (suc i) blocks
        (if leb (length t) 40 && lib.matches bibliography t then some i else found)

  -- `_exclude_reference_list`: the blocks that stay, and how many entries were dropped
  unfoldable pub exclude_reference_list : List Block → List Block × ℕ
  unfolding last_heading
  exclude_reference_list blocks =
      let n = length blocks in
      if ltb n 5 then (blocks, 0) else elim (last_heading 0 blocks none) [
        | none ↦ (blocks, 0)
        | some i ↦ if ltb (10 * i) (6 * n) then (blocks, 0) else (take i blocks, n - i - 1)
      ]

  -- `_looks_like_pdf`
  pub looks_like_pdf : Text → List ℕ → Bool
  looks_like_pdf name bytes =
      text_eq (take 4 bytes) (codes "%PDF") || ends_with (codes ".pdf") (lib.lower name)

  pub read_blocks : Text → List ℕ → ℕ → Parsed (List Block × Option ℕ × List Warning)
  unfolding looks_like_pdf pdf_blocks plaintext_blocks
  read_blocks name bytes max_pdf_pages =
      if looks_like_pdf name bytes
      then (do
        (blocks, page_count, warnings) ← pdf_blocks bytes max_pdf_pages
        ok (blocks, some page_count, warnings))
      else ok (plaintext_blocks bytes, none, [])

  -- `parse_document` once the blocks are read
  pub finish : Text → List ℕ → ℕ → List Block × Option ℕ × List Warning → Parsed ParsedDocument
  unfolding exclude_reference_list assemble
  finish name bytes max_chars (blocks, page_count, warnings) =
      let (kept, excluded) = exclude_reference_list blocks in
      let (text, paragraphs) = assemble kept in
      if ltb max_chars (length text)
      then exceeded (too_many_characters (length text) max_chars)
      else ok (record {
        text = text;
        paragraphs = paragraphs;
        page_count = page_count;
        is_pdf = looks_like_pdf name bytes;
        warnings =
            warnings ++ (if nat_eq excluded 0 then [] else reference_list_excluded excluded ∷ []);
        excluded_reference_paragraphs = excluded;
      })

  -- `parse_document`
  unfoldable pub parse_document : Text → List ℕ → ℕ → ℕ → Parsed ParsedDocument
  unfolding read_blocks finish
  parse_document name bytes max_pdf_pages max_chars = do
    blocks ← read_blocks name bytes max_pdf_pages
    finish name bytes max_chars blocks
