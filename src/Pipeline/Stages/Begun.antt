-- ===== src/Pipeline/Stages/Begun.antt =====
-- How a stage may end, and how the parsing does.
use p_r_i_s_m.Prelude.{
  ℕ, ◌<◌, ◌≡◌, refl, List, Option, none, some, String, length, inl, inr, Bool-cases, suc, [], ◌∷◌,
  Memᴰ, subst,
}
use p_r_i_s_m.Matcher.Check.{Report, is_blank}
use p_r_i_s_m.Parser.{ParserLibraries, exceeded, raised, Parsed, ParsedDocument}
use p_r_i_s_m.Parser.Failures.{IsUnreadableFile, parse_document-raised}
use p_r_i_s_m.Pipeline.Stages.{
  RawInput, Document, CheckContext, Result, ok, error, crashed, Stage, ◌>>=◌, PipelineError,
  extend_warnings, take_manuscript, parse_given, take_source, parse_sources, drop_uploads,
  add_sources, parse,
}

-- A stage that ends with an error for the user, or with a context of which `P` holds; with any other
-- exception only if there is a cause of the kind `F`.
pub data Ends (F : Type 0) (P : CheckContext → Type 0) : Result → Type 0 where
  completes : {ctx : CheckContext} → P ctx → Ends F P (ok ctx)
  refuses : {e : PipelineError} → Ends F P (error e)
  fails : F → Ends F P crashed

pub bind-Ends :
    {F : Type 0} {P Q : CheckContext → Type 0} (result : Result) (stage : Stage)
    → Ends F P result
    → ((ctx : CheckContext) → P ctx → Ends F Q (stage ctx))
    → Ends F Q (result >>= stage)
unfolding ◌>>=◌
bind-Ends (ok ctx) stage (completes p) next = next ctx p
bind-Ends (error e) stage refuses next = refuses
bind-Ends crashed stage (fails f) next = fails f

-- What each stage leaves: a document; sources; a report.
abbrev pub HasDocument : CheckContext → Type 0
HasDocument ctx = (doc : Document) × (ctx.document ≡ some doc)

abbrev pub HasSources : CheckContext → Type 0
HasSources ctx = HasDocument ctx × (0 < length ctx.sources)

abbrev pub HasReport : CheckContext → Type 0
HasReport ctx = HasSources ctx × ((report : Report) × (ctx.report ≡ some report))

-- The document is there, and the references are those of the context before.
abbrev pub IsBegun : CheckContext → CheckContext → Type 0
IsBegun ctx after = HasDocument after × (after.raw_sources ≡ ctx.raw_sources)

-- The parsing, where `F` is what an unreadable file among the uploads gives.
module _ (lib : ParserLibraries) (max_pdf_pages max_chars : ℕ) {F : Type 0} where
  take_manuscript-Ends :
      (raw : RawInput) (parsed : Parsed ParsedDocument) (ctx : CheckContext)
      → (parsed ≡ raised → F)
      → Ends F (IsBegun ctx) (take_manuscript lib max_pdf_pages max_chars raw parsed ctx)
  unfolding take_manuscript extend_warnings
  take_manuscript-Ends raw (exceeded limit) ctx cause = refuses
  take_manuscript-Ends raw raised ctx cause = fails (cause refl)
  take_manuscript-Ends raw (Parsed.ok parsed) ctx cause =
      elim (Bool-cases (is_blank lib.unicode parsed.text)) [
        | inl t ↦ rw t refuses
        | inr t ↦ rw t (completes ((_, refl), refl))
      ]

  parse_given-Ends :
      (given : Option Document) (raw : Option RawInput) (ctx : CheckContext)
      → ctx.document ≡ given
      → ((file : RawInput) → raw ≡ some file → IsUnreadableFile lib file.content → F)
      → Ends F (IsBegun ctx) (parse_given lib max_pdf_pages max_chars given raw ctx)
  unfolding parse_given
  parse_given-Ends (some doc) raw ctx e cause = completes ((doc, e), refl)
  parse_given-Ends none none ctx e cause = refuses
  parse_given-Ends none (some raw) ctx e cause = take_manuscript-Ends raw _ ctx (λ r.
      cause raw refl (parse_document-raised lib raw.name raw.content max_pdf_pages max_chars r))

  take_source-Ends :
      (id : String) (raw : RawInput) (parsed : Parsed ParsedDocument) (ctx : CheckContext)
      → HasDocument ctx
      → (parsed ≡ raised → F)
      → Ends F HasDocument (take_source lib max_pdf_pages max_chars id raw parsed ctx)
  unfolding take_source
  take_source-Ends id raw (exceeded limit) ctx has cause = completes has
  take_source-Ends id raw raised ctx has cause = fails (cause refl)
  take_source-Ends id raw (Parsed.ok parsed) ctx has cause =
      elim (Bool-cases (is_blank lib.unicode parsed.text)) [
        | inl t ↦ rw t (completes has)
        | inr t ↦ rw t (completes has)
      ]

  parse_sources-Ends :
      (source_id : ℕ → String) (i : ℕ) (raws : List RawInput) (ctx : CheckContext)
      → HasDocument ctx
      → ((file : RawInput) → Memᴰ file raws → IsUnreadableFile lib file.content → F)
      → Ends F HasDocument (parse_sources lib max_pdf_pages max_chars source_id i raws ctx)
  unfolding parse_sources
  parse_sources-Ends source_id i [] ctx has cause = completes has
  parse_sources-Ends source_id i (raw ∷ raws) ctx has cause =
      bind-Ends _ _
        (take_source-Ends (source_id i) raw _ ctx has (λ r.
          cause raw (Memᴰ.head refl)
            (parse_document-raised lib raw.name raw.content max_pdf_pages max_chars r)))
        (λ ctx' has'.
          parse_sources-Ends source_id (suc i) raws ctx' has' (λ f m. cause f (Memᴰ.tail m)))

  pub parse-Ends :
      (source_id : ℕ → String) (ctx : CheckContext)
      → ((file : RawInput) → ctx.raw_document ≡ some file → IsUnreadableFile lib file.content → F)
      → ((file : RawInput) → Memᴰ file ctx.raw_sources → IsUnreadableFile lib file.content → F)
      → Ends F HasDocument (parse lib max_pdf_pages max_chars source_id ctx)
  unfolding parse add_sources drop_uploads
  parse-Ends source_id ctx manuscript reference =
      bind-Ends _ _ (parse_given-Ends ctx.document ctx.raw_document ctx refl manuscript)
        (λ ctx' has.
          bind-Ends _ _
            (parse_sources-Ends source_id 0 ctx'.raw_sources ctx' has.0
              (λ f m. reference f (subst (λ (l : List RawInput). Memᴰ f l) has.1 m)))
            (λ ctx'' has''. completes has''))
