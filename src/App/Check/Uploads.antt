-- ===== src/App/Check/Uploads.antt =====
-- The checks on an upload in `submit_check` of backend/app/routers/check.py, which look at nothing
-- but the form and the settings.
use p_r_i_s_m.Prelude.{
  ℕ, suc, ◌+◌, ◌/◌, List, [], ◌∷◌, ◌++◌, Option, none, some, String, Eq-ℕ, Eq-String, ◌==◌, Bool,
  false, not, ◌&&◌, ◌||◌, ltb, length, take, if◌then◌else◌,
}
use p_r_i_s_m.Text.{Text, Eq-Text, codes, decimal, ends_with}
use p_r_i_s_m.Worker.Runner.Request.{Bytes}

-- the settings that the router reads
pub record Settings : Type 0 where
  pub max_file_bytes : ℕ
  pub max_request_bytes : ℕ
  pub max_reference_files : ℕ
  pub academic_enabled : Bool
  pub quota_checks : ℕ
  pub quota_window_seconds : ℕ

-- An `UploadFile`. A missing name or type is the empty text, which the code treats alike.
pub record UploadFile : Type 0 where
  pub filename : Text
  pub content_type : Text
  pub content : Bytes

pub record Form : Type 0 where
  pub file : UploadFile
  pub references : List UploadFile
  pub use_academic : Bool
  pub compare_to : Option String

-- the responses other than acceptance, with the numbers in their texts
pub data Refusal : Type 0 where
  too_many_requests : ℕ → Refusal
  quota_used : ℕ → ℕ → ℕ → Refusal
  unsupported_type : Refusal
  empty_file : Refusal
  file_too_large : ℕ → Refusal
  no_sources : Refusal
  upload_too_large : ℕ → Refusal
  unknown_job : Refusal
  busy : Refusal

unfoldable pub status_code : Refusal → ℕ
status_code (too_many_requests _) = 429
status_code (quota_used _ _ _) = 402
status_code unsupported_type = 400
status_code empty_file = 400
status_code (file_too_large _) = 413
status_code no_sources = 400
status_code (upload_too_large _) = 413
status_code unknown_job = 404
status_code busy = 503

-- A value, or an `HTTPException`.
pub data Checked (A : Type 0) : Type 0 where
  pass : A → Checked A
  refuse : Refusal → Checked A

-- `_mb`
unfoldable pub mb : ℕ → ℕ
mb n = n / 1048576

unfoldable pub has_extension : Text → List Text → Bool
has_extension name [] = false
has_extension name (extension ∷ others) = ends_with extension name || has_extension name others

unfoldable pub has_type : Text → List Text → Bool
has_type content_type [] = false
has_type content_type (mime ∷ others) = mime == content_type || has_type content_type others

-- `_is_supported`; `lower` is `str.lower`.
unfoldable pub is_supported : (Text → Text) → UploadFile → Bool
unfolding has_extension has_type
is_supported lower file =
    let name = lower file.filename in
    has_extension name (codes ".pdf" ∷ codes ".txt" ∷ codes ".md" ∷ [])
    || has_type file.content_type
        (codes "application/pdf" ∷ codes "text/plain" ∷ codes "text/markdown" ∷ [])

-- `ref.filename or f"Source {i + 1}"`
unfoldable pub label_of : ℕ → UploadFile → Text
label_of i ref = if ref.filename == [] then codes "Source " ++ decimal (i + 1) else ref.filename

-- the warning about a reference that is skipped
unfoldable pub skipped : Settings → (Text → Text) → ℕ → UploadFile → Option Text
unfolding is_supported
skipped settings lower i ref =
    let start = codes "Skipped '" ++ label_of i ref in
    if not (is_supported lower ref)
    then some (start ++ codes "': unsupported file type.")
    else if ref.content == []
    then some (start ++ codes "': empty file.")
    else if ltb settings.max_file_bytes (length ref.content)
    then some
        (start ++ codes "': exceeds " ++ decimal (mb settings.max_file_bytes) ++ codes " MB limit.")
    else none

-- the references that are used, and the warnings
abbrev pub Used : Type 0
Used = List (Text × Bytes) × List Text

unfoldable pub add_warning : Text → Checked Used → Checked Used
add_warning warning (pass (refs, warnings)) = pass (refs, warning ∷ warnings)
add_warning warning (refuse r) = refuse r

unfoldable pub add_reference : Text × Bytes → Checked Used → Checked Used
add_reference ref (pass (refs, warnings)) = pass (ref ∷ refs, warnings)
add_reference ref (refuse r) = refuse r

-- the total with a reference that was read, or the one before
unfoldable pub add_size : Option Text → UploadFile → ℕ → ℕ
add_size none ref total = total + length ref.content
add_size (some warning) ref total = total

-- one round of the loop, on what the later rounds give
unfoldable pub take_reference :
    Settings → ℕ → ℕ → UploadFile → Option Text → Checked Used → Checked Used
unfolding add_warning add_reference
take_reference settings i total ref (some warning) rest = add_warning warning rest
take_reference settings i total ref none rest =
    if ltb settings.max_request_bytes total
    then refuse (upload_too_large (mb settings.max_request_bytes))
    else add_reference (label_of i ref, ref.content) rest

-- the loop over the references
unfoldable pub read_references : Settings → (Text → Text) → ℕ → ℕ → List UploadFile → Checked Used
unfolding skipped add_size take_reference
read_references settings lower i total [] = pass ([], [])
read_references settings lower i total (ref ∷ references) =
    let warning = skipped settings lower i ref in
    let total' = add_size warning ref total in
    take_reference settings i total' ref warning
      (read_references settings lower (suc i) total' references)

-- the warning about references beyond the limit
unfoldable pub surplus : Settings → Form → List Text
surplus settings form =
    if ltb settings.max_reference_files (length form.references)
    then (codes "Only the first "
        ++ decimal settings.max_reference_files
        ++ codes " of "
        ++ decimal (length form.references)
        ++ codes " reference files were used.")
      ∷ []
    else []

unfoldable pub add_warnings : List Text → Checked Used → Checked Used
add_warnings [] used = used
add_warnings (warning ∷ warnings) used = add_warning warning (add_warnings warnings used)

-- from the type of the manuscript to the end of the loop
unfoldable pub validate : Settings → (Text → Text) → Form → Checked Used
unfolding is_supported surplus add_warnings read_references
validate settings lower form =
    let size = length form.file.content in
    if not (is_supported lower form.file)
    then refuse unsupported_type
    else if size == 0
    then refuse empty_file
    else if ltb settings.max_file_bytes size
    then refuse (file_too_large (mb settings.max_file_bytes))
    else if length form.references == 0 && not (form.use_academic && settings.academic_enabled)
    then refuse no_sources
    else add_warnings (surplus settings form)
        (read_references settings lower 0 size (take settings.max_reference_files form.references))
