-- ===== src/App/Check/Sizes.antt =====
-- The sizes of what an upload that passes its checks hands on.
use p_r_i_s_m.Prelude.{
  length-take-le, ℕ, suc, ◌+◌, ◌≤◌, ◌<◌, ◌≡◌, refl, subst, List, [], ◌∷◌, take, length, All, none,
  Eq-ℕ, Eq-String, ◌==◌, false, not, ◌&&◌, ltb, arith, ◌⊎◌, inl, inr, Bool-cases, Option-cases,
}
use p_r_i_s_m.Text.{Text, Eq-Text, text_eq}
use p_r_i_s_m.Worker.Runner.Request.{Bytes}
use p_r_i_s_m.App.Check.Uploads.{
  Settings, UploadFile, Form, Checked, pass, refuse, Used, skipped, add_size, add_warning,
  add_reference, take_reference, read_references, label_of, validate, surplus, add_warnings,
  is_supported,
}

-- the bytes of all the references
pub total_size : List (Text × Bytes) → ℕ
total_size [] = 0
total_size ((_, raw) ∷ refs) = length raw + total_size refs

add_warning-pass :
    (warning : Text) (rest : Checked Used) (used : Used)
    → add_warning warning rest ≡ pass used
    → (more : List Text) × (rest ≡ pass (used.0, more))
unfolding add_warning
add_warning-pass warning (pass (refs, warnings)) used h = (warnings, ground arith)
add_warning-pass warning (refuse r) used h = absurd (ground arith)

add_reference-pass :
    (ref : Text × Bytes) (rest : Checked Used) (used : Used)
    → add_reference ref rest ≡ pass used
    → (refs : List (Text × Bytes)) × (rest ≡ pass (refs, used.1)) × (used.0 ≡ ref ∷ refs)
unfolding add_reference
add_reference-pass ref (pass (refs, warnings)) used h = (refs, ground arith, ground arith)
add_reference-pass ref (refuse r) used h = absurd (ground arith)

empty_of_test : (raw : Bytes) → (raw == []) ≡ false → 0 < length raw
unfolding text_eq
empty_of_test [] h = absurd (ground arith)
empty_of_test (b ∷ raw) h = omega arith

-- a file that is not empty and not too large
abbrev pub IsFileSize : Settings → ℕ → Type 0
IsFileSize settings size = (0 < size) × (size ≤ settings.max_file_bytes)

skipped-none :
    (settings : Settings) (lower : Text → Text) (i : ℕ) (ref : UploadFile)
    → skipped settings lower i ref ≡ none
    → IsFileSize settings (length ref.content)
unfolding skipped
skipped-none settings lower i ref h = elim (Bool-cases (is_supported lower ref)) [
  | inr s ↦ absurd (ground arith)
  | inl s ↦ elim (Bool-cases (ref.content == [])) [
    | inl e ↦ absurd (ground arith)
    | inr e ↦ elim (Bool-cases (ltb settings.max_file_bytes (length ref.content))) [
      | inl l ↦ absurd (ground arith)
      | inr l ↦ (empty_of_test ref.content e, ground arith)
    ]
  ]
]

-- The references that are used, out of at most so many, in a request that began with so many bytes.
pub record AreWithin (settings : Settings) (count start : ℕ) (refs : List (Text × Bytes))
    : Type 0 where
  pub count_within : length refs ≤ count
  pub sizes_within : All (λ (r : Text × Bytes). IsFileSize settings (length r.1)) refs
  pub total_within : (refs ≡ []) ⊎ (start + total_size refs ≤ settings.max_request_bytes)

added_within :
    (settings : Settings) (count start : ℕ) (ref : Text × Bytes) (refs : List (Text × Bytes))
    → IsFileSize settings (length ref.1)
    → start + length ref.1 ≤ settings.max_request_bytes
    → AreWithin settings count (start + length ref.1) refs
    → AreWithin settings (suc count) start (ref ∷ refs)
unfolding total_size
added_within settings count start ref refs size room w = record {
  count_within = omega (arith, w.count_within);
  sizes_within = (size, w.sizes_within);
  total_within =
      inr (elim w.total_within [ inl e ↦ rw e (omega (arith, room)) | inr h ↦ omega (arith, h) ]);
}

read_references-AreWithin :
    (settings : Settings) (lower : Text → Text) (i total : ℕ) (references : List UploadFile)
    (used : Used)
    → read_references settings lower i total references ≡ pass used
    → AreWithin settings (length references) total used.0
unfolding read_references add_size take_reference
read_references-AreWithin settings lower i total [] used h =
    let nothing : [] ≡ used.0 = ground arith in
    subst (AreWithin settings 0 total) nothing
      (record { count_within = omega arith; sizes_within = tt; total_within = inl refl })
read_references-AreWithin settings lower i total (ref ∷ references) used h =
    elim (Option-cases (skipped settings lower i ref)) [
      | inr (warning, e) ↦
          let rest = read_references settings lower (suc i) total references in
          let (more, same) = add_warning-pass warning rest used (ground arith) in
          let w =
            read_references-AreWithin settings lower (suc i) total references (used.0, more) same in
          record {
            count_within = omega (arith, w.count_within);
            sizes_within = w.sizes_within;
            total_within = w.total_within;
          }
      | inl e ↦
          let total' = total + length ref.content in
          let rest = read_references settings lower (suc i) total' references in
          elim (Bool-cases (ltb settings.max_request_bytes total')) [
            | inl t ↦ absurd (ground arith)
            | inr t ↦
                let (refs, same, is) =
                  add_reference-pass (label_of i ref, ref.content) rest used (ground arith) in
                rw is (
                  added_within settings (length references) total (label_of i ref, ref.content) refs
                    (skipped-none settings lower i ref e) (ground arith)
                    (read_references-AreWithin settings lower (suc i) total' references
                      (refs, used.1) same))
          ]
    ]

add_warnings-pass :
    (warnings : List Text) (rest : Checked Used) (used : Used)
    → add_warnings warnings rest ≡ pass used
    → (more : List Text) × (rest ≡ pass (used.0, more))
unfolding add_warnings
add_warnings-pass [] rest used h = (used.1, h)
add_warnings-pass (warning ∷ warnings) rest used h =
    let (more, same) = add_warning-pass warning (add_warnings warnings rest) used h in
    add_warnings-pass warnings rest (used.0, more) same

-- What a form that is accepted meets: the manuscript's size, and those of its references.
pub record IsWithin (settings : Settings) (paper : Bytes) (refs : List (Text × Bytes))
    : Type 0 where
  pub paper_within : IsFileSize settings (length paper)
  pub refs_within : AreWithin settings settings.max_reference_files (length paper) refs

pub validate-IsWithin :
    (settings : Settings) (lower : Text → Text) (form : Form) (used : Used)
    → validate settings lower form ≡ pass used
    → IsWithin settings form.file.content used.0
unfolding validate
validate-IsWithin settings lower form used h =
    let size = length form.file.content in
    elim (Bool-cases (is_supported lower form.file)) [
      | inr s ↦ absurd (ground arith)
      | inl s ↦ elim (Bool-cases (size == 0)) [
        | inl e ↦ absurd (ground arith)
        | inr e ↦ elim (Bool-cases (ltb settings.max_file_bytes size)) [
          | inl l ↦ absurd (ground arith)
          | inr l ↦
              elim (Bool-cases (
                length form.references == 0
                && not (form.use_academic && settings.academic_enabled))) [
                  | inl n ↦ absurd (ground arith)
                  | inr n ↦
                      let taken = take settings.max_reference_files form.references in
                      let (more, same) =
                        add_warnings-pass (surplus settings form)
                          (read_references settings lower 0 size taken) used (ground arith) in
                      let w =
                        read_references-AreWithin settings lower 0 size taken (used.0, more) same in
                      record {
                        paper_within = (ground arith, ground arith);
                        refs_within = record {
                          count_within = omega (
                            arith,
                            w.count_within,
                            length-take-le settings.max_reference_files form.references,
                          );
                          sizes_within = w.sizes_within;
                          total_within = w.total_within;
                        };
                      }
                ]
        ]
      ]
    ]
