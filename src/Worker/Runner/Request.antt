-- ===== src/Worker/Runner/Request.antt =====
-- `CheckRequest` of backend/worker/runner.py, and the bytes that its `content_hash` digests. A byte
-- string is the list of its bytes.
use p_r_i_s_m.Text.{Text}
use p_r_i_s_m.Prelude.{
  true, false, ℕ, List, [], ◌∷◌, ◌++◌, Bool, Option, String, ltb, if◌then◌else◌, sort_by,
}

abbrev pub Bytes : Type 0
Bytes = List ℕ

-- `R` is the type of results: the result of an earlier job to compare with.
pub record CheckRequest (R : Type 0) : Type 0 where
  pub paper : Text × Bytes
  pub references : List (Text × Bytes)
  pub use_academic : Bool
  pub base_warnings : List Text
  pub previous : Option R
  pub previous_job_id : Option String

-- `<` on byte strings
unfoldable pub bytes_lt : Bytes → Bytes → Bool
bytes_lt a [] = false
bytes_lt [] (y ∷ b) = true
bytes_lt (x ∷ a) (y ∷ b) =
    let rest = bytes_lt a b in if ltb x y then true else (if ltb y x then false else rest)

-- `sorted(self.references, key=lambda r: r[1])`
unfoldable pub sort_references : List (Text × Bytes) → List (Text × Bytes)
unfolding bytes_lt sort_by
sort_references references = sort_by (λ (r s : Text × Bytes). bytes_lt r.1 s.1) references

-- the loop over the sorted references
unfoldable pub add_references : List (Text × Bytes) → Bytes
add_references [] = []
add_references ((_, raw) ∷ references) = 0 ∷ raw ++ add_references references

-- `b"|academic=" + (b"1" if use_academic else b"0")`
unfoldable pub academic_mark : Bool → Bytes
academic_mark used =
    124 ∷ 97 ∷ 99 ∷ 97 ∷ 100 ∷ 101 ∷ 109 ∷ 105 ∷ 99 ∷ 61 ∷ (if used then 49 else 48) ∷ []

-- all that `content_hash` hands to the digest
unfoldable pub content_bytes : {R : Type 0} → CheckRequest R → Bytes
unfolding sort_references add_references academic_mark
content_bytes req =
    req.paper.1 ++ add_references (sort_references req.references) ++ academic_mark req.use_academic
