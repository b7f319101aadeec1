-- ===== src/Worker/Runner/Order.antt =====
-- What the bytes of a request depend on: not on the order of its references.
use mathlib.Core.List.{Permᴰ}
use p_r_i_s_m.Text.{Text}
use p_r_i_s_m.Prelude.{
  ◌≡◌, refl, ap, ◌∙◌, sym, List, [], ◌∷◌, map, Bool, true, false, arith, insert_by, sort_by, ◌++◌,
}
use p_r_i_s_m.Worker.Runner.Request.{
  Bytes, CheckRequest, bytes_lt, sort_references, add_references, content_bytes,
}

bytes_lt_trans : (a b c : Bytes) → bytes_lt a b ≡ true → bytes_lt b c ≡ true → bytes_lt a c ≡ true
unfolding bytes_lt
bytes_lt_trans a [] c h k = absurd (ground arith)
bytes_lt_trans a (y ∷ b) [] h k = absurd (ground arith)
bytes_lt_trans [] (y ∷ b) (z ∷ c) h k = refl
bytes_lt_trans (x ∷ a) (y ∷ b) (z ∷ c) h k = ground (arith, bytes_lt_trans a b c)

bytes_lt_total : (a b : Bytes) → bytes_lt a b ≡ false → bytes_lt b a ≡ false → a ≡ b
unfolding bytes_lt
bytes_lt_total [] [] h k = refl
bytes_lt_total [] (y ∷ b) h k = absurd (ground arith)
bytes_lt_total (x ∷ a) [] h k = absurd (ground arith)
bytes_lt_total (x ∷ a) (y ∷ b) h k = grind (arith, bytes_lt_total a b)

bytes_lt_asym : (a b : Bytes) → bytes_lt a b ≡ true → bytes_lt b a ≡ false
unfolding bytes_lt
bytes_lt_asym a [] h = absurd (ground arith)
bytes_lt_asym [] (y ∷ b) h = refl
bytes_lt_asym (x ∷ a) (y ∷ b) h = ground (arith, bytes_lt_asym a b)

insert_comm :
    (a b : Bytes) (l : List Bytes)
    → insert_by bytes_lt a (insert_by bytes_lt b l) ≡ insert_by bytes_lt b (insert_by bytes_lt a l)
unfolding insert_by
insert_comm a b [] = ground (arith, bytes_lt_total a b, bytes_lt_asym a b)
insert_comm a b (y ∷ l) = ground (
  arith,
  insert_comm a b l,
  bytes_lt_total a b,
  bytes_lt_asym a b,
  bytes_lt_trans y a b,
  bytes_lt_trans y b a,
)

sort_perm : {k l : List Bytes} → Permᴰ {A = Bytes} k l → sort_by bytes_lt k ≡ sort_by bytes_lt l
unfolding sort_by
sort_perm Permᴰ.nil = refl
sort_perm (Permᴰ.cons e p) = cc (e, sort_perm p)
sort_perm (Permᴰ.swap {a} {b} {l} e f) = insert_comm a b (sort_by bytes_lt l) ∙ cc (e, f)
sort_perm (Permᴰ.trans p q) = sort_perm p ∙ sort_perm q

abbrev raws : List (Text × Bytes) → List Bytes
raws references = map (λ (r : Text × Bytes). r.1) references

abbrev before : Text × Bytes → Text × Bytes → Bool
before r s = bytes_lt r.1 s.1

raws-insert_by :
    (r : Text × Bytes) (references : List (Text × Bytes))
    → raws (insert_by before r references) ≡ insert_by bytes_lt r.1 (raws references)
unfolding insert_by
raws-insert_by r [] = refl
raws-insert_by r (s ∷ references) = ground (arith, raws-insert_by r references)

raws-sort_by :
    (references : List (Text × Bytes))
    → raws (sort_by before references) ≡ sort_by bytes_lt (raws references)
unfolding sort_by
raws-sort_by [] = refl
raws-sort_by (r ∷ references) =
    raws-insert_by r (sort_by before references)
    ∙ ap (insert_by bytes_lt r.1) (raws-sort_by references)

join : List Bytes → Bytes
join [] = []
join (raw ∷ rest) = 0 ∷ raw ++ join rest

add_references-raws :
    (references : List (Text × Bytes)) → add_references references ≡ join (raws references)
unfolding add_references join
add_references-raws [] = refl
add_references-raws (r ∷ references) =
    ap (λ (b : Bytes). 0 ∷ r.1 ++ b) (add_references-raws references)

-- Two checks of one paper, with one choice on the databases, are digested alike if their references
-- have the same contents in any order; neither the names of the files nor the warnings, nor what
-- the check is compared with, are digested.
pub content_bytes_perm :
    {R : Type 0} (x y : CheckRequest R)
    → x.paper.1 ≡ y.paper.1
    → x.use_academic ≡ y.use_academic
    → Permᴰ {A = Bytes}
        (map (λ (r : Text × Bytes). r.1) x.references)
        (map (λ (r : Text × Bytes). r.1) y.references)
    → content_bytes x ≡ content_bytes y
unfolding content_bytes sort_references
content_bytes_perm x y paper academic p =
    let same : add_references (sort_references x.references)
        ≡ add_references (sort_references y.references) =
      add_references-raws (sort_references x.references)
      ∙ ap join (raws-sort_by x.references ∙ sort_perm p ∙ sym (raws-sort_by y.references))
      ∙ sym (add_references-raws (sort_references y.references)) in
    cc (paper, academic, same)

append_nested : (a b : Bytes) → a ++ (0 ∷ (b ++ [])) ≡ (a ++ 0 ∷ b) ++ []
append_nested [] b = refl
append_nested (x ∷ a) b = ap (λ (c : Bytes). x ∷ c) (append_nested a b)

-- The digested bytes do not say where one reference ends and the next begins: two references are
-- digested like the one file that holds both with a zero byte between them.
pub content_bytes_joined :
    {R : Type 0} (x : CheckRequest R) (m n k : Text) (a b : Bytes)
    → bytes_lt b a ≡ false
    → content_bytes (record x { references = (m, a) ∷ (n, b) ∷ [] })
      ≡ content_bytes (record x { references = (k, a ++ 0 ∷ b) ∷ [] })
unfolding content_bytes sort_references sort_by insert_by add_references
content_bytes_joined x m n k a b h = ground (arith, append_nested a b)
