-- ===== src/Coach/Cards/Fields.antt =====
-- The fields of a card: which of them are the same, and what a replacement leaves in each.
use p_r_i_s_m.Prelude.{
  ℕ, zero, suc, ◌≡◌, refl, sym, ap, ◌∙◌, List, [], ◌∷◌, Bool, true, false, ◌&&◌, ◌||◌, nat_eq,
  nat_eq_iff, arith, if◌then◌else◌,
}
use p_r_i_s_m.Text.{Text}
use p_r_i_s_m.Coach.Cards.{
  Field, what_it_is, why_flagged, honest_fix, do_not, Card, text_of, with_text, fields,
}

place : Field → ℕ
place what_it_is = 0
place why_flagged = 1
place honest_fix = 2
place do_not = 3

unfoldable pub same_field : Field → Field → Bool
unfolding place
same_field k j = nat_eq (place k) (place j)

field_at : ℕ → Field
field_at zero = what_it_is
field_at (suc zero) = why_flagged
field_at (suc (suc zero)) = honest_fix
field_at _ = do_not

field_at_lem : (k : Field) → field_at (place k) ≡ k
unfolding field_at place
field_at_lem what_it_is = refl
field_at_lem why_flagged = refl
field_at_lem honest_fix = refl
field_at_lem do_not = refl

pub eq_of_same_field : (k j : Field) → same_field k j ≡ true → k ≡ j
unfolding same_field
eq_of_same_field k j h =
    sym (field_at_lem k) ∙ ap field_at ((nat_eq_iff (place k) (place j)).0 h) ∙ field_at_lem j

-- `key in replaced`
unfoldable pub has : Field → List Field → Bool
unfolding same_field
has j [] = false
has j (k ∷ ks) = same_field k j || has j ks

abbrev pub AreDistinct : List Field → Type 0
AreDistinct [] = Unit
AreDistinct (k ∷ ks) = (has k ks ≡ false) × AreDistinct ks

text_of-with_text :
    (k j : Field) (v : Text) (c : Card)
    → text_of j (with_text k v c) ≡ (if same_field k j then v else text_of j c)
unfolding text_of with_text same_field place
text_of-with_text what_it_is what_it_is v c = refl
text_of-with_text what_it_is why_flagged v c = refl
text_of-with_text what_it_is honest_fix v c = refl
text_of-with_text what_it_is do_not v c = refl
text_of-with_text why_flagged what_it_is v c = refl
text_of-with_text why_flagged why_flagged v c = refl
text_of-with_text why_flagged honest_fix v c = refl
text_of-with_text why_flagged do_not v c = refl
text_of-with_text honest_fix what_it_is v c = refl
text_of-with_text honest_fix why_flagged v c = refl
text_of-with_text honest_fix honest_fix v c = refl
text_of-with_text honest_fix do_not v c = refl
text_of-with_text do_not what_it_is v c = refl
text_of-with_text do_not why_flagged v c = refl
text_of-with_text do_not honest_fix v c = refl
text_of-with_text do_not do_not v c = refl

pub text_of-step :
    (k j : Field) (b : Bool) (v : Text) (c : Card)
    → text_of j (if b then with_text k v c else c)
      ≡ (if b && same_field k j then v else text_of j c)
text_of-step k j true v c = text_of-with_text k j v c
text_of-step k j false v c = refl

pub has-step :
    (k j : Field) (b : Bool) (replaced : List Field)
    → has j (if b then k ∷ replaced else replaced) ≡ ((b && same_field k j) || has j replaced)
unfolding has
has-step k j true replaced = refl
has-step k j false replaced = refl

pub elsewhere :
    (bad same : Bool) (v c c' : Text) → same ≡ false → c' ≡ (if bad && same then v else c) → c' ≡ c
elsewhere bad same v c c' f step = ground arith

pub holds_every_field : (f : Field) → has f fields ≡ true
unfolding has same_field place
holds_every_field what_it_is = refl
holds_every_field why_flagged = refl
holds_every_field honest_fix = refl
holds_every_field do_not = refl

pub distinct_fields : AreDistinct fields
unfolding has same_field place
distinct_fields = (refl, (refl, (refl, (refl, tt))))
