-- ===== src/Triage/Summary/Order.antt =====
-- The order of the action items: by priority, and within a priority by falling counts.
use native.Mathlib.Decide.{dec_lt}
use p_r_i_s_m.Prelude.{
  String, ℕ, ◌<◌, ◌≤◌, List, [], ◌∷◌, true, false, ◌≡◌, refl, All, ◌⊎◌, inl, inr, Bool-cases, arith,
}
use p_r_i_s_m.Text.{Text}
use p_r_i_s_m.Matcher.Types.{SourceDoc, Match}
use p_r_i_s_m.Triage.Rules.{RuleType, priority, rules}
use p_r_i_s_m.Triage.Signals.{Python, Paragraph, normalized}
use p_r_i_s_m.Triage.Summary.{
  ActionItem, comes_before, insert, sort, action_items, up_to, count_key, item_key, annotate,
  summarize, triage_matches,
}

-- No later item has a smaller key.
module _ {A : Type 0} (key : A → ℕ × ℕ) where
  pub IsAfter : A → A → Type 0
  unfolding comes_before
  IsAfter x y = comes_before (key y) (key x) ≡ false

  unfoldable pub IsOrdered : List A → Type 0
  unfolding IsAfter
  IsOrdered [] = Unit
  IsOrdered (x ∷ xs) = All (IsAfter x) xs × IsOrdered xs

  IsAfter-trans : (x y z : A) → IsAfter x y → IsAfter y z → IsAfter x z
  unfolding IsAfter comes_before
  IsAfter-trans x y z a b = ground arith

  IsAfter-All : (x y : A) (zs : List A) → IsAfter x y → All (IsAfter y) zs → All (IsAfter x) zs
  IsAfter-All x y [] a h = tt
  IsAfter-All x y (z ∷ zs) a h = (IsAfter-trans x y z a h.0, IsAfter-All x y zs a h.1)

  IsAfter-of_before : (x y : A) → comes_before (key y) (key x) ≡ true → IsAfter y x
  unfolding IsAfter comes_before
  IsAfter-of_before x y h = ground arith

  insert-All :
      (x y : A) (zs : List A) → IsAfter y x → All (IsAfter y) zs → All (IsAfter y) (insert key x zs)
  unfolding insert
  insert-All x y [] a h = (a, tt)
  insert-All x y (z ∷ zs) a h = elim (Bool-cases (comes_before (key z) (key x))) [
    | inl t ↦ rw t (h.0, insert-All x y zs a h.1)
    | inr t ↦ rw t (a, h)
  ]

  insert-IsOrdered : (x : A) (zs : List A) → IsOrdered zs → IsOrdered (insert key x zs)
  unfolding insert IsOrdered IsAfter
  insert-IsOrdered x [] h = (tt, tt)
  insert-IsOrdered x (z ∷ zs) h = elim (Bool-cases (comes_before (key z) (key x))) [
    | inl t ↦ rw t (insert-All x z zs (IsAfter-of_before x z t) h.0, insert-IsOrdered x zs h.1)
    | inr t ↦ rw t ((t, IsAfter-All x z zs t h.0), h)
  ]

  pub sort-IsOrdered : (xs : List A) → IsOrdered (sort key xs)
  unfolding sort IsOrdered
  sort-IsOrdered [] = tt
  sort-IsOrdered (x ∷ xs) = insert-IsOrdered x (sort key xs) (sort-IsOrdered xs)

  -- Sorting what is in order changes nothing.
  pub sort_ordered : (xs : List A) → IsOrdered xs → sort key xs ≡ xs
  unfolding sort IsOrdered insert IsAfter
  sort_ordered [] h = refl
  sort_ordered (x ∷ []) h = refl
  sort_ordered (x ∷ y ∷ ys) h = rw (sort_ordered (y ∷ ys) h.1) (rw h.0.0 refl)

action_items-All :
    (e : RuleType × ℕ) (label : String) (d : List (RuleType × ℕ))
    → All (IsAfter count_key e) d
    → All
        (IsAfter item_key
          (record { type = e.0; priority = priority e.0; label = label; count = e.1 }))
        (action_items d)
unfolding action_items IsAfter
action_items-All e label [] h = tt
action_items-All e label ((t, n) ∷ d) h = elim (Bool-cases (up_to 3 t)) [
  | inl y ↦ rw y (h.0, action_items-All e label d h.1)
  | inr y ↦ rw y (action_items-All e label d h.1)
]

action_items-IsOrdered :
    (d : List (RuleType × ℕ)) → IsOrdered count_key d → IsOrdered item_key (action_items d)
unfolding action_items IsOrdered
action_items-IsOrdered [] h = tt
action_items-IsOrdered ((t, n) ∷ d) h = elim (Bool-cases (up_to 3 t)) [
  | inl y ↦ rw y (action_items-All (t, n) (rules t).label d h.0, action_items-IsOrdered d h.1)
  | inr y ↦ rw y (action_items-IsOrdered d h.1)
]

action_items-priority :
    (d : List (RuleType × ℕ)) → All (λ i. i.priority ≡ priority i.type) (action_items d)
unfolding action_items
action_items-priority [] = tt
action_items-priority ((t, n) ∷ d) = elim (Bool-cases (up_to 3 t)) [
  | inl y ↦ rw y (refl, action_items-priority d)
  | inr y ↦ rw y (action_items-priority d)
]

-- An item has a smaller priority than another, or the same one and a count that is no smaller.
unfoldable pub GoesFirst : ActionItem → ActionItem → Type 0
GoesFirst i j = (i.priority < j.priority) ⊎ ((i.priority ≡ j.priority) × (j.count ≤ i.count))

-- Every item goes first against all that stand behind it.
unfoldable pub IsUrgentFirst : List ActionItem → Type 0
unfolding GoesFirst
IsUrgentFirst [] = Unit
IsUrgentFirst (i ∷ items) = All (GoesFirst i) items × IsUrgentFirst items

IsAfter-GoesFirst : (i j : ActionItem) → IsAfter item_key i j → GoesFirst i j
unfolding IsAfter comes_before GoesFirst
IsAfter-GoesFirst i j h = elim (dec_lt i.priority j.priority) [
  | yes p ↦ inl p
  | no p ↦ inr (ground arith, ground arith)
]

All-GoesFirst :
    (i : ActionItem) (items : List ActionItem)
    → All (IsAfter item_key i) items
    → All (GoesFirst i) items
All-GoesFirst i [] h = tt
All-GoesFirst i (j ∷ items) h = (IsAfter-GoesFirst i j h.0, All-GoesFirst i items h.1)

IsOrdered-IsUrgentFirst : (items : List ActionItem) → IsOrdered item_key items → IsUrgentFirst items
unfolding IsOrdered IsUrgentFirst
IsOrdered-IsUrgentFirst [] h = tt
IsOrdered-IsUrgentFirst (i ∷ items) h =
    (All-GoesFirst i items h.0, IsOrdered-IsUrgentFirst items h.1)

pub triage_matches-IsOrdered :
    (py : Python) (doc : Text) (paragraphs : List Paragraph) (ms : List Match)
    (sources : List SourceDoc)
    → IsOrdered item_key (triage_matches py doc paragraphs ms sources).1.action_items
unfolding triage_matches summarize
triage_matches-IsOrdered py doc paragraphs ms sources =
    let counts = (annotate py doc paragraphs (normalized py sources []) ms []).1 in
    action_items-IsOrdered (sort count_key counts) (sort-IsOrdered count_key counts)

-- Each action item has the priority of its rule, and stands before every item of a larger priority, and
-- before those of its own priority with a smaller count.
pub triage_matches-IsUrgentFirst :
    (py : Python) (doc : Text) (paragraphs : List Paragraph) (ms : List Match)
    (sources : List SourceDoc)
    → let items = (triage_matches py doc paragraphs ms sources).1.action_items in
      All (λ i. i.priority ≡ priority i.type) items × IsUrgentFirst items
unfolding triage_matches summarize
triage_matches-IsUrgentFirst py doc paragraphs ms sources =
    let counts = (annotate py doc paragraphs (normalized py sources []) ms []).1 in
    (
      action_items-priority (sort count_key counts),
      IsOrdered-IsUrgentFirst _ (triage_matches-IsOrdered py doc paragraphs ms sources),
    )
