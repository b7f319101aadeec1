-- ===== src/Report/Recheck.antt =====
-- What the counts of a comparison add up to.
use p_r_i_s_m.Prelude.{
  ℕ, ◌+◌, List, [], ◌∷◌, ◌≡◌, refl, ap, false, Option, none, String, length, arith, if◌then◌else◌,
}
use p_r_i_s_m.Dict.{Dict, lookup}
use p_r_i_s_m.Dict.Order.{Distinct, assign-Distinct}
use p_r_i_s_m.Text.{Text, Unicode}
use p_r_i_s_m.Report.Compare.{
  Flagged, Key, Eq-Key, same_key_iff, is_key, missing_from, shared_with, key_of, add_keys, Compared,
  compare,
}

module _ {V : Type 0} where
  absent_key : (k : Key) (d : Dict Key V) → lookup k d ≡ none → is_key k d ≡ false
  unfolding lookup is_key
  absent_key k [] h = refl
  absent_key k ((j, v) ∷ d) h = ground (arith, absent_key k d)

  -- Every entry is missing from the other dict or shared with it.
  missing_or_shared :
      (other d : Dict Key V)
      → length (missing_from other d) + length (shared_with other d) ≡ length d
  unfolding missing_from shared_with
  missing_or_shared other [] = refl
  missing_or_shared other ((k, v) ∷ d) = ground (arith, missing_or_shared other d)

  shared_with-cons :
      (k : Key) (v : V) (c p : Dict Key V)
      → is_key k c ≡ false
      → Distinct p
      → length (shared_with ((k, v) ∷ c) p)
        ≡ length (shared_with c p) + (if is_key k p then 1 else 0)
  unfolding shared_with is_key
  shared_with-cons k v c [] new h = refl
  shared_with-cons k v c ((j, w) ∷ p) new h = ground (
    arith,
    shared_with-cons k v c p new h.1,
    absent_key j p h.0,
    same_key_iff k j,
    same_key_iff j k,
  )

  shared_with_nothing : (p : Dict Key V) → length (shared_with [] p) ≡ 0
  unfolding shared_with is_key
  shared_with_nothing [] = refl
  shared_with_nothing ((j, w) ∷ p) = shared_with_nothing p

  -- As many entries are shared one way as the other.
  shared_with_comm :
      (c p : Dict Key V)
      → Distinct c
      → Distinct p
      → length (shared_with c p) ≡ length (shared_with p c)
  unfolding shared_with
  shared_with_comm [] p hc hp = shared_with_nothing p
  shared_with_comm ((k, v) ∷ c) p hc hp =
      ground
        (arith, shared_with-cons k v c p (absent_key k c hc.0) hp, shared_with_comm c p hc.1 hp)

  missing_from-cons :
      (k : Key) (v : V) (c d : Dict Key V)
      → length (missing_from c d) ≡ 0
      → length (missing_from ((k, v) ∷ c) d) ≡ 0
  unfolding missing_from is_key
  missing_from-cons k v c [] h = refl
  missing_from-cons k v c ((j, w) ∷ d) h = ground (arith, missing_from-cons k v c d)

  missing_from_self : (d : Dict Key V) → length (missing_from d d) ≡ 0
  unfolding missing_from is_key
  missing_from_self [] = refl
  missing_from_self ((k, v) ∷ d) =
      ground (arith, same_key_iff k k, missing_from-cons k v d d (missing_from_self d))

module _ (u : Unicode) (casefold : Text → Text) where
  add_keys-Distinct :
      (flagged : List Flagged) (d : Dict Key Flagged)
      → Distinct d
      → Distinct (add_keys u casefold flagged d)
  unfolding add_keys
  add_keys-Distinct [] d h = h
  add_keys-Distinct (f ∷ flagged) d h =
      add_keys-Distinct flagged _ (assign-Distinct (key_of u casefold f) f d h)

  -- The flags of the earlier check, each counted once by its key, are the resolved and the remaining
  -- ones, and those of the later check the new and the remaining ones. Between checks with the same
  -- matches nothing is resolved and nothing is new.
  pub compare-counts :
      (id : Option String) (examples : ℕ) (previous current : Compared)
      → let c = compare u casefold id examples previous current in
        (c.resolved + c.remaining ≡ length (add_keys u casefold previous.matches []))
        × (c.new + c.remaining ≡ length (add_keys u casefold current.matches []))
        × (previous.matches ≡ current.matches → (c.resolved ≡ 0) × (c.new ≡ 0))
  unfolding compare
  compare-counts id examples previous current =
      let prev = add_keys u casefold previous.matches [] in
      let cur = add_keys u casefold current.matches [] in
      let prev_distinct = add_keys-Distinct previous.matches [] tt in
      let cur_distinct = add_keys-Distinct current.matches [] tt in
      let same = shared_with_comm prev cur prev_distinct cur_distinct in
      (
        omega (arith, missing_or_shared cur prev, same),
        omega (arith, missing_or_shared prev cur),
        λ h.
            let alike : prev ≡ cur = ap (λ (ms : List Flagged). add_keys u casefold ms []) h in
            (rw alike (missing_from_self cur), rw alike (missing_from_self cur)),
      )
