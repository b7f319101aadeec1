-- ===== src/Worker/Usage/Memory.antt =====
-- `InMemoryUsageLedger` of backend/worker/usage.py. A time is a whole number of milliseconds.
use p_r_i_s_m.Prelude.{
  ℕ, ◌+◌, ◌-◌, List, [], ◌∷◌, ◌++◌, String, Eq-String, ◌==◌, leb, nat_eq, length, if◌then◌else◌,
}
use p_r_i_s_m.Dict.{Dict, assign}

-- `InMemoryUsageLedger._hits`
abbrev pub Hits : Type 0
Hits = Dict String (List ℕ)

-- `self._hits.get(owner, ())`
unfoldable pub hits_of : String → Hits → List ℕ
hits_of owner [] = []
hits_of owner ((o, ts) ∷ hits) = if o == owner then ts else hits_of owner hits

-- `[t for t in ts if t >= since]`
unfoldable pub at_or_after : ℕ → List ℕ → List ℕ
at_or_after since [] = []
at_or_after since (t ∷ ts) =
    let rest = at_or_after since ts in if leb since t then t ∷ rest else rest

-- `record`, into a `defaultdict(list)`
unfoldable pub add : String → ℕ → Hits → Hits
unfolding hits_of assign
add owner now hits = assign owner (hits_of owner hits ++ now ∷ []) hits

unfoldable pub count : String → ℕ → Hits → ℕ
unfolding hits_of at_or_after
count owner since hits = length (at_or_after since (hits_of owner hits))

-- One round of the loop of `sweep`, for each owner of the table as it was.
unfoldable pub sweep_owners : ℕ → Hits → Hits × ℕ
unfolding at_or_after
sweep_owners older_than [] = ([], 0)
sweep_owners older_than ((owner, ts) ∷ hits) =
    let (rest, removed) = sweep_owners older_than hits in
    let kept = at_or_after older_than ts in
    (
      if nat_eq (length kept) 0 then rest else (owner, kept) ∷ rest,
      removed + (length ts - length kept),
    )

unfoldable pub sweep : ℕ → Hits → Hits × ℕ
unfolding sweep_owners
sweep older_than hits = sweep_owners older_than hits
