-- ===== src/Worker/Usage/Postgres.antt =====
-- `PostgresUsageLedger` of backend/worker/usage.py. The table is the list of its rows; the three
-- statements that the ledger sends are written out on that list.
use p_r_i_s_m.Prelude.{
  ℕ, ◌+◌, List, [], ◌∷◌, ◌++◌, ◌&&◌, String, Eq-String, ◌==◌, leb, ltb, if◌then◌else◌,
}

-- A row: `owner` and `at`.
abbrev pub Rows : Type 0
Rows = List (String × ℕ)

-- `INSERT INTO … VALUES (owner, now)`
unfoldable pub add : String → ℕ → Rows → Rows
add owner now rows = rows ++ (owner, now) ∷ []

-- `SELECT COUNT(*) … WHERE owner = … AND at >= …`
unfoldable pub count : String → ℕ → Rows → ℕ
count owner since [] = 0
count owner since ((o, t) ∷ rows) =
    if o == owner && leb since t then 1 + count owner since rows else count owner since rows

-- `DELETE … WHERE at < …`, and the number of rows deleted
unfoldable pub sweep : ℕ → Rows → Rows × ℕ
sweep older_than [] = ([], 0)
sweep older_than ((o, t) ∷ rows) =
    let (rest, removed) = sweep older_than rows in
    if ltb t older_than then (rest, removed + 1) else ((o, t) ∷ rest, removed)
