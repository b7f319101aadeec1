-- ===== src/Tests/Recheck.antt =====
-- A comparison at a concrete input: one flag is resolved, one remains, none is new.
use p_r_i_s_m.Prelude.{◌+◌, ◌≡◌, refl, [], ◌∷◌, none, some, length}
use p_r_i_s_m.Text.{codes, text_eq}
use p_r_i_s_m.Report.{build_report}
use p_r_i_s_m.Report.Compare.{Compared, compare, add_keys, same_key}
use p_r_i_s_m.Report.Recheck.{compare-counts}
use p_r_i_s_m.Tests.Triage.{python, copied, restated, overall}

abbrev earlier : Compared
earlier = record {
  filename = codes "a.txt";
  overall = overall;
  triage_summary = none;
  report = build_report overall none [];
  matches = (copied, none) ∷ (restated, none) ∷ [];
}

abbrev later : Compared
later = record earlier { matches = (copied, none) ∷ [] }

counts :
    let c = compare python.unicode python.casefold (some "old") 5 earlier later in
    (c.resolved ≡ 1) × (c.new ≡ 0) × (c.remaining ≡ 1)
unfolding compare add_keys same_key text_eq
counts = (refl, refl, refl)

compare-counts_example :
    let c = compare python.unicode python.casefold (some "old") 5 earlier later in
    (c.resolved + c.remaining ≡ length (add_keys python.unicode python.casefold earlier.matches []))
    × (c.new + c.remaining ≡ length (add_keys python.unicode python.casefold later.matches []))
    × (earlier.matches ≡ later.matches → (c.resolved ≡ 0) × (c.new ≡ 0))
compare-counts_example = compare-counts python.unicode python.casefold (some "old") 5 earlier later
