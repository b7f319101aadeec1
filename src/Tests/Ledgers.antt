-- ===== src/Tests/Ledgers.antt =====
-- The usage ledgers at a concrete sequence of calls.
use p_r_i_s_m.Prelude.{◌≡◌, refl, List, [], ◌∷◌}
use p_r_i_s_m.Worker.Usage.Memory.{add, count, sweep}
use p_r_i_s_m.Worker.Usage.Agreement.{
  Call, recording, counting, sweeping, answers_memory, answers_postgres, ledgers_agree,
}

abbrev calls : List Call
calls =
    recording "ada" 5
    ∷ recording "bob" 6
    ∷ recording "ada" 9
    ∷ counting "ada" 6
    ∷ sweeping 6
    ∷ counting "ada" 0
    ∷ []

answers : answers_memory calls [] ≡ 1 ∷ 1 ∷ 1 ∷ []
unfolding answers_memory count sweep add
answers = refl

ledgers_agree_example : answers_postgres calls [] ≡ answers_memory calls []
ledgers_agree_example = ledgers_agree calls
