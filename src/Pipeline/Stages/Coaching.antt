-- ===== src/Pipeline/Stages/Coaching.antt =====
-- `CoachStage` of backend/pipeline/stages.py. The cache and the budget, which the stage shares with
-- other checks, are those that it finds; those that it leaves are in the session. Nothing in
-- `coach_matches` raises, so the handler around it is never entered.
use p_r_i_s_m.Prelude.{ℕ, List, [], ◌∷◌, Option, none, some}
use p_r_i_s_m.Text.{Text}
use p_r_i_s_m.TtlCache.{TtlCache}
use p_r_i_s_m.Matcher.Types.{Match}
use p_r_i_s_m.Matcher.Check.{Report}
use p_r_i_s_m.Triage.Summary.{Triage, Summary}
use p_r_i_s_m.Coach.Budget.{CoachBudget}
use p_r_i_s_m.Coach.Select.{Flag}
use p_r_i_s_m.Coach.Session.{Libraries, CoachSettings, LlmClient, Readings, Stored, coach_matches}
use p_r_i_s_m.Coach.Summary.{summary, model_of}
use p_r_i_s_m.Pipeline.Stages.Context.{CheckContext, Stage, ok}

pub record CoachStage : Type 0 where
  pub libraries : Libraries
  pub nearest : ℕ → ℕ → ℕ
  pub settings : CoachSettings
  pub client : Option LlmClient
  pub clock : ℕ → Readings
  pub cache : TtlCache Text Stored
  pub budget : CoachBudget

-- the matches with the triage that the stage before wrote into them
unfoldable pub pair_up : List Match → List Triage → List Flag
pair_up [] ts = []
pair_up (m ∷ ms) [] = record { match = m; triage = none; coach = none } ∷ pair_up ms []
pair_up (m ∷ ms) (t ∷ ts) = record { match = m; triage = some t; coach = none } ∷ pair_up ms ts

unfoldable pub matches_in : Option Report → List Match
matches_in none = []
matches_in (some report) = report.matches

unfoldable pub triages_in : Option (List Triage × Summary) → List Triage
triages_in none = []
triages_in (some (ts, s)) = ts

unfoldable pub flags_of : CheckContext → List Flag
unfolding pair_up matches_in triages_in
flags_of ctx = pair_up (matches_in ctx.report) (triages_in ctx.triage)

-- `run`
unfoldable pub coach : CoachStage → Stage
unfolding flags_of coach_matches summary model_of
coach stage ctx =
    let session =
      coach_matches stage.libraries stage.settings stage.client stage.clock stage.cache stage.budget
        (flags_of ctx) in
    ok (record ctx {
      coach = some (record {
        session = session;
        summary = summary stage.nearest session.stats (model_of stage.client);
      });
    })
