-- ===== src/Pipeline/Stages/Coached.antt =====
-- The check with the coach behind it: it ends as the check does, and what is shown was filtered.
use mathlib.Core.Path.{fun_ext}
use p_r_i_s_m.Prelude.{
  ℕ, ◌≡◌, refl, ap, sym, subst, ◌∙◌, List, [], ◌∷◌, ◌++◌, Option, none, some, All, arith,
}
use p_r_i_s_m.Text.{Eq-Text}
use p_r_i_s_m.TtlCache.Values.{AllValues}
use p_r_i_s_m.Matcher.Types.{Match}
use p_r_i_s_m.Matcher.Check
use p_r_i_s_m.Matcher.Check.{PlagiarismMatcher}
use p_r_i_s_m.Triage.Signals.{Python}
use p_r_i_s_m.Triage.Summary.{Triage}
use p_r_i_s_m.Coach.Session.{Libraries, LlmClient, coach_matches}
use p_r_i_s_m.Coach.Session.Counted.{IsCounted, carded, coach_matches-IsCounted}
use p_r_i_s_m.Coach.Session.Honest.{IsFiltered, IsHonest, IsShown}
use p_r_i_s_m.Coach.Session.Shown.{coach_matches-IsHonest}
use p_r_i_s_m.Pipeline.Stages.{
  CheckContext, Result, ok, error, crashed, Stage, ◌>>=◌, run_pipeline, Collaborators, check_stages,
  coach_stages, build_check_stages, CoachResult,
}
use p_r_i_s_m.Pipeline.Stages.Coaching
use p_r_i_s_m.Pipeline.Stages.Coaching.{CoachStage, pair_up, flags_of}
use p_r_i_s_m.Pipeline.Stages.Begun.{Ends, completes, bind-Ends}
use p_r_i_s_m.Pipeline.Stages.Completed.{IsUnfit, IsComplete, run_pipeline-Ends}

bind_assoc :
    (result : Result) (stage next : Stage)
    → ((result >>= stage) >>= next) ≡ (result >>= (λ ctx. stage ctx >>= next))
unfolding ◌>>=◌
bind_assoc (ok ctx) stage next = refl
bind_assoc (error e) stage next = refl
bind_assoc crashed stage next = refl

run_pipeline-append :
    (first second : List Stage) (ctx : CheckContext)
    → run_pipeline (first ++ second) ctx ≡ (run_pipeline first ctx >>= run_pipeline second)
unfolding run_pipeline ◌>>=◌
run_pipeline-append [] second ctx = refl
run_pipeline-append (stage ∷ first) second ctx =
    ap (λ (next : Stage). stage ctx >>= next)
      (fun_ext (λ ctx'. run_pipeline-append first second ctx'))
    ∙ sym (bind_assoc (stage ctx) (run_pipeline first) (run_pipeline second))

coach_stages-Ends :
    {F : Type 0} (py : Python) (stage : Option CoachStage) (ctx : CheckContext)
    → IsComplete py ctx
    → Ends F (IsComplete py) (run_pipeline (coach_stages stage) ctx)
unfolding run_pipeline coach_stages Coaching.coach ◌>>=◌
coach_stages-Ends py none ctx h = completes h
coach_stages-Ends py (some stage) ctx h = completes (record {
  doc = h.doc;
  report = h.report;
  has_document = h.has_document;
  has_sources = h.has_sources;
  has_report = h.has_report;
  is_triaged = h.is_triaged;
})

-- The same holds of the stages with the coach's, if there is one.
pub build_check_stages-Ends :
    (c : Collaborators) (given : PlagiarismMatcher) (ctx : CheckContext)
    → Check.new given ≡ some c.matcher
    → Ends
        (IsUnfit c.parser c.scores c.predict ctx)
        (IsComplete c.python)
        (run_pipeline (build_check_stages c) ctx)
unfolding build_check_stages
build_check_stages-Ends c given ctx built =
    rw (run_pipeline-append (check_stages c) (coach_stages c.coach) ctx)
      (bind-Ends _ _ (run_pipeline-Ends c given ctx built) (coach_stages-Ends c.python c.coach))

-- A complete check whose flags were coached: but for their cards they are the report's matches with
-- their triage, every card was filtered, and no more calls were made than the setting allows, those
-- included that failed.
pub record IsCoached (py : Python) (stage : CoachStage) (client : LlmClient) (ctx : CheckContext)
    : Type 0 where
  pub complete : IsComplete py ctx
  pub result : CoachResult
  pub has_result : ctx.coach ≡ some result
  pub honest : IsHonest stage.libraries client (flags_of ctx) result.session
  pub counted : IsCounted 0 stage.settings.max_per_check result.session

no_cards :
    (lib : Libraries) (client : LlmClient) (ms : List Match) (ts : List Triage)
    → (carded (pair_up ms ts) ≡ 0) × All (IsShown lib client) (pair_up ms ts)
unfolding carded pair_up
no_cards lib client [] ts = (refl, tt)
no_cards lib client (m ∷ ms) [] =
    let (none_yet, shown) = no_cards lib client ms [] in (omega arith, (tt, shown))
no_cards lib client (m ∷ ms) (t ∷ ts) =
    let (none_yet, shown) = no_cards lib client ms ts in (omega arith, (tt, shown))

coach-Ends :
    {F : Type 0} (py : Python) (stage : CoachStage) (client : LlmClient) (ctx : CheckContext)
    → stage.client ≡ some client
    → AllValues (IsFiltered stage.libraries) stage.cache
    → IsComplete py ctx
    → Ends F (IsCoached py stage client) (run_pipeline (Coaching.coach stage ∷ []) ctx)
unfolding run_pipeline Coaching.coach ◌>>=◌ flags_of
coach-Ends py stage client ctx e stored h =
    let (none_yet, shown) = no_cards stage.libraries client _ _ in
    let session =
      coach_matches stage.libraries stage.settings stage.client stage.clock stage.cache stage.budget
        (flags_of ctx) in
    completes (record {
      complete = record {
        doc = h.doc;
        report = h.report;
        has_document = h.has_document;
        has_sources = h.has_sources;
        has_report = h.has_report;
        is_triaged = h.is_triaged;
      };
      result = _;
      has_result = refl;
      honest =
          subst
            (λ (o : Option LlmClient). IsHonest stage.libraries client (flags_of ctx) (
              coach_matches stage.libraries stage.settings o stage.clock stage.cache stage.budget
                (flags_of ctx)))
            (sym e)
            (coach_matches-IsHonest stage.libraries stage.settings client stage.clock stage.cache
              stage.budget (flags_of ctx) stored shown);
      counted =
          subst (λ (n : ℕ). IsCounted n stage.settings.max_per_check session) none_yet
            (coach_matches-IsCounted stage.libraries stage.settings stage.client stage.clock
              stage.cache stage.budget (flags_of ctx));
    })

-- With a matcher that its constructor accepts, with a client for the coach and a cache that holds
-- filtered cards alone, a check ends with an error that the user is shown, or it is complete and
-- coached: the matches are those of the report, every card on them was filtered, and the client was
-- given no more prompts than the setting allows, those included whose calls ended with an exception. It
-- ends with another exception only if PyMuPDF raises while it reads the manuscript or a reference that
-- it has opened, or the cross-encoder answers with something that is no number.
pub build_check_stages-IsCoached :
    (c : Collaborators) (given : PlagiarismMatcher) (stage : CoachStage) (client : LlmClient)
    (ctx : CheckContext)
    → Check.new given ≡ some c.matcher
    → c.coach ≡ some stage
    → stage.client ≡ some client
    → AllValues (IsFiltered stage.libraries) stage.cache
    → Ends
        (IsUnfit c.parser c.scores c.predict ctx)
        (IsCoached c.python stage client)
        (run_pipeline (build_check_stages c) ctx)
unfolding build_check_stages coach_stages
build_check_stages-IsCoached c given stage client ctx built has_coach has_client stored =
    rw (run_pipeline-append (check_stages c) (coach_stages c.coach) ctx) (
      bind-Ends _ _ (run_pipeline-Ends c given ctx built) (λ ctx' h.
        subst
          (λ (o : Option CoachStage).
            Ends (IsUnfit c.parser c.scores c.predict ctx) (IsCoached c.python stage client)
              (run_pipeline (coach_stages o) ctx'))
          (sym has_coach) (coach-Ends c.python stage client ctx' has_client stored h)))
