-- ===== src/Tests/Coach.antt =====
-- The coach at concrete inputs.
use p_r_i_s_m.Prelude.{
  ℕ, ◌-◌, ◌/◌, ◌≤◌, length, ◌≡◌, refl, List, [], ◌∷◌, true, false, none, some, ◌⊎◌, All, Memᴰ,
  arith, min, ltb, if◌then◌else◌,
}
use p_r_i_s_m.Text.{Text, Eq-Text, codes, text_eq, strip}
use p_r_i_s_m.TtlCache.{TtlCache}
use p_r_i_s_m.Triage.Rules.{RuleType, rules, verbatim_uncited, paraphrase_cited, quoted_cited}
use p_r_i_s_m.Triage.Summary.{Triage}
use p_r_i_s_m.Coach.Budget
use p_r_i_s_m.Coach.Budget.{CoachBudget, granted_on, asked_on, take_exact}
use p_r_i_s_m.Coach.Cards.{Card, what_it_is, text_of, static_card, post_filter}
use p_r_i_s_m.Coach.Cards.Fields.{has}
use p_r_i_s_m.Coach.Cards.Filtered.{IsSafe, post_filter_lem}
use p_r_i_s_m.Coach.Select.{Flag, select}
use p_r_i_s_m.Coach.Select.Chosen.{IsWanted, IsPreferred, AsksForCard, select_best}
use p_r_i_s_m.Coach.Session.{
  Libraries, LlmClient, CoachSettings, Readings, Stored, replied, fields_of, coach_matches,
}
use p_r_i_s_m.Coach.Session.Counted.{IsCounted, carded, coach_matches-IsCounted}
use p_r_i_s_m.Coach.Session.Honest.{IsHonest}
use p_r_i_s_m.Coach.Session.Shown.{coach_matches-IsHonest}
use p_r_i_s_m.Pipeline.Stages.Coaching.{CoachStage}
use p_r_i_s_m.Tests.Triage.{python, copied, restated}

-- Two calls are left of three on day 5; day 6 begins anew.
abbrev budget : CoachBudget
budget = record { max_calls_per_day = 3; day = 5; calls = 1 }

abbrev readings : List ℕ
readings = 432000000 ∷ 440000000 ∷ 450000000 ∷ 518400000 ∷ []

take_exact_example :
    granted_on 5 readings budget
    ≡ (if ltb 0 3 then min (asked_on 5 readings) (3 - 1) else asked_on 5 readings)
take_exact_example = take_exact 5 readings budget (omega arith) (omega arith)

two_granted : granted_on 5 readings budget ≡ 2
unfolding granted_on Budget.take Budget.turn_to Budget.spend
two_granted = refl

abbrev libraries : Libraries
libraries = record {
  unicode = python.unicode;
  evades = λ text. text_eq text (codes "beat the checker");
  utf8 = λ text. text;
  sha1 = λ bytes. bytes;
  loads = λ text. fields_of (λ f. text);
}

abbrev written : Card
written = record {
  what = codes "cats purr here";
  why = codes "no citation";
  fix = codes " ";
  dont = codes "beat the checker";
}

-- With two words for a run, the first field is copied, the second is kept.
post_filter_lem_example :
    let after =
      post_filter python.unicode libraries.evades
        (codes "all cats purr")
        (codes "dogs bark")
        2
        (static_card verbatim_uncited)
        written in
    (IsSafe python.unicode libraries.evades
        (codes "all cats purr")
        (codes "dogs bark")
        2
        (strip python.unicode (text_of what_it_is written))
      × (text_of what_it_is after.0 ≡ text_of what_it_is written)
      × (has what_it_is after.1 ≡ false))
    ⊎ ((¬ IsSafe python.unicode libraries.evades
          (codes "all cats purr")
          (codes "dogs bark")
          2
          (strip python.unicode (text_of what_it_is written)))
        × (text_of what_it_is after.0 ≡ text_of what_it_is (static_card verbatim_uncited))
        × (has what_it_is after.1 ≡ true))
post_filter_lem_example =
    post_filter_lem python.unicode libraries.evades (codes "all cats purr") (codes "dogs bark") 2
      (static_card verbatim_uncited) written what_it_is

abbrev triaged : RuleType → Triage
triaged type = record {
  rule = rules type;
  note = none;
  signals = record {
    quoted = false;
    cited = false;
    citation_markers = [];
    shared_by_sources = 1;
    stopword_ratio = 0;
    words = 2;
    numeric_conflict = false;
  };
}

abbrev flags : List Flag
flags =
    record { match = restated; triage = some (triaged paraphrase_cited); coach = none }
    ∷ record { match = copied; triage = some (triaged verbatim_uncited); coach = none }
    ∷ record { match = copied; triage = some (triaged quoted_cited); coach = none }
    ∷ []

abbrev pub client : LlmClient
client = record {
  model = codes "m";
  complete = λ asked prompt max_tokens timeout.
      replied (record { text = codes "no citation"; prompt_tokens = 90; completion_tokens = 10 });
}

abbrev settings : CoachSettings
settings = record { max_per_check = 1; timeout = 20; max_tokens = 400 }

abbrev clock : ℕ → Readings
clock i = record { at_get = 432000000; at_take = 432000000; at_put = 432000000 }

abbrev cache : TtlCache Text Stored
cache = record { max_size = 10; ttl = 86400; entries = [] }

abbrev first_flag : Flag
first_flag = record { match = restated; triage = some (triaged paraphrase_cited); coach = none }

select_best_example :
    (length (select flags 1) ≤ 1)
    × All (IsWanted flags) (select flags 1)
    × (Memᴰ (0, first_flag) (select flags 1)
        ⊎ All (λ d. IsPreferred d (0, first_flag)) (select flags 1))
unfolding AsksForCard rules
select_best_example = select_best flags 1 0 first_flag refl (λ e. cc, λ e. cc)

coach_matches-IsCounted_example :
    IsCounted
      (carded flags)
      1
      (coach_matches libraries settings (some client) clock cache budget flags)
coach_matches-IsCounted_example =
    coach_matches-IsCounted libraries settings (some client) clock cache budget flags

coach_matches-IsHonest_example :
    IsHonest libraries client flags
      (coach_matches libraries settings (some client) clock cache budget flags)
coach_matches-IsHonest_example =
    coach_matches-IsHonest libraries settings client clock cache budget flags tt
      (tt, (tt, (tt, tt)))

abbrev pub coach_stage : CoachStage
coach_stage = record {
  libraries = libraries;
  nearest = λ a b. a / b;
  settings = settings;
  client = some client;
  clock = clock;
  cache = cache;
  budget = budget;
}
