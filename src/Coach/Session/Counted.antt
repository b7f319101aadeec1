-- ===== src/Coach/Session/Counted.antt =====
-- The counters of the coach are bounded by the number of rounds, which is at most the setting.
use p_r_i_s_m.Prelude.{
  ℕ, zero, suc, ◌+◌, ◌≤◌, List, [], ◌∷◌, Bool, true, false, Option, none, some, String, length,
  arith, length-append, length-take-le, ◌<◌, subst,
}
use p_r_i_s_m.Text.{Text}
use p_r_i_s_m.TtlCache.{TtlCache}
use p_r_i_s_m.Matcher.Types.{Match}
use p_r_i_s_m.Triage.Rules.{RuleType, Rule}
use p_r_i_s_m.Triage.Signals.{Signals}
use p_r_i_s_m.Triage.Summary.{Triage}
use p_r_i_s_m.Coach.Budget.{CoachBudget}
use p_r_i_s_m.Coach.Select.{Coached, Flag, select}
use p_r_i_s_m.Coach.Session.{
  Answer, replied, raised, Loaded, fields_of, other, broken, LlmClient, Libraries, CoachSettings,
  Readings, Stored, Session, Round, next, stop, session_of, put_coach, show, add_error, count_reply,
  keep_card, take_loaded, take_answer, prompt_of, complete, ask_model, take_cached, round, rounds,
  coach_matches, no_stats, and_then,
}

-- How many flags have a card.
unfoldable pub carded : List Flag → ℕ
carded [] = 0
carded (flag ∷ flags) = (elim flag.coach [ none ↦ 0 | some c ↦ 1 ]) + carded flags

carded-put_coach :
    (n : ℕ) (c : Coached) (flags : List Flag) → carded (put_coach n c flags) ≤ suc (carded flags)
unfolding carded put_coach
carded-put_coach n c [] = omega arith
carded-put_coach zero c (flag ∷ flags) = ground arith
carded-put_coach (suc n) c (flag ∷ flags) = ground (arith, carded-put_coach n c flags)

-- After so many rounds, with so many cards at the start: a round gives the client one prompt at most,
-- and gives one flag a card or notes one error; the calls that are counted are among those made; a
-- card comes from the cache or from a call.
pub record IsCounted (at_start rounds_done : ℕ) (s : Session) : Type 0 where
  pub asked_bounded : length s.asked ≤ rounds_done
  pub calls_bounded : s.stats.calls ≤ length s.asked
  pub outcomes_bounded : s.stats.coached + length s.stats.errors ≤ rounds_done
  pub from_somewhere : s.stats.coached ≤ s.stats.cached + s.stats.calls
  pub cards_bounded : carded s.flags ≤ at_start + s.stats.coached

module _ (a k : ℕ) where
  show-IsCounted :
      (n : ℕ) (model : Text) (cached : Bool) (stored : Stored) (s : Session)
      → length s.asked ≤ suc k
      → s.stats.calls ≤ length s.asked
      → s.stats.coached + length s.stats.errors ≤ k
      → s.stats.coached < s.stats.cached + s.stats.calls
      → carded s.flags ≤ a + s.stats.coached
      → IsCounted a (suc k) (show n model cached stored s)
  unfolding show
  show-IsCounted n model cached stored s q c o f b = record {
    asked_bounded = q;
    calls_bounded = c;
    outcomes_bounded = omega arith;
    from_somewhere = omega arith;
    cards_bounded = omega (arith, carded-put_coach n _ s.flags);
  }

  add_error-IsCounted :
      (name : String) (s : Session)
      → length s.asked ≤ suc k
      → s.stats.calls ≤ length s.asked
      → s.stats.coached + length s.stats.errors ≤ k
      → s.stats.coached ≤ s.stats.cached + s.stats.calls
      → carded s.flags ≤ a + s.stats.coached
      → IsCounted a (suc k) (add_error name s)
  unfolding add_error
  add_error-IsCounted name s q c o f b = record {
    asked_bounded = q;
    calls_bounded = c;
    outcomes_bounded = omega (arith, length-append s.stats.errors (name ∷ []));
    from_somewhere = f;
    cards_bounded = b;
  }

  module _ (lib : Libraries) (settings : CoachSettings) (client : LlmClient) where
    take_loaded-IsCounted :
        (now : Readings) (n : ℕ) (type : RuleType) (m : Match) (loaded : Loaded) (s : Session)
        → length s.asked ≤ suc k
        → s.stats.calls ≤ length s.asked
        → s.stats.coached + length s.stats.errors ≤ k
        → s.stats.coached < s.stats.cached + s.stats.calls
        → carded s.flags ≤ a + s.stats.coached
        → IsCounted a (suc k) (take_loaded lib settings client now n type m loaded s)
    unfolding take_loaded keep_card
    take_loaded-IsCounted now n type m (fields_of texts) s q c o f b =
        show-IsCounted n client.model false _ _ q c o f b
    take_loaded-IsCounted now n type m other s q c o f b =
        add_error-IsCounted "ValueError" s q c o (omega arith) b
    take_loaded-IsCounted now n type m (broken name) s q c o f b =
        add_error-IsCounted name s q c o (omega arith) b

    take_answer-IsCounted :
        (now : Readings) (n : ℕ) (type : RuleType) (m : Match) (answer : Answer) (s : Session)
        → length s.asked ≤ suc k
        → s.stats.calls < length s.asked
        → s.stats.coached + length s.stats.errors ≤ k
        → s.stats.coached ≤ s.stats.cached + s.stats.calls
        → carded s.flags ≤ a + s.stats.coached
        → IsCounted a (suc k) (take_answer lib settings client now n type m answer s)
    unfolding take_answer count_reply
    take_answer-IsCounted now n type m (raised name) s q c o f b =
        add_error-IsCounted name s q (omega arith) o f b
    take_answer-IsCounted now n type m (replied reply) s q c o f b =
        take_loaded-IsCounted now n type m (lib.loads reply.text) _ q (omega arith) o (omega arith)
          b

    ask_model-IsCounted :
        (now : Readings) (n : ℕ) (rule : Rule) (signals : Signals) (m : Match)
        (answer : CoachBudget × Bool) (s : Session)
        → IsCounted a k s
        → IsCounted a
            (suc k)
            (session_of (ask_model lib settings client now n rule signals m answer s))
    unfolding ask_model complete session_of
    ask_model-IsCounted now n rule signals m (budget, false) s h = record {
      asked_bounded = omega (arith, h.asked_bounded);
      calls_bounded = h.calls_bounded;
      outcomes_bounded = omega (arith, h.outcomes_bounded);
      from_somewhere = h.from_somewhere;
      cards_bounded = h.cards_bounded;
    }
    ask_model-IsCounted now n rule signals m (budget, true) s h =
        let called =
          complete lib settings client (prompt_of rule signals m) (record s { budget = budget }) in
        take_answer-IsCounted now n rule.type m called.1 called.0 (omega (arith, h.asked_bounded))
          (omega (arith, h.calls_bounded)) h.outcomes_bounded h.from_somewhere h.cards_bounded

    take_cached-IsCounted :
        (now : Readings) (n : ℕ) (rule : Rule) (signals : Signals) (m : Match)
        (found : TtlCache Text Stored × Option Stored) (s : Session)
        → IsCounted a k s
        → IsCounted a
            (suc k)
            (session_of (take_cached lib settings client now n rule signals m found s))
    unfolding take_cached session_of
    take_cached-IsCounted now n rule signals m (cache, some stored) s h =
        show-IsCounted n client.model true stored _ (omega (arith, h.asked_bounded)) h.calls_bounded
          h.outcomes_bounded (omega (arith, h.from_somewhere)) h.cards_bounded
    take_cached-IsCounted now n rule signals m (cache, none) s h =
        ask_model-IsCounted now n rule signals m _ (record s { cache = cache })
          (record {
            asked_bounded = h.asked_bounded;
            calls_bounded = h.calls_bounded;
            outcomes_bounded = h.outcomes_bounded;
            from_somewhere = h.from_somewhere;
            cards_bounded = h.cards_bounded;
          })

    round-IsCounted :
        (now : Readings) (n : ℕ) (triage : Option Triage) (m : Match) (s : Session)
        → IsCounted a k s
        → IsCounted a (suc k) (session_of (round lib settings client now n triage m s))
    unfolding round session_of
    round-IsCounted now n none m s h = record {
      asked_bounded = omega (arith, h.asked_bounded);
      calls_bounded = h.calls_bounded;
      outcomes_bounded = omega (arith, h.outcomes_bounded);
      from_somewhere = h.from_somewhere;
      cards_bounded = h.cards_bounded;
    }
    round-IsCounted now n (some t) m s h = take_cached-IsCounted now n t.rule t.signals m _ s h

    after_round :
        (m : ℕ) (r : Round) (rest : Session → Session)
        → IsCounted a (suc k) (session_of r)
        → ((s : Session) → IsCounted a (suc k) s → IsCounted a (suc k + m) (rest s))
        → IsCounted a (suc k + m) (and_then r rest)
    unfolding and_then session_of
    after_round m (next s) rest h step = step s h
    after_round m (stop s) rest h step = record {
      asked_bounded = omega (arith, h.asked_bounded);
      calls_bounded = h.calls_bounded;
      outcomes_bounded = omega (arith, h.outcomes_bounded);
      from_somewhere = h.from_somewhere;
      cards_bounded = h.cards_bounded;
    }

module _ (lib : Libraries) (settings : CoachSettings) (client : LlmClient)
    (clock : ℕ → Readings) where
  rounds-IsCounted :
      (a k i : ℕ) (selected : List (ℕ × Flag)) (s : Session)
      → IsCounted a k s
      → IsCounted a (k + length selected) (rounds lib settings client clock i selected s)
  unfolding rounds
  rounds-IsCounted a k i [] s h = subst (λ (r : ℕ). IsCounted a r s) (omega arith) h
  rounds-IsCounted a k i ((n, flag) ∷ rest) s h =
      let step =
        after_round a k lib settings client (length rest)
          (round lib settings client (clock i) n flag.triage flag.match s)
          (rounds lib settings client clock (suc i) rest)
          (round-IsCounted a k lib settings client (clock i) n flag.triage flag.match s h)
          (rounds-IsCounted a (suc k) (suc i) rest) in
      subst (λ (r : ℕ). IsCounted a r (rounds lib settings client clock i ((n, flag) ∷ rest) s))
        (omega arith) step

-- Whatever the model answers, and however often its calls end with an exception, a check gives the
-- client at most as many prompts as the setting allows, and counts no more calls than it has made; the
-- flags that get a card and the errors together are no more than the setting allows either, and
-- each card comes from the cache or from a counted call of this check.
pub coach_matches-IsCounted :
    (lib : Libraries) (settings : CoachSettings) (client : Option LlmClient) (clock : ℕ → Readings)
    (cache : TtlCache Text Stored) (budget : CoachBudget) (flags : List Flag)
    → IsCounted
        (carded flags)
        settings.max_per_check
        (coach_matches lib settings client clock cache budget flags)
unfolding coach_matches
coach_matches-IsCounted lib settings none clock cache budget flags = record {
  asked_bounded = omega arith;
  calls_bounded = omega arith;
  outcomes_bounded = omega arith;
  from_somewhere = omega arith;
  cards_bounded = omega arith;
}
coach_matches-IsCounted lib settings (some client) clock cache budget flags =
    let h =
      rounds-IsCounted lib settings client clock (carded flags) 0 0
        (select flags settings.max_per_check)
        (record { asked = []; flags = flags; cache = cache; budget = budget; stats = no_stats })
        (record {
          asked_bounded = omega arith;
          calls_bounded = omega arith;
          outcomes_bounded = omega arith;
          from_somewhere = omega arith;
          cards_bounded = omega arith;
        }) in
    let few : length (select flags settings.max_per_check) ≤ settings.max_per_check =
      (unfold select in length-take-le settings.max_per_check _) in
    record {
      asked_bounded = omega (arith, h.asked_bounded);
      calls_bounded = h.calls_bounded;
      outcomes_bounded = omega (arith, h.outcomes_bounded);
      from_somewhere = h.from_somewhere;
      cards_bounded = h.cards_bounded;
    }
