-- ===== src/Coach/Session/Shown.antt =====
-- What the coach shows: cards that were filtered, on flags that ask for one, and nothing else.
use p_r_i_s_m.Prelude.{ℕ, suc, ◌≡◌, refl, List, [], ◌∷◌, Bool, true, false, Option, none, some, All}
use p_r_i_s_m.Text.{Text, Eq-Text}
use p_r_i_s_m.TtlCache.{TtlCache}
use p_r_i_s_m.TtlCache.Values.{AllValues, AllValues-put, AllValues-get, Read}
use p_r_i_s_m.Triage.Summary.{Triage}
use p_r_i_s_m.Coach.Budget.{CoachBudget}
use p_r_i_s_m.Coach.Select.{Flag, select}
use p_r_i_s_m.Coach.Select.Chosen.{IsSelected, select-IsSelected}
use p_r_i_s_m.Coach.Session.{
  Answer, replied, raised, Loaded, fields_of, other, broken, LlmClient, Libraries, CoachSettings,
  Readings, Stored, Session, Round, next, stop, session_of, and_then, add_error, count_reply,
  keep_card, take_loaded, take_answer, prompt_of, complete, ask_model, take_cached, round, rounds,
  key_of, coach_matches,
}
use p_r_i_s_m.Coach.Session.Honest.{
  IsFiltered, IsShown, IsHonest, show-IsHonest, of_same_flags, filtered_card-IsFiltered,
}

module _ (lib : Libraries) (settings : CoachSettings) (client : LlmClient) (flags : List Flag) where
  take_loaded-IsHonest :
      (now : Readings) (n : ℕ) (f : Flag) (t : Triage) (loaded : Loaded) (s : Session)
      → IsSelected flags (n, f)
      → f.triage ≡ some t
      → IsHonest lib client flags s
      → IsHonest lib client flags
          (take_loaded lib settings client now n t.rule.type f.match loaded s)
  unfolding take_loaded keep_card add_error
  take_loaded-IsHonest now n f t (fields_of texts) s sel e h =
      let filtered = filtered_card-IsFiltered lib client flags t.rule.type f.match texts in
      show-IsHonest lib client flags n false _ f t _ sel e filtered (
        of_same_flags lib client flags s _ refl
          (AllValues-put (IsFiltered lib) now.at_put _ _ s.cache filtered h.all_stored) h)
  take_loaded-IsHonest now n f t other s sel e h =
      of_same_flags lib client flags s _ refl h.all_stored h
  take_loaded-IsHonest now n f t (broken name) s sel e h =
      of_same_flags lib client flags s _ refl h.all_stored h

  take_answer-IsHonest :
      (now : Readings) (n : ℕ) (f : Flag) (t : Triage) (answer : Answer) (s : Session)
      → IsSelected flags (n, f)
      → f.triage ≡ some t
      → IsHonest lib client flags s
      → IsHonest lib client flags
          (take_answer lib settings client now n t.rule.type f.match answer s)
  unfolding take_answer count_reply add_error
  take_answer-IsHonest now n f t (raised name) s sel e h =
      of_same_flags lib client flags s _ refl h.all_stored h
  take_answer-IsHonest now n f t (replied reply) s sel e h =
      take_loaded-IsHonest now n f t (lib.loads reply.text) (count_reply reply s) sel e
        (of_same_flags lib client flags s _ refl h.all_stored h)

  ask_model-IsHonest :
      (now : Readings) (n : ℕ) (f : Flag) (t : Triage) (answer : CoachBudget × Bool) (s : Session)
      → IsSelected flags (n, f)
      → f.triage ≡ some t
      → IsHonest lib client flags s
      → IsHonest lib client flags
          (session_of (ask_model lib settings client now n t.rule t.signals f.match answer s))
  unfolding ask_model complete session_of
  ask_model-IsHonest now n f t (budget, false) s sel e h =
      of_same_flags lib client flags s _ refl h.all_stored h
  ask_model-IsHonest now n f t (budget, true) s sel e h =
      let called =
        complete lib settings client (prompt_of t.rule t.signals f.match)
          (record s { budget = budget }) in
      take_answer-IsHonest now n f t called.1 called.0 sel e
        (of_same_flags lib client flags s _ refl h.all_stored h)

  take_cached-IsHonest :
      (now : Readings) (n : ℕ) (f : Flag) (t : Triage)
      (found : TtlCache Text Stored × Option Stored) (s : Session)
      → Read (IsFiltered lib) (key_of lib client t.rule.type f.match) found
      → IsSelected flags (n, f)
      → f.triage ≡ some t
      → IsHonest lib client flags s
      → IsHonest lib client flags
          (session_of (take_cached lib settings client now n t.rule t.signals f.match found s))
  unfolding take_cached session_of
  take_cached-IsHonest now n f t (cache, some stored) s read sel e h =
      show-IsHonest lib client flags n true stored f t _ sel e read.1
        (of_same_flags lib client flags s _ refl read.0 h)
  take_cached-IsHonest now n f t (cache, none) s read sel e h =
      ask_model-IsHonest now n f t _ (record s { cache = cache }) sel e
        (of_same_flags lib client flags s _ refl read h)

  round-IsHonest :
      (now : Readings) (n : ℕ) (f : Flag) (triage : Option Triage) (s : Session)
      → IsSelected flags (n, f)
      → f.triage ≡ triage
      → IsHonest lib client flags s
      → IsHonest lib client flags (session_of (round lib settings client now n triage f.match s))
  unfolding round session_of
  round-IsHonest now n f none s sel e h = h
  round-IsHonest now n f (some t) s sel e h =
      take_cached-IsHonest now n f t _ s
        (AllValues-get (IsFiltered lib) now.at_get _ s.cache h.all_stored) sel e h

  after_round :
      (r : Round) (rest : Session → Session)
      → IsHonest lib client flags (session_of r)
      → ((s : Session) → IsHonest lib client flags s → IsHonest lib client flags (rest s))
      → IsHonest lib client flags (and_then r rest)
  unfolding and_then session_of
  after_round (next s) rest h step = step s h
  after_round (stop s) rest h step = h

  rounds-IsHonest :
      (clock : ℕ → Readings) (i : ℕ) (selected : List (ℕ × Flag)) (s : Session)
      → All (IsSelected flags) selected
      → IsHonest lib client flags s
      → IsHonest lib client flags (rounds lib settings client clock i selected s)
  unfolding rounds
  rounds-IsHonest clock i [] s sel h = h
  rounds-IsHonest clock i ((n, f) ∷ rest) s sel h =
      after_round _ _ (round-IsHonest (clock i) n f f.triage s sel.0 refl h)
        (λ s' h'. rounds-IsHonest clock (suc i) rest s' sel.1 h')

-- Whatever the model answers, and whatever an earlier check left in a cache that holds filtered cards
-- alone: but for their cards, the flags are as they were; a flag that has a card is one of those
-- that ask for one, and every field of the card is the text of a rule, or is a text that, stripped,
-- is not empty, has at most 600 characters, coaches no evasion and shares no run of eight words with
-- the passage or the excerpt of the source that its key digests; and the cache still holds nothing
-- else.
pub coach_matches-IsHonest :
    (lib : Libraries) (settings : CoachSettings) (client : LlmClient) (clock : ℕ → Readings)
    (cache : TtlCache Text Stored) (budget : CoachBudget) (flags : List Flag)
    → AllValues (IsFiltered lib) cache
    → All (IsShown lib client) flags
    → IsHonest lib client flags (coach_matches lib settings (some client) clock cache budget flags)
unfolding coach_matches
coach_matches-IsHonest lib settings client clock cache budget flags stored shown =
    rounds-IsHonest lib settings client flags clock 0 (select flags settings.max_per_check) _
      (select-IsSelected flags settings.max_per_check)
      (record { same_flags = refl; all_shown = shown; all_stored = stored })
