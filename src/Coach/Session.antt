-- ===== src/Coach/Session.antt =====
-- `coach_matches` of backend/services/coach.py: the loop over the selected flags, over the cache, the
-- budget and the counters. The model behind the client, the digest, the encoding, `json.loads` and
-- the pattern of evasion are arguments, and so are the readings of the clock.
pub mod Counted
pub mod Honest
pub mod Shown
use p_r_i_s_m.Prelude.{
  ℕ, zero, suc, ◌+◌, List, [], ◌∷◌, ◌++◌, Bool, true, false, Option, none, some, String, length,
  take, if◌then◌else◌,
}
use p_r_i_s_m.Text.{Text, Eq-Text, Unicode, codes}
use p_r_i_s_m.TtlCache
use p_r_i_s_m.TtlCache.{TtlCache}
use p_r_i_s_m.Matcher.Types.{Match}
use p_r_i_s_m.Triage.Rules.{RuleType, Rule}
use p_r_i_s_m.Triage.Signals.{Signals}
use p_r_i_s_m.Triage.Summary.{Triage}
use p_r_i_s_m.Coach.Budget
use p_r_i_s_m.Coach.Budget.{CoachBudget}
use p_r_i_s_m.Coach.Cards.{
  Card, Field, post_filter, static_card, what_it_is, why_flagged, honest_fix, do_not,
}
use p_r_i_s_m.Coach.Select.{Coached, Flag, select, cache_key, max_excerpt_chars, user_prompt}

-- `LLMReply`
pub record LlmReply : Type 0 where
  pub text : Text
  pub prompt_tokens : ℕ
  pub completion_tokens : ℕ

-- How a call ends: with a reply, or with an exception, of which the code keeps the type's name.
pub data Answer : Type 0 where
  replied : LlmReply → Answer
  raised : String → Answer

-- What `json.loads` makes of a text: an object, read as `str(parsed.get(k, "") or "")`; another
-- value; an exception.
pub data Loaded : Type 0 where
  fields_of : (Field → Text) → Loaded
  other : Loaded
  broken : String → Loaded

-- `LLMClient`, whose state is the list of the user's prompts that it has been given in this check,
-- the last one first: its answer may depend on them, on the prompt, the limit of tokens and the
-- timeout; the system prompt is always the same.
pub record LlmClient : Type 0 where
  pub model : Text
  pub complete : List Text → Text → ℕ → ℕ → Answer

pub record Libraries : Type 0 where
  pub unicode : Unicode
  pub evades : Text → Bool
  pub utf8 : Text → List ℕ
  pub sha1 : List ℕ → Text
  pub loads : Text → Loaded

pub record CoachSettings : Type 0 where
  pub max_per_check : ℕ
  pub timeout : ℕ
  pub max_tokens : ℕ

-- The readings of the clock in one round of the loop: at `cache.get`, `budget.take`, `cache.put`.
pub record Readings : Type 0 where
  pub at_get : ℕ
  pub at_take : ℕ
  pub at_put : ℕ

pub record CoachStats : Type 0 where
  pub coached : ℕ
  pub calls : ℕ
  pub cached : ℕ
  pub filtered_fields : ℕ
  pub prompt_tokens : ℕ
  pub completion_tokens : ℕ
  pub skipped_reason : Option String
  pub errors : List String

abbrev pub no_stats : CoachStats
no_stats = record {
  coached = 0;
  calls = 0;
  cached = 0;
  filtered_fields = 0;
  prompt_tokens = 0;
  completion_tokens = 0;
  skipped_reason = none;
  errors = [];
}

-- What the cache holds: the card, with its key `filtered`.
pub record Stored : Type 0 where
  pub card : Card
  pub filtered : List Field

-- What the loop works on, with the state of the client.
pub record Session : Type 0 where
  pub asked : List Text
  pub flags : List Flag
  pub cache : TtlCache Text Stored
  pub budget : CoachBudget
  pub stats : CoachStats

-- How a round ends: with `break`, or not.
pub data Round : Type 0 where
  next stop : Session → Round

-- the next rounds, if there was no `break`
unfoldable pub and_then : Round → (Session → Session) → Session
and_then (next s) rest = rest s
and_then (stop s) rest = s

unfoldable pub session_of : Round → Session
session_of (next s) = s
session_of (stop s) = s

-- `m["coach"] = …`, for the flag at the position
unfoldable pub put_coach : ℕ → Coached → List Flag → List Flag
put_coach n coached [] = []
put_coach zero coached (flag ∷ flags) = record flag { coach = some coached } ∷ flags
put_coach (suc n) coached (flag ∷ flags) = flag ∷ put_coach n coached flags

-- the end of a round
unfoldable pub show : ℕ → Text → Bool → Stored → Session → Session
unfolding put_coach
show n model cached stored s = record s {
  flags =
      put_coach n
        (record { card = stored.card; filtered = stored.filtered; model = model; cached = cached })
        s.flags;
  stats = record s.stats { coached = suc s.stats.coached };
}

-- `stats.errors.append(type(exc).__name__)`
unfoldable pub add_error : String → Session → Session
add_error name s = record s { stats = record s.stats { errors = s.stats.errors ++ name ∷ [] } }

-- the counters of a call that was answered
unfoldable pub count_reply : LlmReply → Session → Session
count_reply reply s = record s {
  stats = record s.stats {
    calls = suc s.stats.calls;
    prompt_tokens = s.stats.prompt_tokens + reply.prompt_tokens;
    completion_tokens = s.stats.completion_tokens + reply.completion_tokens;
  };
}

-- `(m.get(…) or "")[:_MAX_EXCERPT_CHARS]`, of the passage and of the source
unfoldable pub passage_of : Option Text → Text
passage_of none = []
passage_of (some text) = take max_excerpt_chars text

unfoldable pub doc_excerpt : Match → Text
unfolding passage_of
doc_excerpt m = passage_of m.doc_excerpt

unfoldable pub source_excerpt : Match → Text
source_excerpt m = take max_excerpt_chars m.source_excerpt

unfoldable pub key_of : Libraries → LlmClient → RuleType → Match → Text
unfolding cache_key doc_excerpt source_excerpt
key_of lib client type m =
    cache_key lib.utf8 lib.sha1 client.model type (doc_excerpt m) (source_excerpt m)

-- `{k: str(parsed.get(k, "") or "") for k in FIELDS}`
unfoldable pub card_of : (Field → Text) → Card
card_of texts = record {
  what = texts what_it_is;
  why = texts why_flagged;
  fix = texts honest_fix;
  dont = texts do_not;
}

-- `post_filter` with its default for `min_words`, on the card that was read
unfoldable pub filtered_card : Libraries → RuleType → Match → (Field → Text) → Card × List Field
unfolding post_filter static_card card_of
filtered_card lib type m texts =
    post_filter lib.unicode lib.evades (source_excerpt m) (doc_excerpt m) 8 (static_card type)
      (card_of texts)

-- the arguments of `_user_prompt`
unfoldable pub prompt_of : Rule → Signals → Match → Text
unfolding user_prompt doc_excerpt source_excerpt
prompt_of rule signals m = user_prompt rule (doc_excerpt m) (source_excerpt m) signals m.confidence

module _ (lib : Libraries) (settings : CoachSettings) (client : LlmClient) where
  -- a call of `client.complete`: the client has been given the prompt, however the call ends
  unfoldable pub complete : Text → Session → Session × Answer
  complete prompt s = (
    record s { asked = prompt ∷ s.asked },
    client.complete s.asked prompt settings.max_tokens settings.timeout,
  )

  -- from `replaced = …` on
  unfoldable pub keep_card : Readings → ℕ → RuleType → Match → (Field → Text) → Session → Session
  unfolding filtered_card key_of show
  keep_card now n type m texts s =
      let (card, replaced) = filtered_card lib type m texts in
      let stored : Stored = record { card = card; filtered = replaced } in
      show n client.model false stored (record s {
        cache = TtlCache.put now.at_put (key_of lib client type m) stored s.cache;
        stats = record s.stats { filtered_fields = s.stats.filtered_fields + length replaced };
      })

  unfoldable pub take_loaded : Readings → ℕ → RuleType → Match → Loaded → Session → Session
  unfolding keep_card add_error
  take_loaded now n type m (fields_of texts) s = keep_card now n type m texts s
  take_loaded now n type m other s = add_error "ValueError" s
  take_loaded now n type m (broken name) s = add_error name s

  unfoldable pub take_answer : Readings → ℕ → RuleType → Match → Answer → Session → Session
  unfolding take_loaded count_reply add_error
  take_answer now n type m (raised name) s = add_error name s
  take_answer now n type m (replied reply) s =
      take_loaded now n type m (lib.loads reply.text) (count_reply reply s)

  -- a round in which the cache has nothing, on the answer of the budget
  unfoldable pub ask_model :
      Readings → ℕ → Rule → Signals → Match → CoachBudget × Bool → Session → Round
  unfolding complete take_answer prompt_of
  ask_model now n rule signals m (budget, false) s = stop (record s {
    budget = budget;
    stats = record s.stats { skipped_reason = some "daily call cap reached" };
  })
  ask_model now n rule signals m (budget, true) s =
      let (s', answer) = complete (prompt_of rule signals m) (record s { budget = budget }) in
      next (take_answer now n rule.type m answer s')

  -- a round, on the answer of the cache
  unfoldable pub take_cached :
      Readings → ℕ → Rule → Signals → Match → TtlCache Text Stored × Option Stored → Session → Round
  unfolding ask_model show
  take_cached now n rule signals m (cache, some stored) s = next (
      show n client.model true stored
        (record s { cache = cache; stats = record s.stats { cached = suc s.stats.cached } }))
  take_cached now n rule signals m (cache, none) s =
      ask_model now n rule signals m (Budget.take now.at_take s.budget) (record s { cache = cache })

  -- One round. The flags that are selected have a triage.
  unfoldable pub round : Readings → ℕ → Option Triage → Match → Session → Round
  unfolding take_cached key_of
  round now n none m s = next s
  round now n (some t) m s =
      take_cached now n t.rule t.signals m
        (TtlCache.get now.at_get (key_of lib client t.rule.type m) s.cache) s

  unfoldable pub rounds : (ℕ → Readings) → ℕ → List (ℕ × Flag) → Session → Session
  unfolding round and_then
  rounds clock i [] s = s
  rounds clock i ((n, flag) ∷ rest) s =
      and_then (round (clock i) n flag.triage flag.match s) (rounds clock (suc i) rest)

-- `coach_matches`
unfoldable pub coach_matches :
    Libraries
    → CoachSettings
    → Option LlmClient
    → (ℕ → Readings)
    → TtlCache Text Stored
    → CoachBudget
    → List Flag
    → Session
unfolding rounds select
coach_matches lib settings none clock cache budget flags = record {
  asked = [];
  flags = flags;
  cache = cache;
  budget = budget;
  stats = record no_stats { skipped_reason = some "not configured" };
}
coach_matches lib settings (some client) clock cache budget flags =
    rounds lib settings client clock 0 (select flags settings.max_per_check)
      (record { asked = []; flags = flags; cache = cache; budget = budget; stats = no_stats })
