-- ===== src/Lib.antt =====
-- P.R.I.S.M. checks a manuscript against reference sources before it is submitted: passages copied
-- word for word and close paraphrases are located, classified and counted, each flag is given the
-- fix that it calls for, and a report is built. The backend is an HTTP service in which a check is
-- a job: `app` accepts it and limits the rate, `worker` queues and runs it and stores its record,
-- `pipeline` runs the stages, `services` holds the logic of each stage.
--
-- How the parts interact. The router admits a request by the rate limiter or the user's quota, which
-- counts the usage ledger, validates the upload and hands it to the runner. The runner creates a job
-- in the store and gives it to the executor; a thread later runs the pipeline, or takes the result
-- from the cache, and stores the outcome. The pipeline parses the uploads and calls
-- `PlagiarismMatcher.check`, whose verbatim part tokenizes the texts, looks for copied runs of words
-- and aggregates them into figures of coverage. Its triage stage annotates the matches; the
-- coach's stage, if there is one, lets a language model phrase a card for the most urgent of them,
-- behind a filter, a cache and a budget that the process shares. The runner
-- builds the report from the triage and the coverage, and may compare it with an earlier one.
--
-- Files, and the code that they model (`services/x.py` is `backend/services/x.py`):
--   Prelude, Text, Dict   shared: tests on numbers, lists, Python's `str`, `dict` and slices.
--                         A dict is an association list in insertion order; a text is the list of
--                         its code points.
--   Matcher/Types         services/plagiarism_matcher.py: `SourceDoc`, and the dict of one match
--   Matcher/Tokens        `_WORD_RE` as a scanner, and `tokenize`
--   Matcher/Verbatim      `_verbatim_matches`: the index of k-grams, the extension of a candidate
--                         and the scan. Proofs: Runs (the extension stops at the first difference),
--                         Index (the index holds every k-gram), Best (the longest candidate is
--                         kept), Anchors and Scan (the whole list of matches)
--   Matcher/Emit          the dict that a match is reported as, with offsets, `_context`. Proofs:
--                         Offsets, Copies, Reports
--   Matcher/Coverage      `_token_range`, `confidence_breakdown`, `_aggregate`. Proofs: Sets,
--                         Filled, Shares
--   Matcher/Check         `PlagiarismMatcher.__init__`, `confident_threshold_for` and `check`, with the
--                         search for paraphrases as an argument. Proofs: Reported
--   Matcher/Sentences     `split_sentences`, `_is_sentence_end`, `_sentences`, with `_SENT_END_RE` and
--                         `_ABBREV_TAIL_RE` as scanners. Proofs: Ends, Tiles,
--                         Trimmed
--   Matcher/Paraphrase    `_paraphrase_matches`, `_budget_source_sentences`, `_detect_lang`,
--                         `_overlap_ratio`. Proofs: Closest, Kept, Reported
--   TtlCache              utils/ttl_cache.py: `TTLCache`. Proofs: Freshness, Values
--   Worker/Store          worker/store.py: `JobRecord`, `InMemoryJobStore`; Postgres
--                         (worker/postgres_store.py: `PostgresJobStore`). Proofs: Lifecycle,
--                         Histories, and for the table Durable, Refined, Updated, Answers
--   Worker/Usage          worker/usage.py: Memory and Postgres, the two ledgers. Proofs: Owners,
--                         Agreement
--   Worker/Runner         worker/runner.py: `CheckRunner` over the store, the executor and the
--                         cache; Request (`CheckRequest.content_hash`); Coverage
--                         (`_coverage_statement`); Assembly (`_compute`, `_assemble`). Proofs:
--                         Order, Lifecycle, Computed
--   Worker/Executor       worker/executor.py: `BoundedExecutor` as a step relation on its counters
--                         and on the tasks of the pool. Proofs: Capacity
--   App/Limits            app/limits.py: `RateLimiter`; Client (`client_key`). Proofs: Steps, Quota
--   App/Auth              app/auth.py: Keys (the data of a token and of a key),
--                         `JWTVerifier`, `current_principal`. Proofs: Verified
--   App/Check             app/routers/check.py: Uploads (what looks at the form alone),
--                         `submit_check`, `check_status`. Proofs: Ownership, Sizes, Accepted,
--                         Recorded, Quota
--   NumericGuard          services/numeric_guard.py. Proofs: Agreement
--   Triage                services/triage.py: Rules (`RULES`), Signals (the signals and `classify`),
--                         Summary (`triage_matches`). Proofs: Counts, Order, Decisions
--   Pipeline/Rerank       pipeline/stages.py: `RerankStage`. Proofs: Described (what it is meant to
--                         do, without its code), Idle, Written,
--                         Scored
--   Pipeline/Localize     pipeline/stages.py: `LocalizeStage`. Proofs: Located, Context
--   Pipeline/Stages       Context (pipeline/base.py), orchestrator.py, and the other stages of
--                         stages.py, the coach's in Coaching. Proofs: Begun, Completed, Coached
--   Coach                 services/coach.py: Budget (`CoachBudget`), Cards (`_verbatim_run`,
--                         `post_filter`, `static_card`; proofs: Copied, Fields, Filtered), Select
--                         (`_select`, `_cache_key`, `_user_prompt`; proofs: Chosen), Session
--                         (`coach_matches`; proofs: Counted, Honest, Shown), Summary (`_summary`)
--   Parser                services/document_parser.py: Types (its data and libraries) and the
--                         functions. Proofs: Anchors, Failures, Limits
--   Report                services/report.py: `build_report`; Compare (`compare`). Proofs: Risk,
--                         Recheck
--   Tests                 runs at concrete inputs, and an instance of each property
--
-- How values correspond. A method that changes its object takes the object and returns the new one
-- beside its result; a lock makes a method one step. A reading of the clock is an argument, in whole
-- milliseconds, and so is a fresh `uuid4`. A float that the code has rounded to d decimals is a
-- whole number of units of the last place: a similarity counts ten-thousandths, a percentage
-- hundredths, a ratio of function words thousandths. A set of token indices is the list of its
-- members, each once. An index out of range, which Python answers with an exception, is `none`.
--
-- Parameters, for what is not in the repository: `Text.Unicode` (the class `\w` of `re`, `isspace`,
-- NFKD with case folding), `Coverage.Rounding` (float division and `round` of a percentage),
-- `Signals.Python` (the matches of the four citation patterns, `lower`, `casefold`, the rounding of
-- a quotient), `NumericGuard.Floats` (floats and their equality, `lower`, the matches of two
-- patterns), `Rerank.Scores` (the floats of a cross-encoder), `Parser.ParserLibraries` (the regular
-- expressions and PyMuPDF) and `Auth.Jwt` (PyJWT). `Stages.Collaborators` gathers what a pipeline is
-- built from. `Sentences.CharTests` is `isdigit` and `islower` of a character. `Paraphrase.Tools`
-- holds the encoder with the cosine similarity, the ranking by TF-IDF, langdetect and the logarithm,
-- and `Paraphrase.Similarities` the floats that the encoder answers. `Session.Libraries` and
-- `Session.LlmClient` are what the coach calls: the pattern of evasion, UTF-8, SHA-1, `json.loads`
-- and the model, whose answer may be anything; its state is the list of the prompts that it was given. The runner is modelled for any `Runner.Engine`, and
-- `Assembly.engine_of` is the one that the program uses, over a digest. No law is assumed of any
-- parameter but that the equality of numbers decides whether they are equal, that no similarity is
-- less than itself, and that one which is above another is not below a third that the other is not
-- below.
--
-- Fuel. The scan gets one unit more than the document has words, and the extension of a candidate as
-- many units as the document has words: every round moves on by a word, and both are proved to reach
-- their end. `Text.decimal` gets one unit more than the number whose digits it writes, and there are
-- no more digits than that. All other recursion is structural.
--
-- Not modelled. Settings, schemas and wiring are declarations for other libraries. Retrieval from
-- academic databases, the loading of models and the training code are left out as input and output
-- around other libraries, and the evaluation scripts as measurements that no check uses.
-- What PyMuPDF raises after it has opened a file, and a score that is no number, are outcomes of the
-- model, which nothing in the pipeline catches. An exception that a modelled function cannot raise has
-- no value in the model: the handlers for unforeseen errors of the triage and of the report are left
-- out.
pub mod Prelude
pub mod Text
pub mod Dict
pub mod Matcher
pub mod TtlCache
pub mod Worker
pub mod App
pub mod NumericGuard
pub mod Triage
pub mod Parser
pub mod Report
pub mod Pipeline
pub mod Coach
pub mod Tests
