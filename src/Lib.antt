-- ===== src/Lib.antt =====
-- A model of GossipMemo, a memory service that records the messages of conversations, extracts
-- memories of people from them with a language model, and serves them to agents.
--
-- The parts and how they interact. A message is recorded (Messages), put into a batch, and
-- extracted by a request to a provider (Provider) that must fit a budget (Budget); evidence that
-- is too large is packed into several requests (Chunking). All requests go through one gate
-- (Gate). What an extraction finds is written to the tables of people and memories (People), which
-- are also edited by hand. The evidence there is read root by root by the audits of coverage, from
-- which learning goals are planned (Coverage), in the loop that all reasoners share (Reasoner). The
-- cards of people, relationships and the user are committed at the watermark of their evidence
-- (Reasoning), a space's continuity at its last message (Continuity).
--
-- Files and code:
-- - Base: names of the libraries, Boolean tests, lists, results and integers.
-- - Gate: ProviderGate of src/gossipmemo/transport.py, the tiers of src/gossipmemo/priority.py.
--   `enqueue` is `acquire` up to its await, `unwind` its handler of CancelledError; Gate/Steps has
--   the steps that the event loop takes, Gate/Invariant what they keep.
-- - Budget: src/gossipmemo/context_budget.py.
-- - Chunking: src/gossipmemo/chunking.py; Chunking/Rounds has `reduce_until_fits`.
-- - Provider: RetryPolicy, `_message_content` and `structured` of src/gossipmemo/transport.py, and
--   `complete` of src/gossipmemo/llm.py, as the events that are seen from outside.
-- - Messages: `ensure_space` of src/gossipmemo/store/_base.py. Messages/Ingest is
--   `record_messages`, Messages/Batches the life of a batch and Messages/Context
--   `load_extraction_context` in src/gossipmemo/store/_messages.py,
--   Messages/Extraction the frame of `apply_extraction`, `_attempt` of
--   src/gossipmemo/reasoners/extraction.py and the loop of src/gossipmemo/reasoners/base.py.
-- - People: the tables of src/gossipmemo/schema.sql, and people and relationships of
--   src/gossipmemo/store/_people.py, with People/Merge for `merge_person`; People/Memories is the
--   manual life of a memory in src/gossipmemo/store/_memories.py, People/Extracted what
--   `apply_extraction` writes.
-- - Coverage: src/gossipmemo/store/_coverage.py. Coverage/Audit is `apply_coverage_audit`,
--   Coverage/Goals the learning goals, Coverage/Reading the attempts as steps and the queue of
--   evidence that each root stands for.
-- - Reasoner: src/gossipmemo/reasoners/base.py; Reasoner/Coverage is
--   src/gossipmemo/reasoners/coverage.py, Reasoner/Owners the reasoners of people, relationships and
--   the user model beside it. A request that raises ends the loop, and what was committed stays.
-- - Reasoning: src/gossipmemo/store/_reasoning.py, with the watermarks of
--   src/gossipmemo/store/_projections.py. Reasoning/Inferred is `_apply_inferred_memory_actions`,
--   Reasoning/Hypotheses `_apply_hypothesis_actions`, Reasoning/Apply the commits and what is stale,
--   Reasoning/Contexts the reads before them, some in src/gossipmemo/store/_people.py.
-- - Continuity: src/gossipmemo/store/_continuity.py and src/gossipmemo/reasoners/continuity.py.
-- - Intake: the loops of src/gossipmemo/world.py that put messages into batches.
--
-- State and operations. A table is the list of its rows; a method is a function from tables to
-- tables and a result, one transaction. Ids, timestamps and texts that are only stored and compared
-- are natural numbers, 0 for the empty text. What `new_id`, `now_iso` and the random jitter draw
-- are arguments, as are the functions of other packages.
--
-- Bounds and fuel. The bisection counts at most as many rounds as its range is long, the loops of
-- the reasoners and of Intake have fuel; all are proved to be enough where the loops end. Numbers of
-- the source are Python integers, without a width; times are numbers of one small unit.
--
-- Not modelled: SQLite itself, full-text and vector search, the HTTP client, JSON and pydantic,
-- prompts, logging and traces, migrations, the admin interface, the requests of the reasoners, the
-- tasks and timers of src/gossipmemo/world.py, the Python client and the Hermes plugin.
-- `normalized` and `similar_memory_content` of src/gossipmemo/store/policy.py rest on the tables of
-- Unicode, regular expressions and difflib; they are arguments.
pub mod Base
pub mod Gate
pub mod Budget
pub mod Chunking
pub mod Provider
pub mod Messages
pub mod People
pub mod Coverage
pub mod Reasoner
pub mod Reasoning
pub mod Continuity
pub mod Intake
