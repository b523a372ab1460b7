-- ===== src/Lib.antt =====
-- Betmaxxing collects the odds of a paid provider on a schedule, prices them, lets a candidate
-- through a gate of eligibility and notifies. This library models the parts of it that have to hold
-- whatever its workers, its provider and its network do.
--
-- The parts and their files (paths from the repository's root):
--   Names        src/betmaxxing/domain/ids.py: `slugify` and `normalize_participant`.
--   Identity     src/betmaxxing/ingestion/identity.py: the internal id of a provider's event. Rows holds
--                the tables, Alias the aliases and their import, Match the candidates, Mapped and
--                Resolve `resolve`, Review the operator's decisions and the readings, Trace any
--                sequence of calls. Tables, Queue and Steps say what one call does to each table.
--   Scheduler    src/betmaxxing/scheduler/ledger.py: the table of occurrences that workers claim
--                under a lease and a token. Row holds the row and the enumerations, Enqueue
--                `enqueue` and `occurrence_id`, Claim `claim_due`, Complete the `mark_*` calls,
--                `renew_lease`, `assert_owns` and the inspections, Materialise the planning of
--                occurrences. Trace runs any sequence of calls, and Moves says what a call leaves alone.
--                Occurrence and OwnIds are about the ids of occurrences.
--   Runner       src/betmaxxing/scheduler/runner.py: the worker. Outcome holds the milestones and what a
--                result means, Defs the deadline, the budget's reset and `_finish`, Guard the lease
--                guard, Tick the whole pass over Scheduler, Deadline, Records and Recorded what
--                becomes of a job.
--                It reads the start of an event in the tables of Identity.
--   Budget       src/betmaxxing/providers/budget.py: the credits of a provider's UTC day, as a
--                counter and its detail rows. Defs holds every operation, Audit runs sequences.
--   Client       src/betmaxxing/providers/the_odds_api/client.py: `get`, which reserves each
--                attempt with Budget, and settles it by what came back.
--   Eligibility  src/betmaxxing/engine/eligibility.py and src/betmaxxing/models_ml/registry.py:
--                the gate, and the status that a model needs in a run mode.
--   Outbox       src/betmaxxing/providers/notifications/outbox.py: the right to send one
--                notification of one job on one channel.
--   Montante     src/betmaxxing/challenge/montante.py: the challenge of successive stakes. Money is
--                the rounding to cents, Moves the transitions, Pick the choice of a candidate.
--   Normalize    src/betmaxxing/ingestion/normalize.py: Defs holds repeats, quarantine and completeness
--                of books, Books the newest price of each selection and the grouping into books,
--                BookKey the key by which they are grouped.
--   Receipts     src/betmaxxing/providers/the_odds_api/receipt_store.py: the durable publication of a
--                receipt. Directory is a directory of files, Writing and Written the loop of writes,
--                Publish the whole of `publish_bytes`, Outcome and Atomic its proofs, Intent `publish_intent` of a
--                valid intent.
--   Table        SELECT, UPDATE and rowcount over a list of rows, which the tables above share.
--   Prelude      names passed on from the libraries, Boolean tests, lists, integers, results.
--
-- How the code is rendered. A table is a list of rows in the order of their insertion. A call is one
-- transaction on it: its function takes the tables and returns them, and a call that raises returns
-- an error, which leaves them as they were. Interleavings of workers are sequences of such calls; the
-- rounds of `claim_due`, which work on rows that were selected before, are functions of their own.
-- A method of the mutable `Challenge` that raises also returns what it left of the object. Instants
-- are microseconds on the UTC axis, read by the caller. ℕ has no negative numbers: `max(0, a - b)` is
-- its subtraction, and Python's integers are ℤ where they can be negative.
--
-- Parameters, which stand for code outside src/: SHA-256 and `isoformat` (Digest), fresh tokens
-- (a function from the number of the call), the clock, Python's `int` on a header (ReadInt), what
-- httpx answers to the n-th request, what the operating system answers to each call (Os), the
-- calendar of Europe/Paris and `int` of a scan time (Calendar),
-- two bytes of a hash and the join of warnings (RunnerTexts), Unicode's decomposition, case and
-- white space (Python), floats (Floats, MoneyFloats: comparisons, a product, reading as
-- a decimal; no law of them is assumed).
--
-- Fuel: the loop of `get` is given one unit for each attempt, `max_retries + 1`.
-- The loop of writes is given four units for each byte and three more (`write_fuel`): a call that takes
-- nothing is a stall, and a fourth stall in a row ends it. All else is structural recursion.
--
-- What happens around a job of a pass is an argument of it (JobRun): what other workers call before,
-- during and after the work, when the renewals fire, and what the acquisition returns or raises.
--
-- Taken to be so: the budget per day is not negative, and no amount is beyond the digits of the decimal
-- context. The lookup of attempts and the completion, two transactions in `mark_failed`, are one here.
-- Where a theorem says so (Faithful in Scheduler/Occurrence), the hash of occurrences does not collide and
-- the text of an instant tells minutes apart.
--
-- Not modelled: `counts_by_state` of the ledger; the acquisition service and the discovery of events,
-- whose results the runner is given; the float formulas of the engine and of the sport models;
-- activation and qualification; the signatures, the secret, the audit and the checks of an intent in the
-- receipt store; rendering of texts; sending, HTTP routes, the command line,
-- configuration and SQLAlchemy's sessions, which are input and output.
pub mod Prelude
pub mod Table
pub mod Names
pub mod Identity
pub mod Scheduler
pub mod Runner
pub mod Budget
pub mod Client
pub mod Outbox
pub mod Montante
pub mod Normalize
pub mod Receipts
pub mod Eligibility
