-- ===== src/Lib.antt =====
-- The accounts-payable service that takes an uploaded invoice to an export for accounting: text and
-- model extraction, matching with a vendor and a purchase order, financial rules, an approval
-- policy with human review, and a signed export. A status machine drives it, and one function,
-- advance, makes every move and logs it.
--
-- Parts and files. Paths are from the repository's root, under src/invoice_ops.
-- - Domain/State: domain/state.py. The statuses, the table of moves and its derived tests.
--   State/Trails is about sequences of legal moves.
-- - Domain/Extraction: domain/extraction.py, the shape of an extracted invoice.
-- - Domain/Validation, Domain/RuleResults: domain/validation.py, the seven rules and their results.
--   Validation/Clean says independently what they demand, over whole ticks; Validation/Amounts and
--   Validation/Laws connect the two. Validation/Duplicate is about the rule on duplicates.
-- - Domain/Matching: domain/matching.py, vendors by tax id, name and similarity, orders by number.
--   Matching/Hits is about filters that leave one item, Matching/Ranking about the sort,
--   Matching/Laws about the evidence of a match.
-- - Domain/Approval: domain/approval.py, the policy.
-- - Domain/Export: domain/export.py, the payload and its signature. Export/Encoding is its
--   canonical encoding, Export/Signed is about what the bytes determine.
-- - Models: models.py, the rows. Config: config.py, the settings that are read.
-- - Services/Lifecycle: services/lifecycle.py, advance. Lifecycle/History reads the audit log as
--   the history of the status.
-- - Services/Documents, Services/Extraction, Services/Matching, Services/Validation,
--   Services/Approval, Services/Export: the files of these names under services, and
--   services/llm.py with the extraction and in Services/Llm, where Shape is about the answers that
--   the client accepts and Answers about the retry loop over it. Each has a function X_stage on one
--   invoice, which run_X applies to the row of an id through Services/Session, and a module Stage
--   that says what each run does.
-- - Services/Returns: when these stages return. Services/Validation/Overflow: the decimal context.
-- - Services/Ingestion: services/ingestion.py, with Ingestion/Idempotent and Ingestion/Unique.
-- - Evaluation/Scoring: evaluation/scoring.py, with Scoring/Totals. Evaluation/Discrepancy:
--   evals/discrepancy_eval.py at the root, the scenarios and their tally, with Discrepancy/Flagged
--   and Discrepancy/Quality. Evaluation/Ratio: the quotients of both.
--   Evaluation/Run: evals/run.py, with Run/Faithful.
-- - Workers: workers/tasks.py, session_scope of db.py and approve_and_export. One record holds the
--   committed tables, the stored objects and the waiting messages; run_task, decide and upload
--   change it. Workers/Staged says what is true of an invoice between two sessions, Stages, Keeps
--   and Sessions that every session keeps it, Consistent adds what holds of all invoices together,
--   and Reachable has the steps of the system, in any order. Guarantees draws what follows for one
--   invoice; Queue, Handles, Pending and Progress are about the messages that wait. Drain is about
--   a worker that handles all of them, Hindered about the extractions that raise, which
--   Services/Extraction/Broken tells from the others, and Refused about the exports whose artifact
--   the storage does not take.
-- - Storage: storage.py, with Storage/RoundTrip.
-- - Api: api/invoices.py (Bodies, Invoices; Decisions and Uploads are about it),
--   api/review_ui.py (Views, ReviewUi; Review and Counts are about it) and api/health.py (Health).
-- - Seeds: scripts/seed_demo.py and scripts/seed_eval_vendors.py at the root, with Seeds/Demo and
--   Seeds/Vendors.
-- - Schema: the columns of models.py. Migrations, with Migrations/Tables: migrations/versions at
--   the root. Migrations/Undo is about the downgrades, Migrations/Agree about the two together.
-- - Json: JSON values. Json/Dumps is their encoding with sorted keys, Json/Characters and
--   Json/Unambiguous are about reading it. Services/Outcome: what a call returns or raises.
--   Prelude, Text, Float and Decimal: tests, lists and integers over the native numbers, Python
--   str, float and Decimal.
--
-- State and errors. A service function takes the invoice and gives the changed one, or an error; a
-- raised error keeps nothing, as the session that it ran in is rolled back. The rows of one invoice
-- stand in its record, oldest first, and ids are numbers. For the services storage is a list of
-- keyed bytes.
--
-- Numbers. A Decimal is a coefficient and a scale, exact where the decimal module rounds only
-- beyond 28 digits. A quotient is compared by cross-multiplication; those of the evaluations are
-- exact fractions, which the source rounds to doubles. Whether the decimal context traps an overflow
-- in a validation is a parameter, and then the session raises. A finite float is a whole number of
-- units of 2^-1074, so that the constants are the very doubles of the source; the one subtraction
-- of floats is exact where it is used. A text is its code points.
--
-- Parameters: the Unicode tables, SequenceMatcher's ratio, the PDF reader, the JSON parser and the
-- schema check, the model's client or the HTTP requests that it makes, what Alembic does to a
-- schema, the texts of uuids, days and amounts in an export and, for the services, its whole
-- encoding, HMAC-SHA256, SHA-256, new uuids and the clock. Texts of messages and reasons are
-- constructors that hold the values which the source prints.
--
-- The file system and the S3 client are parameters too, with what the file system documents as a
-- hypothesis, and so are what the storage raises at the put of an artifact and the order in which
-- the database lists the rows for a request. The put of an upload does not raise here, as it would
-- keep nothing.
--
-- Loops are by recursion on lists; the retry loop on the number of rounds, max_retries + 1, which
-- is all the source allows.
--
-- Interleavings. A session is one step, as the rows of one invoice are touched by one session at a
-- time; a commit does not fail, and the message that follows it is sent in the same step, so that a
-- crash between the two is a lost message. The broker delivers any message that waits, may deliver
-- one again, and may lose one where that is said. Where it may, a task's session may also raise for
-- the storage or an overflow, which spends its message. Vendors and orders are added and changed,
-- never deleted, as no code of the repository deletes one.
--
-- In the eager mode a task runs inside the call that sends it. Every call that sends one comes
-- after its session's commit and is the last thing done, so that an eager chain is the worker's
-- loop of Drain from a queue of that one message. An upload hands on the exception of its chain;
-- that of an approval's export is left out.
--
-- Not modelled: two sessions on one invoice at a time, since a session is one step here. Left out
-- too are the construction of the engine and of the applications, the liveness probe and the ping,
-- which are set-up or constants; the templates; the set-up of Alembic; and the tests.
pub mod Prelude
pub mod Text
pub mod Float
pub mod Json
pub mod Decimal
pub mod Config
pub mod Domain
pub mod Models
pub mod Evaluation
pub mod Services
pub mod Storage
pub mod Workers
pub mod Seeds
pub mod Schema
pub mod Migrations
pub mod Api
pub mod Tests
