-- ===== src/Lib.antt =====
-- The backend of a contract-management service (the Rust crate under src/): its reminder engine and
-- worker, its AI analysis of contracts, its notification channels, its accounts and sessions, its
-- rate limiters, its configuration and the handlers of its API, with the SQL statements that they
-- send.
--
-- The parts, and how they interact:
-- - Common: names of the library, Boolean tests, lists, sorting, results, text functions of Rust.
-- - Errors: src/errors/mod.rs.
-- - Db: src/models/ and src/db/. Db/Models has the rows and `Database`, the tables; Db/Session a
--   connection with its do notation, statements and transactions; Db/Reminders, Db/Contracts,
--   Db/Details, Db/Users, Db/Sessions and Db/Dashboard one definition for each statement, and under
--   it the row tests (WHERE) and the row changes (SET) that the SQL text holds; Db/Transactions,
--   Db/Inversion and Db/Preservation reason about blocks of statements.
-- - Reminders: src/reminders/. Types (text forms), Dates (the schedule), Service (generation,
--   custom reminders, cancellation, listing).
-- - Ai: src/ai/provider.rs, schema.rs and validation.rs. Validation has the structural rules,
--   Evidence the comparison of quotes with the contract.
-- - Services: src/services/contracts.rs, and src/services/analysis.rs in three files: Retry for
--   `call_with_retries`, Summary for `summarize`, Analysis for the workflow.
-- - Notifications: src/notifications/. Channel (notices and errors), Config (stored
--   configurations), Ssrf (the gate for webhooks), Senders (telegram.rs, discord.rs, webhook.rs),
--   Secrets (the frame of an encrypted configuration), Store (store.rs).
-- - Middleware: src/middleware/rate_limit.rs, the sliding window of a keyed limiter.
-- - Config: src/config/mod.rs, in files by the stretch of `from_lookup` that reads the variables.
-- - State: the limiters of src/state.rs.
-- - Auth: src/auth/. Validation, Token (session.rs, password.rs), Extractor (middleware.rs),
--   Handlers, and Requests for sequences of requests.
-- - Api: src/api/. Requests (rejections and pages), Channels, Contracts, Reminders, Dashboard; one
--   function per handler, with its extractors' results as arguments and after its rate limit.
-- - Worker: src/worker/. Claim, Outcome, Recovery, and Poller for one delivery and one tick.
-- - Redact: src/utils/redact.rs.
-- - Lifecycle: the invariant of the tables, over the operations of Services, Reminders and Worker.
-- - Examples: the theorems at concrete inputs.
-- A request passes its rate limit and the extractor of Auth, and its handler in Api calls Services,
-- Reminders or Notifications/Store; the worker calls Claim, Outcome, Recovery and, through Poller,
-- Notifications. All meet in the tables alone.
--
-- How the program is represented:
-- - A step of the program is a function from a `World` to a result and a `World`. A world holds the
--   tables and, for each statement to come, a `Turn`: the time, a fresh id, whether the database
--   refuses the statement, and what the other connections have committed before it. The theorems
--   hold for all turns, so for all interleavings of statements with the other connections.
-- - A transaction sees what others commit only when it begins, and a failed body or a failed COMMIT
--   leaves the tables as they were; a failed COMMIT counts as not carried out. FOR UPDATE SKIP
--   LOCKED is a test `locked` on ids. NOW() is the transaction's start.
-- - Times are microseconds and dates days, both from chrono's first date; the rate limiters'
--   instants are nanoseconds from the clock's earliest; UUIDs are numbers; a status column is the
--   type of the values that its CHECK constraint admits. The columns' defaults, the unique indexes
--   on system reminders and the ON DELETE CASCADE of the migrations are written into the
--   statements.
-- - i64 and u64 arithmetic is written out where the code casts or saturates (Worker/Outcome). Other
--   counters are unbounded.
-- - Code of other crates is a parameter: the resolver, URL parsing, the HTTP client, the ciphers,
--   Argon2, SHA-256, random bytes, axum's extractors, JSON, the collation of titles, date parsing,
--   Rust's Unicode tables, chrono's Duration::seconds. `len` is the number of UTF-8 bytes, `count`
--   that of characters.
-- - Loops are structural recursion over their lists; the retry loop of the analysis recurses on the
--   retries that are left, so no loop needs fuel.
--
-- Not modelled: the routers, the uploads and the health checks of src/api/, src/main.rs,
-- src/telemetry.rs and the rest of src/state.rs, the OpenAI client, PDF and image extraction, the
-- decoding of the secret key, audit metadata, and logging. The worker's task set, its semaphore and
-- its shutdown are not modelled either: the deliveries of a tick run one after the other, and those
-- of other workers are steps of other connections. The list of contracts gives whole rows where the
-- code gives summaries of them.
pub mod Common
pub mod Errors
pub mod Db
pub mod Reminders
pub mod Notifications
pub mod Ai
pub mod Middleware
pub mod Config
pub mod State
pub mod Redact
pub mod Auth
pub mod Api
pub mod Lifecycle
pub mod Services
pub mod Worker
mod Examples
