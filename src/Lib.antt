-- ===== src/Lib.antt =====
-- Relays: a service that takes notification requests over HTTP and delivers them by workers.
--
-- A request goes through the idempotency keys into the table notifications (app/modules/notifications/
-- workflows/notification_submission.py), is put on the queue by the route (api/v1/routes.py), and is
-- delivered by a worker (workflows/notification_delivery.py) through a provider (providers/email); a
-- temporary failure is planned for a retry, which a scheduler claims (workflows/retry_scheduler.py).
-- Accounts are made and entered with one-time passwords (app/modules/auth/workflows), which a limiter
-- in Redis holds back (app/infra/redis/rate_limiting), and sessions live by rotating refresh tokens.
--
-- Files and what they model:
--   Prelude            shared names, Boolean tests, predicates on lists
--   Core               app/core: error codes, exceptions and actions that change a state and may raise
--                      (Core/Result), idempotency keys (Core/Idempotency), rules for sequences and
--                      transactions (Core/Triple), exception handlers (Core/Http), rules for what an
--                      action raises (Core/Raises)
--   Table              a table as the list of its rows, the forms of SQL statements, and their laws
--                      (Table/Laws, Table/Evolve), ORDER BY (Table/Order), the rows that a statement
--                      takes and those that it leaves (Table/Partition, Table/Membership)
--   Notification       app/modules/notifications. Model: rows, requests, results. Queries and Claim: the
--                      statements of db/ (create_notification, mark_sent, claim_retryable_notifications
--                      and so on). RetryPolicy: retry/policy.py. Provider: providers/email (Fake,
--                      MailRelay, Registry). Delivery: workflows/notification_delivery.py. Submission:
--                      workflows/notification_submission.py. Routes: api/v1/routes.py,
--                      schemas/response.py and app/infra/queues. Scheduler: workflows/retry_scheduler.py
--                      and app/infra/workers/tasks.py. Interleaving: the writes of all of them as steps
--                      of one relation. Settlement, Refusal, History, Lifecycle, ClaimLaws, Backoff,
--                      Outcomes, LostEnqueue, Completion, Submission/First, Submission/Replay,
--                      Interleaving/Recorded and Interleaving/Growth hold proofs.
--   Text               texts as lists of characters' numbers, with the methods of Python's `str` that the
--                      code calls; Text/Words and Text/Runs hold lemmas
--   Workspaces         app/modules/workspaces: slugs (constants.py) with proofs in Workspaces/Slug, and in
--                      Workspaces/Members the list of members and the routes, with proofs in its Listed
--                      and Roster
--   Auth               app/modules/auth and the tables of app/modules/workspaces. Model: rows. Queries:
--                      the statements. Token: security/jwt.py. Registration, Account, Login, Sessions:
--                      the workflows, with the proofs in their child modules. Guard:
--                      app/infra/guards/jwt.py. Validators and Routes: schemas and api/v1/routes.py.
--                      Statuses: the statuses that the routes declare, with the proofs that they answer
--                      no other. SignedIn: from a registration to the first request. Sessions/Live: the
--                      table of sessions as a map from live digests.
--   ApiKeys            app/modules/api_keys and app/infra/guards/api_key.py: table, routes and guard, with
--                      proofs in ApiKeys/Guarded; bodies, validators and the list in ApiKeys/Requests
--   RateLimit          app/infra/redis/rate_limiting, with proofs in RateLimit/Window and RateLimit/Trace
--   Migrations         app/infra/db/migration_runner.py, with the proofs about a second run in
--                      Migrations/Twice
--   Tests              runs on concrete data, and the theorems applied to them
--
-- State. A table is the list of its rows in the order of insertion. A statement that breaks a CHECK or
-- a UNIQUE constraint of app/infra/db/schemas raises and changes nothing; foreign keys are not modelled,
-- since no statement deletes a row that another refers to. A transaction that raises gives back the state
-- it began with. Instants, identifiers, digests and delays are natural numbers; `now` is the instant of
-- the transaction, `clock` a reading of Python's clock; what is drawn (UUIDs, passwords, tokens, the
-- jitter) comes as an argument. Transactions run one after another, as the row locks of UPDATE and of
-- FOR UPDATE SKIP LOCKED arrange it; the rows that other transactions have locked are an argument of the
-- claim. A call of the rate limiter is one step: its Redis commands are not interleaved with those of
-- another call. No definition needs fuel: every loop is structural on a list or a number.
--
-- Parameters that stand for code outside the repository: the canonical hash (JSON and SHA-256), SHA-512,
-- the HTTP exchange with MailRelay, whether a text matches the pattern of an address (Python's `re`), the
-- answer of the broker, PyJWT with its documented behaviour on an issuer and a subject that are absent
-- or texts (the record `IsPyJwt`), the classes and case of Unicode with what Python documents of ASCII
-- (the record `IsPython`), the check of addresses with the string methods on them (`EmailLibrary`), the collation of
-- the database, what the script of a migration does to all of it, the table schema_version included (a
-- theorem that needs that it leaves that table alone takes this as a hypothesis), and Python's `int` on
-- a text.
--
-- Not modelled: the wiring of FastAPI, Celery, Redis and asyncpg, logging, settings (I/O without logic
-- of its own) and the parsing of JSON bodies.
pub mod Prelude
pub mod Core
pub mod Text
pub mod Table
pub mod Notification
pub mod Auth
pub mod RateLimit
pub mod Workspaces
pub mod ApiKeys
pub mod Migrations
pub mod Tests
