-- ===== src/Lib.antt =====
-- Verification of the core of LegalTech Colombia: the accounts and sessions of its users, and their
-- cases and documents, from the upload through the worker's security treatment and OCR to the
-- download.
--
-- The program. The API (apps/api) keeps cases and documents in PostgreSQL and files in an object
-- storage. An upload stores the object, then writes the row, its audit event and a `document.scan` job
-- in one transaction. The worker (apps/worker) claims the document, has the antivirus scan it, stores
-- an image's copy without metadata, and records the result; then the OCR reads CLEAN documents in the
-- same way. Sweeps recover what a dead worker left, and an administrator can ask to process again.
-- Users register, log in under a progressive delay, and hold sessions that slide, rotate and are
-- revoked. Emails are intents in an outbox: a dispatch makes their one-use tokens and sends them.
--
-- The model. Calls are functions `Action S A = S → Result A × S` (Common/Calls): errors are values, the
-- state survives a throw, and a transaction that throws is rolled back. `Db` (Database) has the tables
-- as lists of records; `World` adds the objects and the log. PostgreSQL's instants and generated ids,
-- whether pg-boss takes a job, the storage, the antivirus, the OCR provider, SHA-256 and NFC are
-- arguments. Ids are naturals, as they are only compared; instants are microseconds, and in Auth,
-- Limiter and Notifications milliseconds, where emails, passwords, tokens and hashes are naturals too.
-- `AuthDb` (Auth/Tables) has the tables of authentication; Argon2id and SHA-256 are arguments.
--   Common     roles, decisions, errors, calls (apps/api/src/common, packages/contracts/src)
--   Database   the tables, and what every row of `documents` satisfies (Database/Sound)
--   Sanitize   apps/worker/src/sanitize/image-metadata.ts
--   Auth       apps/api/src/modules/auth: Repository and Service by groups of methods, Session, and
--              what every request does to the sessions (Sound, Evolution, Progress), and Routes, the
--              handlers with their guards, limiters and cookies
--   Limiter    apps/api/src/security/rate-limiter.ts
--   Notifications  apps/api/src/modules/notifications
--   Cases      apps/api/src/modules/cases
--   Documents  apps/api/src/modules/documents and apps/api/src/jobs/job-queue.ts
--   Antivirus  apps/worker/src/antivirus, over the events of clamd's socket
--   Scan       apps/worker/src/scan and the sweep and reprocessing of apps/worker/src/queue.ts
--   Ocr        apps/worker/src/ocr
--   Lifecycle  every statement that writes `documents`, in any order
--   Prelude    lists, tables with keys and Boolean tests;  Tests  runs at concrete inputs
-- A method `markClean` of the code is `mark_clean` here; `DocumentsService.requestReprocess` is
-- `ask_reprocess`, as its repository's method has the same name; so are `AuthService`'s `resetPassword`,
-- `rotateSession` and `revokeOwnSession`: `reset_own_password`, `rotate_own_session`,
-- `revoke_session_of`.
--
-- Bounds and fuel. The two sanitizers run on fuel, one more than the length of the file: every step
-- takes a byte at least; so does the writing of a content to clamd, on its length. The dispatch of
-- emails recurs on the rest of its limit, as each round counts one. File sizes and quotas are natural
-- numbers: the code's are far below 2^53.
-- A transaction is one step, which the row locks and the advisory lock of an upload make it.
--
-- Not modelled: the HTTP routes of cases and documents, configuration, the S3 client and the web
-- application, which are glue over libraries; the words of errors and emails.
pub mod Antivirus
pub mod Prelude
pub mod Common
pub mod Database
pub mod Sanitize
pub mod World
pub mod Auth
pub mod Limiter
pub mod Notifications
pub mod Cases
pub mod Documents
pub mod Scan
pub mod Ocr
pub mod Lifecycle
pub mod Tests
