-- ===== src/Lib.antt =====
-- A model of Seiza Server, a queued plate-solving web service (Rust), with the theorems that make
-- its core correct.
--
-- The program's parts and the files that model them (paths from the repository's root):
--   * The durable job queue, `SqlxJobRepository` of src/repository.rs, with the job types of
--     src/models.rs: Queue/Rows (tables and records), Queue/Sql (the SQL statements as operations on
--     lists of rows), Queue/Scheduler (`last_served`, `select_candidate`), Queue/Leases
--     (`reclaim_expired`, `claim`, `heartbeat`, `input_key`, `complete`) and Queue/Jobs (`enqueue`,
--     the lookups, `list_by_owner`, `donate_validation`, the outbox). Queue/Calls runs histories of
--     calls. A method is one transaction: a function from the tables to the result and the tables
--     after it, since the code serializes its transactions. The clock's reading and fresh lease
--     tokens are arguments. The other modules below Queue hold the proofs.
--   * Resumable uploads, `ResumableUpload` of src/uploads.rs, over the trait `ObjectStore` of
--     src/storage.rs: Uploads/Storage (the part of the trait that uploads use),
--     Uploads/Keys (object keys), Uploads/Session (the record, `new`, `concatenate`, `load`, `save`,
--     `append`), Uploads/Reading (`assemble`, `read_prefix`, `compose`) and Uploads/Removal
--     (`cleanup_chunks`, `terminate`). A method takes the store's state and returns it, after an
--     error too. Uploads/Soundness, Contents and Roundtrip hold the proofs, Uploads/Memory a store
--     in memory for the tests.
--   * TUS handlers, src/api/tus.rs: Tus/Requests (the checks that handlers share), Tus/Handlers
--     (`head_resumable_upload`, `delete_resumable_upload`, the OPTIONS answer), Tus/Metadata (the
--     headers `Upload-Metadata` and `Upload-Concat`), Tus/Creation (`create_resumable_upload`) and
--     Tus/Patching (`patch_resumable_upload`, `get_resumable_upload_result`), over Uploads and
--     Service; Tus/Access, Created and Completion hold the proofs. What the authentication of a
--     request returns is an argument, and an error is its kind without its message. The lock of an
--     upload makes a handler one step.
--   * Submission, `AppState` of src/api.rs, over Queue, Uploads and the external queue as one world:
--     Service/Names (file names and object keys), Service/World (the world and what comes from
--     outside), Service/Submission (`submit_job`, `enqueue_stored`) and Service/Finalization
--     (`finalize_resumable`); SafeNames, ObjectKeys, Apart, Inputs and Commits hold the proofs.
--     Service/Lookups (`public_job`, the retention of inputs) and Service/Resolving (`resolve_solve`,
--     `donate_validation_image`) stand on these, with the proofs in Service/Resolved.
--   * The workers' side of src/api.rs: Service/Workers (the worker endpoints, `run_embedded_job`, a
--     round of `dispatch_outbox`), Service/Dispatched the proofs.
--   * The client of a request, `client_from_headers` of src/api.rs with the browser sessions of
--     src/api/auth.rs, over Accounts: Service/Clients; Service/Acting and Accounts/Proofs hold the
--     proofs. Service/AccountCalls has the handlers of src/api/auth.rs that end sessions and revoke
--     credentials, with their proof.
--   * Abuse controls, `EmailSendRateLimiter` of src/rate_limit.rs: Limiter/Windows (the rolling
--     windows and their waits) and Limiter/Sends (`sweep`, `check_at` on the state behind the lock);
--     Limiter/Maps, Live, Kept, Recorded, Budgets, Admission and Answers hold the proofs.
--   * Content regions, src/content_region.rs: Region/Find (`band`, `find`), Region/Bands the proofs.
--   * Delivery of job ids: Delivery/Routing (`SqsTransport`, `fair_queue_group_id` of
--     src/transport.rs) and Delivery/Polling (`SqsQueueSchedule`, `receive_weighted_sqs_message`,
--     `sqs_visibility_timeout` of src/worker.rs); Delivery/Groups and Turns hold the proofs. The
--     client of the external queue is a parameter. A delivered id is a hint only: the worker takes
--     its lease from the job queue.
--   * Accounts of people, src/identity.rs and `SqlxIdentityRepository` of src/sqlx_identity.rs:
--     Identity/Rows (records and tables), Identity/Tables (the inserts with the constraints of
--     migrations/identity), Identity/Accounts, Challenges, Sessions, Passkeys and Keys (the methods),
--     Identity/Calls (histories of calls). Stability and Runs carry a predicate of the rows along a
--     history; Spent and Attempts hold the proofs on sign-in challenges.
--   * The authentication service, src/auth.rs, over Identity and Limiter: Accounts/Secrets (constants,
--     errors and what comes from outside), Accounts/Tokens (the structured tokens and their parser),
--     Accounts/EmailSignIn (`start_email`, `complete_email`), Accounts/PasskeySignIn (the two passkey
--     ceremonies over `Webauthn`, a parameter), Accounts/BrowserSessions
--     (`authenticate_browser_session`, `require_csrf`, `logout` and the like), Accounts/ApiKeys and
--     Accounts/Astrometry (API keys and the sessions that they mint); Authentic, PasskeyAuthentic,
--     Recycling and Revocation hold the proofs.
--   * Base: Boolean tests, lists and texts, shared by all parts. A text is the list of its UTF-8
--     bytes.
--
-- What comes from outside is a parameter: the order that the database gives ties under ORDER BY
-- (`Engine`, with its documented laws in `IsEngine`) and the `f64` operations of the scheduler
-- (`Float`), the object store (`ObjectStore`, with `IsObjectStore` for what is relied on: what was
-- put is there and nothing else changes, and `IsComposer` for compositions and deletions), and the
-- JSON of an upload (`Codec`). So are the external queue (`Transport`), what is read from an image
-- (`Imaging`, and `Fields` for the options that a re-solve merges), the solver, UUIDs as text
-- (`Uuids`), base64, URIs and the JSON of options (`Formats`), and IP addresses, the hash of a key
-- and the weights of keys (`Codes`). A request's cookies are as their parser reads them. Above the
-- repositories, the database is taken to answer. UUIDs are numbers, times are nanoseconds since
-- the epoch. The texts that the rows hold for times, UUIDs and JSON are taken as the values that
-- they encode. Where a job's insertion meets both its object key and its id in the table, the
-- object key's conflict is taken first.
--
-- Not modelled: the rest of the HTTP API (routing, JSON, HTML pages, images, the Astrometry
-- protocol), the solver, annotations, overlays, satellites and catalogs, which are floating point
-- and image data around other crates; the token bucket of `RateLimiter`, whose answer is an argument;
-- the DynamoDB repositories, the migration of stores, the configuration and the mail; and the
-- upgrades of legacy tables.
pub mod Base
pub mod Queue
pub mod Uploads
pub mod Region
pub mod Delivery
pub mod Limiter
pub mod Tus
pub mod Identity
pub mod Accounts
pub mod Service
