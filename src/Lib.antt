-- ===== src/Lib.antt =====
-- Verification of the Nexa Panel control plane, a Go program that administers a web server: a control
-- panel that queues work, runs it in the background, keeps an audit trail of it, and updates itself in place.
--
-- Parts and files:
--
-- - Jobs: the durable job queue (internal/platform/jobs). Model is jobs.go: states, rows, events,
--   configuration. Store is the pair of tables with the writes that every operation is made of. Scope
--   and Submit are repository.go: normalizeSiteIDs, normalizeIdempotencyKey, persistSubmission,
--   EnqueueTitled. Worker is worker.go: claim, updateProgress, heartbeatLease, finishSucceeded,
--   finishFailed, recoverExpired, pruneRetired. Execute is the queue with its handlers, wake-up signal
--   and audit trail: RegisterHandlerWithOptions, SubmitTitledWithOptions, execute. Access is access.go
--   with List and EventsAfter of repository.go, and Redact is redact.go. The proofs are in Invariant,
--   Preservation, Transactions and History (the tables under any run of transactions), Kept,
--   Claim, Leases, Finished, Recovery, Retention, Idempotency, Repeated, Sorting and Normal (site scopes), Execution, Visible and Clean.
-- - Limiter: the fixed-window limiters of sign-in attempts (internal/platform/identity/limiter.go, in
--   Attempts) and of requests by address (internal/platform/httpapi/throttle.go, in Throttle), over the
--   buckets of Buckets. Bounds and Budget hold the proofs, Counters the specification by unbounded
--   counters with its refinement.
-- - Audit: the audit log with its hash chain (internal/platform/audit). Encoding is the input of the
--   digest, Chain is Record of audit.go with chainHash, chainGenesis and tailHash of chain.go, Verify is
--   the verification of chain.go. Walk, Intact, Verified, Log and Tamper hold the proofs.
-- - Modules: the registry (internal/platform/module/registry.go). Registry is ValidateAndSort; Order,
--   Complete and Possible hold the proofs.
-- - Firewall: the guard against locking oneself out (internal/modules/firewall/lockout.go). Lockout is
--   assessLockout and its helpers with revertFor; Guard holds the proofs.
-- - Authorization: internal/platform/authorization/authorization.go, with RecentMFA and MFAEnrolled of
--   internal/platform/identity/identity.go. Policy is the table of roles and the decision of Middleware;
--   Rules holds the proofs.
-- - Schedule: the schedules of backup plans (internal/platform/operators/backups/schedule.go). Cron is
--   ValidateSchedule; Codes and Safe hold the proofs.
-- - Selfupdate: the update of the panel as a journalled transaction
--   (internal/platform/operators/selfupdate). Host is the state of the node with the types of
--   transaction.go and selfupdate.go, and Io the monad of the acts on it. Files is createHostSnapshot,
--   restoreHostSnapshot and copyRegularFile; Database is createControlDatabaseSnapshot and
--   restoreControlDatabase; Release is version.go, manifest.go and the parsers of apply.go; Journal is
--   readTransaction, writeTransaction, installStagedBinary, restorePreparedTransaction, failTransaction
--   and beginActivation; Activate is ActivateTransaction, RecoverTransaction and what they call; Apply is
--   ApplyLocalBinary, Rollback, waitForActivation and the installation of a release; Update is Apply and
--   the verification of a release. Frames, Undo, Sound, Safety, Recovery, Prepare, Install, Wait,
--   Operations, Entries, Resume, History, Settled, Statements, Stamp, Agreement, Verified, Snapshot, PutBack and Restored hold the proofs.
-- - Identity: sessions and the second factor (internal/platform/identity). Model is the tables and the
--   principal of identity.go, Sessions is sessions.go with Middleware, and preAuthentication of
--   mfa_http.go, Factor is validateTOTP of mfa.go and the transactions of mfa_http.go. Consumption is any
--   sequence of the two that consume codes; Admission, Replay and Codes hold the proofs.
-- - Prelude: tests, lists, signed numbers, texts and their parsing, tables and lists under an ascending key.
--
-- How they interact: every module of the panel is started in the order that the registry gives; it queues
-- work through Jobs, whose worker records the end of each job in the audit log. A request reaches a module
-- through the middleware of Identity and the decision of Authorization; attempts at a second factor are
-- counted by the limiter. An update replaces the binary that all of this runs in: the operator of
-- Selfupdate journals it, a helper activates it in a process of its own, and the recovery at the start of
-- the host completes or undoes it.
--
-- Choices:
--
-- - A database table is a list of rows in the order of its ids, with the id that comes next. A
--   transaction is one step on the tables; the single connection of the panel makes it so. The one
--   failure of the storage that is kept is that of the transaction of a submission, since the code acts
--   on it. Times are natural numbers of nanoseconds and durations are signed.
-- - A text is a list of code points, and its length is counted in bytes of UTF-8; the error that
--   a job fails with is a list of bytes, as the code cuts it by bytes. Ids and counters are
--   natural numbers without a bound: none of them comes near 2^63.
-- - An act on the host of an update goes through, fails, or is where the machine stops: a list of
--   outcomes, any, decides for every act in turn, and past its end all acts go through. What is replaced
--   by a rename is one act; the lock of the host, a command, and the preparation of a file are acts that
--   change nothing. The directory of a transaction is found by its id. The wait for the helper takes the
--   list of its polls, with whether the helper ran before each, and the wait for the API as many polls as
--   the operator is set up with.
-- - A job handler is a tree of its reports, each of which learns whether it was refused, that ends in an
--   outcome; so every handler that terminates is one, and the run of a handler is by recursion on it.
-- - The loop of the audit verification has one unit of fuel more than there are rows, and that of
--   ValidateAndSort one more than there are modules; each round takes at least one of them.
-- - Parameters are the access policy of sites, the decoder and encoder of JSON, the SHA-256 digest, the
--   text of a time and of a number in the audit chain, the precision of the time column, and the parser
--   of network addresses. Of an update: the order of semantic versions, what a binary prints as its
--   version and reports when it serves, the copy that SQLite makes, the migration that an API does when it
--   starts, what an installer does to the managed files, and the releases, downloads, digests, signatures
--   and archives. Of a session: the digests, decryption, base32 and HMAC code, and the host of a URL.
--
-- Left out of an update are times, the wrapped detail of errors, and the result that is returned beside an
-- error. Left out of the second factor are the handlers around its transactions, with their limiters, and
-- the cookies of a response.
--
-- Not modelled: goroutines and timers (a heartbeat is one tick; the loop of the worker is any sequence
-- of its transactions), HTTP handlers and generated API code, the other host operators, which run
-- system commands, the web user interface, and the modules of the panel other than those above.
pub mod Prelude
pub mod Jobs
pub mod Limiter
pub mod Audit
pub mod Modules
pub mod Firewall
pub mod Authorization
pub mod Schedule
pub mod Selfupdate
pub mod Identity
