-- ===== src/Lib.antt =====
-- The core of codex-oauth-proxy: an HTTP proxy that serves the Codex API with a pool of OAuth credentials. A
-- request is routed, bound to a session, and tried with one credential after another; what becomes of it
-- decides which credentials the next requests may use.
--
-- Parts, files and code (paths from the repository's root):
--   Prelude       Go's strings, maps, lists and (value, error) results, for all other modules.
--   Base, Store   instants, credentials, errors, and the tables of the user store.
--   Storage       internal/codexonly/storage_failure.go: the database handle and the failure that sticks to
--                 it. UserStore.checkReady is check_ready, databaseError is database_error.
--   Auths         internal/codexonly/auth.go: what changed between two scans of the credential files.
--   Health        internal/codexonly/auth_health.go: the registry of credential health. Health/Rows has its
--                 table, Health/Queries what is asked of it, Health/Marks what outcomes do to it, and
--                 Health/Lifecycle start-up, expiry and reconciliation; the other children are proofs.
--   Affinity      internal/codexonly/session_affinity.go: the credential of a session. Affinity/Operations has
--                 lookup, bind, rebind and refresh as transactions on the table, Affinity/Deletes the deletes,
--                 the counts and the cleanup.
--   Refresh       internal/codexonly/refresh.go and AuthManager of server.go: one exchange with the token
--                 endpoint (Refresh/Exchange), the attempts of Refresher.Refresh (Refresh/Loop), the credential
--                 that is refreshed (Refresh/Current), and the call that concurrent requests share, as a step
--                 relation on the requests (Refresh/Shared).
--   Selection     internal/codexonly/server.go: reconcileAuths, the round robin of AuthManager,
--                 selectProxyAuthCandidate and RebindAuthSelection (Selection/Candidate).
--   Users         internal/codexonly/user_store.go: users and API keys. Users holds the rows and the constraints
--                 of the tables, Users/Operations CreateUser, UpdateUser, ResetUserAPIKey, GetUser and
--                 AuthenticateAPIKey.
--   Chat          internal/codexonly/chat_completions.go: Chat/Stops has the stop sequences of collected and of
--                 streamed answers, Chat/Completion the state that collects an answer, Chat/Events and
--                 Chat/Terminal what an event does to it, Chat/Apply the dispatch on events (an index out of
--                 range, which panics in Go, is an error), Chat/Stream the chunks that answer a stream.
--                 Chat/Content follows the text through the events, Chat/Calls the tool calls.
--   Failover      internal/codexonly/failover.go: failures and what they mean, the loop of executeUpstream
--                 (Failover/Loop for one credential and one round, Failover/Rounds for all rounds), the
--                 classes of responses (Failover/Classify) and the final error (Failover/Final).
--   Routes        internal/codexonly/server.go: proxyRoute and the paths it knows.
--   Writer        internal/codexonly/storage_response_writer.go: the response writer that a storage failure
--                 blocks.
--   Tests         concrete runs.
--
-- How they interact: the loop of Failover takes what it calls as the interface Upstream (scan, selection,
-- refresh, marks, clock), and its theorems name what they rely on as the record Counts. The
-- registry and the bindings share one Database. A selection reconciles both with a scan, drops what has
-- expired, and then asks the registry which credentials are eligible and the bindings which one the session
-- has; a refresh scans the files again and refreshes the credential that it finds there. The tables of users
-- are a Database of their own, since no operation reads both.
--
-- Modelling: a Go method is a function from its arguments and the state to a result and the new state, which
-- is returned also when the method fails. Each call of SQLite consumes the next entry of a script that says
-- whether it fails, so that a theorem holds for every pattern of failures. An instant is the number of
-- nanoseconds since Go's zero time; each reading of a clock is an argument. SHA-256, strings.ToLower,
-- http.ParseTime, random tokens and the claims of a token are arguments. Maps are association lists in which a key stands once, and a range goes over the entries in their order. A string is
-- the list of its bytes. Locks are left out: a method runs to its end
-- before the next one starts. A transaction that returns an error is rolled back, as the deferred Rollback does. The shared refresh is the exception: there a step is one section under the lock
-- or the end of a wait, and any order of the steps is allowed. The runes of a streamed answer stand for its
-- UTF-8, which the JSON decoder has made valid.
--
-- Fuel: a round of the loop is given fuel; with a limit on the credentials of a round, fuel above that limit is
-- enough, as execute_upstream_finishes shows. Without one, a round is bounded by its credentials only while
-- no other request binds the session meanwhile, and the model says nothing of when it ends. Refresher.Refresh has its three attempts as its fuel. Every other recursion
-- is structural.
--
-- Not modelled: logging, nil receivers, the RFC 3339 text that the columns hold, files, HTTP bodies and
-- headers, the decoding of JSON and of event streams, the conversion of chat requests, writes of chunks
-- that fail, usage, models, account management, the command line and the admin server.
pub mod Prelude
pub mod Base
pub mod Storage
pub mod Store
pub mod Auths
pub mod Health
pub mod Failover
pub mod Routes
pub mod Affinity
pub mod Writer
pub mod Tests
pub mod Chat
pub mod Refresh
pub mod Users
pub mod Selection
