-- ===== src/Lib.antt =====
-- EUDI management API: the service through which registered clients create, poll and cancel
-- verification sessions, keep presentation templates, and receive signed webhooks.
--
-- A request passes the middleware of its route (routes/router.go): the API-key boundary
-- (routes/authmw.go), which resolves the key's prefix in the registry (internal/registrydb) and
-- verifies the secret (internal/apikeys), and for session creation two rate limiters
-- (routes/ratelimit.go). The session handlers
-- (routes/sessions.go) check a presentation against the client's registered scope (internal/scope),
-- call the verifier engine (internal/vcclient), which alone writes sessions, and read the session
-- store (internal/sessiondb) and the encrypted handoff payload in Valkey (internal/results). The
-- webhook tasks (internal/webhook) drain the handoff queue, deliver signed payloads, keep a retry
-- schedule, and notify clients of expired sessions.
--
-- Files and code:
--   Base            Boolean tests, lists, dictionaries for Go's maps, int64, results with an error
--   Text            what is used of strings, encoding/base32 and encoding/base64
--   Config          config.go: Bind, loadSecret, Validate
--   App             app.go: New, init
--   Errors          problems of the platform kit; resultError, isNotFoundError, unauthorized
--   ApiKeys         internal/apikeys/apikeys.go: Mint, Parse; Phc: encodePHC, decodePHC;
--                   Verifier: Verify, cacheLookup, cacheStore
--   SessionDb       internal/sessiondb/fake.go: the operations of Store; Expire: ExpireDue;
--                   Pg: internal/sessiondb/repo.go
--   Registry        internal/registrydb/repo.go: the rows; Fake: internal/registrydb/fake.go;
--                   Pg: the methods of PG; Calls: the calls of Store
--   Procedures      internal/sessiondb/db.go, internal/registrydb/db.go: parseEnvelope, call
--   Wire            internal/api/types.go and the records of handoffwire; Flows: FlowToDB, FlowFromDB
--   Results         internal/results/results.go: Fetch, mapResult, MapReport
--   Valkey          the documented behaviour of the commands that are sent to Valkey, whose server is
--                   outside the repository; a function chooses the calls that fail, and a call that
--                   fails takes no effect (an answer lost after the effect is not covered)
--   Webhook         internal/webhook: Signer (SignDetached), Retrier (Schedule, Due, attempts; Keys:
--                   attemptsKey, zsetKey),
--                   Deliverer (Deliver, DeliverPayload), Consumer (runOnce, processOne),
--                   Sweeper (runOnce, notify), Task (Start and Stop of both tasks)
--   Keyspace        internal/keyspace/keyspace.go: New, Key
--   Scope           internal/scope/scope.go: CheckWithinScope
--   Verifier        internal/vcclient/client.go: CreateSession, DeleteSession, do, Unavailable
--   Routes          routes: Auth (apiKeyAuth), Prepare and Create (createSession), Poll (getSession,
--                   cancelSession), Templates, Health (readyz), Web (helpers of the handlers),
--                   RateLimits (routes/ratelimit.go), Router (routes/router.go), Served (whole
--                   requests of three routes)
--   Examples        tests, and the theorems at concrete inputs
--
-- State is passed explicitly: an operation of a store gives its result and the store after it.
-- Maps are association lists behind the laws of lookup, insert and delete. Instants are
-- nanoseconds since the Unix epoch and arguments of the operations. The delay of a retry wraps as
-- an int64. Texts are sequences of characters; lengths and splits agree with Go's for ASCII. JSON
-- values that the program passes through are their texts. A mutex makes an operation one step.
-- A background task is a step relation: its goroutine, its ticker and the callers of Stop interleave.
-- Making the goroutine and its first cycle are two steps, and so are receiving a tick and its cycle.
-- The production stores are calls of stored procedures on a database with a state of its own. What
-- the procedures of the session schema answer is stated by the in-memory session store; what those of
-- the registry schema answer is any registry that the theorem is given.
--
-- The queue loop of the consumer has no bound of its own and runs on fuel: without failing calls a
-- fuel above the length of the queue is enough. Ids of the in-memory registry have 17 digits.
--
-- Arguments, since their code is elsewhere: argon2 and sha256, JWE decryption and JWS signing,
-- encoding/json at the wire types, net/url, go-dcql, go-eudi-rpcert, the HTTP clients, the database
-- and its driver, the error kit, azugo's route groups and the counting of its limiters, viper, the
-- validator, and what server.New loads and the platform that init sets up. Not modelled: the command
-- line, logging, metrics export, the list of redacted attributes and test support, which only call
-- libraries, and the accessors and test-only setters of App.
pub mod ApiKeys
pub mod App
pub mod Base
pub mod Config
pub mod Errors
pub mod Examples
pub mod Keyspace
pub mod Procedures
pub mod Registry
pub mod Results
pub mod Routes
pub mod Scope
pub mod SessionDb
pub mod Text
pub mod Valkey
pub mod Verifier
pub mod Webhook
pub mod Wire
