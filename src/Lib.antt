-- ===== src/Lib.antt =====
-- Zuno marketplace: models of six of its services and of its retry loop, and the theorems about them.
--
-- The program is a set of Go services behind a GraphQL gateway. A user signs in at
-- services/auth-service, which calls the user service and services/wallet-service; a signed-in
-- user prepares transactions at services/orchestrator-service, which asks the chain registry for
-- contracts and ABIs and keeps an intent for each transaction. services/indexer-service reads the
-- logs of the chains and publishes them; services/subscription-worker tells the clients on its
-- WebSocket connections what becomes of the intents they are subscribed to.
--
-- Common: lists, Go strings as lists of bytes, code with a state and errors (Exec: a state to a
--   result or an error with the next state), triples and kept claims about such code; Faults and
--   Quiet: servers whose calls may fail, and those whose calls do not; Decimal: printed numbers.
-- Wallet: services/wallet-service.
--   Model       internal/domain/domain.go, and the rows of db/up.sql
--   Validate    the checks of internal/service/service.go, the normalisers of shared/redis/cacheKeys.go
--   Repo        internal/infrastructure/repository/repository.go: WithTx and the statements, with the
--               constraints and the trigger of db/up.sql
--   Service     UpsertLink; `decide` is its switch, with one function for each case
--   Table, Writes, Statements   lemmas on the table, its writes and the statements
--   Stored, Staying, Branches   lemmas: rows of a link, what keeps them, and each branch of UpsertLink
--   Invariant, Linked, Validity, Tests   theorems and runs
-- Auth: services/auth-service.
--   Model       internal/domain, the rows of db/up.sql and the cached keys of Redis
--   Repo, Sessions   internal/infrastructure/repository/repository.go: nonces and sessions
--   Service, SignIn, Tokens   GetNonce; VerifySiwe; Refresh, Logout and LogoutByRefreshToken of
--               internal/service/service.go
--   Calls, Tables, Spent, Closed   lemmas: successful calls, claims that every method keeps, used
--               nonces, revoked sessions
--   Replay, Renewal, Grants, RoundTrip, Tests   theorems and runs
-- Orchestrator: services/orchestrator-service.
--   Model, Validate   internal/domain, internal/service/validate.go
--   Repo        internal/infrastructure/repository and internal/status/status.go
--   Service     internal/service/service.go and the encoder of internal/encode/encode.go
--   Effects, Rows, Prepared, Encoding   lemmas: the calls of the repository, tables with one intent for a
--               transaction, what a preparation promises and how it is encoded
--   Tracking, Unique, Preparing, Tests   theorems and runs
--
-- Retry: shared/retry/retry.go.
--   Backoff     WithBackoff, structural on the attempts that are left; Bounds, Tests   theorems, runs
--
-- Indexer: services/indexer-service.
--   Model       internal/domain/domain.go, the table, the collection and the broker's messages
--   Checkpoints, Events, Client   internal/infrastructure: repository/checkpoint_repository.go,
--               repository/event_repository.go with events/publisher.go, blockchain/client.go
--   Service     internal/service/indexer_service.go: IndexChain and what it calls
--   Claims, Rows, Runs, Progress   lemmas: claims that a run keeps, and where its checkpoint ends
--   Invariants, Fuel, Arrival, Tests   theorems and runs
-- Subscriptions: services/subscription-worker.
--   Sets, Model, Manager   internal/infrastructure/websocket: manager.go and connection.go
--   Spec        what the manager promises, on views: functions instead of maps
--   Membership, Pairs, Pushes, Refines   lemmas: each operation is the specified one
--   Keeping, Delivery, Stopping, Stale, Tests   theorems and runs
-- Intents: services/subscription-worker, the intents.
--   Redis       the commands of shared/redis/redis.go on its strings and sets
--   Repository  internal/infrastructure/repository/intent_repository.go
--   Resolution  internal/service/subscription_worker_service.go
--   Entries, Reading, Storing, Ready, Writing   lemmas: entries, what is read and stored, in any case
--               and without failures
--   Settled, Resolving, Tests   theorems and runs; Sample: a codec with the laws assumed
-- Users: services/user-service.
--   Model       internal/domain and the rows of db/up.sql
--   Repo, Service   internal/infrastructure/repository/repository.go, internal/service/service.go
--   Mapping, Answer, Tests   theorems and runs
--
-- State. A database is the lists of rows of its tables. A statement or a call may fail for a reason
-- outside the models: each store carries a list of Booleans that tells for each call to come
-- whether it fails, and the theorems hold for every such list unless they say otherwise. A failed
-- statement aborts a transaction of the wallet or the user service; a COMMIT that fails has rolled
-- back, so a reply that is lost after a commit took effect is not modelled. Methods take the time of their run as an argument, and the
-- random bytes and UUIDs they draw; times are natural numbers (nanoseconds in the auth service, and
-- seconds in the orchestrator, whose validation reads Unix seconds). Steps of concurrent methods of
-- the auth service are steps of a relation (Auth.Replay.Step), by whole methods and by single calls
-- of the repository, in any order. Operations of the subscription worker's manager follow each other in the
-- order in which they take its lock, and the closing of a connection, which marks it and then removes
-- it under the manager's lock, is one step; those that the code starts with `go` are steps of their own.
-- The manager's Stop, which keeps the lock, passes that on to what it calls (Lock), and a wait for a
-- lock that is one's own is the error `blocked`. A Go map is a list of its keys or pairs, whose
-- order stands for the order in which a loop meets them.
--
-- Libraries and other services are parameters (the records World of Auth.Service and
-- Orchestrator.Service): the siwe and go-ethereum libraries, RFC 3339, SHA-256, JWT, UUID and ABI
-- packing, the clients of the user service, the wallet service and the chain registry. Of these
-- parameters the theorems assume nothing. The node behind the indexer's RPC client (Node of
-- Indexer.Client) gives an answer for each question by its number, so what it says may change; one
-- theorem assumes that it answers (Answers of Indexer.Arrival). encoding/json on the intents of the
-- subscription worker is a Codec of Intents.Repository; theorems assume that decoding
-- gives back what was encoded, with the data's pairs as the model's list has them (encoding/json sorts
-- the keys of a Go map), and one that every status can be encoded.
--
-- Fuel. The decimal print of a number (Common.Decimal.decimal) runs on n + 1 units for n, which is more
-- than the digits of n. The indexer's loop over batches runs on a unit for each block after the
-- checkpoint; a batch takes one and covers at least one block, and out_of_fuel is an error of the model.
--
-- Not modelled. Numbers of blocks are natural numbers, those below 2^63 of the code. Lower case is
-- that of ASCII letters. The hash of an advisory lock key is computed, but transactions of the wallet
-- service run one after the other. Device, address and agent of a
-- session stay null as the service leaves them; the SQL functions that delete expired nonces and
-- sessions are not called by the code. Texts of errors, the JSON of the orchestrator's audit rows and the
-- timeout of its session check are left out. Logging, metrics, gRPC and AMQP transport, configuration,
-- and the catalog, chain-registry and media services and the gateway
-- are outside this library; so are the indexer's goroutines, its queries for monitoring and its audit
-- records, the sockets of the subscription worker, and its
-- statistics; the gateway's graphql/schemas and shared/proto are generated.
pub mod Common
pub mod Wallet
pub mod Auth
pub mod Orchestrator
pub mod Retry
pub mod Indexer
pub mod Subscriptions
pub mod Intents
pub mod Users
