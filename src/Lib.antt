-- ===== src/Lib.antt =====
-- A model of blueprint, a Go framework for services: the life cycle of an application, its
-- configuration, database access with migrations, a thread pool, clients of message brokers, HTTP
-- servers, password hashes and TLS configurations.
--
-- An application is a container (container.go) around a configuration. Components register
-- destructors (shutdown.go) on a call stack (types/callstack/callstack.go), which is run backwards
-- when the main loop gets a signal. Settings come from a provider (config/provider/env.go or
-- json.go) behind one interface (config/interface.go). A repository (db/repository.go) builds its
-- queries with the functions of db/functions.go on the connection of a client (db/client.go), and
-- the migration manager (provider/pgsql/migrations.go) applies the scripts of a source
-- (db/migrations) under an advisory lock. Jobs run on the goroutines of threadpool. The clients of
-- provider/kafka and provider/mqtt and the servers of provider/httpserver and provider/metrics take
-- their encryption from the configurations of provider/tls.
--
-- Files:
--   Prelude    shared names: tests on numbers, lists over native numbers, Go's int, byte strings,
--              the entries of a map, lists up to order, and predicates on the outcome of a step
--   Errors     utils/error.go: sentinel errors, and a value or an error
--   CallStack  types/callstack/callstack.go; Order: the order of the calls
--   Runtime    shutdown.go and container.go; Exit: how an application ends
--   Migrations Record and Source: db/migrations, with Source/Disk for the files on a disk;
--              Source/Tree and Source/Reading: what they list and read; Manager:
--              provider/pgsql/migrations.go with lock.go and utils.go; Manager/View: what is assumed of
--              the server; Apply, Run, Rerun, Exists: what the operations do to it; Manager/Server: the
--              queries that it does not use; Opening: the manager of a client; Progress: the texts of
--              DefaultProgressFn
--   Config     Interface, Text (the text functions of Go that matter), Env and Json: the providers;
--              Wrap: config/wrap.go
--   Db         Driver: goqu and sqlx as parameters; Functions, Repository, Tx and Client: the files
--              of db/ of these names; Open: how a repository is opened; Pgsql and Clickhouse: client.go
--              of provider/pgsql and provider/clickhouse; Registry: their dialects; Interface and
--              Instances: the interfaces of repository.go and their two implementations; Table: the
--              contract of a table; Database: what is assumed of goqu and the database; Meaning,
--              Writes, Reads and Same: what the methods do to a table, and against each other;
--              Contract, Calls, Counted and Isolated: the contract kept, by any sequence of calls,
--              also in a transaction
--   ThreadPool threadpool/pool.go and worker.go; Workers and Sums: sums over the workers; Sound,
--              Invariant and Stopping: what holds at every moment; Descent and Draining: how a stop ends
--   Tls        provider/tls; Load: certificates from files; Versions and Client: what a
--              returned server or client configuration guarantees
--   Hashing    crypt/hashing/argon2id.go, in Argon2id; Base64 and Scan: the encoding and the numbers
--              in a hash; Verify: what is read back; Rehash: when to hash again
--   Kafka      provider/kafka, in Consumer, Producer and Admin; Subscription, Batch, Connection and
--              Secured: the loop over messages, writes, connections and authentication
--   Mqtt       provider/mqtt/client.go and generator/string.go; Built: what a client is set up with
--   Servers    provider/httpserver, in Http, and provider/metrics, in Metrics; Encrypted: how they
--              serve
--   Parallel   utils/parallel/for.go; Joined and Finished: what it returns, and when
--   Sample     sample/application/main.go, which puts a JSON provider, a container and an HTTP server
--              together; Life: how it ends
--   Console    console/ansi.go; Sequence: how a terminal reads what it prints
--   Str        utils/str/strutils.go
--   Tests      the theorems at concrete inputs
--
-- Correspondence: a Go method is a function of the same name, in snake case, from the receiver's
-- state to its result and the state afterwards. A result with an error is `Result`, or a pair where
-- Go code reads both. Panics and exits of the process are values (`none`, `panicked`, `exited`).
-- Code outside of the repository is a parameter: sqlx, goqu, PostgreSQL, kafka-go, paho and net/http
-- are records of state transformers, encoding/json, x509, gin and the operating system records of
-- functions, argon2 and the random source a record of both. What is assumed of them are hypotheses
-- (`IsTransactional`, `IsQuiet`, `IsSql`, `IsSelecting`, `IsWriting`, `IsIsolated`, `IsRegistry`,
-- `IsCrypto`, `IsLog`, `IsCounted`), with an instance in Tests.
--
-- Bounds: loops are structural recursions over the lists that Go ranges over; `Run` of the call
-- stack counts down from the number of its handlers. The endless loops of the container, of the
-- application and of a worker are runs over finite lists of events of any length, and that of a
-- consumer runs for a given number of rounds: one more than there are messages is enough. The
-- digits of a number are computed with the number itself as fuel, which is more than its digits.
-- The request counters are numbers modulo 2 ^ 64, durations are 64 bits, and `Atoi` keeps to 64
-- bits; other `int` values of the models are lengths and settings, and do not come near a bound.
-- Byte strings stand for Go strings, and upper case and white space are those of ASCII.
--
-- Not modelled: the set-up of the logger; the samples but sample/application, which are single runs
-- against a local service; what fmt formats for the console; types/threadsafe, a copy of another
-- library; symbolic links in a directory of migrations; handlers that use the Kafka consumer which
-- calls them; data races, since a method under a mutex is one step.
pub mod Prelude
pub mod Errors
pub mod CallStack
pub mod Runtime
pub mod Migrations
pub mod Config
pub mod Db
pub mod ThreadPool
pub mod Tls
pub mod Hashing
pub mod Kafka
pub mod Mqtt
pub mod Str
pub mod Console
pub mod Sample
pub mod Servers
pub mod Parallel
pub mod Tests
