-- ===== src/Lib.antt =====
-- A verification of the order service: the LRU cache, the orders and their validation, the cache manager,
-- the service, the Kafka consumer with its dead letter queue, the repository, the HTTP handlers, and the
-- producer of test orders.
--
-- The service reads orders from Kafka, validates them (internal/models), stores them in a database
-- behind a cache (internal/cache), and serves them over HTTP. Messages that it cannot use go to the
-- dead letter queue (internal/kafka/dead_letter_queue.go).
--
-- Base: numbers, texts, regular expressions, time, decimal digits, and Go maps as association lists.
-- LruList: internal/cache/lru_cache/list/lru_list.go. The doubly linked ring with its sentinel, over an
--   explicit heap: a map from addresses for each field of a node. LruList/Code has the methods.
--   LruList/Rep says that a ring at an address holds a list of nodes, back to front; LruList/Methods
--   and LruList/Moves say what the methods do to that list; LruList/Race cuts `PushFront` at the read that it makes outside its mutex.
-- LruCache: internal/cache/lru_cache/lru_cache.go. The map beside the list. LruCache/Spec is the abstract
--   cache: entries in the order of their last use. LruCache/Refine, Store, Drop and Flush refine
--   it, LruCache/Client states what a client of the cache sees, and LruCache/Trace runs any sequence of calls.
-- Models: internal/models/orders.go. The data, and every check of the validation in its order. `int` is
--   64 bits wide and wraps. Patterns has the regular expressions, and Base/Regex matches them by
--   derivatives, against a relation of matching.
-- DeadLetters: internal/kafka/dead_letter_queue.go with the message type of internal/interfaces/kafka.go.
-- Manager: internal/cache/manager.go with internal/interfaces/cache.go and repo.go. The manager calls its cache
--   through the record CacheMethods, Manager/Laws says what it relies on, and Manager/Lru fills both with the
--   LRU cache. The repository is a parameter, a record of functions on a database state. An order in the
--   cache is a value: the pointer that the source stores is not written through after that.
-- Service: internal/service/order_service.go over the manager. The circuit breaker of
--   github.com/sony/gobreaker is a parameter. Service/Traces and Sourced are about any sequence of calls
--   of it, with Kept for its cache, and Refused is about the breaker once it is open.
-- Breaker: what the circuit breaker is for the service and the consumer, and what its documentation says: it
--   rejects a request with an error, or returns the result of the request. Breaker/Trips has when it opens.
-- Consumer: internal/kafka/consumer.go. Consumer/Loop is the loop, a function of what each round reads of the
--   world, so that a run is a list of readings; Rounds, Accounts, Commits and Ends follow each message
--   through it.
--   Spins is the recovery under an open breaker. Lifecycle has `Start` and `Stop`, and Schedules puts them in
--   any order with the loops that they leave behind; Unbounded counts those, and Drains ends them as `round` does. kafka-go, retry-go and
--   encoding/json are parameters. Processors makes the service its order processor,
--   and Refused has that service refuse orders.
-- Database: internal/db/db.go and repo.go over pgx and scany, which are a record of functions. Database/Laws
--   names what is documented of a transaction, as long as no other client writes, and Nested, Atomic
--   and Failures say what becomes of an order that is saved, or asked for. Listed is the repository as a
--   source of orders. A SQL text is a name.
-- Server: internal/server/handlers.go and server.go. A handler is a list of calls of its writer, and
--   Server/Writer says what they send. Routes has the patterns of `setupRoutes`, and Middleware the race between a
--   handler and its deadline. Server/Orders, Uncached, Pipeline and Paths put the handlers on top of the
--   service, the manager, the cache and the repository.
-- Producer: cmd/producer/main.go, `generateOrder` against the validation, and `main`.
-- Config: internal/config/config.go, the settings, how they are loaded, and their validation.
-- Start: cmd/order_service/main.go: the cache that it makes and warms. Start/Components and Endings have the
--   goroutines of the server and the consumer, up to the select that it waits in, and Start/Shutdown the
--   code after it.
-- System: the running program, one service between the loop of the consumer and the server, as runs over
--   lists of events. System/Provenance says where an order may come from, Turns and Requests treat the two kinds of
--   event, and Program starts from what `main` makes.
-- Examples: concrete inputs.
--
-- How the code corresponds. A Go method is a definition with its name in lower case and underscores:
-- `MoveToFront` is move_to_front, and the unexported `pushFront` is push_front_node. Each method is one
-- step, as it holds its mutex, but for `PushFront` in LruList/Race. A pointer is a number, nil is 0, and a
-- dereferenced nil is the run `panic`. A capacity and a length are natural numbers; a negative
-- capacity is refused as in the source. Keys have a decidable equality that is equality, which leaves out
-- floating-point keys with NaN. The clock is an argument wherever the code reads it, and so is the
-- order in which `range` walks a map. Strings are lists of code points, so they are valid UTF-8. No definition uses fuel: all loops
-- are structural, or recursive on accessibility (the digits of a number).
--
-- Not modelled: logging, and JSON and database tags, which decide nothing that is stated here; what
-- PostgreSQL does with a statement; what the mux of net/http picks, the file server and the listener;
-- signals, which nothing reads; and methods that only pass a call on, such as `Ping`. Where goroutines
-- share the consumer, the cache or the service, each method is one step, and the loop sees the consumer
-- once in each round. `http.Error` at the deadline of a request is one step too, and what its handler
-- does after that is an argument: some more calls of the writer, or the end of the process.
pub mod Base
pub mod LruList
pub mod LruCache
pub mod Models
pub mod DeadLetters
pub mod Manager
pub mod Breaker
pub mod Service
pub mod Consumer
pub mod Database
pub mod Server
pub mod Producer
pub mod Config
pub mod Start
pub mod System
pub mod Examples
