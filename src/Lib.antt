-- ===== src/Lib.antt =====
-- Pulse Notify: a notification service in Go. Users sign up and log in over HTTP; a request for a
-- notification is stored in PostgreSQL as pending and published to Kafka; a pool of workers fetches
-- the events, delivers them with retries, and stores the result. Redis holds refresh tokens, cached
-- lists and profiles, and the counters of the rate limiter. The API and the workers are two commands;
-- each reads its configuration from the environment, opens its connections, and releases them at its
-- end.
--
-- How the files correspond to the code:
--   Prelude           the shared vocabulary: Boolean tests, lists, int64 arithmetic that wraps, and
--                     texts as lists of code points with TrimSpace, ToLower and decimal digits
--   Errors            Go's error values: the sentinels of the program, wrapping, errors.Is
--   Parsing           strconv.Atoi and time.ParseDuration: Atoi and Duration hold the functions,
--                     Digits, Ends and Bounds what they read
--   Config            internal/config: Loading says what Load accepts, Ranges and Defaults what it
--                     returns, Split is splitAndTrim
--   Logger            internal/logger
--   Model             internal/model and internal/events/event.go
--   External          PostgreSQL, Redis, Kafka, UUIDs, encoding/json and the clock, as interfaces
--   State             what functions act on: the tables, the world outside, a history of calls; and
--                     the composition of functions that may fail
--   Process           what the commands act on: resources that are opened and closed, the schema, and
--                     the calls of the libraries that open and close
--   Database          internal/database: the constraints of the schema in migrate.go and what may
--                     become of a statement; Connection is postgres.go, Migration and Tables are
--                     Migrate
--   Repository        internal/repository: Users and Notifications hold the methods, Integrity and
--                     Writes the constraints under each write, Listing the two list queries
--   Worker            internal/worker: Notifier and Pool hold the code, Backoff the waits, Retry
--                     the delivery, Order the order of effects, Outcome what is stored, Redelivery a
--                     message that comes twice, Overflow a retry count that overflows; Dispatch the
--                     steps of Run, Conservation and Returned what becomes of its messages; Steps a
--                     worker's handling call by call, Alone its relation to handle, Commits what it
--                     commits; System the dispatcher and the workers on one shared state, Simulation
--                     its relation to Dispatch, Writes, Tally and Trace what it keeps, Settled its end,
--                     Overtaking a commit out of order
--   Cache             internal/cache/redis.go, with Connect and Close in Connection
--   Events            internal/events/producer.go and consumer.go
--   Http, Middleware  gin's context; internal/middleware: RateLimit and Window are the limiter,
--                     Access and Guards the checks of token and role, and chains of middleware
--   Auth              internal/auth; Tokens relates signing and parsing
--   Service           internal/service: Notifications is NotificationService, with Enqueue and
--                     Lists on it; Accounts is AuthService, with Sessions, Rotation, Ledger, Bearer,
--                     Profile, Login and Signup; Race is two calls of Refresh at once; Tables with Lists
--                     which operations write to the tables
--   Handler           internal/handler: Limits, Notifications, Accounts and Health hold the
--                     handlers; Requests the binding tags; Digits, Owner and Refusals say what they
--                     read and answer
--   Router            internal/router: the routes, in Guards who gets through to a handler, in Owner
--                     who sees a notification, in Replies and Answers the statuses of each route, in
--                     Logging the request logger and the table of routes
--   Server            internal/server
--   Command           cmd/api/main.go in Api, with Effects and Release; cmd/worker/main.go in Worker,
--                     with Drain; what both build from the configuration in Wiring; Settles the worker
--                     command with its pool
--   Flow              the way of a notification from Enqueue over Publish to the pool
--   Together          requests to the API and turns of the pool on one database, in any order:
--                     Requests and Turns what each may do to the tables, Growth what the writes add,
--                     Sound both together
--   Tests             runs and instances over a small world outside
--
-- A function of the code that may fail and has effects is a function of the state that returns a
-- result and a new state, with the names of the code in lower case with underscores. The tables are
-- lists of rows; one SQL statement is one step, carried out whole or not at all. What the server adds
-- to a statement (a fresh UUID, the time, a lost answer, a refusal) comes from the interface, so a
-- theorem holds for every behaviour of the server unless a hypothesis restricts it. Packages outside
-- the repository (pgx, go-redis, kafka-go, golang-jwt, bcrypt, uuid, godotenv, encoding/json,
-- math/rand) are such interfaces too; laws of Redis and of golang-jwt are stated where a theorem needs
-- them (KeyValue, ListCache, ProfileLaws, Counts, JwtLaws). Contexts are asked for their error and
-- in waits; deadlines are not counted.
--
-- Goroutines of the pool are modelled twice. In Worker/Dispatch a worker's handling of a message is one
-- step, and what Fetch returns is free. In Worker/System the dispatcher and the workers share the
-- state; each turn is one call that others can see, by the phase in which the goroutine is, and the
-- world outside may change between any two turns; a schedule is any list of turns. The tables are
-- changed by the pool alone there; in Together requests to the API are served between the turns, each
-- as one step. The histories of a system (messages, UPDATEs) are read by no turn.
--
-- A command is a function of the environment, of what its blocking call meets (the events of the
-- server's select; the state that the pool's Run has reached) and of the process, whose effects are
-- the resources that were opened and closed; it gives the exit code. Text of the environment is held
-- as code points, and its length in bytes is counted as that of UTF-8.
--
-- Two loops are not over a list. That of deliverWithRetry is recursion on the rounds left, which are
-- maxRetries+1 as an int64, or none if that is not positive: the number of times the loop's condition
-- can hold, as attempt goes up by one in each round. That of time.ParseDuration has the length of its
-- text as fuel, which is enough, as each round takes a character.
--
-- Not modelled: gin's matching of a request to a route and its recovery from panics; the lines that
-- only log, but for the request logger, and what slog writes; the indexes of the schema;
-- floating-point numbers (the fraction of a duration and the failure rate are parameters).
pub mod Prelude
pub mod Errors
pub mod Parsing
pub mod Config
pub mod Logger
pub mod Model
pub mod External
pub mod State
pub mod Process
pub mod Database
pub mod Repository
pub mod Worker
pub mod Cache
pub mod Events
pub mod Http
pub mod Middleware
pub mod Auth
pub mod Service
pub mod Handler
pub mod Router
pub mod Server
pub mod Command
pub mod Flow
pub mod Together
pub mod Tests
