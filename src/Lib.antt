-- ===== src/Lib.antt =====
-- The event-driven notification service: an API process that validates, stores and publishes
-- notifications, and a worker process that consumes them and calls the provider.
--
-- How the parts interact. A request reaches a handler (internal/adapter/http), which calls a service
-- (internal/app). The service builds the entities (internal/domain), stores them through the
-- repositories (internal/adapter/postgres) and publishes a message to the Kafka topic of the priority
-- (internal/adapter/queue/publisher.go). In the worker (cmd/worker/main.go) one consumer for each topic
-- (internal/adapter/queue/consumer.go) hands the identifier in a message to ProcessDelivery, which calls
-- the provider behind a circuit breaker (internal/adapter/provider/webhook.go), stores the outcome,
-- counts it in the batch and broadcasts it to WebSocket clients. A handler that returns an error has its
-- message published once more. The scheduler (internal/app/scheduler.go) publishes what is due and what
-- was left in processing for five minutes.
--
-- Files.
--   Prelude       names of the libraries passed on, Boolean tests, lists, signed integers (Prelude/Int),
--                 exact ratios, and Itoa, Atoi and strings.Split of Go (Decimal, Atoi, Split).
--   Domain        internal/domain: Error (errors.go), Channel, Priority, Status, Validation with its
--                 two regular expressions, Notification (notification.go), Template (template.go).
--                 Domain/Regex is a matcher by derivatives with its correctness.
--   Platform      what this repository calls and does not implement, as one record of functions.
--   World         the state (tables, messages, updates, requests) and the monad of the actions.
--                 World/Triple and World/Hoare are the rules by which actions are reasoned about.
--   Postgres      internal/adapter/postgres over migrations/: Table (what statements do to rows), Rows
--                 (the statements and constraints), Driver (errors, transactions), Notifications,
--                 Templates, Idempotency and Metrics (the methods of the three repositories), Columns
--                 (the rows as texts).
--   Queue         Publisher and Consumer, the files of internal/adapter/queue; Delay has the delays, and
--                 Consumer/Lifecycle NewConsumer, Start and Stop.
--   CircuitBreaker
--                 pkg/circuitbreaker/breaker.go: the settings. The state of a breaker is the list of the
--                 calls that it has let through, which the world keeps.
--   Provider      internal/adapter/provider/webhook.go, with Execute of the breaker.
--   App           internal/app: NotificationService, DeliveryService, Scheduler, TemplateService, and
--                 Metrics (metrics_collector.go).
--   Ws            internal/adapter/ws/hub.go: the hub, its steps, and whom a broadcast reaches.
--   Worker        the consumer with ProcessDelivery for its handler, as cmd/worker/main.go has it;
--                 Worker/Created follows a notification from its request to its end.
--   Http          internal/adapter/http: Request and Response (the DTOs), Handlers, RateLimit, Monitoring
--                 (health, metrics and websocket handlers), Middleware and Router.
--   Config, Logger, Tracing
--                 pkg/config, pkg/logger and pkg/tracing.
--   Program       the two processes as steps on one state, each step one request, one round of a
--                 consumer or one tick of the scheduler; Startup is main of both up to where they wait,
--                 and Sockets the two processes with their hubs. Final has runs
--                 of these steps and of single statements, and what they do to a notification that is
--                 cancelled or delivered.
--   Tests         a platform that can be run, small worlds, and instances of the results.
-- A function keeps the name of the Go function in snake case. A Go method (T, error) is an action
-- World → Result T × World. A method that mutates its receiver returns the new record.
--
-- How the code is read.
--   Strings are valid UTF-8, and their length is in bytes, as len gives it. The string types with
--   constants (Channel, Priority, Status) have a constructor for each constant and one for any other
--   text. A UUID is the number of its bytes; a time is nanoseconds since the epoch, in one time zone,
--   and both the program and the database read one clock. time.Now(), uuid.NewV7() and each call that
--   may fail take one step of the world, and the platform's answer is a function of the step, so
--   anything may be answered. NewNotification reads the clock and the generator before it validates.
--   Counters of a batch are integers. Retry counts are native numbers and no overflow is modelled: the
--   largest limit of retries is 5.
--   A statement fails, for a reason outside the program, without effect. A transaction that fails
--   restores the tables. A table is a list of rows, oldest first; the constraints that are modelled are
--   the primary, unique and foreign keys and the column defaults. Rows of one statement are updated
--   at once; steps of different requests and consumers interleave between operations and not inside
--   one, but for App/DeliveryService/Overtaken, which has a Cancel between two statements of a delivery, and
--   Program/Final/Statements, where each statement is a step and those of different operations interleave.
--   Kafka is the list of the messages that the consumer group has not committed; a round of a consumer
--   fetches the oldest of its topic, handles it, and commits it. A message that is not JSON is a
--   constructor of its own. JSON values are records.
--   The loops are recursions on lists or on the number of rounds; no function needs fuel. The number of
--   rounds is an argument where rounds are counted.
--
-- Not modelled: spans, deadlines and the encoding of the log; waiting, for the limiter of a channel or
-- for the delay of a retry, which changes no state; the ticker of the scheduler; the shutdown of the
-- HTTP server and the deferred closes of main. gin's matching of a path and its binding of a request
-- are left out: a request is a constructor for its route, with the bound arguments. A float64 of the
-- metrics is the exact ratio of whole numbers that it rounds.
-- The column lengths of migrations/ are not modelled. The tables keep a time to the nanosecond, where
-- TIMESTAMPTZ keeps it to the microsecond; only Postgres/Columns has what a column keeps of it.
pub mod Prelude
pub mod Domain
pub mod CircuitBreaker
pub mod Platform
pub mod World
pub mod Postgres
pub mod Queue
pub mod Provider
pub mod App
pub mod Worker
pub mod Program
pub mod Http
pub mod Config
pub mod Logger
pub mod Tracing
pub mod Ws
mod Tests
