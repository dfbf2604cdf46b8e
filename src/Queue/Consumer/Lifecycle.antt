-- ===== src/Queue/Consumer/Lifecycle.antt =====
-- internal/adapter/queue/consumer.go: NewConsumer, Start and Stop. What `Close` of a reader and of the
-- writer answers is an argument.
use event_driven_ns.Prelude.{
  Bool, List, [], ◌∷◌, ◌++◌, Option, none, some, String, str_eq, if◌then◌else◌,
}
use event_driven_ns.Prelude.Int.{ℤ}
use event_driven_ns.Config.{Config}
use event_driven_ns.Queue.Consumer.{priority_topics}

-- `ConsumerConfig`, without its logger.
pub record ConsumerConfig : Type 0 where
  pub brokers : List String
  pub group : String
  pub rate_per_channel : ℤ

-- A reader by its topic; a limiter of golang.org/x/time/rate by its rate, which is its burst too.
-- `running` are the topics whose goroutine was started and not yet waited for, and `closed` what Stop
-- closed, in order.
pub record Consumer : Type 0 where
  pub cfg : ConsumerConfig
  pub readers : List String
  pub limiters : List (String × ℤ)
  pub cancellable : Bool
  pub running : List String
  pub closed : List String

-- The arguments of `NewConsumer` in cmd/worker/main.go.
unfoldable pub worker_config : Config → ConsumerConfig
worker_config cfg = record {
  brokers = cfg.kafka_brokers;
  group = cfg.kafka_consumer_group;
  rate_per_channel = cfg.rate_limit_per_channel;
}

unfoldable pub new_consumer : ConsumerConfig → Consumer
new_consumer cfg = record {
  cfg = cfg;
  readers = [];
  limiters =
      ("sms", cfg.rate_per_channel)
      ∷ ("email", cfg.rate_per_channel)
      ∷ ("push", cfg.rate_per_channel)
      ∷ [];
  cancellable = Bool.false;
  running = [];
  closed = [];
}

-- `c.limiters[payload.Channel]`.
unfoldable pub limiter_for : String → List (String × ℤ) → Option ℤ
limiter_for channel [] = none
limiter_for channel ((name, limit) ∷ limiters) =
    if str_eq name channel then some limit else limiter_for channel limiters

-- The loop of `Start`, up to its wait for the context.
unfoldable pub start_readers : List String → Consumer → Consumer
start_readers [] c = c
start_readers (topic ∷ topics) c =
    start_readers topics
      (record c { readers = c.readers ++ topic ∷ []; running = c.running ++ topic ∷ [] })

unfoldable pub start : Consumer → Consumer
unfolding start_readers priority_topics
start c = start_readers priority_topics (record c { cancellable = Bool.true })

-- `if err := …; err != nil && firstErr == nil { firstErr = err }`.
abbrev pub first_of : Option String → Option String → Option String
first_of none later = later
first_of (some reason) later = some reason

-- The loop of `Stop` over the readers: the first error, and the readers that were closed.
unfoldable pub close_readers :
    (String → Option String)
    → List String
    → Option String
    → List String
    → Option String × List String
close_readers close [] first_err closed = (first_err, closed)
close_readers close (topic ∷ topics) first_err closed =
    close_readers close topics (first_of first_err (close topic)) (closed ++ topic ∷ [])

-- `cancel`, if it is set; the wait for the goroutines, which end when the context does; the readers,
-- then the writer.
unfoldable pub stop : (String → Option String) → Option String → Consumer → Option String × Consumer
unfolding close_readers
stop close close_writer c =
    let (first_err, closed) = close_readers close c.readers none c.closed in
    (first_of first_err close_writer, record c { running = []; closed = closed ++ "writer" ∷ [] })

-- The first of several answers that is an error.
unfoldable pub first_failure : List (Option String) → Option String
first_failure [] = none
first_failure (answer ∷ answers) = first_of answer (first_failure answers)
