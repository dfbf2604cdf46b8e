-- ===== src/Tests/Metrics.antt =====
-- The snapshot of a small table, and environments.
use event_driven_ns.Prelude.{
  All, ℕ, [], ◌∷◌, some, none, String, str_eq, ◌≡◌, refl, arith, if◌then◌else◌,
}
use event_driven_ns.Prelude.Decimal
use event_driven_ns.Prelude.Split
use event_driven_ns.Prelude.Split.{IsSome, IsFree, join}
use event_driven_ns.Prelude.Int
use event_driven_ns.Prelude.Int.{pos}
use event_driven_ns.Domain.Status.{delivered, failed}
use event_driven_ns.Domain.Notification.{Notification}
use event_driven_ns.World.{World}
use event_driven_ns.App.Metrics.{ChannelSnapshot, lookup, snapshot}
use event_driven_ns.App.Metrics.Described.{entry}
use event_driven_ns.App.Metrics.Snapshot.{IsPlausible, snapshot_lem, snapshot_bounds}
use event_driven_ns.Config.{Environment, get_env, load}
use event_driven_ns.Config.Load.{load-brokers, load-rate_limit}
use event_driven_ns.Tests.Fixtures.{platform, platform-IsHealthy, waiting, queued}

-- Two delivered notifications, two and four milliseconds after they were made, and one that failed.
abbrev sent_at : ℕ → Notification
sent_at t = record waiting { status = delivered; sent_at = some t }

abbrev three_done : World
three_done = record queued {
  notifications =
      sent_at 2000000 ∷ record waiting { status = failed } ∷ sent_at 4000000 ∷ waiting ∷ [];
}

abbrev push_entry : ChannelSnapshot
push_entry = record {
  sent = 2;
  failed = 1;
  avg_latency_ms = record { value = pos 6000000; over = 2000000 };
  success_rate = record { value = pos 200; over = 3 };
}

push_snapshot : lookup "push" (snapshot ⦃p = platform 200 none⦄ three_done).0 ≡ some push_entry
unfolding entry lookup snapshot Int.◌+ℤ◌
push_snapshot = refl

snapshot_lem_example :
    lookup "push" (snapshot ⦃p = platform 200 none⦄ three_done).0
    ≡ entry three_done.notifications "push"
snapshot_lem_example =
    snapshot_lem ⦃p = platform 200 none⦄ (platform-IsHealthy 200 none) three_done "push"

snapshot_bounds_example : IsPlausible three_done.notifications push_entry
snapshot_bounds_example =
    snapshot_bounds ⦃p = platform 200 none⦄ three_done "push" push_entry push_snapshot

-- An environment with one variable.
abbrev only : String → String → Environment
only key value k = if str_eq k key then value else ""

load-rate_limit_example :
    (load (only "RATE_LIMIT_PER_CHANNEL" "250")).rate_limit_per_channel ≡ pos 250
unfolding Decimal.itoa
load-rate_limit_example =
    load-rate_limit (only "RATE_LIMIT_PER_CHANNEL" "250") 250 refl (omega arith)

two_brokers : (load (only "KAFKA_BROKERS" "a:1,b:2")).kafka_brokers ≡ "a:1" ∷ "b:2" ∷ []
unfolding load Split.split
two_brokers = refl

load-brokers_example :
    IsSome (load (only "KAFKA_BROKERS" "a:1,b:2")).kafka_brokers
    × All (IsFree ",") (load (only "KAFKA_BROKERS" "a:1,b:2")).kafka_brokers
    × (join "," (load (only "KAFKA_BROKERS" "a:1,b:2")).kafka_brokers
        ≡ get_env (only "KAFKA_BROKERS" "a:1,b:2") "KAFKA_BROKERS" "localhost:9092")
load-brokers_example = load-brokers (only "KAFKA_BROKERS" "a:1,b:2")
