-- ===== src/App/Metrics.antt =====
-- internal/app/metrics_collector.go. A Go map is the list of its entries.
pub mod Lookup
pub mod Snapshot
pub mod Described
pub mod Agreement
use event_driven_ns.Prelude.{
  ℕ, ◌+◌, ◌*◌, List, [], ◌∷◌, Option, none, some, String, str_eq, ◌==◌, if◌then◌else◌,
}
use event_driven_ns.Prelude.Int.{pos}
use event_driven_ns.Prelude.Ratio.{Ratio, zero_ratio}
use event_driven_ns.Domain.Error.{Result, ok, err}
use event_driven_ns.Platform.{Platform}
use event_driven_ns.World.{World, M, pure}
use event_driven_ns.Postgres.Metrics.{ChannelStats, get_channel_metrics}

pub record ChannelSnapshot : Type 0 where
  pub sent : ℕ
  pub failed : ℕ
  pub avg_latency_ms : Ratio
  pub success_rate : Ratio

-- `MetricsSnapshot`.
abbrev pub MetricsSnapshot : Type 0
MetricsSnapshot = List (String × ChannelSnapshot)

-- `m[key] = value`.
unfoldable pub assign : String → ChannelSnapshot → MetricsSnapshot → MetricsSnapshot
assign key value [] = (key, value) ∷ []
assign key value ((k, v) ∷ m) =
    let rest = assign key value m in if str_eq k key then (k, value) ∷ m else (k, v) ∷ rest

-- `m[key]`.
unfoldable pub lookup : String → MetricsSnapshot → Option ChannelSnapshot
lookup key [] = none
lookup key ((k, v) ∷ m) = if str_eq k key then some v else lookup key m

-- `ChannelSnapshot{}`.
abbrev pub empty_snapshot : ChannelSnapshot
empty_snapshot = record {
  sent = 0;
  failed = 0;
  avg_latency_ms = zero_ratio;
  success_rate = zero_ratio;
}

unfoldable pub defaults : MetricsSnapshot
defaults = ("sms", empty_snapshot) ∷ ("email", empty_snapshot) ∷ ("push", empty_snapshot) ∷ []

-- `float64(s.Sent) / float64(total) * 100`, or 0.
unfoldable pub success_rate : ℕ → ℕ → Ratio
success_rate sent failed =
    if sent + failed == 0
    then zero_ratio
    else record { value = pos (sent * 100); over = sent + failed }

unfoldable pub channel_snapshot : ChannelStats → ChannelSnapshot
unfolding success_rate
channel_snapshot s = record {
  sent = s.sent;
  failed = s.failed;
  avg_latency_ms = s.avg_latency_ms;
  success_rate = success_rate s.sent s.failed;
}

-- The loop of `Snapshot`.
unfoldable pub assign_all : List ChannelStats → MetricsSnapshot → MetricsSnapshot
unfolding assign channel_snapshot
assign_all [] m = m
assign_all (s ∷ stats) m = assign_all stats (assign s.channel (channel_snapshot s) m)

unfoldable pub from_stats : Result (List ChannelStats) → MetricsSnapshot
unfolding assign_all defaults
from_stats (ok stats) = assign_all stats defaults
from_stats (err e) = defaults

-- The error of the query is dropped.
unfoldable pub snapshot : ⦃p : Platform⦄ → World → MetricsSnapshot × World
unfolding from_stats get_channel_metrics
snapshot w = let (r, w') = get_channel_metrics w in (from_stats r, w')

-- `RecordSuccess` and `RecordFailure` have empty bodies.
unfoldable pub record_success : String → ℕ → M Unit
record_success channel latency = pure tt

unfoldable pub record_failure : String → M Unit
record_failure channel = pure tt
