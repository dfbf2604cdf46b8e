-- ===== src/Postgres/Metrics.antt =====
-- `GetChannelMetrics` of internal/adapter/postgres/notification_repo.go. SQL leaves the order of the
-- groups open; here a group stands where its first row does.
use event_driven_ns.Prelude.{
  ℕ, ◌*◌, Bool, ◌&&◌, List, [], ◌∷◌, Option, none, some, String, str_eq, not, ◌==◌, map, is_some,
  length, if◌then◌else◌,
}
use event_driven_ns.Prelude.Int.{ℤ, pos, sub_ℕ, ◌+ℤ◌}
use event_driven_ns.Prelude.Ratio.{Ratio, zero_ratio}
use event_driven_ns.Domain.Channel
use event_driven_ns.Domain.Status.{Status, delivered, failed, is_status}
use event_driven_ns.Domain.Notification.{Time, Notification}
use event_driven_ns.Platform.{Platform}
use event_driven_ns.World.{M}
use event_driven_ns.Postgres.Table.{select_where, count_where}
use event_driven_ns.Postgres.Driver.{Sql, rows, to_error, run}

-- `ChannelStats`.
pub record ChannelStats : Type 0 where
  pub channel : String
  pub sent : ℕ
  pub failed : ℕ
  pub avg_latency_ms : Ratio

unfoldable pub in_channel : String → Notification → Bool
unfolding Channel.to_string
in_channel c r = str_eq (Channel.to_string r.channel) c

-- COUNT(*) FILTER (WHERE status = …), within a group.
unfoldable pub count_status : String → Status → List Notification → ℕ
unfolding in_channel is_status count_where
count_status c s table = count_where (λ r. in_channel c r && is_status r.status s) table

-- status = 'delivered' AND sent_at IS NOT NULL, within a group.
unfoldable pub is_measured : String → Notification → Bool
unfolding in_channel is_status
is_measured c r = in_channel c r && (is_status r.status delivered && is_some r.sent_at)

-- sent_at - created_at, in nanoseconds.
abbrev pub latency : Option Time → Time → ℤ
latency none created_at = pos 0
latency (some sent_at) created_at = sub_ℕ sent_at created_at

unfoldable pub total_latency : List Notification → ℤ
total_latency [] = pos 0
total_latency (r ∷ rs) = latency r.sent_at r.created_at +ℤ total_latency rs

-- COALESCE(AVG(…), 0); a millisecond is 10⁶ nanoseconds.
unfoldable pub average_latency_ms : List Notification → Ratio
unfolding total_latency
average_latency_ms table =
    let n = length table in
    if n == 0 then zero_ratio else record { value = total_latency table; over = n * 1000000 }

-- The row of a group.
unfoldable pub stats_of : List Notification → String → ChannelStats
unfolding count_status is_measured average_latency_ms select_where
stats_of table c = record {
  channel = c;
  sent = count_status c delivered table;
  failed = count_status c failed table;
  avg_latency_ms = average_latency_ms (select_where (is_measured c) table);
}

-- GROUP BY channel.
unfoldable pub channels_of : List Notification → List String
unfolding Channel.to_string select_where
channels_of [] = []
channels_of (r ∷ rs) =
    let c = Channel.to_string r.channel in c ∷ select_where (λ d. not (str_eq d c)) (channels_of rs)

unfoldable pub metrics_rows : Sql (List ChannelStats)
unfolding stats_of channels_of
metrics_rows w = (rows (map (stats_of w.notifications) (channels_of w.notifications)), w)

unfoldable pub get_channel_metrics : ⦃p : Platform⦄ → M (List ChannelStats)
unfolding metrics_rows run to_error
get_channel_metrics = run to_error metrics_rows
