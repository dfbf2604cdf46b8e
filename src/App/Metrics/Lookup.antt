-- ===== src/App/Metrics/Lookup.antt =====
-- The entry that a snapshot of internal/app/metrics_collector.go has for a channel.
use event_driven_ns.Prelude.{
  ◌≡◌, refl, ◌∙◌, Bool, false, not, ◌||◌, List, [], ◌∷◌, some, String, str_eq, eq_iff, arith, map,
  if◌then◌else◌,
}
use event_driven_ns.Domain.Channel
use event_driven_ns.Domain.Notification.{Notification}
use event_driven_ns.Domain.Status.{Status, delivered, failed}
use event_driven_ns.Postgres.Table.{has_row, select_where, count_where}
use event_driven_ns.Postgres.Metrics.{
  in_channel, count_status, is_measured, average_latency_ms, stats_of, channels_of,
}
use event_driven_ns.App.Metrics.{
  ChannelSnapshot, MetricsSnapshot, assign, lookup, success_rate, channel_snapshot, assign_all,
  empty_snapshot,
}

lookup-assign :
    (c k : String) (v : ChannelSnapshot) (m : MetricsSnapshot)
    → lookup c (assign k v m) ≡ (if str_eq k c then some v else lookup c m)
unfolding lookup assign
lookup-assign c k v [] = refl
lookup-assign c k v ((k', v') ∷ m) =
    ground (arith, eq_iff k' k, eq_iff k' c, eq_iff k c, lookup-assign c k v m)

-- The value of an assignment is that of its key, whichever way the key is written.
assigned_or_later :
    (c k : String) (table : List Notification) (later : Bool) (m : MetricsSnapshot)
    → (if later
        then some (channel_snapshot (stats_of table c))
        else lookup c (assign k (channel_snapshot (stats_of table k)) m))
      ≡ (if str_eq k c || later then some (channel_snapshot (stats_of table c)) else lookup c m)
assigned_or_later c k table later m =
    ground (arith, eq_iff k c, lookup-assign c k (channel_snapshot (stats_of table k)) m)

-- The assignments of the groups leave for a channel what its group has.
pub lookup-assign_all :
    (c : String) (table : List Notification) (names : List String) (m : MetricsSnapshot)
    → lookup c (assign_all (map (stats_of table) names) m) ≡ (
        if has_row (λ k. str_eq k c) names
        then some (channel_snapshot (stats_of table c))
        else lookup c m)
unfolding assign_all has_row stats_of
lookup-assign_all c table [] m = refl
lookup-assign_all c table (k ∷ names) m =
    lookup-assign_all c table names (assign k (channel_snapshot (stats_of table k)) m)
    ∙ assigned_or_later c k table (has_row (λ j. str_eq j c) names) m

has_row-without :
    (c d : String) (names : List String)
    → str_eq d c ≡ false
    → has_row (λ k. str_eq k c) (select_where (λ k. not (str_eq k d)) names)
      ≡ has_row (λ k. str_eq k c) names
unfolding has_row select_where
has_row-without c d [] h = refl
has_row-without c d (k ∷ names) h =
    ground (arith, eq_iff k d, eq_iff k c, eq_iff d c, has_row-without c d names h)

-- A channel has a group when a row is in it.
pub has_row-channels_of :
    (c : String) (table : List Notification)
    → has_row (λ k. str_eq k c) (channels_of table) ≡ has_row (in_channel c) table
unfolding has_row channels_of in_channel
has_row-channels_of c [] = refl
has_row-channels_of c (r ∷ table) = ground (
  arith,
  has_row-without c (Channel.to_string r.channel) (channels_of table),
  has_row-channels_of c table,
)

count_status-none :
    (c : String) (s : Status) (table : List Notification)
    → has_row (in_channel c) table ≡ false
    → count_status c s table ≡ 0
unfolding has_row count_status count_where
count_status-none c s [] h = refl
count_status-none c s (r ∷ table) h = ground (arith, count_status-none c s table)

measured-none :
    (c : String) (table : List Notification)
    → has_row (in_channel c) table ≡ false
    → select_where (is_measured c) table ≡ []
unfolding has_row is_measured select_where
measured-none c [] h = refl
measured-none c (r ∷ table) h = ground (arith, measured-none c table)

-- Without a row, the counts are those of a fresh entry.
pub channel_snapshot-none :
    (c : String) (table : List Notification)
    → has_row (in_channel c) table ≡ false
    → channel_snapshot (stats_of table c) ≡ empty_snapshot
unfolding channel_snapshot stats_of average_latency_ms success_rate
channel_snapshot-none c table h =
    rw
      (
        count_status-none c delivered table h,
        count_status-none c failed table h,
        measured-none c table h,
      )
      refl
