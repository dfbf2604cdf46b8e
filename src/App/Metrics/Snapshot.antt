-- ===== src/App/Metrics/Snapshot.antt =====
-- What the snapshot of internal/app/metrics_collector.go says about the table of notifications.
use event_driven_ns.Prelude.{
  ℕ, ◌+◌, ◌*◌, ◌==◌, Bool-cases, ◌≤◌, ◌≡◌, refl, sym, ◌∙◌, Bool, ◌||◌, List, [], ◌∷◌, Option, none,
  some, String, str_eq, arith, map, if◌then◌else◌, inl, inr, length, option_cases,
}
use mathlib.Core.Path.{subst}
use event_driven_ns.Prelude.Int.{pos_part, neg_part}
use event_driven_ns.Prelude.Ratio.{Ratio, IsWithin}
use event_driven_ns.App.Metrics.Described.{described, entry, delivered_of, failed_of}
use event_driven_ns.App.Metrics.Agreement.{
  has_row-in_channel, count_status-delivered, count_status-failed, average_latency_ms-measured,
  success_rate-percentage,
}
use event_driven_ns.Domain.Error.{ok}
use event_driven_ns.Domain.Notification.{Notification}
use event_driven_ns.Domain.Status.{delivered, failed, is_status}
use event_driven_ns.Platform.{Platform}
use event_driven_ns.World.{World, tick}
use event_driven_ns.Postgres.Driver.{run, query}
use event_driven_ns.Postgres.Healthy.{IsHealthy}
use event_driven_ns.Postgres.Table.{has_row, select_where, count_where}
use event_driven_ns.Postgres.Metrics.{
  in_channel, count_status, is_measured, average_latency_ms, stats_of, channels_of, metrics_rows,
  get_channel_metrics,
}
use event_driven_ns.App.Metrics.{
  ChannelSnapshot, lookup, defaults, success_rate, channel_snapshot, from_stats, snapshot,
  empty_snapshot,
}
use event_driven_ns.App.Metrics.Lookup.{
  lookup-assign_all, has_row-channels_of, channel_snapshot-none,
}

-- The three names that the snapshot starts from.
unfoldable pub is_default : String → Bool
is_default c = str_eq "sms" c || (str_eq "email" c || str_eq "push" c)

lookup-defaults :
    (c : String) → lookup c defaults ≡ (if is_default c then some empty_snapshot else none)
unfolding lookup defaults is_default
lookup-defaults c = ground arith

-- The numbers of a channel, from the rows alone.
unfoldable pub channel_entry : List Notification → String → ChannelSnapshot
channel_entry table c = record {
  sent = count_status c delivered table;
  failed = count_status c failed table;
  avg_latency_ms = average_latency_ms (select_where (is_measured c) table);
  success_rate = success_rate (count_status c delivered table) (count_status c failed table);
}

channel_snapshot-stats_of :
    (table : List Notification) (c : String)
    → channel_snapshot (stats_of table c) ≡ channel_entry table c
unfolding channel_snapshot stats_of channel_entry
channel_snapshot-stats_of table c = refl

-- The entry of a channel, if it has one, as the query and the formulas have it.
unfoldable entry_of_rows : List Notification → String → Option ChannelSnapshot
entry_of_rows table c =
    if is_default c || has_row (in_channel c) table then some (channel_entry table c) else none

channel_entry-described :
    (table : List Notification) (c : String) → channel_entry table c ≡ described table c
unfolding channel_entry described
channel_entry-described table c =
    rw
      (
        count_status-delivered c table,
        count_status-failed c table,
        average_latency_ms-measured c table,
        success_rate-percentage (delivered_of c table) (failed_of c table),
      )
      refl

entry_of_rows-entry :
    (table : List Notification) (c : String) → entry_of_rows table c ≡ entry table c
unfolding entry_of_rows entry is_default
entry_of_rows-entry table c =
    rw (has_row-in_channel c table, channel_entry-described table c) (ground arith)

lookup-from_stats :
    (c : String) (table : List Notification)
    → lookup c (from_stats (ok (map (stats_of table) (channels_of table)))) ≡ entry_of_rows table c
unfolding from_stats entry_of_rows
lookup-from_stats c table = ground (
  arith,
  lookup-assign_all c table (channels_of table) defaults,
  has_row-channels_of c table,
  lookup-defaults c,
  channel_snapshot-none c table,
  channel_snapshot-stats_of table c,
)

-- The rate times the number of both is a hundred times the number that was sent.
abbrev pub IsRateOf : ℕ → ℕ → Ratio → Type 0
IsRateOf sent lost r =
    (neg_part r.value * (sent + lost) ≡ 0)
    × (pos_part r.value * (sent + lost) ≡ sent * 100 * r.over)

-- The numbers of an entry.
abbrev pub IsPlausible : List Notification → ChannelSnapshot → Type 0
IsPlausible table s =
    IsWithin 100 s.success_rate
    × IsRateOf s.sent s.failed s.success_rate
    × (s.sent + s.failed ≤ length table)

success_rate-IsWithin : (sent lost : ℕ) → IsWithin 100 (success_rate sent lost)
unfolding success_rate
success_rate-IsWithin sent lost = ground arith

success_rate-IsRateOf : (sent lost : ℕ) → IsRateOf sent lost (success_rate sent lost)
unfolding success_rate
success_rate-IsRateOf sent lost = elim (Bool-cases (sent + lost == 0)) [
  | inl none_ended ↦ rw none_ended (ground arith)
  | inr some_ended ↦ rw some_ended (ground arith)
]

count_status_le :
    (c : String) (table : List Notification)
    → count_status c delivered table + count_status c failed table ≤ length table
unfolding count_status count_where is_status
count_status_le c [] = ground arith
count_status_le c (r ∷ table) = ground (arith, count_status_le c table)

channel_entry-IsPlausible :
    (table : List Notification) (c : String) → IsPlausible table (channel_entry table c)
unfolding channel_entry
channel_entry-IsPlausible table c = (
  success_rate-IsWithin (count_status c delivered table) (count_status c failed table),
  success_rate-IsRateOf (count_status c delivered table) (count_status c failed table),
  count_status_le c table,
)

guarded : (test : Bool) (x s : ChannelSnapshot) → (if test then some x else none) ≡ some s → x ≡ s
guarded test x s h = ground arith

entry-IsPlausible :
    (table : List Notification) (c : String) (s : ChannelSnapshot)
    → entry_of_rows table c ≡ some s
    → IsPlausible table s
unfolding entry_of_rows
entry-IsPlausible table c s h =
    subst (IsPlausible table)
      (guarded (is_default c || has_row (in_channel c) table) (channel_entry table c) s h)
      (channel_entry-IsPlausible table c)

default-IsPlausible :
    (table : List Notification) (c : String) (s : ChannelSnapshot)
    → lookup c defaults ≡ some s
    → IsPlausible table s
default-IsPlausible table c s h =
    subst (IsPlausible table)
      (guarded (is_default c) empty_snapshot s (sym (lookup-defaults c) ∙ h))
      ((ground arith, ground arith, ground arith), (ground arith, ground arith), ground arith)

module _ ⦃p : Platform⦄ where
  snapshot-healthy :
      (w : World)
      → p.fault w.step ≡ none
      → snapshot w
        ≡ (from_stats (ok (map (stats_of w.notifications) (channels_of w.notifications))), tick w)
  unfolding snapshot get_channel_metrics metrics_rows run query
  snapshot-healthy w h = ground arith

  snapshot-fault :
      (w : World) (reason : String) → p.fault w.step ≡ some reason → snapshot w ≡ (defaults, tick w)
  unfolding snapshot get_channel_metrics run query from_stats
  snapshot-fault w reason h = ground arith

  -- With a store that does not fail, the snapshot has an entry for sms, email, push and each channel
  -- of a stored notification, and for no other name; the entry has the numbers of the delivered and
  -- of the failed notifications of the channel, their rate, and the mean latency of the delivered.
  pub snapshot_lem :
      (healthy : IsHealthy p) (w : World) (c : String)
      → lookup c (snapshot w).0 ≡ entry w.notifications c
  snapshot_lem healthy w c =
      rw (snapshot-healthy w (healthy w.step))
        (lookup-from_stats c w.notifications ∙ entry_of_rows-entry w.notifications c)

  -- Whatever fails, the success rate of an entry of the snapshot is a number between 0 and 100, it is
  -- that of the delivered among the delivered and the failed that the entry counts, and these are no
  -- more than are stored.
  pub snapshot_bounds :
      (w : World) (c : String) (s : ChannelSnapshot)
      → lookup c (snapshot w).0 ≡ some s
      → IsPlausible w.notifications s
  snapshot_bounds w c s h = elim (option_cases (p.fault w.step)) [
    | inl e ↦ entry-IsPlausible w.notifications c s (
        sym (lookup-from_stats c w.notifications)
        ∙ subst (λ x. lookup c x.0 ≡ some s) (snapshot-healthy w e) h)
    | inr (reason, e) ↦
        default-IsPlausible w.notifications c s
          (subst (λ x. lookup c x.0 ≡ some s) (snapshot-fault w reason e) h)
  ]
