-- ===== src/App/Metrics/Agreement.antt =====
-- The query of the metrics and the formulas of internal/app/metrics_collector.go agree with the
-- description.
use event_driven_ns.Prelude.{ℕ, zero, suc, ◌≡◌, refl, List, [], ◌∷◌, String, arith, length}
use event_driven_ns.Prelude.Int.{ℤ}
use event_driven_ns.Domain.Status.{delivered, failed, is_status}
use event_driven_ns.Domain.Notification.{Notification}
use event_driven_ns.Postgres.Table.{has_row, select_where, count_where}
use event_driven_ns.Postgres.Metrics.{
  in_channel, count_status, is_measured, average_latency_ms, total_latency,
}
use event_driven_ns.App.Metrics.{success_rate}
use event_driven_ns.App.Metrics.Described.{
  is_of, occurs, one_if_delivered, one_if_failed, delivered_of, failed_of, elapsed, delays_of, sum,
  mean_ms, percentage,
}

pub has_row-in_channel :
    (c : String) (table : List Notification) → has_row (in_channel c) table ≡ occurs c table
unfolding has_row in_channel occurs is_of
has_row-in_channel c [] = refl
has_row-in_channel c (r ∷ table) = ground (arith, has_row-in_channel c table)

pub count_status-delivered :
    (c : String) (table : List Notification) → count_status c delivered table ≡ delivered_of c table
unfolding count_status count_where in_channel delivered_of is_of one_if_delivered is_status
count_status-delivered c [] = refl
count_status-delivered c (r ∷ table) = ground (arith, count_status-delivered c table)

pub count_status-failed :
    (c : String) (table : List Notification) → count_status c failed table ≡ failed_of c table
unfolding count_status count_where in_channel failed_of is_of one_if_failed is_status
count_status-failed c [] = refl
count_status-failed c (r ∷ table) = ground (arith, count_status-failed c table)

length-measured :
    (c : String) (table : List Notification)
    → length (select_where (is_measured c) table) ≡ length (delays_of c table)
unfolding select_where is_measured in_channel delays_of is_of elapsed is_status
length-measured c [] = refl
length-measured c (r ∷ table) = ground (arith, length-measured c table)

total_latency-measured :
    (c : String) (table : List Notification)
    → total_latency (select_where (is_measured c) table) ≡ sum (delays_of c table)
unfolding select_where is_measured in_channel delays_of is_of elapsed is_status sum total_latency
total_latency-measured c [] = refl
total_latency-measured c (r ∷ table) = ground (arith, total_latency-measured c table)

pub success_rate-percentage : (good bad : ℕ) → success_rate good bad ≡ percentage good bad
unfolding success_rate percentage
success_rate-percentage zero zero = refl
success_rate-percentage zero (suc bad) = ground arith
success_rate-percentage (suc good) bad = ground arith

mean_of :
    (rows : List Notification) (delays : List ℤ)
    → length rows ≡ length delays
    → total_latency rows ≡ sum delays
    → average_latency_ms rows ≡ mean_ms delays
unfolding average_latency_ms mean_ms sum
mean_of [] [] e f = refl
mean_of [] (x ∷ xs) e f = cc
mean_of (r ∷ rows) [] e f = cc
mean_of (r ∷ rows) (x ∷ xs) e f = rw (e, f) (ground arith)

pub average_latency_ms-measured :
    (c : String) (table : List Notification)
    → average_latency_ms (select_where (is_measured c) table) ≡ mean_ms (delays_of c table)
average_latency_ms-measured c table =
    mean_of (select_where (is_measured c) table) (delays_of c table) (length-measured c table)
      (total_latency-measured c table)
