-- ===== src/App/Metrics/Described.antt =====
-- What a metrics snapshot should say of a channel, from the table of notifications alone: no function
-- of internal/app/metrics_collector.go and of its query is used here.
use event_driven_ns.Prelude.{
  ℕ, zero, ◌+◌, ◌*◌, Bool, false, ◌||◌, List, [], ◌∷◌, ◌++◌, Option, none, some, String, str_eq,
  length, if◌then◌else◌,
}
use event_driven_ns.Prelude.Int.{ℤ, pos, sub_ℕ, ◌+ℤ◌}
use event_driven_ns.Prelude.Ratio.{Ratio, zero_ratio}
use event_driven_ns.Domain.Channel
use event_driven_ns.Domain.Status.{Status, delivered, failed}
use event_driven_ns.Domain.Notification.{Time, Notification}
use event_driven_ns.App.Metrics.{ChannelSnapshot}

-- The row is of the channel with this name.
unfoldable pub is_of : String → Notification → Bool
unfolding Channel.to_string
is_of c r = str_eq (Channel.to_string r.channel) c

unfoldable pub occurs : String → List Notification → Bool
unfolding is_of
occurs c [] = false
occurs c (r ∷ table) = is_of c r || occurs c table

unfoldable pub one_if_delivered : Status → ℕ
one_if_delivered delivered = 1
one_if_delivered _ = 0

unfoldable pub one_if_failed : Status → ℕ
one_if_failed failed = 1
one_if_failed _ = 0

-- How many of the channel are delivered, and how many have failed.
unfoldable pub delivered_of : String → List Notification → ℕ
unfolding is_of one_if_delivered
delivered_of c [] = 0
delivered_of c (r ∷ table) =
    let rest = delivered_of c table in if is_of c r then one_if_delivered r.status + rest else rest

unfoldable pub failed_of : String → List Notification → ℕ
unfolding is_of one_if_failed
failed_of c [] = 0
failed_of c (r ∷ table) =
    let rest = failed_of c table in if is_of c r then one_if_failed r.status + rest else rest

-- The nanoseconds from the creation of a delivered notification to its sending, if that is dated.
unfoldable pub elapsed : Status → Option Time → Time → List ℤ
elapsed delivered (some sent_at) created_at = sub_ℕ sent_at created_at ∷ []
elapsed _ _ created_at = []

unfoldable pub delays_of : String → List Notification → List ℤ
unfolding is_of elapsed
delays_of c [] = []
delays_of c (r ∷ table) =
    let rest = delays_of c table in
    if is_of c r then elapsed r.status r.sent_at r.created_at ++ rest else rest

unfoldable pub sum : List ℤ → ℤ
sum [] = pos 0
sum (x ∷ xs) = x +ℤ sum xs

-- The mean of nanoseconds, in milliseconds; 0 of none.
unfoldable pub mean_ms : List ℤ → Ratio
unfolding sum
mean_ms [] = zero_ratio
mean_ms (x ∷ xs) = record { value = sum (x ∷ xs); over = length (x ∷ xs) * 1000000 }

-- How many in a hundred of the attempts that ended; 0 of none.
unfoldable pub percentage : ℕ → ℕ → Ratio
percentage zero zero = zero_ratio
percentage good bad = record { value = pos (good * 100); over = good + bad }

unfoldable pub described : List Notification → String → ChannelSnapshot
unfolding delivered_of failed_of mean_ms delays_of percentage
described table c = record {
  sent = delivered_of c table;
  failed = failed_of c table;
  avg_latency_ms = mean_ms (delays_of c table);
  success_rate = percentage (delivered_of c table) (failed_of c table);
}

-- The entry of a name: there is one for the three channels, and for each channel of a notification.
unfoldable pub entry : List Notification → String → Option ChannelSnapshot
unfolding occurs described
entry table c =
    if str_eq "sms" c || (str_eq "email" c || (str_eq "push" c || occurs c table))
    then some (described table c)
    else none
