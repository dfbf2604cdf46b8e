-- ===== src/Ws/Reach.antt =====
-- Whom a broadcast of internal/adapter/ws/hub.go reaches.
use event_driven_ns.Prelude.{
  ℕ, Bool, str_eq, ◌&&◌, ◌+◌, List, [], ◌∷◌, ◌++◌, none, ◌==◌, ◌≡◌, refl, ap, sym, suc, ◌∙◌, arith,
  map, if◌then◌else◌,
}
use mathlib.Core.List.{append-nil, append_assoc}
use event_driven_ns.World.{StatusUpdate}
use event_driven_ns.Postgres.Table.{count_where, has_row}
use event_driven_ns.Ws.Hub.{Conn, Job, Hub, is_member, broadcast, write}
use event_driven_ns.Ws.Conns.{IsUnique, is_member-cons}
use event_driven_ns.Ws.Clients.{HubReachable, HubReachable-IsUnique}

-- The goroutines of these jobs run, in this order, and each write succeeds.
unfoldable pub write_all : List Job → Hub → Hub
unfolding write
write_all [] h = h
write_all (job ∷ jobs) h = write_all jobs (write none job h)

-- The two updates have the same three texts.
unfoldable pub is_update : StatusUpdate → StatusUpdate → Bool
is_update u v =
    str_eq u.notification_id v.notification_id
    && (str_eq u.status v.status && str_eq u.timestamp v.timestamp)

-- How many of these writes carried an update to a connection.
unfoldable pub count_for : Conn → StatusUpdate → List Job → ℕ
unfolding count_where
count_for c v jobs = count_where (λ j. j.0 == c && is_update j.1 v) jobs

-- Every goroutine that waits runs.
unfoldable pub run_writes : Hub → Hub
unfolding write_all
run_writes h = write_all h.waiting (record h { waiting = [] })

-- The jobs that one broadcast adds.
unfoldable pub jobs_of : StatusUpdate → Hub → List Job
jobs_of u h = map (λ c. (c, u)) h.clients

sent-write_all : (jobs : List Job) (h : Hub) → (write_all jobs h).sent ≡ h.sent ++ jobs
unfolding write_all write
sent-write_all [] h = sym (append-nil h.sent)
sent-write_all (job ∷ jobs) h =
    sent-write_all jobs (write none job h) ∙ append_assoc h.sent (job ∷ []) jobs

count_for-append :
    (c : Conn) (v : StatusUpdate) (xs ys : List Job)
    → count_for c v (xs ++ ys) ≡ count_for c v xs + count_for c v ys
unfolding count_for count_where
count_for-append c v [] ys = ground arith
count_for-append c v (x ∷ xs) ys = ground (arith, count_for-append c v xs ys)

count_for-cons :
    (c : Conn) (v : StatusUpdate) (j : Job) (jobs : List Job)
    → count_for c v (j ∷ jobs)
      ≡ (if j.0 == c && is_update j.1 v then suc (count_for c v jobs) else count_for c v jobs)
unfolding count_for count_where
count_for-cons c v j jobs = refl

no_count :
    (c : Conn) (u v : StatusUpdate)
    → count_for c v [] ≡ (if is_member c [] && is_update u v then 1 else 0)
unfolding count_for count_where is_member has_row
no_count c u v = refl

count_for-map :
    (c : Conn) (u v : StatusUpdate) (clients : List Conn)
    → IsUnique clients
    → count_for c v (map (λ d. (d, u)) clients)
      ≡ (if is_member c clients && is_update u v then 1 else 0)
count_for-map c u v [] n = no_count c u v
count_for-map c u v (d ∷ clients) (n, ns) = ground (
  arith,
  is_member-cons c d clients,
  count_for-cons c v (d, u) (map (λ d. (d, u)) clients),
  count_for-map c u v clients ns,
)

sent-broadcast :
    (u : StatusUpdate) (h : Hub)
    → (run_writes (broadcast u h)).sent ≡ h.sent ++ (h.waiting ++ jobs_of u h)
unfolding run_writes broadcast jobs_of
sent-broadcast u h =
    sent-write_all (h.waiting ++ map (λ c. (c, u)) h.clients) (record h { waiting = [] })

-- After any steps of the hub: when a broadcast is made and each write that waits succeeds, a client is
-- sent its update once, on top of what it was sent and what waited for it, and no other update; any
-- other connection is sent nothing more.
pub broadcast_reaches :
    (h : Hub)
    → HubReachable h
    → (u : StatusUpdate) (c : Conn) (v : StatusUpdate)
    → count_for c v (run_writes (broadcast u h)).sent
      ≡ count_for c v h.sent
        + count_for c v h.waiting
        + (if is_member c h.clients && is_update u v then 1 else 0)
unfolding jobs_of
broadcast_reaches h r u c v =
    ap (count_for c v) (sent-broadcast u h)
    ∙ ground (
      arith,
      count_for-append c v h.sent (h.waiting ++ jobs_of u h),
      count_for-append c v h.waiting (jobs_of u h),
      count_for-map c u v h.clients (HubReachable-IsUnique h r),
    )
