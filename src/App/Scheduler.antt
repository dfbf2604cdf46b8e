-- ===== src/App/Scheduler.antt =====
-- internal/app/scheduler.go. `Run` waits for its ticker and calls the two methods in turn.
pub mod Lost
pub mod Republished
pub mod Round
use event_driven_ns.Prelude.{ℕ, ◌*◌, List, [], ◌∷◌, none, some}
use event_driven_ns.Domain.Error.{Result, ok, err}
use event_driven_ns.Domain.Status.{pending}
use event_driven_ns.Domain.Notification.{Time, Notification}
use event_driven_ns.Platform.{Platform}
use event_driven_ns.World.{M, ◌>>=◌, ◌>>◌, pure, attempt, time_now}
use event_driven_ns.Postgres.Notifications
use event_driven_ns.Queue.Publisher.{enqueue}

-- Five minutes in nanoseconds.
abbrev pub stuck_after : ℕ
stuck_after = 5 * 60 * 1000000000

unfoldable pub mark_pending : Time → Notification → Notification
mark_pending now n = record n { status = pending; updated_at = now }

module _ ⦃p : Platform⦄ where
  -- The body of both loops: `continue` when the update failed.
  unfoldable pub requeue : Notification → M Unit
  requeue n = do
    now ← time_now
    let n' : Notification = mark_pending now n
    failure ← attempt (Notifications.update_status n')
    elim failure [ some e ↦ pure tt | none ↦ (do attempt (enqueue n'); pure tt) ]

  unfoldable pub requeue_all : List Notification → M Unit
  requeue_all [] = pure tt
  requeue_all (n ∷ ns) = do requeue n; requeue_all ns

  -- An error of the query is logged, and the round is over.
  unfoldable pub or_return : Result (List Notification) → M Unit
  or_return (ok ns) = requeue_all ns
  or_return (err e) = pure tt

  unfoldable pub process_scheduled : M Unit
  process_scheduled w = let (r, w') = Notifications.list_due_scheduled 100 w in or_return r w'

  unfoldable pub recover_stuck : M Unit
  recover_stuck w =
      let (r, w') = Notifications.list_stuck_processing stuck_after 50 w in or_return r w'

  -- One tick of `Run`.
  unfoldable pub round : M Unit
  round = do process_scheduled; recover_stuck
