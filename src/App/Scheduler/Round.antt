-- ===== src/App/Scheduler/Round.antt =====
-- One tick of internal/app/scheduler.go on a store and a broker that do not fail.
use mathlib.Core.Path.{subst}
use event_driven_ns.Prelude.{
  true, List, [], ◌∷◌, ◌≡◌, refl, sym, arith, ◌==◌, ==_iff, All, take, is_some,
}
use event_driven_ns.Domain.Error.{Result, ok}
use event_driven_ns.Domain.Notification.{Time, Notification}
use event_driven_ns.Platform.{Platform}
use event_driven_ns.World.{World, tick}
use event_driven_ns.Postgres.Table.{find_row, select_where, order_by}
use event_driven_ns.Postgres.Table.Every.{All-map, All-select_where, All-order_by, All-take}
use event_driven_ns.Postgres.Rows.{is_due, scheduled_before}
use event_driven_ns.Postgres.Healthy.{IsHealthy, stored}
use event_driven_ns.Postgres.Notifications
use event_driven_ns.Postgres.Notifications.{due_rows, stuck_rows}
use event_driven_ns.Postgres.Driver.{to_error}
use event_driven_ns.Postgres.Driver.Outcome.{run-healthy}
use event_driven_ns.App.Scheduler.{
  requeue_all, or_return, process_scheduled, recover_stuck, round, stuck_after,
}
use event_driven_ns.App.Scheduler.Republished.{
  IsRequeued, AreStored, requeue_all-keeps, requeue_all-ok, requeue_all-IsRequeued,
}

-- Each row of a table is found by its key.
is_some-find_row :
    (rows : List Notification) → All (λ r. is_some (find_row (λ s. s.id == r.id) rows) ≡ true) rows
unfolding find_row
is_some-find_row [] = tt
is_some-find_row (r ∷ rows) = (
  rw ((==_iff r.id r.id).1 refl) refl,
  All-map (λ s. is_some (find_row (λ t. t.id == s.id) rows) ≡ true)
      (λ s. is_some (find_row (λ t. t.id == s.id) (r ∷ rows)) ≡ true) rows
      (λ s h. ground (arith, h)) (is_some-find_row rows),
)

-- What ListDueScheduled selects: at most 100, the earliest first.
unfoldable pub due : Time → List Notification → List Notification
due now rows = take 100 (order_by scheduled_before (select_where (is_due now) rows))

module _ ⦃p : Platform⦄ (healthy : IsHealthy p) where
  due-AreStored : (w : World) → AreStored healthy (due (p.now w.step) w.notifications) (tick w)
  unfolding due stored
  due-AreStored w =
      let P : Notification → Type 0 =
        λ n. is_some (find_row (λ s. s.id == n.id) w.notifications) ≡ true in
      All-take P 100 _ (
        All-order_by P scheduled_before _ (
          All-select_where P (is_due (p.now w.step)) w.notifications
            (is_some-find_row w.notifications)))

  list_due_scheduled-due :
      (w : World)
      → Notifications.list_due_scheduled 100 w ≡ (ok (due (p.now w.step) w.notifications), tick w)
  unfolding Notifications.list_due_scheduled due_rows due
  list_due_scheduled-due w = run-healthy to_error (due_rows 100 (p.now w.step)) w (healthy w.step)

  process_scheduled-due :
      (w : World) → process_scheduled w ≡ requeue_all (due (p.now w.step) w.notifications) (tick w)
  unfolding process_scheduled or_return
  process_scheduled-due w = rw (list_due_scheduled-due w) refl

  list_stuck-ok :
      (w : World)
      → (ns : List Notification) × (Notifications.list_stuck_processing stuck_after 50 w
          ≡ (ok ns, tick w))
  unfolding Notifications.list_stuck_processing stuck_rows
  list_stuck-ok w =
      (_, run-healthy to_error (stuck_rows stuck_after 50 (p.now w.step)) w (healthy w.step))

  tick-IsRequeued : (n : Notification) (w : World) → IsRequeued n w → IsRequeued n (tick w)
  unfolding stored
  tick-IsRequeued n w i = record { row = i.row; message = i.message }

  recover_stuck-keeps :
      (n : Notification) (w : World) → IsRequeued n w → IsRequeued n (recover_stuck w).1
  unfolding recover_stuck or_return
  recover_stuck-keeps n w i =
      let (ns, e) = list_stuck-ok w in
      rw e (requeue_all-keeps healthy n ns (tick w) (tick-IsRequeued n w i))

  round-recover : (w : World) → round w ≡ recover_stuck (process_scheduled w).1
  unfolding round
  round-recover w =
      rw
        (
          process_scheduled-due w,
          requeue_all-ok healthy (due (p.now w.step) w.notifications) (tick w),
        )
        refl

  -- When neither the store nor the broker fails, one tick of the scheduler leaves each of the first 100
  -- notifications that are due pending, with a message on the topic of its priority.
  pub round-IsRequeued :
      (w : World) → All (λ n. IsRequeued n (round w).1) (due (p.now w.step) w.notifications)
  round-IsRequeued w =
      let ns = due (p.now w.step) w.notifications in
      rw (round-recover w) (
        All-map (λ n. IsRequeued n (process_scheduled w).1)
          (λ n. IsRequeued n (recover_stuck (process_scheduled w).1).1) ns
          (λ n i. recover_stuck-keeps n (process_scheduled w).1 i)
          (subst (λ (x : Result {0} Unit × World). All (λ n. IsRequeued n x.1) ns)
            (sym (process_scheduled-due w))
            (requeue_all-IsRequeued healthy ns (tick w) (due-AreStored w))))
