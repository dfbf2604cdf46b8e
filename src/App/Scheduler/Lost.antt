-- ===== src/App/Scheduler/Lost.antt =====
-- The loops of internal/app/scheduler.go when the broker refuses a message.
use event_driven_ns.Prelude.{ℕ, List, false, none, some, String, ◌≡◌, refl, ap, ◌∙◌, arith, ◌==◌}
use event_driven_ns.Domain.Error.{ok}
use event_driven_ns.Domain.Status.{pending}
use event_driven_ns.Domain.Notification.{Time, Notification}
use event_driven_ns.Platform.{Platform}
use event_driven_ns.World.{World, tick, time_now}
use event_driven_ns.App.Scheduler.Republished.{names}
use event_driven_ns.Postgres.Table.{find_row, has_row, update_where}
use event_driven_ns.Postgres.Table.Lookup.{find_row-update_where}
use event_driven_ns.Postgres.Driver.{to_error}
use event_driven_ns.Postgres.Driver.Outcome.{run-healthy}
use event_driven_ns.Postgres.Rows.{set_status, update_status_row, is_due, is_stuck}
use event_driven_ns.Postgres.Notifications.{update_status}
use event_driven_ns.Postgres.Healthy.{stored}
use event_driven_ns.Queue.Publisher.{enqueue, write_message}
use event_driven_ns.App.Scheduler.{mark_pending, requeue}

module _ ⦃p : Platform⦄ where
  updated :
      (n : Notification) (w : World)
      → p.fault w.step ≡ none
      → update_status n w ≡ (
        ok tt,
        record (tick w) {
          notifications = update_where (λ r. r.id == n.id) (set_status n) w.notifications;
        },
      )
  unfolding update_status update_status_row
  updated n w h = run-healthy to_error (update_status_row n) w h

  notifications-enqueue :
      (n : Notification) (w : World) → (enqueue n w).1.notifications ≡ w.notifications
  unfolding enqueue write_message
  notifications-enqueue n w = ground arith

  messages-enqueue :
      (n : Notification) (w : World) (reason : String)
      → p.fault w.step ≡ some reason
      → (enqueue n w).1.messages ≡ w.messages
  unfolding enqueue write_message
  messages-enqueue n w reason h = ground arith

  found_again :
      (n m : Notification) (rows : List Notification)
      → find_row (λ r. r.id == n.id) rows ≡ some m
      → find_row (λ r. r.id == n.id) (update_where (λ r. r.id == n.id) (set_status n) rows)
        ≡ some (set_status n m)
  unfolding set_status
  found_again n m rows h = ground (
    arith,
    find_row-update_where (λ (r : Notification). r.id) n.id n.id (set_status n) rows (λ r. refl),
  )

  -- No message that waits is of this notification.
  abbrev pub IsUnannounced : Notification → World → Type 0
  IsUnannounced n w = has_row (λ m. names (p.uuid_string n.id) m.value) w.messages ≡ false

  -- When no message of a stored notification waits, the scheduler's update of it succeeds, and the
  -- broker then refuses its message: it is left pending, still no message of it waits, and no query of
  -- the scheduler selects it at any later time.
  pub requeue-lost :
      (n m : Notification) (w : World) (reason : String)
      → stored w n.id ≡ some m
      → IsUnannounced n w
      → p.fault (tick w).step ≡ none
      → p.fault (tick (tick w)).step ≡ some reason
      → let v = (requeue n w).1 in
        (v.messages ≡ w.messages)
        × IsUnannounced n v
        × ((m' : Notification) × (stored v n.id ≡ some m')
            × (m'.status ≡ pending)
            × ((now : Time) → is_due now m' ≡ false)
            × ((now : Time) (older_than : ℕ) → is_stuck now older_than m' ≡ false))
  unfolding requeue time_now mark_pending stored is_due is_stuck set_status
  requeue-lost n m w reason found quiet h k =
      let n' = mark_pending (p.now w.step) n in
      rw (updated n' (tick w) h) (
        messages-enqueue n' _ reason k,
        ap (has_row (λ m. names (p.uuid_string n.id) m.value)) (messages-enqueue n' _ reason k)
            ∙ quiet,
        (
          set_status n' m,
          ap (find_row (λ r. r.id == n.id)) (notifications-enqueue n' _)
              ∙ found_again n' m w.notifications found,
          refl,
          λ now. refl,
          λ now older_than. refl,
        ),
      )
