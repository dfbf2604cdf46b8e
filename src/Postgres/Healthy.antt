-- ===== src/Postgres/Healthy.antt =====
-- The repositories when no statement fails, as a client of the store sees them.
use event_driven_ns.Prelude.{
  arith, ◌==◌, if◌then◌else◌, ℕ, ◌≡◌, refl, Option, none, some, ◌==◌, if◌then◌else◌,
}
use mathlib.Core.Option
use event_driven_ns.Domain.Error.{ok}
use event_driven_ns.Domain.Notification.{Uuid, Notification}
use event_driven_ns.Platform.{Platform}
use event_driven_ns.World.{World, tick}
use event_driven_ns.Postgres.Table.{find_row, update_where}
use event_driven_ns.Postgres.Table.Lookup.{find_row-update_where}
use event_driven_ns.Postgres.Rows.{set_status}
use event_driven_ns.Postgres.Notifications.{get_by_id, update_status}

-- No statement and no publication fails.
abbrev pub IsHealthy : Platform → Type 0
IsHealthy p = (k : ℕ) → p.fault k ≡ none

-- The row of a notification.
unfoldable pub stored : World → Uuid → Option Notification
unfolding find_row
stored w id = find_row (λ r. r.id == id) w.notifications

module _ ⦃p : Platform⦄ (healthy : IsHealthy p) where
  pub get_by_id-stored :
      (w : World) (id : Uuid) {n : Notification}
      → stored w id ≡ some n
      → get_by_id id w ≡ (ok n, tick w)
  unfolding stored get_by_id
  get_by_id-stored w id h = ground (arith, healthy w.step)

  pub update_status-ok : (w : World) (n : Notification) → (update_status n w).0 ≡ ok tt
  unfolding update_status
  update_status-ok w n = ground (arith, healthy w.step)

  pub stored-update_status :
      (w : World) (n : Notification) (id : Uuid)
      → stored (update_status n w).1 id
        ≡ (if n.id == id then Option.map (set_status n) (stored w id) else stored w id)
  unfolding stored update_status
  stored-update_status w n id = ground (
    arith,
    healthy w.step,
    find_row-update_where (λ (r : Notification). r.id) id n.id (set_status n) w.notifications
        (λ r. refl),
  )

  pub update_status_lem :
      (w : World) (n : Notification)
      → update_status n w ≡ (
        ok tt,
        record (tick w) {
          notifications = update_where (λ r. r.id == n.id) (set_status n) w.notifications;
        },
      )
  unfolding update_status
  update_status_lem w n = ground (arith, healthy w.step)
