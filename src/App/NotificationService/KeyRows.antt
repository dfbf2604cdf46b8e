-- ===== src/App/NotificationService/KeyRows.antt =====
-- What the steps of `Create` in internal/app/notification_service.go do to the row of a key.
use event_driven_ns.Prelude.{
  ℕ, ◌≤◌, ◌+◌, true, false, List, [], ◌∷◌, Option, none, some, String, str_eq, ◌≡◌, ap, ◌∙◌, arith,
  ◌==◌, ltb,
}
use event_driven_ns.Domain.Notification.{Uuid, Time, Notification}
use event_driven_ns.Platform.{Platform}
use event_driven_ns.World.{World, M, pure}
use event_driven_ns.World.Hoare.{on_errors, Hoare, Steady, Steady-intro}
use event_driven_ns.Postgres.Table.{find_row, has_row}
use event_driven_ns.Postgres.Rows.{inserted}
use event_driven_ns.Postgres.Healthy.{stored}
use event_driven_ns.Postgres.Idempotency.{idempotency_ttl, is_live}
use event_driven_ns.Postgres.Notifications
use event_driven_ns.Postgres.Atomic.{Anything}
use event_driven_ns.Queue.Publisher.{enqueue, enqueue_scheduled, write_message}
use event_driven_ns.App.NotificationService.{CreateNotificationInput, content_of, build, publish}
use event_driven_ns.App.NotificationService.Steady.{content_of-Steady, build-Steady, create-Stored}
use event_driven_ns.App.NotificationService.Repeat.{live_row, added_row}

-- No row has the key.
abbrev pub IsFresh : String → World → Type 0
IsFresh key w = has_row (λ r. str_eq r.key key) w.keys ≡ false

-- The notification is stored, and its key is live for 24 hours from what the clock gave at a call
-- since the given one.
abbrev pub IsRemembered : ⦃p : Platform⦄ → String → ℕ → Notification → World → Type 0
IsRemembered ⦃p⦄ key start n w =
    (stored w n.id ≡ some (inserted n))
    × ((u : World) × ((start ≤ u.step)
          × ((u.step ≤ w.step)
              × ((now : Time)
                  → ltb now (p.now u.step + idempotency_ttl) ≡ true
                  → live_row w now key ≡ some (added_row u key n.id)))))

-- Errors are not looked at.
pub weak : {I : World → Type 0} {A : Type 0} {m : M A} → Steady I m → Hoare I m (λ _. I) Anything
weak t = on_errors Anything (λ w h. tt) t

pub has_row-found :
    (id : Uuid) (rs : List Notification) (n : Notification)
    → find_row (λ r. r.id == id) rs ≡ some n
    → has_row (λ r. r.id == id) rs ≡ true
unfolding find_row has_row
has_row-found id [] n h = absurd (cc)
has_row-found id (r ∷ rs) n h = ground (arith, has_row-found id rs n)

module _ ⦃p : Platform⦄ (key : String) where
  abbrev pub Fresh : World → Type 0
  Fresh w = IsFresh key w

  keep : (w v : World) → v.keys ≡ w.keys → v.messages ≡ w.messages → Fresh w → Fresh v
  keep w v e f h = ap (has_row (λ r. str_eq r.key key)) e ∙ h

  pub prepared-Steady : (input : CreateNotificationInput) → Steady Fresh (content_of input)
  prepared-Steady input = content_of-Steady Fresh keep input

  pub built-Steady :
      (input : CreateNotificationInput) (content : String) → Steady Fresh (build input none content)
  built-Steady input content = build-Steady Fresh keep input content

  abbrev pub Stored : Notification → World → Type 0
  Stored n w = IsFresh key w × (stored w n.id ≡ some (inserted n))

  pub create-Hoare :
      (n : Notification) → Hoare Fresh (Notifications.create n) (λ _. Stored n) Anything
  create-Hoare n = create-Stored Fresh keep n

  module _ (start : ℕ) where
    same_tables :
        (n : Notification) (w v : World)
        → v.notifications ≡ w.notifications
        → v.keys ≡ w.keys
        → w.step ≤ v.step
        → IsRemembered key start n w
        → IsRemembered key start n v
    unfolding stored live_row
    same_tables n w v e f later (h, (u, (a, (b, k)))) = (
      ap (find_row (λ r. r.id == n.id)) e ∙ h,
      (u, (a, (omega arith, λ now soon. ap (find_row (is_live now key)) f ∙ k now soon))),
    )

    enqueue-Steady : (n m : Notification) → Steady (IsRemembered key start n) (enqueue m)
    unfolding enqueue write_message
    enqueue-Steady n m =
        Steady-intro (enqueue m)
          (λ w h. same_tables n w (enqueue m w).1 (ground arith) (ground arith) (ground arith) h)

    publish_at :
        (n : Notification) (o : Option Time)
        → Steady
            (IsRemembered key start n)
            (elim o [ some t ↦ enqueue_scheduled n | none ↦ enqueue n ])
    unfolding enqueue_scheduled
    publish_at n (some t) = Steady-intro (pure tt) (λ w i. i)
    publish_at n none = enqueue-Steady n n

    pub publish-Steady : (n : Notification) → Steady (IsRemembered key start n) (publish n)
    unfolding publish
    publish-Steady n = publish_at n n.scheduled_at
