-- ===== src/App/NotificationService/Cancel.antt =====
-- `Cancel` of internal/app/notification_service.go on a store that does not fail.
use mathlib.Core.Option
use Prim.Native.String.{◌++◌ as append}
use event_driven_ns.Prelude.{
  true, false, ◌&&◌, Option, none, some, ◌≡◌, refl, ◌∙◌, arith, ◌==◌, if◌then◌else◌, Bool-cases,
  inl, inr,
}
use event_driven_ns.Prelude.Int.{pos, ◌+ℤ◌, ◌-ℤ◌}
use event_driven_ns.Domain.Error.{Error, ok, err, wrapped, invalid_status_transition}
use event_driven_ns.Domain.Status
use event_driven_ns.Domain.Status.{cancelled}
use event_driven_ns.Domain.Notification
use event_driven_ns.Domain.Notification.{Uuid, Notification, can_cancel, cancellable}
use event_driven_ns.Platform.{Platform}
use event_driven_ns.World.{World, NotificationBatch, tick, time_now}
use event_driven_ns.Postgres.Table.{find_row, update_where}
use event_driven_ns.Postgres.Table.Lookup.{find_row-update_where}
use event_driven_ns.Postgres.Rows.{has_id, count_in, count_down, cancellable_row}
use event_driven_ns.Postgres.Notifications
use event_driven_ns.Postgres.Healthy.{IsHealthy, stored, get_by_id-stored}
use event_driven_ns.Postgres.Cancel.{cancelled_at, cancel_lem, stored-cancelled}
use event_driven_ns.App.NotificationService.{cancel, count_cancelled}

-- The row of a batch.
unfoldable pub stored_batch : World → Uuid → Option NotificationBatch
unfolding find_row
stored_batch w id = find_row (λ r. r.id == id) w.batches

-- One pending notification of the batch becomes a cancelled one.
abbrev pub cancelled_one : NotificationBatch → NotificationBatch
cancelled_one b = record b {
  cancelled_count = b.cancelled_count +ℤ pos 1;
  pending_count = b.pending_count -ℤ pos 1;
}

unfoldable pub refusal : Notification → Error
refusal n =
    wrapped invalid_status_transition (append "current status is " (Status.to_string n.status))

-- Everything but the notifications, the batches and the clock is as it was.
pub record IsSameBeside (w v : World) : Type 0 where
  pub templates : v.templates ≡ w.templates
  pub keys : v.keys ≡ w.keys
  pub messages : v.messages ≡ w.messages
  pub updates : v.updates ≡ w.updates
  pub requests : v.requests ≡ w.requests
  pub calls : v.calls ≡ w.calls

module _ ⦃p : Platform⦄ (healthy : IsHealthy p) where
  count_cancelled-IsSameBeside :
      (o : Option Uuid) (w : World) → IsSameBeside w (count_cancelled o w).1
  unfolding count_cancelled Notifications.increment_batch_counter count_in
  count_cancelled-IsSameBeside none w = record {
    templates = refl;
    keys = refl;
    messages = refl;
    updates = refl;
    requests = refl;
    calls = refl;
  }
  count_cancelled-IsSameBeside (some id) w = record {
    templates = ground (arith, healthy w.step);
    keys = ground (arith, healthy w.step);
    messages = ground (arith, healthy w.step);
    updates = ground (arith, healthy w.step);
    requests = ground (arith, healthy w.step);
    calls = ground (arith, healthy w.step);
  }

  stored-count_cancelled :
      (o : Option Uuid) (w : World) (j : Uuid) → stored (count_cancelled o w).1 j ≡ stored w j
  unfolding count_cancelled stored Notifications.increment_batch_counter count_in
  stored-count_cancelled none w j = refl
  stored-count_cancelled (some id) w j = ground (arith, healthy w.step)

  ok-count_cancelled : (o : Option Uuid) (w : World) → (count_cancelled o w).0 ≡ ok tt
  unfolding count_cancelled
  ok-count_cancelled none w = refl
  ok-count_cancelled (some id) w = refl

  batch-count_cancelled :
      (o : Option Uuid) (w : World) (b : Uuid)
      → stored_batch (count_cancelled o w).1 b
        ≡ (if has_id o b then Option.map cancelled_one (stored_batch w b) else stored_batch w b)
  unfolding count_cancelled stored_batch Notifications.increment_batch_counter count_in count_down
  batch-count_cancelled none w b = refl
  batch-count_cancelled (some id) w b = ground (
    arith,
    healthy w.step,
    find_row-update_where (λ (r : NotificationBatch). r.id) b id cancelled_one w.batches
        (λ r. refl),
  )

  module _ (w : World) (id : Uuid) (n : Notification) (found : stored w id ≡ some n) where
    -- The world after the UPDATE.
    after_update : World
    after_update = record (tick (tick (tick w))) {
      notifications =
          update_where (cancellable_row id) (cancelled_at (p.now (tick (tick w)).step))
            w.notifications;
    }

    cancel-open :
        cancellable n.status ≡ true → cancel id w ≡ count_cancelled n.batch_id after_update
    unfolding cancel time_now Notification.cancel can_cancel after_update stored
    cancel-open h =
        rw (get_by_id-stored healthy w id found, h, cancel_lem healthy (tick (tick w)) id n found h)
          refl

    beside : (v : World) → IsSameBeside after_update v → IsSameBeside w v
    unfolding after_update
    beside v i = record {
      templates = i.templates;
      keys = i.keys;
      messages = i.messages;
      updates = i.updates;
      requests = i.requests;
      calls = i.calls;
    }

    unchanged : IsSameBeside w (tick (tick w))
    unchanged = record {
      templates = refl;
      keys = refl;
      messages = refl;
      updates = refl;
      requests = refl;
      calls = refl;
    }

    cancel-closed : cancellable n.status ≡ false → cancel id w ≡ (err (refusal n), tick (tick w))
    unfolding cancel time_now Notification.cancel can_cancel refusal
    cancel-closed h = rw (get_by_id-stored healthy w id found, h) refl

    stored-after_update :
        (j : Uuid)
        → cancellable n.status ≡ true
        → stored after_update j
          ≡ (if id == j then some (cancelled_at (p.now (tick (tick w)).step) n) else stored w j)
    unfolding after_update stored
    stored-after_update j h =
        stored-cancelled (tick (tick (tick w))) id j (p.now (tick (tick w)).step) n found h

    -- When the store does not fail and the notification is in it, `Cancel` succeeds exactly on one
    -- that is pending or scheduled, and then this one
    -- becomes cancelled and its batch counts it; otherwise the error names the status that it has.
    -- No other notification and no other batch changes, and none does when it fails; the templates,
    -- the keys, the messages, and what was sent to the provider and to clients stay as they were.
    pub cancel-outcome :
        ((cancel id w).0 ≡ (if cancellable n.status then ok tt else err (refusal n)))
        × ((j : Uuid)
            → stored (cancel id w).1 j ≡ (
                if cancellable n.status && (id == j)
                then some (cancelled_at (p.now (tick (tick w)).step) n)
                else stored w j))
        × ((b : Uuid)
            → stored_batch (cancel id w).1 b ≡ (
                if cancellable n.status && has_id n.batch_id b
                then Option.map cancelled_one (stored_batch w b)
                else stored_batch w b))
        × IsSameBeside w (cancel id w).1
    unfolding after_update stored stored_batch
    cancel-outcome = elim (Bool-cases (cancellable n.status)) [
      | inl h ↦
          rw (h, cancel-open h)
            (
              ok-count_cancelled n.batch_id after_update,
              λ j. stored-count_cancelled n.batch_id after_update j ∙ stored-after_update j h,
              λ b. batch-count_cancelled n.batch_id after_update b,
              beside (count_cancelled n.batch_id after_update).1
                  (count_cancelled-IsSameBeside n.batch_id after_update),
            )
      | inr h ↦ rw (h, cancel-closed h) (refl, λ j. refl, λ b. refl, unchanged)
    ]
