-- ===== src/App/DeliveryService/Overtaken.antt =====
-- A cancellation that comes between the two statements of internal/app/delivery_service.go: after
-- ProcessDelivery has read the notification, and before it stores `processing`.
use mathlib.Core.Option
use mathlib.Core.Path.{subst}
use event_driven_ns.Prelude.{true, some, ◌≡◌, ◌≢◌, refl, ap, ◌∙◌, sym, arith, ==_iff}
use event_driven_ns.Domain.Error.{Result, ok, err}
use event_driven_ns.Domain.Status.{cancelled}
use event_driven_ns.Domain.Notification.{Uuid, Notification, cancellable, mark_processing}
use event_driven_ns.Platform.{Platform, WebhookResponse}
use event_driven_ns.World.{World, tick}
use event_driven_ns.Postgres.Rows.{set_status}
use event_driven_ns.Postgres.Table.Lookup.{key-find_row}
use event_driven_ns.Postgres.Healthy.{IsHealthy, stored}
use event_driven_ns.Postgres.Notifications.{update_status}
use event_driven_ns.Provider.{send}
use event_driven_ns.App.NotificationService.{cancel}
use event_driven_ns.App.NotificationService.Cancel.{cancel-outcome}
use event_driven_ns.Postgres.Cancel.{cancelled_at}
use event_driven_ns.App.DeliveryService.{deliver}
use event_driven_ns.App.DeliveryService.Outcome.{
  Summary, summary-resolved, expected, resolved, notifications-deliver, find_twice, answer_of,
}

expected-overrides :
    (n : Notification) (r : Result WebhookResponse) → (expected n r).status ≢ cancelled
unfolding expected
expected-overrides n (ok response) h = cc
expected-overrides n (err e) h = ground arith

module _ ⦃p : Platform⦄ (healthy : IsHealthy p) where
  -- The worker read `n`, and the row is another by now.
  status-deliver :
      (n r : Notification) (w : World)
      → stored w n.id ≡ some r
      → Option.map (λ m. m.status) (stored (deliver n w).1 n.id)
        ≡ some (expected n (send n (tick (tick w))).0).status
  unfolding stored set_status
  status-deliver n r w h =
      let n' = mark_processing (p.now w.step) n in
      let u = (update_status n' (tick w)).1 in
      let (a, v) = send n' u in
      rw
        (
          notifications-deliver healthy n w,
          find_twice n.id (set_status n') (set_status (resolved n' a v)) w.notifications (λ m. refl)
              (λ m. refl) h,
        )
        (ap some (
          ap (λ (x : Summary). x.status) (summary-resolved (p.now w.step) n n a v refl refl refl)
          ∙ ap (λ x. (expected n x).status) (answer_of healthy n w)))

  -- When the store does not fail: a Cancel that succeeds after ProcessDelivery has read the
  -- notification, and before it goes on, is overwritten: the row is cancelled after the Cancel, but its
  -- final status is that which the provider's answer calls for, and that is never `cancelled`.
  pub cancel-overtaken :
      (w : World) (id : Uuid) (n : Notification)
      → stored w id ≡ some n
      → cancellable n.status ≡ true
      → let v = (cancel id w).1 in
        ((cancel id w).0 ≡ ok tt)
        × (Option.map (λ m. m.status) (stored v id) ≡ some cancelled)
        × (Option.map (λ m. m.status) (stored (deliver n v).1 id)
            ≡ some (expected n (send n (tick (tick v))).0).status)
        × ((expected n (send n (tick (tick v))).0).status ≢ cancelled)
  unfolding stored
  cancel-overtaken w id n found e =
      let (result, row, batch, same) = cancel-outcome healthy w id n found in
      let v = (cancel id w).1 in
      let own : n.id ≡ id = key-find_row (λ r. r.id) id n w.notifications found in
      let late : stored v id ≡ some (cancelled_at (p.now (tick (tick w)).step) n) =
        row id ∙ rw (e, (==_iff id id).1 refl) refl in
      (
        result ∙ rw e refl,
        ap (Option.map (λ m. m.status)) late,
        subst
            (λ i.
              Option.map (λ m. m.status) (stored (deliver n v).1 i)
              ≡ some (expected n (send n (tick (tick v))).0).status)
            own
            (status-deliver n (cancelled_at (p.now (tick (tick w)).step) n) v (
              subst (λ i. stored v i ≡ some (cancelled_at (p.now (tick (tick w)).step) n)) (sym own)
                late)),
        expected-overrides n (send n (tick (tick v))).0,
      )
