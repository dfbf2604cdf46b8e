-- ===== src/Http/Handlers/Codes.antt =====
-- The codes that clients get, on a store that does not fail.
use event_driven_ns.Prelude.{
  [], ℕ, Bool, true, false, none, some, Option, String, ◌≡◌, refl, ap, arith, inl, inr,
  option_cases, if◌then◌else◌,
}
use event_driven_ns.Domain.Error.{Result, ok, err, plain, notification_not_found}
use event_driven_ns.Domain.Notification.{Uuid, Notification, cancellable}
use event_driven_ns.Platform.{Platform}
use event_driven_ns.World.{World, tick}
use event_driven_ns.Postgres.Notifications
use event_driven_ns.Postgres.Healthy.{IsHealthy, stored}
use event_driven_ns.App.NotificationService
use event_driven_ns.App.NotificationService.Cancel.{cancel-outcome, refusal}
use event_driven_ns.Prelude.Int.{pos}
use event_driven_ns.Postgres.Page.{page, list-page}
use event_driven_ns.Http.Request.{ListNotificationsRequest, to_filter}
use event_driven_ns.Http.Response.Pages.{new_notification_list_response-panics}
use event_driven_ns.Http.Handlers.{
  list, json, bound, panicked, code, respond, handle_domain_error, cancel,
}

-- 404 if the notification is unknown, 200 if it could be cancelled, 409 if it is too late.
unfoldable pub cancel_code : Option Notification → ℕ
cancel_code none = 404
cancel_code (some n) = if cancellable n.status then 200 else 409

module _ ⦃p : Platform⦄ (healthy : IsHealthy p) (w : World) (param : String) (id : Uuid)
    (parses : p.uuid_parse param ≡ (id, none)) where
  missing :
      stored w id ≡ none
      → NotificationService.cancel id w ≡ (err (plain notification_not_found), tick w)
  unfolding NotificationService.cancel Notifications.get_by_id stored
  missing h = ground (arith, healthy w.step)

  code_of :
      (b : Bool) (n : Notification) (r : Result Unit)
      → r ≡ (if b then ok tt else err (refusal n))
      → code (respond {B = String} 200 (λ u. "cancelled") r) ≡ (if b then 200 else 409)
  unfolding refusal handle_domain_error
  code_of true n r e = ap (λ x. code (respond {B = String} 200 (λ u. "cancelled") x)) e
  code_of false n r e = ap (λ x. code (respond {B = String} 200 (λ u. "cancelled") x)) e

  -- When the store does not fail and the parameter is a UUID, a cancellation over HTTP answers 404
  -- for an unknown notification, 200 for one that is pending or scheduled, and 409 for any other.
  pub code-cancel : code (cancel param w).0 ≡ cancel_code (stored w id)
  unfolding cancel cancel_code
  code-cancel = elim (option_cases (stored w id)) [
    | inl h ↦ rw (parses, h, missing h) (unfold handle_domain_error in refl)
    | inr (n, h) ↦
        rw (parses, h) (code_of (cancellable n.status) n _ (cancel-outcome healthy w id n h).0)
  ]

-- When the store does not fail, a query that names no page size, and that finds nothing, is answered
-- by a panic.
pub list-panics :
    ⦃p : Platform⦄ (healthy : IsHealthy p) (r : ListNotificationsRequest) (w : World)
    → r.page_size ≡ pos 0
    → page (to_filter r) w.notifications ≡ []
    → (list (bound r) w).0 ≡ panicked
unfolding list NotificationService.list to_filter
list-panics healthy r w size none_found = rw (list-page healthy (to_filter r) w) (
    ap (λ o. elim o [ some b ↦ json 200 b | none ↦ panicked ])
      ((new_notification_list_response-panics _ _).1 (none_found, size)))
