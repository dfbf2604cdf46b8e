-- ===== src/Tests/Http.antt =====
-- Requests over HTTP.
use event_driven_ns.Prelude.{[], List, none, ◌≡◌, refl}
use event_driven_ns.Prelude.Int.{pos}
use event_driven_ns.Domain.Error.{ok}
use event_driven_ns.Domain.Notification.{Notification}
use event_driven_ns.World.{World, tick}
use event_driven_ns.Postgres.Healthy.{stored}
use event_driven_ns.Postgres.Notifications.{NotificationFilter, list, effective_page_size}
use event_driven_ns.Postgres.Table.{order_by, select_where}
use event_driven_ns.Postgres.Page.{IsPage, page, list_lem}
use event_driven_ns.Http.Request.{ListNotificationsRequest, to_filter}
use event_driven_ns.Http.Handlers
use event_driven_ns.Http.Handlers.{code, bound, panicked}
use event_driven_ns.Http.Handlers.Codes.{cancel_code, code-cancel, list-panics}
use event_driven_ns.Tests.Fixtures.{platform, platform-IsHealthy, queued}

abbrev everything : ListNotificationsRequest
everything = record {
  status = none;
  channel = none;
  date_from = none;
  date_to = none;
  cursor = none;
  page_size = pos 0;
}

abbrev all_rows : NotificationFilter
all_rows = record {
  status = none;
  channel = none;
  date_from = none;
  date_to = none;
  batch_id = none;
  cursor = none;
  page_size = pos 0;
}

abbrev nothing_stored : World
nothing_stored = record queued { notifications = [] }

code-cancel_example :
    code (Handlers.cancel ⦃p = platform 200 none⦄ "|||" queued).0 ≡ cancel_code (stored queued 3)
code-cancel_example =
    code-cancel ⦃p = platform 200 none⦄ (platform-IsHealthy 200 none) queued "|||" 3 refl

list_lem_example :
    (ns : List Notification) × (list ⦃p = platform 200 none⦄ all_rows queued ≡ (ok ns, tick queued))
    × IsPage all_rows queued.notifications ns
list_lem_example = list_lem ⦃p = platform 200 none⦄ (platform-IsHealthy 200 none) all_rows queued

list-panics_example :
    (Handlers.list ⦃p = platform 200 none⦄ (bound everything) nothing_stored).0 ≡ panicked
unfolding page effective_page_size to_filter order_by select_where
list-panics_example =
    list-panics ⦃p = platform 200 none⦄ (platform-IsHealthy 200 none) everything nothing_stored refl
      refl
