-- ===== src/Http/Router/Codes.antt =====
-- The codes of the handlers behind internal/adapter/http/router.go.
use event_driven_ns.Prelude.{map, ℕ, List, [], ◌∷◌, Option, none, some, String, ◌≢◌, arith}
use event_driven_ns.Domain.Error.{Error, Result, ok, err}
use event_driven_ns.Domain.Notification.{Uuid}
use event_driven_ns.Platform.{Platform}
use event_driven_ns.World.{World, M}
use event_driven_ns.App.NotificationService
use event_driven_ns.App.TemplateService
use event_driven_ns.Http.Request.{to_input, to_filter, to_template_input}
use event_driven_ns.Http.Response.{
  new_notification_response, new_notification_list_response, new_batch_response,
  new_create_batch_response, new_template_response,
}
use event_driven_ns.Http.Handlers
use event_driven_ns.Http.Handlers.{
  Reply, json, failed, panicked, code, Bound, bound, malformed, Handled, handle_domain_error,
  respond, after, with_id, with_request, respond_list,
}
use event_driven_ns.Http.Monitoring.{
  liveness, readiness, check_broker, get_metrics, websocket, upgraded,
}
use event_driven_ns.Http.Router.{
  Request, Body, Shared, handle, with_body, on_world, live, ready, socket, openapi, swagger,
  create_notification, create_batch, list_notifications, get_notification, cancel_notification,
  get_batch, create_template, list_templates, get_template, metrics, health, notification,
  created_batch, template, page, templates, status, batch, snapshot, switched,
}

-- A code that only the limiter sends.
pub record IsServed {A : Type 0} (r : Reply A) : Type 0 where
  pub code_differs : code r ≢ 429

-- A handler that does not send it.
record IsUnlimited {A : Type 0} (h : Handled A) : Type 0 where
  served : (w : World) → IsServed (h w).0

module _ {B : Type 0} where
  handle_domain_error-IsServed : (e : Error) → IsServed {A = B} (handle_domain_error e)
  unfolding handle_domain_error
  handle_domain_error-IsServed e = record { code_differs = ground arith }

  module _ {A : Type 0} where
    respond-IsServed : (n : ℕ) (f : A → B) (r : Result A) → n ≢ 429 → IsServed (respond n f r)
    respond-IsServed n f (ok a) h = record { code_differs = h }
    respond-IsServed n f (err e) h = handle_domain_error-IsServed e

    respond_list-IsServed : (f : A → Option B) (r : Result A) → IsServed (respond_list f r)
    respond_list-IsServed f (ok a) = elim (f a) [
      | some b ↦ record { code_differs = ground arith }
      | none ↦ record { code_differs = ground arith }
    ]
    respond_list-IsServed f (err e) = record { code_differs = ground arith }

    after-respond-IsUnlimited :
        (n : ℕ) (f : A → B) (m : M A) → n ≢ 429 → IsUnlimited (after (respond n f) m)
    after-respond-IsUnlimited n f m h = record { served = λ w. respond-IsServed n f (m w).0 h }

    after-respond_list-IsUnlimited :
        (f : A → Option B) (m : M A) → IsUnlimited (after (respond_list f) m)
    after-respond_list-IsUnlimited f m = record { served = λ w. respond_list-IsServed f (m w).0 }

    with_request-IsUnlimited :
        (r : Bound A) (f : A → Handled B)
        → ((a : A) → IsUnlimited (f a))
        → IsUnlimited (with_request r f)
    with_request-IsUnlimited (bound a) f h = h a
    with_request-IsUnlimited (malformed text) f h = record {
      served = λ w. record { code_differs = ground arith };
    }

  with_id-IsUnlimited :
      (text : String) (parsed : Uuid × Option String) (f : Uuid → Handled B)
      → ((id : Uuid) → IsUnlimited (f id))
      → IsUnlimited (with_id text parsed f)
  with_id-IsUnlimited text (id, none) f h = h id
  with_id-IsUnlimited text (id, some reason) f h = record {
    served = λ w. record { code_differs = ground arith };
  }

module _ {A : Type 0} where
  with_body-IsServed : (f : A → Body) (r : Reply A) → IsServed r → IsServed (with_body f r)
  with_body-IsServed f (json n a) h = record { code_differs = h.code_differs }
  with_body-IsServed f (failed n text) h = record { code_differs = h.code_differs }
  with_body-IsServed f panicked h = record { code_differs = h.code_differs }

  on_world-IsServed :
      (f : A → Body) (h : Handled A) (s : Shared) → IsUnlimited h → IsServed (on_world f h s).0
  on_world-IsServed f h (w, hub) u = with_body-IsServed f (h w).0 (u.served w)

module _ ⦃p : Platform⦄ where
  readiness-IsUnlimited : (brokers : List String) → IsUnlimited (readiness brokers)
  unfolding readiness check_broker
  readiness-IsUnlimited [] = record { served = λ w. record { code_differs = ground arith } }
  readiness-IsUnlimited (b ∷ brokers) = record {
    served = λ w. record { code_differs = ground arith };
  }

  upgraded-IsServed : (r : Result {0} Unit) → IsServed (upgraded r)
  upgraded-IsServed (ok u) = record { code_differs = ground arith }
  upgraded-IsServed (err e) = record { code_differs = ground arith }

  pub handle-IsServed :
      (brokers : List String) (request : Request) (s : Shared)
      → IsServed (handle brokers request s).0
  unfolding handle Handlers.create Handlers.create_batch Handlers.list Handlers.get_by_id
      Handlers.cancel Handlers.get_batch Handlers.create_template Handlers.get_template
      Handlers.list_templates liveness get_metrics websocket
  handle-IsServed brokers live s =
      on_world-IsServed health liveness s
        (record { served = λ w. record { code_differs = ground arith } })
  handle-IsServed brokers ready s =
      on_world-IsServed health (readiness brokers) s (readiness-IsUnlimited brokers)
  handle-IsServed brokers socket s = with_body-IsServed switched _ (upgraded-IsServed _)
  handle-IsServed brokers openapi s = record { code_differs = ground arith }
  handle-IsServed brokers swagger s = record { code_differs = ground arith }
  handle-IsServed brokers (create_notification r) s =
      on_world-IsServed notification (Handlers.create r) s (
        with_request-IsUnlimited r
          (λ a.
            after (respond 201 (new_notification_response))
              (NotificationService.create (to_input a)))
          (λ a.
            after-respond-IsUnlimited 201 (new_notification_response)
              (NotificationService.create (to_input a)) (omega arith)))
  handle-IsServed brokers (create_batch rs) s =
      on_world-IsServed created_batch (Handlers.create_batch rs) s (
        with_request-IsUnlimited rs
          (λ a.
            after (respond 201 (λ (b, ns). new_create_batch_response b ns))
              (NotificationService.create_batch (map to_input a)))
          (λ a.
            after-respond-IsUnlimited 201 (λ (b, ns). new_create_batch_response b ns)
              (NotificationService.create_batch (map to_input a)) (omega arith)))
  handle-IsServed brokers (list_notifications r) s = on_world-IsServed page (Handlers.list r) s (
      with_request-IsUnlimited r
        (λ a.
          after (respond_list (λ ns. new_notification_list_response ns (to_filter a).page_size))
            (NotificationService.list (to_filter a)))
        (λ a.
          after-respond_list-IsUnlimited
            (λ ns. new_notification_list_response ns (to_filter a).page_size)
            (NotificationService.list (to_filter a))))
  handle-IsServed brokers (get_notification id) s =
      on_world-IsServed notification (Handlers.get_by_id id) s (
        with_id-IsUnlimited "invalid notification id" (p.uuid_parse id)
          (λ a. after (respond 200 (new_notification_response)) (NotificationService.get_by_id a))
          (λ a.
            after-respond-IsUnlimited 200 (new_notification_response)
              (NotificationService.get_by_id a) (omega arith)))
  handle-IsServed brokers (cancel_notification id) s =
      on_world-IsServed status (Handlers.cancel id) s (
        with_id-IsUnlimited "invalid notification id" (p.uuid_parse id)
          (λ a. after (respond 200 (λ u. "cancelled")) (NotificationService.cancel a))
          (λ a.
            after-respond-IsUnlimited 200 (λ u. "cancelled") (NotificationService.cancel a)
              (omega arith)))
  handle-IsServed brokers (get_batch id) s = on_world-IsServed batch (Handlers.get_batch id) s (
      with_id-IsUnlimited "invalid batch id" (p.uuid_parse id)
        (λ a. after (respond 200 (new_batch_response)) (NotificationService.get_batch a))
        (λ a.
          after-respond-IsUnlimited 200 (new_batch_response) (NotificationService.get_batch a)
            (omega arith)))
  handle-IsServed brokers (create_template r) s =
      on_world-IsServed template (Handlers.create_template r) s (
        with_request-IsUnlimited r
          (λ a.
            after (respond 201 (new_template_response))
              (TemplateService.create (to_template_input a)))
          (λ a.
            after-respond-IsUnlimited 201 (new_template_response)
              (TemplateService.create (to_template_input a)) (omega arith)))
  handle-IsServed brokers list_templates s = on_world-IsServed templates Handlers.list_templates s (
      after-respond_list-IsUnlimited (λ ts. some (map new_template_response ts))
        TemplateService.list)
  handle-IsServed brokers (get_template id) s =
      on_world-IsServed template (Handlers.get_template id) s (
        with_id-IsUnlimited "invalid template id" (p.uuid_parse id)
          (λ a. after (respond 200 (new_template_response)) (TemplateService.get_by_id a))
          (λ a.
            after-respond-IsUnlimited 200 (new_template_response) (TemplateService.get_by_id a)
              (omega arith)))
  handle-IsServed brokers metrics s =
      on_world-IsServed snapshot get_metrics s
        (record { served = λ w. record { code_differs = ground arith } })
