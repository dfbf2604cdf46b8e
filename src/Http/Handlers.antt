-- ===== src/Http/Handlers.antt =====
-- internal/adapter/http/notification_handler.go and template_handler.go.
pub mod Codes
use event_driven_ns.Prelude.{
  ℕ, Bool, true, false, ◌||◌, List, Option, none, some, String, map, if◌then◌else◌,
}
use event_driven_ns.Domain.Error.{
  Error, Result, ok, err, message, errors_is, invalid_channel, invalid_recipient, empty_recipient,
  empty_content, content_too_long, invalid_priority, invalid_status_transition,
  notification_not_found, batch_not_found, batch_too_large, batch_empty, duplicate_idempotency_key,
  empty_template_name, empty_template_body, invalid_template_body, template_not_found,
  duplicate_template_name,
}
use event_driven_ns.Domain.Notification.{Uuid, Notification}
use event_driven_ns.Domain.Template.{Template}
use event_driven_ns.Platform.{Platform}
use event_driven_ns.World.{World, M, NotificationBatch}
use event_driven_ns.App.NotificationService
use event_driven_ns.App.TemplateService
use event_driven_ns.Http.Request.{
  CreateNotificationRequest, ListNotificationsRequest, CreateTemplateRequest, to_input, to_filter,
  to_template_input,
}
use event_driven_ns.Http.Response.{
  NotificationResponse, ListResponse, BatchResponse, CreateBatchResponse, TemplateResponse,
  new_notification_response, new_notification_list_response, new_batch_response,
  new_create_batch_response, new_template_response,
}

-- What the client gets: a status code with a body or with the text of an error; or the connection
-- is answered by gin's recovery, with 500 and no body, after a panic.
pub data Reply (A : Type 0) : Type 0 where
  json : ℕ → A → Reply A
  failed : ℕ → String → Reply A
  panicked : Reply A

abbrev pub code : {A : Type 0} → Reply A → ℕ
code (json n a) = n
code (failed n text) = n
code panicked = 500

-- What `ShouldBindJSON` and `ShouldBindQuery` give: the request, or the text of the error.
pub data Bound (A : Type 0) : Type 0 where
  bound : A → Bound A
  malformed : String → Bound A

unfoldable pub is_not_found : Error → Bool
is_not_found e =
    errors_is e notification_not_found
    || (errors_is e batch_not_found || errors_is e template_not_found)

unfoldable pub is_bad_request : Error → Bool
is_bad_request e =
    errors_is e invalid_channel
    || (errors_is e invalid_recipient
        || (errors_is e empty_recipient
            || (errors_is e empty_content
                || (errors_is e content_too_long
                    || (errors_is e invalid_priority
                        || (errors_is e batch_too_large
                            || (errors_is e batch_empty
                                || (errors_is e empty_template_name
                                    || (errors_is e empty_template_body
                                        || errors_is e invalid_template_body)))))))))

unfoldable pub is_duplicate : Error → Bool
is_duplicate e = errors_is e duplicate_idempotency_key || errors_is e duplicate_template_name

unfoldable pub handle_domain_error : {A : Type 0} → Error → Reply A
unfolding is_not_found is_bad_request is_duplicate message
handle_domain_error e =
    if is_not_found e
    then failed 404 (message e)
    else if is_bad_request e
    then failed 400 (message e)
    else if errors_is e invalid_status_transition
    then failed 409 (message e)
    else if is_duplicate e
    then failed 409 (message e)
    else failed 500 "internal server error"

-- `c.JSON` of a result, with this code if there is no error.
abbrev pub respond : {A B : Type 0} → ℕ → (A → B) → Result A → Reply B
respond n f (ok a) = json n (f a)
respond n f (err e) = handle_domain_error e

-- The action of a handler never fails: it has a reply in the end.
abbrev pub Handled : Type 0 → Type 0
Handled A = World → Reply A × World

abbrev pub after : {A B : Type 0} → (Result A → Reply B) → M A → Handled B
after f m w = let (r, w') = m w in (f r, w')

-- `uuid.Parse(c.Param("id"))`.
abbrev pub with_id : {A : Type 0} → String → Uuid × Option String → (Uuid → Handled A) → Handled A
with_id text (id, none) f w = f id w
with_id text (id, some reason) f w = (failed 400 text, w)

abbrev pub with_request : {A B : Type 0} → Bound A → (A → Handled B) → Handled B
with_request (bound r) f w = f r w
with_request (malformed text) f w = (failed 400 text, w)

-- Errors of the two lists are not told apart.
abbrev pub respond_list : {A B : Type 0} → (A → Option B) → Result A → Reply B
respond_list f (err e) = failed 500 "internal server error"
respond_list f (ok a) = elim (f a) [ some b ↦ json 200 b | none ↦ panicked ]

module _ ⦃p : Platform⦄ where
  unfoldable pub create : Bound CreateNotificationRequest → Handled NotificationResponse
  create request =
      with_request request (λ r.
        after (respond 201 new_notification_response) (NotificationService.create (to_input r)))

  unfoldable pub create_batch : Bound (List CreateNotificationRequest) → Handled CreateBatchResponse
  create_batch request = with_request request (λ rs.
      after (respond 201 (λ (b, ns). new_create_batch_response b ns))
        (NotificationService.create_batch (map to_input rs)))

  unfoldable pub get_by_id : String → Handled NotificationResponse
  get_by_id param =
      with_id "invalid notification id" (p.uuid_parse param)
        (λ id. after (respond 200 new_notification_response) (NotificationService.get_by_id id))

  unfoldable pub list : Bound ListNotificationsRequest → Handled ListResponse
  list request = with_request request (λ r.
      let filter = to_filter r in
      after (respond_list (λ ns. new_notification_list_response ns filter.page_size))
        (NotificationService.list filter))

  -- The body of the answer is `{"status": "cancelled"}`.
  unfoldable pub cancel : String → Handled String
  cancel param =
      with_id "invalid notification id" (p.uuid_parse param)
        (λ id. after (respond 200 (λ u. "cancelled")) (NotificationService.cancel id))

  unfoldable pub get_batch : String → Handled BatchResponse
  get_batch param =
      with_id "invalid batch id" (p.uuid_parse param)
        (λ id. after (respond 200 new_batch_response) (NotificationService.get_batch id))

  unfoldable pub create_template : Bound CreateTemplateRequest → Handled TemplateResponse
  create_template request = with_request request (λ r.
      after (respond 201 new_template_response) (TemplateService.create (to_template_input r)))

  unfoldable pub get_template : String → Handled TemplateResponse
  get_template param =
      with_id "invalid template id" (p.uuid_parse param)
        (λ id. after (respond 200 new_template_response) (TemplateService.get_by_id id))

  unfoldable pub list_templates : Handled (List TemplateResponse)
  list_templates =
      after (respond_list (λ ts. some (map new_template_response ts))) TemplateService.list
