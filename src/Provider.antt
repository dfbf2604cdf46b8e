-- ===== src/Provider.antt =====
-- internal/adapter/provider/webhook.go: the HTTP client of the provider behind a circuit breaker
-- for each channel (pkg/circuitbreaker/breaker.go).
use Prim.Native.String.{◌++◌ as append}
use event_driven_ns.Prelude.{
  ℕ, Bool, true, false, ◌||◌, [], ◌∷◌, ◌++◌, Option, none, some, String, ◌==◌, leb, if◌then◌else◌,
}
use event_driven_ns.Prelude.Decimal.{itoa}
use event_driven_ns.Domain.Error.{Error, wrapped, foreign, Result, ok, err, provider_unavailable}
use event_driven_ns.Domain.Channel
use event_driven_ns.CircuitBreaker.{Settings, calls_of}
use event_driven_ns.CircuitBreaker
use event_driven_ns.Domain.Notification.{Notification}
use event_driven_ns.Platform.{Platform, WebhookRequest, WebhookResponse, HttpResponse}
use event_driven_ns.World.{World, M, tick}

unfoldable pub is_transient_error : ℕ → Bool
is_transient_error status_code =
    status_code == 429
    || (status_code == 500 || (status_code == 502 || (status_code == 503 || status_code == 504)))

unfoldable pub webhook_request : Notification → WebhookRequest
unfolding Channel.to_string
webhook_request n = record {
  to = n.recipient;
  channel = Channel.to_string n.channel;
  content = n.content;
}

permanent_error : ℕ → String → Error
unfolding itoa
permanent_error status_code body = foreign (
    append "permanent provider error: status " (append (itoa status_code) (append ", body: " body)))

transient_error : ℕ → Error
unfolding itoa
transient_error status_code = wrapped provider_unavailable (append "status " (itoa status_code))

-- An answer that does not decode is taken for an acceptance.
abbrev decoded : Option WebhookResponse → WebhookResponse → WebhookResponse
decoded (some r) accepted = r
decoded none accepted = accepted

abbrev pub is_ok : {A : Type 0} → Result A → Bool
is_ok (ok a) = true
is_ok (err e) = false

-- The breaker of the notification's channel.
unfoldable pub breaker : Notification → Settings
unfolding Channel.to_string
breaker n = CircuitBreaker.new (Channel.to_string n.channel)

module _ ⦃p : Platform⦄ where
  -- The answer in hand: `doSend` from the reading of the body on.
  interpret : ℕ → HttpResponse → Result WebhookResponse
  unfolding is_transient_error permanent_error transient_error
  interpret step r = elim r.body_error [
    | some reason ↦ err (foreign reason)
    | none ↦
        if is_transient_error r.status_code
        then err (transient_error r.status_code)
        else if leb 400 r.status_code
        then err (permanent_error r.status_code r.body)
        else ok (
            decoded (p.json_response r.body) (record {
              message_id = p.uuid_string (p.fresh step);
              status = "accepted";
              timestamp = p.rfc3339 (p.now step);
            }))
  ]

  -- `httpClient.Do` and what follows it.
  exchange : WebhookRequest → M WebhookResponse
  unfolding interpret
  exchange request w =
      let w' = record w { step = (tick w).step; requests = w.requests ++ request ∷ [] } in
      elim (p.http_error w.step request) [
        | some reason ↦ (err (wrapped provider_unavailable reason), w')
        | none ↦ (interpret w.step (p.http_answer w.step request), w')
      ]

  unfoldable pub do_send : Notification → M WebhookResponse
  unfolding exchange webhook_request
  do_send n w = elim p.address_error [
    | some reason ↦ (err (foreign reason), w)
    | none ↦ exchange (webhook_request n) w
  ]

  -- The breaker's verdict on a call that is made now.
  unfoldable pub verdict : Settings → World → Option String
  verdict s w = p.breaker_refuses s (calls_of s.name w.calls) (p.now w.step)

  -- `Execute`: a refusal is an error of the breaker's package, and `m` is not called.
  unfoldable pub execute : {A : Type 0} → Settings → M A → M A
  execute s m w = elim (verdict s w) [
    | some reason ↦ (err (foreign reason), tick w)
    | none ↦
        let (r, v) = m (tick w) in
        (
          r,
          record v {
            calls =
                v.calls
                ++ record {
                  name = s.name;
                  began = p.now w.step;
                  ended = p.now v.step;
                  succeeded = is_ok r;
                }
                  ∷ [];
          },
        )
  ]

  -- The map of breakers has one for each channel, made when it is first asked for where the
  -- constructor has not made it: its name is the channel's.
  unfoldable pub send : Notification → M WebhookResponse
  unfolding do_send execute
  send n = execute (breaker n) (do_send n)
