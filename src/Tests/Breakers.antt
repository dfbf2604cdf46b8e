-- ===== src/Tests/Breakers.antt =====
-- The circuit breakers under deliveries: a breaker that five failures in a row have opened.
use mathlib.Core.Option
use event_driven_ns.Prelude.{ℕ, Bool, true, false, [], ◌∷◌, String, some, ◌≡◌, ◌≢◌, refl}
use event_driven_ns.Domain.Channel
use event_driven_ns.Domain.Error.{ok}
use event_driven_ns.Domain.Status.{failed}
use event_driven_ns.CircuitBreaker.{Call, calls_of}
use event_driven_ns.CircuitBreaker
use event_driven_ns.World.{World}
use event_driven_ns.Postgres.Healthy.{IsHealthy, stored}
use event_driven_ns.Provider.{verdict, breaker}
use event_driven_ns.App.DeliveryService.{process_delivery, is_settled}
use event_driven_ns.App.DeliveryService.Process.{breaker_refusal_is_final}
use event_driven_ns.App.DeliveryService.Isolated.{IsOneCall, process_delivery-breakers}
use event_driven_ns.Tests.Fixtures.{overloaded, waiting, queued}

abbrev call_of : String → Bool → ℕ → Call
call_of name succeeded t = record { name = name; began = t; ended = t; succeeded = succeeded }

-- Five failures on push, with a success on sms and one on push before them.
abbrev outage : World
outage = record queued {
  step = 8;
  calls =
      call_of "push" true 0
      ∷ call_of "push" false 1
      ∷ call_of "push" false 2
      ∷ call_of "sms" true 3
      ∷ call_of "push" false 4
      ∷ call_of "push" false 5
      ∷ call_of "push" false 6
      ∷ [];
}

stored_in_outage : stored outage 3 ≡ some waiting
unfolding stored
stored_in_outage = refl

unsettled_in_outage : is_settled waiting.status ≡ false
unfolding is_settled
unsettled_in_outage = refl

overloaded-IsHealthy : IsHealthy overloaded
overloaded-IsHealthy k = refl

breaker_refusal_is_final_example :
    (Option.map (λ m. m.status) (stored (process_delivery ⦃p = overloaded⦄ "|||" outage).1 3)
      ≡ some failed)
    × ((process_delivery ⦃p = overloaded⦄ "|||" outage).0 ≡ ok tt)
unfolding verdict breaker CircuitBreaker.new calls_of
breaker_refusal_is_final_example =
    breaker_refusal_is_final ⦃p = overloaded⦄ outage "|||" 3 waiting refl stored_in_outage
      overloaded-IsHealthy unsettled_in_outage "circuit breaker is open" refl

process_delivery-breakers_example :
    IsOneCall "push" outage.calls (process_delivery ⦃p = overloaded⦄ "|||" outage).1.calls
    × ((other : String)
        → "push" ≢ other
        → calls_of other (process_delivery ⦃p = overloaded⦄ "|||" outage).1.calls
          ≡ calls_of other outage.calls)
unfolding Channel.to_string
process_delivery-breakers_example =
    process_delivery-breakers ⦃p = overloaded⦄ outage "|||" 3 waiting refl stored_in_outage
