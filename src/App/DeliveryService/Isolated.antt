-- ===== src/App/DeliveryService/Isolated.antt =====
-- The circuit breakers of internal/adapter/provider/webhook.go under ProcessDelivery: an attempt on
-- one channel is no call of the breaker of another.
use mathlib.Core.Path.{subst}
use event_driven_ns.Prelude.{
  ◌&&◌, ◌⊎◌, false, [], ◌∷◌, ◌++◌, List, Option, some, none, String, ◌≡◌, ◌≢◌, refl, ap, sym, ◌∙◌,
  arith, Bool-cases, option_cases, inl, inr, str_eq, eq_iff,
}
use event_driven_ns.Domain.Error.{Error, foreign, Result, ok, err}
use event_driven_ns.Domain.Status.{Status}
use event_driven_ns.Domain.Channel
use event_driven_ns.Domain.Notification.{Uuid, Notification, has_retries_left, mark_processing}
use event_driven_ns.CircuitBreaker.{Settings, Call, calls_of}
use event_driven_ns.CircuitBreaker
use event_driven_ns.Platform.{Platform, WebhookResponse}
use event_driven_ns.World.{World, M, time_now, continue, tick}
use event_driven_ns.Postgres.Healthy.{stored}
use event_driven_ns.Postgres.Notifications.{get_by_id, update_status, increment_batch_counter}
use event_driven_ns.Provider.{send, do_send, execute, breaker, verdict, is_ok}
use event_driven_ns.App.DeliveryService.{
  is_transient, is_settled, finish, handle_success, handle_failure, handle_answer, deliver,
  process_delivery, count_final, retry_later, give_up, retry_or_give_up, broadcast_status,
}

-- An action that calls no breaker.
abbrev IsUncalled : {A : Type 0} → M A → Type 0
IsUncalled m = (w : World) → (m w).1.calls ≡ w.calls

-- From the calls `old` to `new`, at most one was made, of the breaker of this name.
abbrev pub IsOneCall : String → List Call → List Call → Type 0
IsOneCall name old new = (new ≡ old) ⊎ ((c : Call) × (c.name ≡ name) × (new ≡ old ++ c ∷ []))

calls_of-append_other :
    (name : String) (calls : List Call) (c : Call)
    → str_eq c.name name ≡ false
    → calls_of name (calls ++ c ∷ []) ≡ calls_of name calls
unfolding calls_of
calls_of-append_other name [] c other = rw other refl
calls_of-append_other name (d ∷ calls) c other = rw (calls_of-append_other name calls c other) refl

-- A breaker of another name has the calls that it had.
IsOneCall-apart :
    (name other : String) (old new : List Call)
    → IsOneCall name old new
    → name ≢ other
    → calls_of other new ≡ calls_of other old
IsOneCall-apart name other old new (inl quiet) apart = ap (calls_of other) quiet
IsOneCall-apart name other old new (inr (c, own, more)) apart =
    ap (calls_of other) more
    ∙ calls_of-append_other other old c (ground (arith, eq_iff c.name other))

module _ ⦃p : Platform⦄ where
  update_status-IsUncalled : (n : Notification) → IsUncalled (update_status n)
  unfolding update_status
  update_status-IsUncalled n w = ground arith

  do_send-IsUncalled : (n : Notification) → IsUncalled (do_send n)
  unfolding do_send
  do_send-IsUncalled n w = ground arith

  count_final-IsUncalled : (o : Option Uuid) (s : Status) → IsUncalled (count_final o s)
  unfolding count_final increment_batch_counter
  count_final-IsUncalled o s w = ground arith

  finish-IsUncalled : (n : Notification) → IsUncalled (finish n)
  unfolding finish broadcast_status
  finish-IsUncalled n w = ground (
    arith,
    count_final-IsUncalled n.batch_id n.status (update_status n w).1,
    update_status-IsUncalled n w,
  )

  retry_or_give_up-IsUncalled : (n : Notification) (e : Error) → IsUncalled (retry_or_give_up n e)
  unfolding retry_or_give_up retry_later give_up time_now
  retry_or_give_up-IsUncalled n e w = elim (Bool-cases (is_transient e && has_retries_left n)) [
    | inl again ↦ rw again (update_status-IsUncalled n w)
    | inr last ↦ rw last (finish-IsUncalled _ (tick w))
  ]

  handle_answer-IsUncalled :
      (n : Notification) (r : Result WebhookResponse) → IsUncalled (handle_answer n r)
  unfolding handle_answer handle_success handle_failure time_now
  handle_answer-IsUncalled n (ok response) w = finish-IsUncalled _ (tick w)
  handle_answer-IsUncalled n (err e) w = retry_or_give_up-IsUncalled _ e (tick w)

  execute-IsOneCall :
      {A : Type 0} (s : Settings) (m : M A)
      → IsUncalled m
      → (w : World) → IsOneCall s.name w.calls (execute s m w).1.calls
  unfolding execute
  execute-IsOneCall s m quiet w = elim (option_cases (verdict s w)) [
    | inl allowed ↦
        let (r, v) = m (tick w) in
        let c : Call = record {
          name = s.name;
          began = p.now w.step;
          ended = p.now v.step;
          succeeded = is_ok r;
        } in
        inr (c, refl, rw (allowed, execute) (ap (λ calls. calls ++ c ∷ []) (quiet (tick w))))
    | inr (reason, refused) ↦ inl (rw (refused, execute))
  ]

  send-IsOneCall :
      (n : Notification) (w : World)
      → IsOneCall (Channel.to_string n.channel) w.calls (send n w).1.calls
  unfolding send breaker CircuitBreaker.new
  send-IsOneCall n w = execute-IsOneCall (breaker n) (do_send n) (do_send-IsUncalled n) w

  attempt-IsOneCall :
      (n : Notification) (r : Result (Unit {0})) (w : World)
      → IsOneCall
          (Channel.to_string n.channel)
          w.calls
          (continue r (λ _. λ v. let (a, u) = send n v in handle_answer n a u) w).1.calls
  attempt-IsOneCall n (ok u) w =
      let (a, v) = send n w in
      subst (IsOneCall _ w.calls) (sym (handle_answer-IsUncalled n a v)) (send-IsOneCall n w)
  attempt-IsOneCall n (err e) w = inl refl

  deliver-IsOneCall :
      (n : Notification) (w : World)
      → IsOneCall (Channel.to_string n.channel) w.calls (deliver n w).1.calls
  unfolding deliver time_now mark_processing
  deliver-IsOneCall n w =
      let n' = mark_processing (p.now w.step) n in
      let (r, v) = update_status n' (tick w) in
      subst (λ calls. IsOneCall _ calls (deliver n w).1.calls)
        (update_status-IsUncalled n' (tick w)) (attempt-IsOneCall n' r v)

  module _ (w : World) (text : String) (id : Uuid) (n : Notification)
      (parses : p.uuid_parse text ≡ (id, none)) (found : stored w id ≡ some n) where
    get_by_id-cases :
        (get_by_id id w ≡ (ok n, tick w)) ⊎ ((e : Error) × (get_by_id id w ≡ (err e, tick w)))
    unfolding get_by_id stored
    get_by_id-cases = elim (option_cases (p.fault w.step)) [
      | inl works ↦ inl (ground arith)
      | inr (reason, fails) ↦ inr (foreign reason, ground arith)
    ]

    process_delivery-IsOneCall :
        IsOneCall (Channel.to_string n.channel) w.calls (process_delivery text w).1.calls
    unfolding process_delivery
    process_delivery-IsOneCall = elim get_by_id-cases [
      | inl read ↦ elim (Bool-cases (is_settled n.status)) [
        | inl settled ↦ rw (parses, read, settled) (inl refl)
        | inr unsettled ↦ rw (parses, read, unsettled) (deliver-IsOneCall n (tick w))
      ]
      | inr (e, fails) ↦ rw (parses, fails) (inl refl)
    ]

    -- ProcessDelivery of a notification that is stored makes at most one call, of the breaker that is
    -- named for the notification's channel, and the calls that any other breaker has seen are what
    -- they were, whether or not the store fails.
    pub process_delivery-breakers :
        IsOneCall (Channel.to_string n.channel) w.calls (process_delivery text w).1.calls
        × ((other : String)
            → Channel.to_string n.channel ≢ other
            → calls_of other (process_delivery text w).1.calls ≡ calls_of other w.calls)
    process_delivery-breakers = (
      process_delivery-IsOneCall,
      λ other apart.
          IsOneCall-apart (Channel.to_string n.channel) other w.calls
            (process_delivery text w).1.calls process_delivery-IsOneCall apart,
    )
