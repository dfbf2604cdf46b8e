-- ===== src/App/NotificationService/Repeat.antt =====
-- `Create` of internal/app/notification_service.go for an idempotency key: the first request that
-- stores it, and those that repeat it.
use event_driven_ns.Prelude.{
  ◌+◌, true, false, List, [], ◌∷◌, ◌++◌, Option, none, some, String, str_eq, eq_iff, ◌≡◌, refl,
  arith, ◌==◌, ltb,
}
use event_driven_ns.Domain.Error.{ok}
use event_driven_ns.Domain.Notification.{Uuid, Time, Notification}
use event_driven_ns.Platform.{Platform, UuidRoundTrip}
use event_driven_ns.World.{World, KeyRow, tick, time_now}
use event_driven_ns.Postgres.Table.{find_row, has_row}
use event_driven_ns.Postgres.Healthy.{IsHealthy, stored, get_by_id-stored}
use event_driven_ns.Postgres.Idempotency
use event_driven_ns.Postgres.Idempotency.{
  idempotency_ttl, is_live, select_key, add_key, check_result,
}
use event_driven_ns.Postgres.Driver.{query, run}
use event_driven_ns.Postgres.Driver.Outcome.{query-healthy}
use event_driven_ns.App.NotificationService.{CreateNotificationInput, create, existing_id, remember}

-- The row that is live for a key.
unfoldable pub live_row : World → Time → String → Option KeyRow
unfolding find_row is_live
live_row w now key = find_row (is_live now key) w.keys

-- The row that remembers a notification for 24 hours.
module _ ⦃p : Platform⦄ where
  unfoldable pub added_row : World → String → Uuid → KeyRow
  added_row w key id = record {
    key = key;
    notification_id = id;
    expires_at = p.now w.step + idempotency_ttl;
  }

module _ ⦃p : Platform⦄ (healthy : IsHealthy p) (round_trip : UuidRoundTrip p) where
  check-live :
      (w : World) (key : String) (r : KeyRow)
      → live_row w (p.now w.step) key ≡ some r
      → Idempotency.check key w ≡ (ok (true, p.uuid_string r.notification_id), tick w)
  unfolding Idempotency.check query select_key live_row check_result
  check-live w key r h = ground (arith, healthy w.step)

  -- While a key is live in a store that does not fail, `Create` with it gives the notification that
  -- it names, whatever else the request says, and stores, publishes and sends nothing.
  pub create-repeat :
      (w : World) (input : CreateNotificationInput) (key : String) (r : KeyRow) (n : Notification)
      → input.idempotency_key ≡ some key
      → live_row w (p.now w.step) key ≡ some r
      → stored w r.notification_id ≡ some n
      → create input w ≡ (ok n, tick (tick w))
  unfolding create existing_id stored
  create-repeat w input key r n k live found =
      rw
        (
          k,
          check-live w key r live,
          round_trip.parse_string r.notification_id,
          get_by_id-stored healthy (tick w) r.notification_id found,
        )
        refl

  find_row-new :
      (key : String) (now : Time) (r : KeyRow) (rows : List KeyRow)
      → has_row (λ s. str_eq s.key key) rows ≡ false
      → is_live now key r ≡ true
      → find_row (is_live now key) (rows ++ r ∷ []) ≡ some r
  unfolding find_row has_row is_live
  find_row-new key now r [] h l = ground (arith, eq_iff r.key key)
  find_row-new key now r (s ∷ rows) h l = ground (arith, find_row-new key now r rows)

  set_nx-new :
      (w : World) (key : String) (id : Uuid)
      → has_row (λ r. str_eq r.key key) w.keys ≡ false
      → has_row (λ r. r.id == id) w.notifications ≡ true
      → (Idempotency.set_nx key (p.uuid_string id) w).1.keys ≡ w.keys ++ added_row w key id ∷ []
  unfolding Idempotency.set_nx time_now added_row run
  set_nx-new w key id fresh there =
      let expiry = p.now w.step + idempotency_ttl in
      rw
        (
          round_trip.parse_string id,
          query-healthy (add_key key (id, none) expiry) (tick w) (healthy (tick w).step),
        )
        (unfold add_key in ground arith)

  -- When the store does not fail and no row has the key, remembering a stored notification makes its
  -- key live, for it, at every time within 24 hours.
  pub live_row-remember :
      (w : World) (key : String) (n : Notification) (now : Time)
      → has_row (λ r. str_eq r.key key) w.keys ≡ false
      → has_row (λ r. r.id == n.id) w.notifications ≡ true
      → ltb now (p.now w.step + idempotency_ttl) ≡ true
      → live_row (remember (some key) n w).1 now key ≡ some (added_row w key n.id)
  unfolding live_row remember
  live_row-remember w key n now fresh there soon = rw (set_nx-new w key n.id fresh there) (
      find_row-new key now (added_row w key n.id) w.keys fresh
        (unfold is_live added_row in ground (arith, eq_iff key key)))
