-- ===== src/Postgres/Idempotency.antt =====
-- internal/adapter/postgres/idempotency_repo.go over the table of migration 000003.
use event_driven_ns.Prelude.{
  ℕ, ◌+◌, ◌*◌, Bool, true, false, not, ◌&&◌, [], ◌∷◌, ◌++◌, Option, none, some, String, str_eq,
  ◌==◌, ltb, if◌then◌else◌,
}
use event_driven_ns.Domain.Error.{Result, ok, err}
use event_driven_ns.Domain.Notification.{Uuid, Time}
use event_driven_ns.Platform.{Platform}
use event_driven_ns.World.{M, KeyRow, ◌>>=◌, time_now}
use event_driven_ns.Postgres.Table.{find_row, has_row}
use event_driven_ns.Postgres.Driver.{
  no_rows, pg, connection, DbResult, rows, failure, Sql, to_error, query, run,
}

-- 24 hours in nanoseconds.
abbrev pub idempotency_ttl : ℕ
idempotency_ttl = 24 * 3600 * 1000000000

-- key = $1 AND expires_at > NOW().
unfoldable pub is_live : Time → String → KeyRow → Bool
is_live now key r = str_eq r.key key && ltb now r.expires_at

-- What `Check` makes of the row: whether the key exists, and the identifier as a text.
unfoldable pub check_result : DbResult String → Result (Bool × String)
unfolding to_error
check_result (rows id) = ok (true, id)
check_result (failure no_rows) = ok (false, "")
check_result (failure e) = err (to_error e)

module _ ⦃p : Platform⦄ where
  unfoldable pub select_key : Time → String → Sql String
  unfolding is_live find_row
  select_key now key w = elim (find_row (is_live now key) w.keys) [
    | none ↦ (failure no_rows, w)
    | some r ↦ (rows (p.uuid_string r.notification_id), w)
  ]

  unfoldable pub check : String → M (Bool × String)
  unfolding select_key query check_result
  check key w = let (r, w') = query (select_key (p.now w.step) key) w in (check_result r, w')

  -- The server reads the identifier, and refuses one that names no notification.
  unfoldable pub add_key : String → Uuid × Option String → Time → Sql Bool
  unfolding has_row
  add_key key (id, some reason) expires_at w = (failure (connection reason), w)
  add_key key (id, none) expires_at w =
      if has_row (λ r. str_eq r.key key) w.keys
      then (rows false, w)
      else if not (has_row (λ n. n.id == id) w.notifications)
      then (failure (pg "23503" "idempotency_keys_notification_id_fkey"), w)
      else (
        rows true,
        record w {
          keys = w.keys ++ record { key = key; notification_id = id; expires_at = expires_at } ∷ [];
        },
      )

  -- INSERT … ON CONFLICT (key) DO NOTHING; the result is whether a row was added.
  unfoldable pub set_nx : String → String → M Bool
  unfolding add_key run to_error time_now
  set_nx key notification_id = do
    now ← time_now
    run to_error (add_key key (p.uuid_parse notification_id) (now + idempotency_ttl))
