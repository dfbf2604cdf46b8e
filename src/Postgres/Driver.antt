-- ===== src/Postgres/Driver.antt =====
-- The driver (jackc/pgx under jmoiron/sqlx) as the repositories see it: a statement gives rows or an
-- error of the driver, and a statement may fail for a reason outside the program.
pub mod Outcome
use text.Mathlib.Text.{find?}
use Prim.Native.String.{◌++◌ as append}
use event_driven_ns.Prelude.{Bool, ◌&&◌, none, some, String, str_eq, is_some, if◌then◌else◌}
use event_driven_ns.Domain.Error.{
  Error, Sentinel, plain, foreign, Result, ok, err, duplicate_idempotency_key,
}
use event_driven_ns.Platform.{Platform}
use event_driven_ns.World.{World, M, ◌>>=◌, ◌>>◌, pure, tick}

-- `sql.ErrNoRows`; a `*pgconn.PgError` with its code and constraint; any other error.
pub data DbError : Type 0 where
  no_rows : DbError
  pg : String → String → DbError
  connection : String → DbError

pub data DbResult (A : Type 0) : Type 0 where
  rows : A → DbResult A
  failure : DbError → DbResult A

abbrev pub Sql : Type 0 → Type 0
Sql A = World → DbResult A × World

-- The driver's error as a Go error.
unfoldable pub to_error : DbError → Error
to_error no_rows = foreign "sql: no rows in result set"
to_error (pg code constraint) = foreign (append code (append " " constraint))
to_error (connection reason) = foreign reason

-- `strings.Contains`.
abbrev pub contains : String → String → Bool
contains s sub = is_some (find? s sub)

unfoldable pub wrap_idempotency_error : DbError → Error
unfolding to_error
wrap_idempotency_error (pg code constraint) =
    if str_eq code "23505" && contains constraint "idempotency_key"
    then plain duplicate_idempotency_key
    else to_error (pg code constraint)
wrap_idempotency_error e = to_error e

-- `errors.Is(err, sql.ErrNoRows)` turned into a sentinel of the domain.
unfoldable pub or_missing : Sentinel → DbError → Error
unfolding to_error
or_missing missing no_rows = plain missing
or_missing missing e = to_error e

abbrev pub translate : {A : Type 0} → (DbError → Error) → DbResult A → Result A
translate f (rows a) = ok a
translate f (failure e) = err (f e)

module _ ⦃p : Platform⦄ where
  -- One round trip to the server.
  unfoldable pub query : {A : Type 0} → Sql A → Sql A
  query statement w = elim (p.fault w.step) [
    | none ↦ statement (tick w)
    | some reason ↦ (failure (connection reason), tick w)
  ]

  unfoldable pub run : {A : Type 0} → (DbError → Error) → Sql A → M A
  unfolding query
  run f statement w = let (r, w') = query statement w in (translate f r, w')

  -- What a transaction that is rolled back leaves: every table as it was.
  abbrev pub settle : {A : Type 0} → World → Result A → World → Result A × World
  settle before (ok a) after = (ok a, after)
  settle before (err e) after = (
    err e,
    record after {
      notifications = before.notifications;
      batches = before.batches;
      templates = before.templates;
      keys = before.keys;
    },
  )

  -- `BeginTxx`, the body, `Commit`, and the deferred `Rollback`.
  unfoldable pub transaction : {A : Type 0} → M A → M A
  unfolding run to_error
  transaction body w =
      let (r, w') =
        (do run to_error (λ v. (rows tt, v)); a ← body; run to_error (λ v. (rows tt, v)); pure a)
          w in
      settle w r w'
