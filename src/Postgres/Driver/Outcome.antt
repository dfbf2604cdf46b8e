-- ===== src/Postgres/Driver/Outcome.antt =====
-- A statement that is sent, when the server answers and when it does not.
use event_driven_ns.Prelude.{none, some, String, ◌≡◌, arith}
use event_driven_ns.Domain.Error.{Error, err}
use event_driven_ns.Platform.{Platform}
use event_driven_ns.World.{World, tick}
use event_driven_ns.Postgres.Driver.{DbError, connection, Sql, translate, query, run}

module _ ⦃p : Platform⦄ where
  pub run-healthy :
      {A : Type 0} (f : DbError → Error) (statement : Sql A) (w : World)
      → p.fault w.step ≡ none
      → run f statement w ≡ (translate f (statement (tick w)).0, (statement (tick w)).1)
  unfolding run query
  run-healthy f statement w h = ground arith

  pub run-fault :
      {A : Type 0} (f : DbError → Error) (statement : Sql A) (w : World) (reason : String)
      → p.fault w.step ≡ some reason
      → run f statement w ≡ (err (f (connection reason)), tick w)
  unfolding run query
  run-fault f statement w reason h = ground arith

  pub query-healthy :
      {A : Type 0} (statement : Sql A) (w : World)
      → p.fault w.step ≡ none
      → query statement w ≡ statement (tick w)
  unfolding query
  query-healthy statement w h = ground arith
