-- ===== src/Program/Queries.antt =====
-- The queries of the services and the transaction of `CreateBatch` keep the tables sound.
use event_driven_ns.Prelude.{
  ℕ, ◌+◌, arith, refl, sym, List, [], ◌∷◌, none, some, ◌≡◌, All, Option, String,
}
use event_driven_ns.Domain.Error.{Error, Result, ok, err, template_not_found}
use event_driven_ns.Domain.Notification.{Uuid, Time, Notification}
use event_driven_ns.Domain.Template.{Template}
use event_driven_ns.Platform.{Platform}
use event_driven_ns.World.{World, M, NotificationBatch, time_now, new_uuid}
use event_driven_ns.World.Triple.{OnOk, OnOk-Any, Any, Triple, bind, pure-Triple}
use event_driven_ns.Postgres.Table.Every.{All-select_where, All-order_by, All-take}
use event_driven_ns.Postgres.Driver.{
  DbError, rows, Sql, query, run, transaction, settle, to_error, wrap_idempotency_error, or_missing,
}
use event_driven_ns.Postgres.Rows.{
  insert_notification, insert_batch, is_due, scheduled_before, is_stuck, updated_before,
}
use event_driven_ns.Postgres.Notifications
use event_driven_ns.Postgres.Notifications.{
  NotificationFilter, insert_all, due_rows, stuck_rows, page_rows,
}
use event_driven_ns.Postgres.Idempotency
use event_driven_ns.Postgres.Idempotency.{select_key, add_key, idempotency_ttl}
use event_driven_ns.Postgres.Templates
use event_driven_ns.Postgres.Templates.{
  select_template, all_templates, insert_template, wrap_name_error,
}
use mathlib.Core.Path.{subst}
use event_driven_ns.Program.Sound.{IsConsistent, IsBalanced, IsSound, run-Triple}
use event_driven_ns.Program.Store.{
  IsInsertable, OnRows-Any, insert_notification-IsSound, insert_batch-IsSound,
}

module _ ⦃p : Platform⦄ where
  pub time_now-Triple : Triple IsSound time_now Any
  unfolding time_now
  time_now-Triple = record { keeps = λ w i. (i, tt) }

  pub new_uuid-Triple : Triple IsSound new_uuid Any
  unfolding new_uuid
  new_uuid-Triple = record { keeps = λ w i. (i, tt) }

  pub list_due_scheduled-Triple :
      (limit : ℕ) → Triple IsSound (Notifications.list_due_scheduled limit) (All IsConsistent)
  unfolding Notifications.list_due_scheduled due_rows
  list_due_scheduled-Triple limit = record {
    keeps = λ w i.
        (run-Triple to_error (due_rows limit (p.now w.step)) (All IsConsistent) (λ v j. (
          j,
          All-take IsConsistent limit _ (
              All-order_by IsConsistent scheduled_before _
                (All-select_where IsConsistent (is_due (p.now w.step)) v.notifications j.0)),
        ))).keeps
          w i;
  }

  pub list_stuck_processing-Triple :
      (older_than limit : ℕ)
      → Triple IsSound (Notifications.list_stuck_processing older_than limit) (All IsConsistent)
  unfolding Notifications.list_stuck_processing stuck_rows
  list_stuck_processing-Triple older_than limit = record {
    keeps = λ w i.
        (run-Triple to_error (stuck_rows older_than limit (p.now w.step)) (All IsConsistent) (λ v j.
            (
              j,
              All-take IsConsistent limit _ (
                  All-order_by IsConsistent updated_before _ (
                    All-select_where IsConsistent (is_stuck (p.now w.step) older_than)
                      v.notifications j.0)),
            ))).keeps
          w i;
  }

  pub insert_all-Triple :
      (ns : List Notification) → All IsInsertable ns → Triple IsSound (insert_all ns) Any
  unfolding insert_all
  insert_all-Triple [] h = pure-Triple tt tt
  insert_all-Triple (n ∷ ns) h =
      bind
        (run-Triple wrap_idempotency_error (insert_notification n) Any
          (λ w i. (insert_notification-IsSound n w h.0 i, OnRows-Any (insert_notification n w).0)))
        (λ _ _. insert_all-Triple ns h.1)

  -- BEGIN and COMMIT.
  nothing-Triple : Triple IsSound (run to_error (λ v. (rows tt, v))) Any
  nothing-Triple = run-Triple to_error (λ v. (rows tt, v)) Any (λ v j. (j, tt))

  add_key-notifications :
      (key : String) (id : Uuid × Option String) (expires_at : Time) (w : World)
      → (add_key key id expires_at w).1.notifications ≡ w.notifications
  unfolding add_key
  add_key-notifications key (id, none) expires_at w = ground arith
  add_key-notifications key (id, some reason) expires_at w = refl

  add_key-batches :
      (key : String) (id : Uuid × Option String) (expires_at : Time) (w : World)
      → (add_key key id expires_at w).1.batches ≡ w.batches
  unfolding add_key
  add_key-batches key (id, none) expires_at w = ground arith
  add_key-batches key (id, some reason) expires_at w = refl

  settle-keeps :
      {A : Type 0} (P : A → Type 0) (before : World) (r : Result A) (after : World)
      → IsSound before
      → IsSound after × OnOk P r
      → IsSound (settle before r after).1 × OnOk P (settle before r after).0
  settle-keeps P before (ok a) after i j = j
  settle-keeps P before (err e) after i j = (i, tt)

  -- Whatever the body does, a transaction that fails leaves the tables as they were.
  pub transaction-Triple :
      {A : Type 0} {m : M A} {P : A → Type 0}
      → Triple IsSound m P
      → Triple IsSound (transaction m) P
  unfolding transaction
  transaction-Triple {P = P} t = record {
    keeps = λ w i. settle-keeps P w _ _ i (
        (bind nothing-Triple
            (λ _ _. bind t (λ a h. bind nothing-Triple (λ _ _. pure-Triple a h)))).keeps
          w i);
  }

  pub create_batch-Triple :
      (b : NotificationBatch) (ns : List Notification)
      → b.pending_count ≡ b.total_count
      → All IsInsertable ns
      → Triple IsSound (Notifications.create_batch b ns) Any
  unfolding Notifications.create_batch
  create_batch-Triple b ns e h = transaction-Triple (
      bind
        (run-Triple to_error (insert_batch b) Any
          (λ w i. (insert_batch-IsSound b w e i, OnRows-Any (insert_batch b w).0)))
        (λ _ _. insert_all-Triple ns h))

  -- A statement that touches neither notifications nor batches.
  elsewhere-Triple :
      {A : Type 0} (f : DbError → Error) (statement : Sql A)
      → ((w : World) → (statement w).1.notifications ≡ w.notifications)
      → ((w : World) → (statement w).1.batches ≡ w.batches)
      → Triple IsSound (run f statement) Any
  elsewhere-Triple f statement ns bs = run-Triple f statement Any (λ w (rs, cs). (
    (subst (All IsConsistent) (sym (ns w)) rs, subst (All IsBalanced) (sym (bs w)) cs),
    OnRows-Any (statement w).0,
  ))

  pub check-Triple : (key : String) → Triple IsSound (Idempotency.check key) Any
  unfolding Idempotency.check query select_key
  check-Triple key = record { keeps = λ w (rs, bs). ((ground arith, ground arith), OnOk-Any _) }

  pub set_nx-Triple : (key id : String) → Triple IsSound (Idempotency.set_nx key id) Any
  unfolding Idempotency.set_nx
  set_nx-Triple key id = bind time_now-Triple (λ now _.
      let id' = p.uuid_parse id in
      let until = now + idempotency_ttl in
      elsewhere-Triple to_error (add_key key id' until) (add_key-notifications key id' until)
        (add_key-batches key id' until))

  pub template_create-Triple : (t : Template) → Triple IsSound (Templates.create t) Any
  unfolding Templates.create insert_template
  template_create-Triple t =
      elsewhere-Triple wrap_name_error (insert_template t) (λ w. ground arith) (λ w. ground arith)

  pub template_get_by_id-Triple : (id : Uuid) → Triple IsSound (Templates.get_by_id id) Any
  unfolding Templates.get_by_id select_template
  template_get_by_id-Triple id =
      elsewhere-Triple (or_missing template_not_found) (select_template id) (λ w. ground arith)
        (λ w. ground arith)

  pub template_list-Triple : Triple IsSound Templates.list Any
  unfolding Templates.list all_templates
  template_list-Triple = elsewhere-Triple to_error all_templates (λ w. refl) (λ w. refl)

  pub list-Triple : (f : NotificationFilter) → Triple IsSound (Notifications.list f) Any
  unfolding Notifications.list page_rows
  list-Triple f = elsewhere-Triple to_error (page_rows f) (λ w. refl) (λ w. refl)
