-- ===== src/Program/Store.antt =====
-- The methods of the repositories keep the tables sound.
use mathlib.Core.Path.{subst}
use event_driven_ns.Prelude.{
  ◌⊎◌, true, false, ◌∙◌, if◌then◌else◌, ℕ, [], ◌∷◌, ◌++◌, none, some, ◌≡◌, sym, arith, Option, ◌==◌,
  Bool, inl, inr,
}
use event_driven_ns.Prelude.Int.{eq_of_parts, int_laws}
use event_driven_ns.Domain.Error.{Error, notification_not_found, batch_not_found}
use event_driven_ns.Domain.Status.{Status}
use event_driven_ns.Domain.Notification.{Uuid, Notification}
use event_driven_ns.Platform.{Platform}
use event_driven_ns.World.{World, NotificationBatch, pure, raise}
use event_driven_ns.World.Triple.{Any, Triple, bind, pure-Triple, raise-Triple}
use event_driven_ns.Postgres.Table.{find_row}
use event_driven_ns.Postgres.Table.Every.{All-append, All-update_where, All-find_row}
use event_driven_ns.Postgres.Driver.{
  DbResult, rows, failure, run, to_error, wrap_idempotency_error, or_missing,
}
use event_driven_ns.Postgres.Rows.{
  inserted, set_status, count_down, count_in, row_of_batch, insert_notification, insert_batch,
  one_row, select_notification, select_batch, update_status_row, cancel_row, cancellable_row,
  increment_row,
}
use event_driven_ns.Postgres.Notifications
use event_driven_ns.Postgres.Notifications.{NotificationFilter, insert_all}
use event_driven_ns.Program.Sound.{
  IsConsistent, IsBalanced, IsSound, IsWritable, OnSome, OnRows, run-Triple, one_row-OnRows,
  one_row-world, count_in-IsBalanced, set_status-IsConsistent,
}

abbrev pub IsInsertable : Notification → Type 0
IsInsertable n = IsConsistent (inserted n)

-- A property of both branches of a test.
pub either : {A : Type 0} (P : A → Type 0) (b : Bool) (x y : A) → P x → P y → P (if b then x else y)
either P true x y h k = h
either P false x y h k = k

pub OnRows-Any : {A : Type 0} (r : DbResult A) → OnRows Any r
OnRows-Any (rows a) = tt
OnRows-Any (failure e) = tt

-- An INSERT adds its row, or leaves the tables alone.
insert_notification_cases :
    (n : Notification) (w : World)
    → ((insert_notification n w).1 ≡ w)
      ⊎ ((insert_notification n w).1
          ≡ record w { notifications = w.notifications ++ inserted n ∷ [] })
unfolding insert_notification
insert_notification_cases n w = ground arith

pub insert_notification-IsSound :
    (n : Notification) (w : World)
    → IsInsertable n
    → IsSound w
    → IsSound (insert_notification n w).1
insert_notification-IsSound n w c (rs, bs) = elim (insert_notification_cases n w) [
  | inl e ↦ subst IsSound (sym e) (rs, bs)
  | inr e ↦
      subst IsSound (sym e)
        (All-append IsConsistent w.notifications (inserted n ∷ []) rs (c, tt), bs)
]

row_of_batch-IsBalanced :
    (b : NotificationBatch) → b.pending_count ≡ b.total_count → IsBalanced (row_of_batch b)
unfolding row_of_batch
row_of_batch-IsBalanced b e = eq_of_parts _ _ (omega int_laws) ∙ e

insert_batch_cases :
    (b : NotificationBatch) (w : World)
    → ((insert_batch b w).1 ≡ w)
      ⊎ ((insert_batch b w).1 ≡ record w { batches = w.batches ++ row_of_batch b ∷ [] })
unfolding insert_batch row_of_batch
insert_batch_cases b w = ground arith

pub insert_batch-IsSound :
    (b : NotificationBatch) (w : World)
    → b.pending_count ≡ b.total_count
    → IsSound w
    → IsSound (insert_batch b w).1
insert_batch-IsSound b w e (rs, bs) = elim (insert_batch_cases b w) [
  | inl h ↦ subst IsSound (sym h) (rs, bs)
  | inr h ↦ subst IsSound (sym h) (
    rs,
    All-append IsBalanced w.batches (row_of_batch b ∷ []) bs (row_of_batch-IsBalanced b e, tt),
  )
]

module _ ⦃p : Platform⦄ where
  pub create-Triple :
      (n : Notification) → IsInsertable n → Triple IsSound (Notifications.create n) Any
  unfolding Notifications.create
  create-Triple n c =
      run-Triple wrap_idempotency_error (insert_notification n) Any
        (λ w i. (insert_notification-IsSound n w c i, OnRows-Any (insert_notification n w).0))

  pub get_by_id-Triple : (id : Uuid) → Triple IsSound (Notifications.get_by_id id) IsConsistent
  unfolding Notifications.get_by_id select_notification
  get_by_id-Triple id =
      run-Triple (or_missing notification_not_found) (select_notification id) IsConsistent (λ w i.
        let found = find_row (λ r. r.id == id) w.notifications in
        (
          subst IsSound (sym (one_row-world found w)) i,
          one_row-OnRows IsConsistent found w
              (λ n e. All-find_row IsConsistent (λ r. r.id == id) w.notifications n e i.0),
        ))

  pub get_batch_by_id-Triple : (id : Uuid) → Triple IsSound (Notifications.get_batch_by_id id) Any
  unfolding Notifications.get_batch_by_id select_batch
  get_batch_by_id-Triple id = run-Triple (or_missing batch_not_found) (select_batch id) Any (λ w i.
      let found = find_row (λ r. r.id == id) w.batches in
      (subst IsSound (sym (one_row-world found w)) i, OnRows-Any (one_row found w).0))

  pub update_status-Triple :
      (n : Notification) → IsWritable n → Triple IsSound (Notifications.update_status n) Any
  unfolding Notifications.update_status
  update_status-Triple n h = run-Triple to_error (update_status_row n) Any (λ w (rs, bs). (
    (
      All-update_where IsConsistent (λ r. r.id == n.id) (set_status n) w.notifications
          (λ r c. set_status-IsConsistent n r h c) rs,
      bs,
    ),
    tt,
  ))

  affected_or : (n : ℕ) (e : Error) → Triple IsSound (if n == 0 then raise e else pure tt) Any
  affected_or n e = either (λ m. Triple IsSound m Any) _ _ _ (raise-Triple e) (pure-Triple tt tt)

  pub cancel-Triple : (id : Uuid) → Triple IsSound (Notifications.cancel id) Any
  unfolding Notifications.cancel
  cancel-Triple id = record {
    keeps = λ w i.
        (bind
            (run-Triple to_error (cancel_row id (p.now w.step)) Any (λ v (rs, bs). (
              (
                All-update_where IsConsistent (cancellable_row id) _ v.notifications
                    (λ r c. record { acceptable = c.acceptable; attempts = c.attempts; dated = tt })
                    rs,
                bs,
              ),
              tt,
            )))
            (λ n h. affected_or n _)).keeps
          w i;
  }

  increment-Triple :
      (id : Uuid) (o : Option (NotificationBatch → NotificationBatch))
      → OnSome (λ f. (b : NotificationBatch) → IsBalanced b → IsBalanced (count_down (f b))) o
      → Triple IsSound (elim o [ none ↦ pure tt | some f ↦ run to_error (increment_row id f) ]) Any
  unfolding increment_row
  increment-Triple id none h = pure-Triple tt tt
  increment-Triple id (some f) h = run-Triple to_error (increment_row id f) Any (λ w (rs, bs). (
    (rs, All-update_where IsBalanced (λ r. r.id == id) (λ r. count_down (f r)) w.batches h bs),
    tt,
  ))

  pub increment_batch_counter-Triple :
      (id : Uuid) (s : Status) → Triple IsSound (Notifications.increment_batch_counter id s) Any
  unfolding Notifications.increment_batch_counter
  increment_batch_counter-Triple id s = increment-Triple id (count_in s) (count_in-IsBalanced s)
