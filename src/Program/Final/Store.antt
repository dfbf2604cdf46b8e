-- ===== src/Program/Final/Store.antt =====
-- The statements of the repositories on the rows of a notification whose status is final.
use mathlib.Core.Path.{subst}
use event_driven_ns.Prelude.{
  ◌⊎◌, true, false, ◌∙◌, ℕ, [], ◌∷◌, ◌++◌, ◌≡◌, ◌≢◌, refl, sym, arith, List, ◌==◌, ==_iff, Bool,
  inl, inr, All,
}
use event_driven_ns.Domain.Error.{Error, Result, ok, err, notification_not_found}
use event_driven_ns.Domain.Status.{Status}
use event_driven_ns.Domain.Notification.{Uuid, Notification}
use event_driven_ns.Platform.{Platform}
use event_driven_ns.World.{World, M, NotificationBatch}
use event_driven_ns.World.Triple.{OnOk, OnOk-Any, Any, Triple, bind, pure-Triple}
use event_driven_ns.Postgres.Table.{find_row, has_row, update_where}
use event_driven_ns.Postgres.Table.Every.{All-append, All-update_passing, All-find_row}
use event_driven_ns.Postgres.Driver.{
  DbError, rows, Sql, run, query, to_error, wrap_idempotency_error, or_missing, settle, transaction,
}
use event_driven_ns.Postgres.Rows.{
  inserted, set_status, insert_notification, insert_batch, select_notification, update_status_row,
}
use event_driven_ns.Postgres.Notifications
use event_driven_ns.Postgres.Notifications.{insert_all, due_rows, stuck_rows}
use event_driven_ns.Program.Sound.{OnRows, run_keeps, one_row-OnRows, one_row-world}
use event_driven_ns.Program.Store.{OnRows-Any}

pub has_row-update_where :
    (i : ℕ) (test : Notification → Bool) (f : Notification → Notification) (ns : List Notification)
    → ((r : Notification) → (f r).id ≡ r.id)
    → has_row (λ r. r.id == i) (update_where test f ns) ≡ has_row (λ r. r.id == i) ns
unfolding has_row update_where
has_row-update_where i test f [] same = refl
has_row-update_where i test f (r ∷ ns) same =
    ground (arith, same r, has_row-update_where i test f ns same)

has_row-append_old :
    (i : ℕ) (ns more : List Notification)
    → has_row (λ r. r.id == i) ns ≡ true
    → has_row (λ r. r.id == i) (ns ++ more) ≡ true
unfolding has_row
has_row-append_old i [] more h = cc
has_row-append_old i (r ∷ ns) more h = ground (arith, has_row-append_old i ns more)

-- An INSERT adds its row, whose identifier is new, or leaves the tables alone.
insert_notification_new :
    (n : Notification) (w : World)
    → ((insert_notification n w).1 ≡ w)
      ⊎ (((insert_notification n w).1
            ≡ record w { notifications = w.notifications ++ inserted n ∷ [] })
          × (has_row (λ r. r.id == n.id) w.notifications ≡ false))
unfolding insert_notification
insert_notification_new n w = ground arith

module _ (id : Uuid) (s : Status) where
  abbrev pub IsFinalRow : Notification → Type 0
  IsFinalRow r = r.id ≡ id → r.status ≡ s

  -- The notification is stored, and every row of its identifier has this status. (The identifier is
  -- the primary key: there is one row.)
  abbrev pub HasFinal : World → Type 0
  HasFinal w = All IsFinalRow w.notifications × (has_row (λ r. r.id == id) w.notifications ≡ true)

  -- An action that touches no notification.
  pub elsewhere :
      {A : Type 0} (m : M A)
      → ((w : World) → (m w).1.notifications ≡ w.notifications)
      → Triple HasFinal m Any
  elsewhere m same = record {
    keeps = λ w i. (
      subst (λ ns. All IsFinalRow ns × (has_row (λ r. r.id == id) ns ≡ true)) (sym (same w)) i,
      OnOk-Any (m w).0,
    );
  }

  insert_notification-HasFinal :
      (n : Notification) (w : World) → HasFinal w → HasFinal (insert_notification n w).1
  unfolding inserted
  insert_notification-HasFinal n w (all, there) = elim (insert_notification_new n w) [
    | inl e ↦ subst HasFinal (sym e) (all, there)
    | inr (e, new) ↦
        let apart : IsFinalRow (inserted n) = λ own.
          let absent : has_row (λ r. r.id == id) w.notifications ≡ false =
            subst (λ i. has_row (λ r. r.id == i) w.notifications ≡ false) own new in
          absurd (cc) in
        subst HasFinal (sym e) (
          All-append IsFinalRow w.notifications (inserted n ∷ []) all (apart, tt),
          has_row-append_old id w.notifications (inserted n ∷ []) there,
        )
  ]

  module _ ⦃p : Platform⦄ where
    pub run_final :
        {A : Type 0} (f : DbError → Error) (statement : Sql A) (P : A → Type 0)
        → ((w : World) → HasFinal w → HasFinal (statement w).1 × OnRows P (statement w).0)
        → Triple HasFinal (run f statement) P
    run_final f statement P keep = run_keeps HasFinal (λ w i. i) f statement P keep

    insert-Triple :
        (n : Notification)
        → Triple HasFinal (run wrap_idempotency_error (insert_notification n)) Any
    insert-Triple n =
        run_final wrap_idempotency_error (insert_notification n) Any
          (λ w i. (insert_notification-HasFinal n w i, OnRows-Any (insert_notification n w).0))

    pub create-Final : (n : Notification) → Triple HasFinal (Notifications.create n) Any
    unfolding Notifications.create
    create-Final n = insert-Triple n

    insert_all-Triple : (ns : List Notification) → Triple HasFinal (insert_all ns) Any
    unfolding insert_all
    insert_all-Triple [] = pure-Triple tt tt
    insert_all-Triple (n ∷ ns) = bind (insert-Triple n) (λ _ _. insert_all-Triple ns)

    rolled_back :
        {A : Type 0} (P : A → Type 0) (before : World) (r : Result A) (after : World)
        → HasFinal before
        → HasFinal after × OnOk P r
        → HasFinal (settle before r after).1 × OnOk P (settle before r after).0
    rolled_back P before (ok a) after i j = j
    rolled_back P before (err e) after i j = (i, tt)

    nothing-Triple : Triple HasFinal (run to_error (λ v. (rows tt, v))) Any
    nothing-Triple = run_final to_error (λ v. (rows tt, v)) Any (λ v j. (j, tt))

    insert_batch-Triple :
        (b : NotificationBatch) → Triple HasFinal (run to_error (insert_batch b)) Any
    unfolding insert_batch run query
    insert_batch-Triple b = elsewhere (run to_error (insert_batch b)) (λ w. ground arith)

    pub create_batch-Final :
        (b : NotificationBatch) (ns : List Notification)
        → Triple HasFinal (Notifications.create_batch b ns) Any
    unfolding Notifications.create_batch transaction
    create_batch-Final b ns = record {
      keeps = λ w i. rolled_back Any w _ _ i (
          (bind nothing-Triple (λ _ _.
              bind (bind (insert_batch-Triple b) (λ _ _. insert_all-Triple ns))
                (λ a h. bind nothing-Triple (λ _ _. pure-Triple a h)))).keeps
            w i);
    }

    pub get_by_id-Final : (i : Uuid) → Triple HasFinal (Notifications.get_by_id i) IsFinalRow
    unfolding Notifications.get_by_id select_notification
    get_by_id-Final i =
        run_final (or_missing notification_not_found) (select_notification i) IsFinalRow (λ w h.
          let found = find_row (λ r. r.id == i) w.notifications in
          (
            subst HasFinal (sym (one_row-world found w)) h,
            one_row-OnRows IsFinalRow found w
                (λ n e. All-find_row IsFinalRow (λ r. r.id == i) w.notifications n e h.0),
          ))

    -- An UPDATE of another notification.
    pub update_status-Final :
        (n : Notification) → n.id ≢ id → Triple HasFinal (Notifications.update_status n) Any
    unfolding Notifications.update_status set_status
    update_status-Final n apart = run_final to_error (update_status_row n) Any (λ w (all, there). (
      (
        All-update_passing IsFinalRow (λ r. r.id == n.id) (set_status n) w.notifications
            (λ r c e own. absurd (apart (sym ((==_iff r.id n.id).0 e) ∙ own))) all,
        has_row-update_where id (λ r. r.id == n.id) (set_status n) w.notifications (λ r. refl)
            ∙ there,
      ),
      tt,
    ))
