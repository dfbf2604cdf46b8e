-- ===== src/Program/Final/Selected.antt =====
-- What is cancelled, and what the scheduler selects, is not a notification whose status is final.
use mathlib.Core.Path.{subst}
use event_driven_ns.Prelude.{
  true, false, ◌∙◌, if◌then◌else◌, ℕ, ◌≡◌, ◌≢◌, refl, sym, arith, ◌==◌, All,
}
use event_driven_ns.Domain.Error.{Error}
use event_driven_ns.Domain.Status.{Status, pending, scheduled, processing, is_status}
use event_driven_ns.Domain.Notification.{Uuid, Time, Notification}
use event_driven_ns.Platform.{Platform}
use event_driven_ns.World.{pure, raise}
use event_driven_ns.World.Triple.{Any, Triple, bind, pure-Triple, raise-Triple}
use event_driven_ns.Postgres.Table.Every.{
  All-update_passing, All-selected, All-order_by, All-take, All-map,
}
use event_driven_ns.Postgres.Driver.{to_error}
use event_driven_ns.Postgres.Rows.{
  cancel_row, cancellable_row, is_due, is_stuck, scheduled_before, updated_before,
}
use event_driven_ns.Postgres.Notifications
use event_driven_ns.Postgres.Notifications.{insert_all, due_rows, stuck_rows}
use event_driven_ns.Program.Store.{either}
use event_driven_ns.App.DeliveryService.{is_settled}
use event_driven_ns.Program.Final.Store.{IsFinalRow, HasFinal, run_final, has_row-update_where}

-- A status that is not final is not equal to one that is.
settled_apart : (t u : Status) → is_settled t ≡ true → is_settled u ≡ false → is_status t u ≡ false
unfolding is_status is_settled
settled_apart t u h k = ground arith

module _ ⦃p : Platform⦄ (id : Uuid) (s : Status) (final : is_settled s ≡ true) where
  affected_or :
      (n : ℕ) (e : Error) → Triple (HasFinal id s) (if n == 0 then raise e else pure tt) Any
  affected_or n e =
      either (λ m. Triple (HasFinal id s) m Any) _ _ _ (raise-Triple e) (pure-Triple tt tt)

  -- A row that the UPDATE of Cancel takes is pending or scheduled.
  open_row : (i : Uuid) (r : Notification) → r.status ≡ s → cancellable_row i r ≢ true
  unfolding cancellable_row is_settled
  open_row i r e taken =
      let a : is_status r.status pending ≡ false =
        subst (λ t. is_status t pending ≡ false) (sym e) (settled_apart s pending final refl) in
      let b : is_status r.status scheduled ≡ false =
        subst (λ t. is_status t scheduled ≡ false) (sym e) (settled_apart s scheduled final refl) in
      ground arith

  pub cancel-Final : (i : Uuid) → Triple (HasFinal id s) (Notifications.cancel i) Any
  unfolding Notifications.cancel cancellable_row
  cancel-Final i = record {
    keeps = λ w h.
        (bind
            (run_final id s to_error (cancel_row i (p.now w.step)) Any (λ v (all, there). (
              (
                All-update_passing (IsFinalRow id s) (cancellable_row i) _ v.notifications
                    (λ r c e own. absurd (open_row i r (c own) e)) all,
                has_row-update_where id (cancellable_row i) _ v.notifications (λ r. refl) ∙ there,
              ),
              tt,
            )))
            (λ n k. affected_or n _)).keeps
          w h;
  }

  -- What is selected by a status that is not final is another notification.
  other_row :
      (status : Status) (r : Notification)
      → is_settled status ≡ false
      → (IsFinalRow id s) r
      → is_status r.status status ≡ true
      → r.id ≢ id
  other_row status r open_ c e own =
      let a : is_status r.status status ≡ false =
        subst (λ t. is_status t status ≡ false) (sym (c own))
          (settled_apart s status final open_) in
      absurd (cc)

  due_apart :
      (now : Time) (r : Notification) → (IsFinalRow id s) r × (is_due now r ≡ true) → r.id ≢ id
  unfolding is_due is_settled
  due_apart now r (c, e) = other_row scheduled r refl c (ground arith)

  stuck_apart :
      (now : Time) (older_than : ℕ) (r : Notification)
      → (IsFinalRow id s) r × (is_stuck now older_than r ≡ true)
      → r.id ≢ id
  unfolding is_stuck is_settled
  stuck_apart now older_than r (c, e) = other_row processing r refl c (ground arith)

  pub list_due-Final :
      (limit : ℕ)
      → Triple (HasFinal id s) (Notifications.list_due_scheduled limit) (All (λ r. r.id ≢ id))
  unfolding Notifications.list_due_scheduled due_rows
  list_due-Final limit = record {
    keeps = λ w i.
        (run_final id s to_error (due_rows limit (p.now w.step)) (All (λ r. r.id ≢ id)) (λ v j. (
          j,
          All-take (λ r. r.id ≢ id) limit _
              (All-order_by (λ r. r.id ≢ id) scheduled_before _
                (All-map _ (λ r. r.id ≢ id) _ (due_apart (p.now w.step))
                  (All-selected (IsFinalRow id s) (is_due (p.now w.step)) v.notifications j.0))),
        ))).keeps
          w i;
  }

  pub list_stuck-Final :
      (older_than limit : ℕ)
      → Triple
          (HasFinal id s)
          (Notifications.list_stuck_processing older_than limit)
          (All (λ r. r.id ≢ id))
  unfolding Notifications.list_stuck_processing stuck_rows
  list_stuck-Final older_than limit = record {
    keeps = λ w i.
        (run_final id s to_error (stuck_rows older_than limit (p.now w.step)) (All (λ r. r.id ≢ id))
            (λ v j. (
              j,
              All-take (λ r. r.id ≢ id) limit _
                  (All-order_by (λ r. r.id ≢ id) updated_before _
                    (All-map _ (λ r. r.id ≢ id) _ (stuck_apart (p.now w.step) older_than)
                      (All-selected (IsFinalRow id s) (is_stuck (p.now w.step) older_than)
                        v.notifications j.0))),
            ))).keeps
          w i;
  }
