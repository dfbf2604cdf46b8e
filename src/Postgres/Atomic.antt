-- ===== src/Postgres/Atomic.antt =====
-- `CreateBatch` of internal/adapter/postgres/notification_repo.go: all rows, or none.
use mathlib.Core.List.{append-nil, append_assoc}
use mathlib.Core.Path.{subst}
use event_driven_ns.Prelude.{
  Bool, true, false, ◌⊎◌, List, [], ◌∷◌, ◌++◌, map, ◌≡◌, sym, ap, ◌∙◌, arith, option_cases, inl,
  inr,
}
use event_driven_ns.Domain.Error.{Error, Result, ok, err}
use event_driven_ns.Domain.Notification.{Notification}
use event_driven_ns.Platform.{Platform}
use event_driven_ns.World.{World, NotificationBatch, tick}
use event_driven_ns.World.Hoare.{After, Hoare, then_do}
use event_driven_ns.Postgres.Driver.Outcome.{run-healthy, run-fault}
use event_driven_ns.Postgres.Driver.{
  DbError, DbResult, rows, failure, Sql, translate, run, transaction, settle, to_error,
  wrap_idempotency_error,
}
use event_driven_ns.Postgres.Rows.{inserted, row_of_batch, insert_notification, insert_batch}
use event_driven_ns.Postgres.Notifications.{insert_all, create_batch}

-- Nothing was stored since.
abbrev pub Unchanged : World → World → Type 0
Unchanged u w = (w.notifications ≡ u.notifications) × (w.batches ≡ u.batches)

abbrev pub Anything : World → Type 0
Anything w = Unit

-- What a statement may leave.
abbrev pub AfterRows :
    {A : Type 0} → (A → World → Type 0) → (World → Type 0) → DbResult A → World → Type 0
AfterRows Q E (rows a) v = Q a v
AfterRows Q E (failure e) v = E v

module _ ⦃p : Platform⦄ where
  translated :
      {A : Type 0} (Q : A → World → Type 0) (E : World → Type 0) (f : DbError → Error)
      (r : DbResult A) (v : World)
      → AfterRows Q E r v
      → After Q E (translate f r) v
  translated Q E f (rows a) v h = h
  translated Q E f (failure e) v h = h

  pub run-Hoare :
      {A : Type 0} (I E : World → Type 0) (Q : A → World → Type 0) (f : DbError → Error)
      (statement : Sql A)
      → ((w : World) → I w → E (tick w))
      → ((w : World) → I w → AfterRows Q E (statement (tick w)).0 (statement (tick w)).1)
      → Hoare I (run f statement) Q E
  run-Hoare {A = A} I E Q f statement down up = record {
    run = λ w i. elim (option_cases (p.fault w.step)) [
      | inl h ↦
          subst (λ (x : Result A × World). After Q E x.0 x.1) (sym (run-healthy f statement w h))
            (translated Q E f (statement (tick w)).0 (statement (tick w)).1 (up w i))
      | inr (reason, h) ↦
          subst (λ (x : Result A × World). After Q E x.0 x.1)
            (sym (run-fault f statement w reason h)) (down w i)
    ];
  }

-- The rows that were added since.
abbrev pub Added : World → List Notification → List NotificationBatch → World → Type 0
Added u ns bs w = (w.notifications ≡ u.notifications ++ ns) × (w.batches ≡ u.batches ++ bs)

abbrev pub is_failure : {A : Type 0} → DbResult A → Bool
is_failure (rows a) = false
is_failure (failure e) = true

pub AfterRows-failure :
    {A : Type 0} (Q : A → World → Type 0) (r : DbResult A) (v : World)
    → is_failure r ≡ true
    → AfterRows Q Anything r v
AfterRows-failure Q (rows a) v h = absurd (cc)
AfterRows-failure Q (failure e) v h = tt

-- An INSERT fails, or adds its row.
insert_notification_cases :
    (n : Notification) (w : World)
    → (is_failure (insert_notification n w).0 ≡ true)
      ⊎ (insert_notification n w
          ≡ (rows tt, record w { notifications = w.notifications ++ inserted n ∷ [] }))
unfolding insert_notification
insert_notification_cases n w = ground arith

insert_batch_cases :
    (b : NotificationBatch) (w : World)
    → (is_failure (insert_batch b w).0 ≡ true)
      ⊎ (insert_batch b w ≡ (rows tt, record w { batches = w.batches ++ row_of_batch b ∷ [] }))
unfolding insert_batch
insert_batch_cases b w = ground arith

module _ (u : World) where
  insert_notification-adds :
      (ns : List Notification) (bs : List NotificationBatch) (n : Notification) (w : World)
      → Added u ns bs w
      → AfterRows
          (λ _. Added u (ns ++ inserted n ∷ []) bs)
          Anything
          (insert_notification n w).0
          (insert_notification n w).1
  insert_notification-adds ns bs n w (h, k) = elim (insert_notification_cases n w) [
    | inl e ↦ AfterRows-failure _ (insert_notification n w).0 _ e
    | inr e ↦
        subst
          (λ (x : DbResult Unit × World).
            AfterRows (λ _. Added u (ns ++ inserted n ∷ []) bs) Anything x.0 x.1)
          (sym e)
          (ap (λ t. t ++ inserted n ∷ []) h ∙ append_assoc u.notifications ns (inserted n ∷ []), k)
  ]

  insert_batch-adds :
      (b : NotificationBatch) (w : World)
      → Unchanged u w
      → AfterRows
          (λ _. Added u [] (row_of_batch b ∷ []))
          Anything
          (insert_batch b w).0
          (insert_batch b w).1
  insert_batch-adds b w (h, k) = elim (insert_batch_cases b w) [
    | inl e ↦ AfterRows-failure _ (insert_batch b w).0 _ e
    | inr e ↦
        subst
          (λ (x : DbResult Unit × World).
            AfterRows (λ _. Added u [] (row_of_batch b ∷ [])) Anything x.0 x.1)
          (sym e) (h ∙ sym (append-nil u.notifications), ap (λ t. t ++ row_of_batch b ∷ []) k)
  ]

  module _ ⦃p : Platform⦄ where
    insert_all-Hoare :
        (ns done : List Notification) (bs : List NotificationBatch)
        → Hoare
            (Added u done bs)
            (insert_all ns)
            (λ _. Added u (done ++ map inserted ns) bs)
            Anything
    unfolding insert_all
    insert_all-Hoare [] done bs = record {
      run = λ w (h, k). (h ∙ ap (λ t. u.notifications ++ t) (sym (append-nil done)), k);
    }
    insert_all-Hoare (n ∷ ns) done bs =
        then_do
          (run-Hoare (Added u done bs) Anything (λ _. Added u (done ++ inserted n ∷ []) bs)
            wrap_idempotency_error (insert_notification n) (λ w i. tt)
            (λ w i. insert_notification-adds done bs n (tick w) i))
          (λ _.
            subst
              (λ t.
                Hoare (Added u (done ++ inserted n ∷ []) bs) (insert_all ns) (λ _. Added u t bs)
                  Anything)
              (append_assoc done (inserted n ∷ []) (map inserted ns))
              (insert_all-Hoare ns (done ++ inserted n ∷ []) bs))

    begin-Hoare :
        (I : World → Type 0)
        → ((w : World) → I w → I (tick w))
        → Hoare I (run to_error (λ v. (rows tt, v))) (λ _. I) Anything
    begin-Hoare I keep =
        run-Hoare I Anything (λ _. I) to_error (λ v. (rows tt, v)) (λ w i. tt) (λ w i. keep w i)

    settled :
        {A : Type 0} (Q : A → World → Type 0) (w : World) (r : Result A) (v : World)
        → Unchanged u w
        → After Q Anything r v
        → After Q (Unchanged u) (settle w r v).0 (settle w r v).1
    settled Q w (ok a) v i h = h
    settled Q w (err e) v i h = i

    pub create_batch-Hoare :
        (b : NotificationBatch) (ns : List Notification)
        → Hoare
            (Unchanged u)
            (create_batch b ns)
            (λ _. Added u (map inserted ns) (row_of_batch b ∷ []))
            (Unchanged u)
    unfolding create_batch transaction
    create_batch-Hoare b ns =
        let bs = row_of_batch b ∷ [] in
        let body =
          then_do
            (run-Hoare (Unchanged u) Anything (λ _. Added u [] bs) to_error (insert_batch b)
              (λ w i. tt) (λ w i. insert_batch-adds b (tick w) i))
            (λ _. insert_all-Hoare ns [] bs) in
        record {
          run = λ w i.
              settled (λ _. Added u (map inserted ns) bs) w _ _ i
                ((then_do (begin-Hoare (Unchanged u) (λ w i. i)) (λ _. then_do body (λ _.
                    then_do (begin-Hoare (Added u (map inserted ns) bs) (λ w i. i))
                      (λ _. record { run = λ w i. i })))).run
                  w i);
        }
