-- ===== src/Program/Final/Statements.antt =====
-- The statements of internal/adapter/postgres/notification_repo.go as steps of their own, between which
-- those of other operations may come; and a notification whose status is final.
use mathlib.Core.Path.{subst}
use event_driven_ns.Prelude.{
  ℕ, true, false, List, [], ◌∷◌, ◌++◌, ◌≡◌, ◌≢◌, sym, arith, All, ◌==◌, ==_iff, Bool-cases, inl,
  inr,
}
use event_driven_ns.Domain.Error.{ok}
use event_driven_ns.Domain.Status.{Status}
use event_driven_ns.Domain.Notification.{Uuid, Notification}
use event_driven_ns.Platform.{Platform}
use event_driven_ns.World.{World, NotificationBatch}
use event_driven_ns.World.Triple.{OnOk}
use event_driven_ns.Postgres.Table.{has_row}
use event_driven_ns.Postgres.Table.Every.{All-append}
use event_driven_ns.Postgres.Notifications
use event_driven_ns.App.DeliveryService.{is_settled}
use event_driven_ns.Program.Final.Store.{
  IsFinalRow, HasFinal, get_by_id-Final, create-Final, create_batch-Final, update_status-Final,
}
use event_driven_ns.Program.Final.Selected.{list_due-Final, list_stuck-Final, cancel-Final}

-- The identifiers of a list.
abbrev pub ids_of : List Notification → List Uuid
ids_of [] = []
ids_of (n ∷ ns) = n.id ∷ ids_of ns

-- One statement, or a call that touches no notification. `held` are the identifiers of the
-- notifications that some operation has read, and may still write: ProcessDelivery takes one that is
-- not settled, and the scheduler those that its queries give. They are never given up here.
pub data Statement (w : World) (held : List Uuid) : World → List Uuid → Type 0 where
  read :
      (p : Platform) (i : Uuid) (n : Notification)
      → (Notifications.get_by_id ⦃p = p⦄ i w).0 ≡ ok n
      → is_settled n.status ≡ false
      → Statement w held (Notifications.get_by_id ⦃p = p⦄ i w).1 (n.id ∷ held)
  listed_due :
      (p : Platform) (limit : ℕ) (ns : List Notification)
      → (Notifications.list_due_scheduled ⦃p = p⦄ limit w).0 ≡ ok ns
      → Statement w held (Notifications.list_due_scheduled ⦃p = p⦄ limit w).1 (ids_of ns ++ held)
  listed_stuck :
      (p : Platform) (older_than limit : ℕ) (ns : List Notification)
      → (Notifications.list_stuck_processing ⦃p = p⦄ older_than limit w).0 ≡ ok ns
      → Statement w held
          (Notifications.list_stuck_processing ⦃p = p⦄ older_than limit w).1
          (ids_of ns ++ held)
  updated :
      (p : Platform) (n : Notification)
      → has_row (λ i. i == n.id) held ≡ true
      → Statement w held (Notifications.update_status ⦃p = p⦄ n w).1 held
  cancelled_row :
      (p : Platform) (i : Uuid) → Statement w held (Notifications.cancel ⦃p = p⦄ i w).1 held
  inserted_row :
      (p : Platform) (n : Notification) → Statement w held (Notifications.create ⦃p = p⦄ n w).1 held
  inserted_batch :
      (p : Platform) (b : NotificationBatch) (ns : List Notification)
      → Statement w held (Notifications.create_batch ⦃p = p⦄ b ns w).1 held
  elsewhere_done : (v : World) → v.notifications ≡ w.notifications → Statement w held v held

All-has :
    (P : ℕ → Type 0) (i : ℕ) (held : List ℕ) → All P held → has_row (λ j. j == i) held ≡ true → P i
unfolding has_row
All-has P i [] h there = cc
All-has P i (j ∷ held) (h, hs) there = elim (Bool-cases (j == i)) [
  | inl own ↦ subst P ((==_iff j i).0 own) h
  | inr other ↦
      let rest : has_row (λ k. k == i) held ≡ true = ground arith in All-has P i held hs rest
]

ids_of-apart :
    (id : Uuid) (ns : List Notification) → All (λ r. r.id ≢ id) ns → All (λ i. i ≢ id) (ids_of ns)
ids_of-apart id [] h = tt
ids_of-apart id (n ∷ ns) (h, hs) = (h, ids_of-apart id ns hs)

module _ (id : Uuid) (s : Status) (final : is_settled s ≡ true) where
  -- The status is final, and no operation under way has read the notification.
  abbrev pub IsLeft : World → List Uuid → Type 0
  IsLeft w held = HasFinal id s w × All (λ i. i ≢ id) held

  unsettled_apart : (n : Notification) → is_settled n.status ≡ false → IsFinalRow id s n → n.id ≢ id
  unsettled_apart n open_ c own =
      let settled : is_settled n.status ≡ true =
        subst (λ t. is_settled t ≡ true) (sym (c own)) final in
      absurd (cc)

  pub Statement-IsLeft :
      (w v : World) (held held' : List Uuid)
      → Statement w held v held'
      → IsLeft w held
      → IsLeft v held'
  Statement-IsLeft w v held held' (read p i n got open_) (h, k) =
      let (j, c) = (get_by_id-Final id s ⦃p = p⦄ i).keeps w h in
      (j, (unsettled_apart n open_ (subst (OnOk (IsFinalRow id s)) got c), k))
  Statement-IsLeft w v held held' (listed_due p limit ns got) (h, k) =
      let (j, c) = (list_due-Final ⦃p = p⦄ id s final limit).keeps w h in
      (
        j,
        All-append (λ i. i ≢ id) (ids_of ns) held
            (ids_of-apart id ns (subst (OnOk (All (λ r. r.id ≢ id))) got c)) k,
      )
  Statement-IsLeft w v held held' (listed_stuck p older_than limit ns got) (h, k) =
      let (j, c) = (list_stuck-Final ⦃p = p⦄ id s final older_than limit).keeps w h in
      (
        j,
        All-append (λ i. i ≢ id) (ids_of ns) held
            (ids_of-apart id ns (subst (OnOk (All (λ r. r.id ≢ id))) got c)) k,
      )
  Statement-IsLeft w v held held' (updated p n there) (h, k) = (
    ((update_status-Final id s ⦃p = p⦄ n (All-has (λ i. i ≢ id) n.id held k there)).keeps w h).0,
    k,
  )
  Statement-IsLeft w v held held' (cancelled_row p i) (h, k) =
      (((cancel-Final ⦃p = p⦄ id s final i).keeps w h).0, k)
  Statement-IsLeft w v held held' (inserted_row p n) (h, k) =
      (((create-Final id s ⦃p = p⦄ n).keeps w h).0, k)
  Statement-IsLeft w v held held' (inserted_batch p b ns) (h, k) =
      (((create_batch-Final id s ⦃p = p⦄ b ns).keeps w h).0, k)
  Statement-IsLeft w v held held' (elsewhere_done _ same) (h, k) = (
    subst (λ ns. All (IsFinalRow id s) ns × (has_row (λ r. r.id == id) ns ≡ true)) (sym same) h,
    k,
  )
