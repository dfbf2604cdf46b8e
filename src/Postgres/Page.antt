-- ===== src/Postgres/Page.antt =====
-- What the query of `List` in internal/adapter/postgres/notification_repo.go may return.
use event_driven_ns.Prelude.{
  ◌&&◌, ◌↔◌, refl, sym, ◌∙◌, ℕ, Bool, true, false, List, [], ◌∷◌, ◌≡◌, arith, take, All,
}
use event_driven_ns.Domain.Error.{ok}
use event_driven_ns.Domain.Notification.{Notification}
use event_driven_ns.Platform.{Platform}
use event_driven_ns.World.{World, tick}
use event_driven_ns.Postgres.Driver.{to_error}
use event_driven_ns.Postgres.Driver.Outcome.{run-healthy}
use event_driven_ns.Postgres.Healthy.{IsHealthy}
use event_driven_ns.Postgres.Table.{select_where, order_by}
use event_driven_ns.Postgres.Table.Every.{All-order_by, All-map, All-selected}
use event_driven_ns.Postgres.Table.Ordered.{
  IsOrdered, order_by-IsOrdered, many, many-order_by, many-select_where,
}
use event_driven_ns.Postgres.Passing.{
  Passes, IsNewer, IsPageSize, newer_first_iff, effective_page_size-IsPageSize, selected_iff,
}
use event_driven_ns.Postgres.Notifications.{
  page_rows, list, NotificationFilter, selected, newer_first, effective_page_size,
}

unfoldable pub page : NotificationFilter → List Notification → List Notification
page f rows =
    take (effective_page_size f.page_size) (order_by newer_first (select_where (selected f) rows))

newer_first_total : (a b : Notification) → newer_first a b ≡ false → newer_first b a ≡ true
unfolding newer_first
newer_first_total a b h = ground arith

newer_first_trans :
    (a b c : Notification)
    → newer_first a b ≡ true
    → newer_first b c ≡ true
    → newer_first a c ≡ true
unfolding newer_first
newer_first_trans a b c h k = ground arith

-- Each element is related to all that follow it.
abbrev pub IsSorted : {A : Type 0} → (A → A → Type 0) → List A → Type 0
IsSorted P [] = Unit
IsSorted P (r ∷ rs) = All (P r) rs × IsSorted P rs

IsOrdered-IsSorted : (ns : List Notification) → IsOrdered newer_first ns → IsSorted IsNewer ns
IsOrdered-IsSorted [] h = tt
IsOrdered-IsSorted (n ∷ ns) (h, k) = (
  All-map (λ m. newer_first n m ≡ true) (IsNewer n) ns (λ m. newer_first_iff n m) h,
  IsOrdered-IsSorted ns k,
)

same_truth : (a b : Bool) → (a ≡ true → b ≡ true) → (b ≡ true → a ≡ true) → a ≡ b
same_truth true b f g = sym (f refl)
same_truth false true f g = g refl
same_truth false false f g = refl

-- The notifications are a page of those in the table: the first, up to the size of a page, of all that
-- pass the filter, the newest first. `all` has each of them as often as the table has it, by whatever
-- test one counts.
pub record IsPage (f : NotificationFilter) (table ns : List Notification) : Type 0 where
  pub all : List Notification
  pub passing : All (Passes f) all
  pub complete :
      (passes also : Notification → Bool)
      → ((r : Notification) → (passes r ≡ true) ↔ Passes f r)
      → many also all ≡ many (λ r. passes r && also r) table
  pub sorted : IsSorted IsNewer all
  pub size : ℕ
  pub sized : IsPageSize f.page_size size
  pub first : ns ≡ take size all

All-unit : (table : List Notification) → All (λ r. Unit {0}) table
All-unit [] = tt
All-unit (r ∷ table) = (tt, All-unit table)

page-IsPage : (f : NotificationFilter) (table : List Notification) → IsPage f table (page f table)
unfolding page
page-IsPage f table =
    let chosen = select_where (selected f) table in
    record {
      all = order_by newer_first chosen;
      passing = All-order_by (Passes f) newer_first chosen (
          All-map (λ r. Unit {0} × (selected f r ≡ true)) (Passes f) chosen
            (λ r h. (selected_iff f r).0 h.1)
            (All-selected (λ r. Unit {0}) (selected f) table (All-unit table)));
      complete = λ passes also decides.
          many-order_by newer_first also chosen
          ∙ many-select_where (selected f) passes also table (λ r.
            same_truth (passes r) (selected f r) (λ h. (selected_iff f r).1 ((decides r).0 h))
              (λ h. (decides r).1 ((selected_iff f r).0 h)));
      sorted =
          IsOrdered-IsSorted (order_by newer_first chosen)
            (order_by-IsOrdered newer_first newer_first_total newer_first_trans chosen);
      size = effective_page_size f.page_size;
      sized = effective_page_size-IsPageSize f.page_size;
      first = refl;
    }

pub list-page :
    ⦃p : Platform⦄ (healthy : IsHealthy p) (f : NotificationFilter) (w : World)
    → list f w ≡ (ok (page f w.notifications), tick w)
unfolding list page_rows page
list-page healthy f w = run-healthy to_error (page_rows f) w (healthy w.step)

-- `List` of a store that does not fail gives a page of the table: of all the notifications that pass the
-- filter, by their time of creation and then their identifier, the newest first, as many as the page
-- size says, which is 20 if it is not from 1 to 100.
pub list_lem :
    ⦃p : Platform⦄ (healthy : IsHealthy p) (f : NotificationFilter) (w : World)
    → (ns : List Notification) × (list f w ≡ (ok ns, tick w)) × IsPage f w.notifications ns
list_lem healthy f w =
    (page f w.notifications, list-page healthy f w, page-IsPage f w.notifications)
