-- ===== src/Postgres/Table.antt =====
-- What the SQL statements do with a table: a list of rows, oldest first.
pub mod Lookup
pub mod Every
pub mod Ordered
use event_driven_ns.Prelude.{
  ℕ, suc, Bool, false, ◌||◌, List, [], ◌∷◌, Option, none, some, if◌then◌else◌,
}

module _ {ℓ} {A : Type ℓ} where
  -- SELECT … WHERE test, where at most one row is wanted.
  unfoldable pub find_row : (A → Bool) → List A → Option A
  find_row test [] = none
  find_row test (r ∷ rs) = if test r then some r else find_row test rs

  -- EXISTS.
  unfoldable pub has_row : (A → Bool) → List A → Bool
  has_row test [] = false
  has_row test (r ∷ rs) = test r || has_row test rs

  -- UPDATE … SET … WHERE test.
  unfoldable pub update_where : (A → Bool) → (A → A) → List A → List A
  update_where test f [] = []
  update_where test f (r ∷ rs) = (if test r then f r else r) ∷ update_where test f rs

  -- RowsAffected, and COUNT(*) FILTER (WHERE test).
  unfoldable pub count_where : (A → Bool) → List A → ℕ
  count_where test [] = 0
  count_where test (r ∷ rs) = let rest = count_where test rs in if test r then suc rest else rest

  -- WHERE test.
  unfoldable pub select_where : (A → Bool) → List A → List A
  select_where test [] = []
  select_where test (r ∷ rs) = let rest = select_where test rs in if test r then r ∷ rest else rest

  -- ORDER BY: `before a b` says that `a` may stand before `b`.
  unfoldable pub insert_ordered : (A → A → Bool) → A → List A → List A
  insert_ordered before r [] = r ∷ []
  insert_ordered before r (s ∷ rs) =
      let rest = insert_ordered before r rs in if before r s then r ∷ s ∷ rs else s ∷ rest

  unfoldable pub order_by : (A → A → Bool) → List A → List A
  unfolding insert_ordered
  order_by before [] = []
  order_by before (r ∷ rs) = insert_ordered before r (order_by before rs)
