-- ===== src/Postgres/Table/Lookup.antt =====
-- Reading a table by its key, after an update and after an insertion.
use event_driven_ns.Prelude.{
  Bool, true, ◌&&◌, ◌≤◌, refl, ℕ, false, List, [], ◌∷◌, ◌++◌, some, ◌≡◌, arith, ◌==◌, if◌then◌else◌,
}
use event_driven_ns.Postgres.Table.{select_where, count_where, find_row, has_row, update_where}
use mathlib.Core.Option

module _ {A : Type 0} (key : A → ℕ) where
  -- An update by key that leaves the keys alone is seen at its key, and nowhere else.
  pub find_row-update_where :
      (i j : ℕ) (f : A → A) (rows : List A)
      → ((r : A) → key (f r) ≡ key r)
      → find_row (λ r. key r == i) (update_where (λ r. key r == j) f rows) ≡ (
          if j == i
          then Option.map f (find_row (λ r. key r == i) rows)
          else find_row (λ r. key r == i) rows)
  unfolding find_row update_where
  find_row-update_where i j f [] keep = ground arith
  find_row-update_where i j f (r ∷ rows) keep =
      ground (arith, keep r, find_row-update_where i j f rows keep)

  -- The same for an update by key that also tests the row.
  pub find_row-update_where_and :
      (i j : ℕ) (test : A → Bool) (f : A → A) (rows : List A)
      → ((r : A) → key (f r) ≡ key r)
      → find_row (λ r. key r == i) (update_where (λ r. key r == j && test r) f rows) ≡ (
          if j == i
          then Option.map (λ r. if test r then f r else r) (find_row (λ r. key r == i) rows)
          else find_row (λ r. key r == i) rows)
  unfolding find_row update_where
  find_row-update_where_and i j test f [] keep = ground arith
  find_row-update_where_and i j test f (r ∷ rows) keep =
      ground (arith, keep r, find_row-update_where_and i j test f rows keep)

  -- A row that is found and passes the test is counted.
  pub count_where-found :
      (i : ℕ) (test : A → Bool) (s : A) (rows : List A)
      → find_row (λ r. key r == i) rows ≡ some s
      → test s ≡ true
      → 1 ≤ count_where (λ r. key r == i && test r) rows
  unfolding find_row count_where
  count_where-found i test s [] h k = cc
  count_where-found i test s (t ∷ rows) h k = ground (arith, count_where-found i test s rows)

  -- A new row is found by its own key, if no other row has it.
  pub find_row-append :
      (i : ℕ) (r : A) (rows : List A)
      → has_row (λ s. key s == i) rows ≡ false
      → key r ≡ i
      → find_row (λ s. key s == i) (rows ++ r ∷ []) ≡ some r
  unfolding find_row has_row
  find_row-append i r [] h e = ground arith
  find_row-append i r (s ∷ rows) h e = ground (arith, find_row-append i r rows)

  pub find_row-append_old :
      (i : ℕ) (s : A) (rows more : List A)
      → find_row (λ t. key t == i) rows ≡ some s
      → find_row (λ t. key t == i) (rows ++ more) ≡ some s
  unfolding find_row
  find_row-append_old i s [] more h = cc
  find_row-append_old i s (t ∷ rows) more h = ground (arith, find_row-append_old i s rows more)

  pub key-find_row :
      (i : ℕ) (s : A) (rows : List A) → find_row (λ t. key t == i) rows ≡ some s → key s ≡ i
  unfolding find_row
  key-find_row i s [] h = cc
  key-find_row i s (t ∷ rows) h = ground (arith, key-find_row i s rows)

pub select_where-append {ℓ} :
    {A : Type ℓ} (test : A → Bool) (xs ys : List A)
    → select_where test (xs ++ ys) ≡ select_where test xs ++ select_where test ys
unfolding select_where
select_where-append test [] ys = refl
select_where-append test (x ∷ xs) ys = ground (arith, select_where-append test xs ys)
