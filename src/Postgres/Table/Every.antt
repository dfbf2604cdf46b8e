-- ===== src/Postgres/Table/Every.antt =====
-- A predicate on all rows of a table, through the statements.
use event_driven_ns.Prelude.{
  Bool, true, false, ℕ, zero, suc, List, [], ◌∷◌, ◌++◌, some, ◌≡◌, All, take, if◌then◌else◌,
  Bool-cases, inl, inr, Option, ◌⊎◌,
}
use mathlib.Core.Path.{subst}
use event_driven_ns.Postgres.Table.{find_row, update_where, select_where, insert_ordered, order_by}

module _ {A : Type 0} (P : A → Type 0) where
  pub All-append : (xs ys : List A) → All P xs → All P ys → All P (xs ++ ys)
  All-append [] ys h k = k
  All-append (x ∷ xs) ys h k = (h.0, All-append xs ys h.1 k)

  pub All-update_where :
      (test : A → Bool) (f : A → A) (rows : List A)
      → ((r : A) → P r → P (f r))
      → All P rows
      → All P (update_where test f rows)
  unfolding update_where
  All-update_where test f [] keep h = tt
  All-update_where test f (r ∷ rows) keep h = (
    elim (Bool-cases (test r)) [ inl e ↦ rw e (keep r h.0) | inr e ↦ rw e h.0 ],
    All-update_where test f rows keep h.1,
  )

  first_or_rest :
      (b : Bool) (r s : A) (rest : Option A)
      → (if b then some r else rest) ≡ some s
      → (r ≡ s) ⊎ (rest ≡ some s)
  first_or_rest true r s rest e = inl (cc)
  first_or_rest false r s rest e = inr e

  pub All-find_row :
      (test : A → Bool) (rows : List A) (s : A) → find_row test rows ≡ some s → All P rows → P s
  unfolding find_row
  All-find_row test [] s e h = absurd (cc)
  All-find_row test (r ∷ rows) s e h = elim (first_or_rest (test r) r s (find_row test rows) e) [
    | inl same ↦ subst P same h.0
    | inr rest ↦ All-find_row test rows s rest h.1
  ]

  pub All-select_where :
      (test : A → Bool) (rows : List A) → All P rows → All P (select_where test rows)
  unfolding select_where
  All-select_where test [] h = tt
  All-select_where test (r ∷ rows) h = elim (Bool-cases (test r)) [
    | inl e ↦ rw e (h.0, All-select_where test rows h.1)
    | inr e ↦ rw e (All-select_where test rows h.1)
  ]

  All-insert_ordered :
      (before : A → A → Bool) (r : A) (rows : List A)
      → P r
      → All P rows
      → All P (insert_ordered before r rows)
  unfolding insert_ordered
  All-insert_ordered before r [] k h = (k, tt)
  All-insert_ordered before r (s ∷ rows) k h = elim (Bool-cases (before r s)) [
    | inl e ↦ rw e (k, h)
    | inr e ↦ rw e (h.0, All-insert_ordered before r rows k h.1)
  ]

  pub All-order_by :
      (before : A → A → Bool) (rows : List A) → All P rows → All P (order_by before rows)
  unfolding order_by
  All-order_by before [] h = tt
  All-order_by before (r ∷ rows) h =
      All-insert_ordered before r (order_by before rows) h.0 (All-order_by before rows h.1)

  pub All-take : (n : ℕ) (rows : List A) → All P rows → All P (take n rows)
  All-take zero rows h = tt
  All-take (suc n) [] h = tt
  All-take (suc n) (r ∷ rows) h = (h.0, All-take n rows h.1)

  -- An update of the rows that pass a test.
  pub All-update_passing :
      (test : A → Bool) (f : A → A) (rows : List A)
      → ((r : A) → P r → test r ≡ true → P (f r))
      → All P rows
      → All P (update_where test f rows)
  unfolding update_where
  All-update_passing test f [] keep h = tt
  All-update_passing test f (r ∷ rows) keep h = (
    elim (Bool-cases (test r)) [ inl e ↦ rw e (keep r h.0 e) | inr e ↦ rw e h.0 ],
    All-update_passing test f rows keep h.1,
  )

  -- The rows that are selected pass the test.
  pub All-selected :
      (test : A → Bool) (rows : List A)
      → All P rows
      → All (λ r. P r × (test r ≡ true)) (select_where test rows)
  unfolding select_where
  All-selected test [] h = tt
  All-selected test (r ∷ rows) h = elim (Bool-cases (test r)) [
    | inl e ↦ rw e ((h.0, e), All-selected test rows h.1)
    | inr e ↦ rw e (All-selected test rows h.1)
  ]

pub All-map :
    {A : Type 0} (P Q : A → Type 0) (rows : List A)
    → ((r : A) → P r → Q r)
    → All P rows
    → All Q rows
All-map P Q [] f h = tt
All-map P Q (r ∷ rows) f (h, hs) = (f r h, All-map P Q rows f hs)
