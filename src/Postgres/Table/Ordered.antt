-- ===== src/Postgres/Table/Ordered.antt =====
-- ORDER BY on the rows of a table: the rows stand in order, and each as often as before.
use event_driven_ns.Prelude.{
  ℕ, suc, zero, ◌+◌, Bool, true, false, List, [], ◌∷◌, ◌≡◌, refl, ap, ◌∙◌, arith, take, All, ◌&&◌,
  Bool-cases, inl, inr, if◌then◌else◌,
}
use event_driven_ns.Postgres.Table.{select_where, order_by, insert_ordered}
use event_driven_ns.Postgres.Table.Every.{All-take}

-- Each row may stand before all that follow it.
abbrev pub IsOrdered {ℓ} : {A : Type ℓ} → (A → A → Bool) → List A → Type ℓ
IsOrdered before [] = Unit
IsOrdered before (r ∷ rs) = All (λ s. before r s ≡ true) rs × IsOrdered before rs

module _ {A : Type 0} (before : A → A → Bool)
    (total : (a b : A) → before a b ≡ false → before b a ≡ true)
    (chain : (a b c : A) → before a b ≡ true → before b c ≡ true → before a c ≡ true) where
  All-before :
      (a b : A) (rs : List A)
      → before a b ≡ true
      → All (λ s. before b s ≡ true) rs
      → All (λ s. before a s ≡ true) rs
  All-before a b [] h k = tt
  All-before a b (r ∷ rs) h k = (chain a b r h k.0, All-before a b rs h k.1)

  All-insert :
      (P : A → Type 0) (r : A) (rs : List A) → P r → All P rs → All P (insert_ordered before r rs)
  unfolding insert_ordered
  All-insert P r [] h k = (h, tt)
  All-insert P r (s ∷ rs) h k = elim (Bool-cases (before r s)) [
    | inl e ↦ rw e (h, k)
    | inr e ↦ rw e (k.0, All-insert P r rs h k.1)
  ]

  insert_ordered-IsOrdered :
      (r : A) (rs : List A) → IsOrdered before rs → IsOrdered before (insert_ordered before r rs)
  unfolding insert_ordered
  insert_ordered-IsOrdered r [] h = (tt, tt)
  insert_ordered-IsOrdered r (s ∷ rs) h = elim (Bool-cases (before r s)) [
    | inl e ↦ rw e ((e, All-before r s rs e h.0), h)
    | inr e ↦ rw e (
      All-insert (λ t. before s t ≡ true) r rs (total r s e) h.0,
      insert_ordered-IsOrdered r rs h.1,
    )
  ]

  pub order_by-IsOrdered : (rs : List A) → IsOrdered before (order_by before rs)
  unfolding order_by
  order_by-IsOrdered [] = tt
  order_by-IsOrdered (r ∷ rs) =
      insert_ordered-IsOrdered r (order_by before rs) (order_by-IsOrdered rs)

  take-IsOrdered : (n : ℕ) (rs : List A) → IsOrdered before rs → IsOrdered before (take n rs)
  take-IsOrdered zero rs h = tt
  take-IsOrdered (suc n) [] h = tt
  take-IsOrdered (suc n) (r ∷ rs) h =
      (All-take (λ s. before r s ≡ true) n rs h.0, take-IsOrdered n rs h.1)

-- How many elements of a list pass a test.
unfoldable pub many : {A : Type 0} → (A → Bool) → List A → ℕ
many test [] = 0
many test (r ∷ rs) = (if test r then 1 else 0) + many test rs

module _ {A : Type 0} (before : A → A → Bool) (test : A → Bool) where
  many-insert_ordered :
      (r : A) (rs : List A)
      → many test (insert_ordered before r rs) ≡ (if test r then 1 else 0) + many test rs
  unfolding many insert_ordered
  many-insert_ordered r [] = refl
  many-insert_ordered r (s ∷ rs) = ground (arith, many-insert_ordered r rs)

  pub many-order_by : (rs : List A) → many test (order_by before rs) ≡ many test rs
  unfolding many order_by
  many-order_by [] = refl
  many-order_by (r ∷ rs) =
      many-insert_ordered r (order_by before rs)
      ∙ ap (λ n. (if test r then 1 else 0) + n) (many-order_by rs)

-- The selected rows that pass a test are those of the table that pass both.
pub many-select_where :
    {A : Type 0} (chosen test also : A → Bool) (rs : List A)
    → ((r : A) → test r ≡ chosen r)
    → many also (select_where chosen rs) ≡ many (λ r. test r && also r) rs
unfolding many select_where
many-select_where chosen test also [] same = refl
many-select_where chosen test also (r ∷ rs) same =
    ground (arith, same r, many-select_where chosen test also rs same)
