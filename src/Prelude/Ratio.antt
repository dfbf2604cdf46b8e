-- ===== src/Prelude/Ratio.antt =====
-- The exact value of a float64 that the program computes from whole numbers, before any rounding.
use Prim.Native.Nat.{ℕ, ◌*◌, ◌≤◌}
use event_driven_ns.Prelude.Int.{ℤ, pos, pos_part, neg_part}

-- `over` is not zero.
pub record Ratio : Type 0 where
  pub value : ℤ
  pub over : ℕ

abbrev pub zero_ratio : Ratio
zero_ratio = record { value = pos 0; over = 1 }

-- The ratio is a number, and it is between 0 and n.
abbrev pub IsWithin : ℕ → Ratio → Type 0
IsWithin n r = (1 ≤ r.over) × (neg_part r.value ≤ 0) × (pos_part r.value ≤ n * r.over)
