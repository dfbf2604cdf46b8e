-- ===== src/Prelude/Decimal.antt =====
-- `strconv.Itoa` and the verb `%d` of the standard library, on numbers that are not negative.
use Prim.Native.Nat.{ℕ, zero, suc, ◌/◌, ◌%◌}
use Prim.Native.String.{String, ◌++◌ as append}
use event_driven_ns.Prelude.Tests.{if◌then◌else◌, ltb, ◌==◌}

-- The digit of a number below ten.
unfoldable pub digit : ℕ → String
digit n =
    if n == 0
    then "0"
    else if n == 1
    then "1"
    else if n == 2
    then "2"
    else if n == 3
    then "3"
    else if n == 4
    then "4"
    else if n == 5
    then "5"
    else if n == 6
    then "6"
    else if n == 7
    then "7"
    else if n == 8
    then "8"
    else "9"

-- The fuel is the number itself: each round divides by ten.
unfoldable pub digits : ℕ → ℕ → String
unfolding digit
digits zero n = digit n
digits (suc fuel) n =
    let front = digits fuel (n / 10) in if ltb n 10 then digit n else append front (digit (n % 10))

unfoldable pub itoa : ℕ → String
unfolding digits
itoa n = digits n n
