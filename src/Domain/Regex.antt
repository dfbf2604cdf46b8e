-- ===== src/Domain/Regex.antt =====
-- The part of the standard library's `regexp` that internal/domain/notification.go uses: classes,
-- concatenation, alternatives and repetition, matched against a whole text (`^…$`).
pub mod Correct
pub mod Repeat
use event_driven_ns.Prelude.{
  ℕ, zero, suc, Bool, true, false, ◌&&◌, ◌||◌, List, [], ◌∷◌, if◌then◌else◌,
}

pub data Regex : Type 0 where
  empty epsilon : Regex
  class : (ℕ → Bool) → Regex
  cat alt : Regex → Regex → Regex
  star : Regex → Regex

-- Whether the expression matches the empty text.
pub nullable : Regex → Bool
nullable empty = false
nullable epsilon = true
nullable (class p) = false
nullable (cat r q) = nullable r && nullable q
nullable (alt r q) = nullable r || nullable q
nullable (star r) = true

-- What is left to match after one character.
pub derive : ℕ → Regex → Regex
unfolding nullable
derive c empty = empty
derive c epsilon = empty
derive c (class p) = if p c then epsilon else empty
derive c (cat r q) =
    if nullable r then alt (cat (derive c r) q) (derive c q) else cat (derive c r) q
derive c (alt r q) = alt (derive c r) (derive c q)
derive c (star r) = cat (derive c r) (star r)

-- `MatchString` of `^r$`.
unfoldable pub accepts : Regex → List ℕ → Bool
unfolding nullable derive
accepts r [] = nullable r
accepts r (c ∷ s) = accepts (derive c r) s

-- `r{n}`, and `r{0,n}`.
unfoldable pub exactly : ℕ → Regex → Regex
exactly zero r = epsilon
exactly (suc n) r = cat r (exactly n r)

unfoldable pub at_most : ℕ → Regex → Regex
at_most zero r = epsilon
at_most (suc n) r = alt epsilon (cat r (at_most n r))

-- `r{n,}`; `r+` is `r{1,}`.
unfoldable pub at_least : ℕ → Regex → Regex
unfolding exactly
at_least n r = cat (exactly n r) (star r)
