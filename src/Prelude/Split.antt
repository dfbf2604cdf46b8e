-- ===== src/Prelude/Split.antt =====
-- `strings.Split` of the standard library, for a separator of one character, with its inverse
-- `strings.Join`.
use Prim.Native.Char.{Char, code}
use Prim.Native.String.{String, ◌++◌ as append}
use Prim.Native.String.append.{nil, cons}
use mathlib.Core.Path.{◌≡◌, refl, ap, ◌∙◌}
use mathlib.Core.Logic.{inl, inr}
use mathlib.Core.Bool.{Bool, false, ◌||◌}
use mathlib.Core.List.{List, [], ◌∷◌}
use text.Mathlib.TextEquality.{Char-path}
use native.Mathlib.Omega.{arith}
use event_driven_ns.Prelude.Tests.{if◌then◌else◌, ◌==◌, Bool-cases}
use event_driven_ns.Prelude.Lists.{All}

-- A character in front of the first part.
unfoldable pub extend : Char → List String → List String
extend c [] = String.◌∷◌ c "" ∷ []
extend c (part ∷ parts) = String.◌∷◌ c part ∷ parts

unfoldable pub split : Char → String → List String
unfolding extend
split sep String.[] = "" ∷ []
split sep (String.◌∷◌ c s) =
    let rest = split sep s in if code c == code sep then "" ∷ rest else extend c rest

-- The parts after the first have the separator in front.
unfoldable pub join_rest : Char → List String → String
join_rest sep [] = ""
join_rest sep (part ∷ parts) = String.◌∷◌ sep (append part (join_rest sep parts))

unfoldable pub join : Char → List String → String
unfolding join_rest
join sep [] = ""
join sep (part ∷ parts) = append part (join_rest sep parts)

unfoldable pub has_char : Char → String → Bool
has_char sep String.[] = false
has_char sep (String.◌∷◌ c s) = code c == code sep || has_char sep s

-- At least one part.
abbrev pub IsSome : List String → Type 0
IsSome [] = ⊥
IsSome (part ∷ parts) = Unit

extend-IsSome : (c : Char) (parts : List String) → IsSome (extend c parts)
unfolding extend
extend-IsSome c [] = tt
extend-IsSome c (part ∷ parts) = tt

pub split-IsSome : (sep : Char) (s : String) → IsSome (split sep s)
unfolding split
split-IsSome sep String.[] = tt
split-IsSome sep (String.◌∷◌ c s) = elim (Bool-cases (code c == code sep)) [
  | inl e ↦ rw e tt
  | inr e ↦ rw e (extend-IsSome c (split sep s))
]

join-extend :
    (sep c : Char) (parts : List String) → join sep (extend c parts) ≡ String.◌∷◌ c (join sep parts)
unfolding join extend join_rest
join-extend sep c [] = cons c "" "" ∙ ap (String.◌∷◌ c) (nil "")
join-extend sep c (part ∷ parts) = cons c part (join_rest sep parts)

join-cut :
    (sep : Char) (parts : List String)
    → IsSome parts
    → join sep ("" ∷ parts) ≡ String.◌∷◌ sep (join sep parts)
unfolding join join_rest
join-cut sep [] h = absurd h
join-cut sep (part ∷ parts) h = nil (String.◌∷◌ sep (append part (join_rest sep parts)))

join_one : (sep : Char) → join sep ("" ∷ []) ≡ ""
unfolding join join_rest
join_one sep = nil ""

-- The parts, joined, are the text again.
pub join-split : (sep : Char) (s : String) → join sep (split sep s) ≡ s
unfolding split
join-split sep String.[] = join_one sep
join-split sep (String.◌∷◌ c s) = elim (Bool-cases (code c == code sep)) [
  | inl e ↦ rw e (
      join-cut sep (split sep s) (split-IsSome sep s)
      ∙ ap (String.◌∷◌ sep) (join-split sep s)
      ∙ ap (λ d. String.◌∷◌ d s) (Char-path sep c (ground (arith, e))))
  | inr e ↦ rw e (join-extend sep c (split sep s) ∙ ap (String.◌∷◌ c) (join-split sep s))
]

-- No part has the separator.
abbrev pub IsFree : Char → String → Type 0
IsFree sep part = has_char sep part ≡ false

extend-IsFree :
    (sep c : Char) (parts : List String)
    → (code c == code sep) ≡ false
    → All (IsFree sep) parts
    → All (IsFree sep) (extend c parts)
unfolding extend has_char
extend-IsFree sep c [] e h = (rw e refl, tt)
extend-IsFree sep c (part ∷ parts) e (h, hs) = (rw e h, hs)

pub split-IsFree : (sep : Char) (s : String) → All (IsFree sep) (split sep s)
unfolding split has_char
split-IsFree sep String.[] = (refl, tt)
split-IsFree sep (String.◌∷◌ c s) = elim (Bool-cases (code c == code sep)) [
  | inl e ↦ rw e (refl, split-IsFree sep s)
  | inr e ↦ rw e (extend-IsFree sep c (split sep s) e (split-IsFree sep s))
]
