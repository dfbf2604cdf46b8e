-- ===== src/Prelude/Atoi.antt =====
-- `strconv.Atoi` of the standard library, for an `int` of 64 bits, and that it reads what `Itoa`
-- writes.
use Prim.Native.Nat.{ℕ, zero, suc, ◌+◌, ◌-◌, ◌*◌, ◌/◌, ◌%◌, ◌≤◌, ◌<◌, ◌^◌}
use Prim.Native.Char.{Char, code}
use Prim.Native.String.append.{nil, cons}
use Prim.Native.String.{String, ◌++◌ as append}
use mathlib.Core.Path.{◌≡◌, refl, ap, ◌∙◌}
use mathlib.Core.Logic.{inl, inr}
use mathlib.Core.Bool.{◌&&◌}
use mathlib.Core.Option.{Option, none, some}
use native.Mathlib.Omega.{arith}
use event_driven_ns.Prelude.Tests.{if◌then◌else◌, leb, ltb, ltb→lt, ◌==◌, Bool-cases}
use event_driven_ns.Prelude.Int.{ℤ, pos, sub_ℕ}
use event_driven_ns.Prelude.Decimal.{digit, digits, itoa}

-- The digits of a text after those that gave the first number.
unfoldable pub digits_value : ℕ → String → Option ℕ
digits_value n String.[] = some n
digits_value n (String.◌∷◌ c s) =
    let rest = digits_value (n * 10 + (code c - 48)) s in
    if leb 48 (code c) && leb (code c) 57 then rest else none

-- At least one digit.
unfoldable pub unsigned : String → Option ℕ
unfolding digits_value
unsigned String.[] = none
unsigned (String.◌∷◌ c s) = digits_value 0 (String.◌∷◌ c s)

-- The range of an int64, with its sign.
abbrev pub positive : Option ℕ → Option ℤ
positive none = none
positive (some n) = if ltb n (2 ^ 63) then some (pos n) else none

abbrev pub negative : Option ℕ → Option ℤ
negative none = none
negative (some n) = if leb n (2 ^ 63) then some (sub_ℕ 0 n) else none

unfoldable pub atoi : String → Option ℤ
unfolding unsigned
atoi String.[] = none
atoi (String.◌∷◌ c s) =
    if code c == b'-'
    then negative (unsigned s)
    else if code c == b'+'
    then positive (unsigned s)
    else positive (unsigned (String.◌∷◌ c s))

-- What a text of digits before another stands for.
abbrev value_of : Option ℕ → String → Option ℕ
value_of none t = none
value_of (some n) t = digits_value n t

digits_value-append :
    (n : ℕ) (s t : String) → digits_value n (append s t) ≡ value_of (digits_value n s) t
unfolding digits_value
digits_value-append n String.[] t = ap (digits_value n) (nil t)
digits_value-append n (String.◌∷◌ c s) t =
    ground (arith, cons c s t, digits_value-append (n * 10 + (code c - 48)) s t)

unsigned-cons :
    (c : Char) (s t : String)
    → unsigned (append (String.◌∷◌ c s) t) ≡ digits_value 0 (append (String.◌∷◌ c s) t)
unfolding unsigned
unsigned-cons c s t = rw (cons c s t) refl

unsigned-append :
    (s t : String) (n : ℕ) → unsigned s ≡ some n → unsigned (append s t) ≡ digits_value n t
unfolding unsigned
unsigned-append String.[] t n h = ground arith
unsigned-append (String.◌∷◌ c s) t n h =
    unsigned-cons c s t ∙ digits_value-append 0 (String.◌∷◌ c s) t ∙ ap (λ o. value_of o t) h

digits_value-digit : (n d : ℕ) → d < 10 → digits_value n (digit d) ≡ some (n * 10 + d)
unfolding digits_value digit
digits_value-digit n zero h = refl
digits_value-digit n (suc zero) h = refl
digits_value-digit n (suc (suc zero)) h = refl
digits_value-digit n (suc (suc (suc zero))) h = refl
digits_value-digit n (suc (suc (suc (suc zero)))) h = refl
digits_value-digit n (suc (suc (suc (suc (suc zero))))) h = refl
digits_value-digit n (suc (suc (suc (suc (suc (suc zero)))))) h = refl
digits_value-digit n (suc (suc (suc (suc (suc (suc (suc zero))))))) h = refl
digits_value-digit n (suc (suc (suc (suc (suc (suc (suc (suc zero)))))))) h = refl
digits_value-digit n (suc (suc (suc (suc (suc (suc (suc (suc (suc zero))))))))) h = refl
digits_value-digit n (suc (suc (suc (suc (suc (suc (suc (suc (suc (suc d)))))))))) h =
    absurd (omega arith)

unsigned-digit : (d : ℕ) → d < 10 → unsigned (digit d) ≡ some d
unfolding unsigned digits_value digit
unsigned-digit zero h = refl
unsigned-digit (suc zero) h = refl
unsigned-digit (suc (suc zero)) h = refl
unsigned-digit (suc (suc (suc zero))) h = refl
unsigned-digit (suc (suc (suc (suc zero)))) h = refl
unsigned-digit (suc (suc (suc (suc (suc zero))))) h = refl
unsigned-digit (suc (suc (suc (suc (suc (suc zero)))))) h = refl
unsigned-digit (suc (suc (suc (suc (suc (suc (suc zero))))))) h = refl
unsigned-digit (suc (suc (suc (suc (suc (suc (suc (suc zero)))))))) h = refl
unsigned-digit (suc (suc (suc (suc (suc (suc (suc (suc (suc zero))))))))) h = refl
unsigned-digit (suc (suc (suc (suc (suc (suc (suc (suc (suc (suc d)))))))))) h =
    absurd (omega arith)

unsigned-digits : (fuel n : ℕ) → n ≤ fuel → unsigned (digits fuel n) ≡ some n
unfolding digits
unsigned-digits zero n h = unsigned-digit n (omega arith)
unsigned-digits (suc fuel) n h = elim (Bool-cases (ltb n 10)) [
  | inl e ↦ rw e (unsigned-digit n (ltb→lt n 10 e))
  | inr e ↦ rw e (
      unsigned-append (digits fuel (n / 10)) (digit (n % 10)) (n / 10)
        (unsigned-digits fuel (n / 10) (ground arith))
      ∙ digits_value-digit (n / 10) (n % 10) (omega arith)
      ∙ ap some (omega arith))
]

-- A text of digits has no sign.
atoi-unsigned : (s : String) (n : ℕ) → unsigned s ≡ some n → n < 2 ^ 63 → atoi s ≡ some (pos n)
unfolding atoi unsigned digits_value
atoi-unsigned String.[] n h b = ground arith
atoi-unsigned (String.◌∷◌ c s) n h b = ground arith

pub atoi-itoa : (n : ℕ) → n < 2 ^ 63 → atoi (itoa n) ≡ some (pos n)
unfolding itoa
atoi-itoa n b = atoi-unsigned (digits n n) n (unsigned-digits n n (omega arith)) b
