-- ===== src/Domain/Regex/Repeat.antt =====
-- What a class matches when it is repeated.
use event_driven_ns.Prelude.{
  ℕ, zero, suc, ◌+◌, ◌≤◌, Bool, true, List, [], ◌∷◌, ◌++◌, ◌≡◌, refl, ap, inl, inr, arith, length,
  length-append, All,
}
use event_driven_ns.Domain.Regex.{class, cat, star, exactly, at_most, at_least}
use event_driven_ns.Domain.Regex.Correct.{
  Matches, nothing, char, both, left, right, stop, more, Matches-cat, Matches-alt, Matches-class,
  Matches-epsilon,
}

-- Every character is in the class.
abbrev pub AllIn : (ℕ → Bool) → List ℕ → Type 0
AllIn p s = All (λ c. p c ≡ true) s

exactly_class_cons :
    (p : ℕ → Bool) (n : ℕ) (u t s : List ℕ) (c : ℕ)
    → p c ≡ true
    → u ≡ c ∷ []
    → AllIn p t × (length t ≡ n)
    → s ≡ u ++ t
    → AllIn p s × (length s ≡ suc n)
exactly_class_cons p n u t s c h k r e =
    let split : s ≡ c ∷ t = cc (ap (λ v. v ++ t) k) in rw split ((h, r.0), ap suc r.1)

pub exactly_class :
    (p : ℕ → Bool) (n : ℕ) (s : List ℕ)
    → Matches (exactly n (class p)) s
    → AllIn p s × (length s ≡ n)
unfolding exactly
exactly_class p zero s m = let e = Matches-epsilon m in ground arith
exactly_class p (suc n) s m =
    let (u, t, a, b, e) = Matches-cat m in
    let (c, h, k) = Matches-class a in exactly_class_cons p n u t s c h k (exactly_class p n t b) e

pub class_exactly :
    (p : ℕ → Bool) (n : ℕ) (s : List ℕ) → AllIn p s → length s ≡ n → Matches (exactly n (class p)) s
unfolding exactly
class_exactly p zero [] h l = nothing refl
class_exactly p zero (c ∷ s) h l = absurd (omega arith)
class_exactly p (suc n) [] h l = absurd (omega arith)
class_exactly p (suc n) (c ∷ s) h l =
    both (c ∷ []) s (char c h.0 refl) (class_exactly p n s h.1 (omega arith)) refl

pub at_most_class :
    (p : ℕ → Bool) (n : ℕ) (s : List ℕ)
    → Matches (at_most n (class p)) s
    → AllIn p s × (length s ≤ n)
unfolding at_most
at_most_class p zero s m = rw (Matches-epsilon m) (tt, omega arith)
at_most_class p (suc n) s m = elim (Matches-alt m) [
  | inl a ↦ rw (Matches-epsilon a) (tt, omega arith)
  | inr b ↦
      let (u, t, a, d, e) = Matches-cat b in
      let (c, h, k) = Matches-class a in
      let (i, l) = at_most_class p n t d in
      let (j, w) = exactly_class_cons p (length t) u t s c h k (i, refl) e in (j, omega arith)
]

pub class_at_most :
    (p : ℕ → Bool) (n : ℕ) (s : List ℕ) → AllIn p s → length s ≤ n → Matches (at_most n (class p)) s
unfolding at_most
class_at_most p zero [] h l = nothing refl
class_at_most p zero (c ∷ s) h l = absurd (omega arith)
class_at_most p (suc n) [] h l = left (nothing refl)
class_at_most p (suc n) (c ∷ s) h l =
    right (both (c ∷ []) s (char c h.0 refl) (class_at_most p n s h.1 (omega arith)) refl)

pub AllIn-append : (p : ℕ → Bool) (s t : List ℕ) → AllIn p s → AllIn p t → AllIn p (s ++ t)
AllIn-append p [] t hs ht = ht
AllIn-append p (c ∷ s) t hs ht = (hs.0, AllIn-append p s t hs.1 ht)

star_class : {p : ℕ → Bool} {s : List ℕ} → Matches (star (class p)) s → AllIn p s
star_class (stop e) = rw e tt
star_class {p} (more s t m k e) = let (c, h, i) = Matches-class m in rw (e, i) (h, star_class k)

class_star : (p : ℕ → Bool) (s : List ℕ) → AllIn p s → Matches (star (class p)) s
class_star p [] h = stop refl
class_star p (c ∷ s) h = more (c ∷ []) s (char c h.0 refl) (class_star p s h.1) refl

pub at_least_class :
    (p : ℕ → Bool) (n : ℕ) (s : List ℕ)
    → Matches (at_least n (class p)) s
    → AllIn p s × (n ≤ length s)
unfolding at_least
at_least_class p n s m =
    let (u, t, a, b, e) = Matches-cat m in
    let (i, l) = exactly_class p n u a in
    (rw e (AllIn-append p u t i (star_class b)), rw e (omega (arith, length-append u t)))

pub class_at_least :
    (p : ℕ → Bool) (n : ℕ) (s : List ℕ)
    → AllIn p s
    → n ≤ length s
    → Matches (at_least n (class p)) s
unfolding at_least exactly
class_at_least p zero s h l = both [] s (nothing refl) (class_star p s h) refl
class_at_least p (suc n) [] h l = absurd (omega arith)
class_at_least p (suc n) (c ∷ s) h l =
    let (u, t, a, b, e) = Matches-cat (class_at_least p n s h.1 (omega arith)) in
    both (c ∷ u) t (both (c ∷ []) u (char c h.0 refl) a refl) b (ap (λ v. c ∷ v) e)

-- A run of length between `n` and `n + k` splits into the two repetitions of `r{n,n+k}`.
pub class_range :
    (p : ℕ → Bool) (n k : ℕ) (s : List ℕ)
    → AllIn p s
    → n ≤ length s
    → length s ≤ n + k
    → Matches (cat (exactly n (class p)) (at_most k (class p))) s
unfolding exactly
class_range p zero k s h a b = both [] s (nothing refl) (class_at_most p k s h (omega arith)) refl
class_range p (suc n) k [] h a b = absurd (omega arith)
class_range p (suc n) k (c ∷ s) h a b =
    let (u, t, m, q, e) = Matches-cat (class_range p n k s h.1 (omega arith) (omega arith)) in
    both (c ∷ u) t (both (c ∷ []) u (char c h.0 refl) m refl) q (ap (λ v. c ∷ v) e)
