-- ===== src/Domain/Regex/Correct.antt =====
-- The matcher of `Regex` decides the relation by which regular expressions are read.
use event_driven_ns.Prelude.{
  ℕ, Bool, true, false, ◌&&◌, List, [], ◌∷◌, ◌++◌, ◌≡◌, refl, ap, sym, ◌∙◌, ◌↔◌, ◌⊎◌, inl, inr,
  arith, Bool-cases, if◌then◌else◌,
}
use event_driven_ns.Domain.Regex.{
  Regex, empty, epsilon, class, cat, alt, star, nullable, derive, accepts,
}

-- What an expression matches.
pub data Matches : Regex → List ℕ → Type 0 where
  nothing : {s : List ℕ} → s ≡ [] → Matches epsilon s
  char : {p : ℕ → Bool} {s : List ℕ} (c : ℕ) → p c ≡ true → s ≡ c ∷ [] → Matches (class p) s
  both :
      {r q : Regex} {u : List ℕ} (s t : List ℕ)
      → Matches r s
      → Matches q t
      → u ≡ s ++ t
      → Matches (cat r q) u
  left : {r q : Regex} {s : List ℕ} → Matches r s → Matches (alt r q) s
  right : {r q : Regex} {s : List ℕ} → Matches q s → Matches (alt r q) s
  stop : {r : Regex} {s : List ℕ} → s ≡ [] → Matches (star r) s
  more :
      {r : Regex} {u : List ℕ} (s t : List ℕ)
      → Matches r s
      → Matches (star r) t
      → u ≡ s ++ t
      → Matches (star r) u

and_true : (a b : Bool) → (a && b) ≡ true → (a ≡ true) × (b ≡ true)
and_true a b h = ground arith

nullable-Matches : (r : Regex) → nullable r ≡ true → Matches r []
unfolding nullable
nullable-Matches empty h = cc
nullable-Matches epsilon h = nothing refl
nullable-Matches (class p) h = cc
nullable-Matches (cat r q) h =
    let (a, b) = and_true (nullable r) (nullable q) h in
    both [] [] (nullable-Matches r a) (nullable-Matches q b) refl
nullable-Matches (alt r q) h = elim (Bool-cases (nullable r)) [
  | inl a ↦ left (nullable-Matches r a)
  | inr b ↦ right (nullable-Matches q (ground arith))
]
nullable-Matches (star r) h = stop refl

append_nil_parts : (s t : List ℕ) → [] ≡ s ++ t → (s ≡ []) × (t ≡ [])
append_nil_parts [] t h = (refl, sym h)
append_nil_parts (c ∷ s) t h = cc

Matches-nullable : {r : Regex} {s : List ℕ} → Matches r s → s ≡ [] → nullable r ≡ true
unfolding nullable
Matches-nullable (nothing e) h = refl
Matches-nullable (char c p e) h = cc
Matches-nullable (both s t m k e) h =
    let (a, b) = append_nil_parts s t (sym h ∙ e) in rw (Matches-nullable m a, Matches-nullable k b)
Matches-nullable (left m) h = rw (Matches-nullable m h)
Matches-nullable (right {r = r} m) h = ground (arith, Matches-nullable m h)
Matches-nullable (stop e) h = refl
Matches-nullable (more s t m k e) h = refl

pub Matches-cat :
    {r q : Regex} {u : List ℕ}
    → Matches (cat r q) u
    → (s : List ℕ) × (t : List ℕ) × Matches r s × Matches q t × (u ≡ s ++ t)
Matches-cat (both s t m k e) = (s, t, m, k, e)

pub Matches-alt : {r q : Regex} {s : List ℕ} → Matches (alt r q) s → Matches r s ⊎ Matches q s
Matches-alt (left m) = inl m
Matches-alt (right m) = inr m

pub Matches-class :
    {p : ℕ → Bool} {s : List ℕ} → Matches (class p) s → (c : ℕ) × (p c ≡ true) × (s ≡ c ∷ [])
Matches-class (char c h e) = (c, h, e)

pub Matches-epsilon : {s : List ℕ} → Matches epsilon s → s ≡ []
Matches-epsilon (nothing e) = e

Matches-empty : {s : List ℕ} → ¬ Matches empty s
Matches-empty m = elim m [ ]

-- From the rest after one character back to the whole.
class_unstep :
    (p : ℕ → Bool) (c : ℕ) {s : List ℕ} (b : Bool)
    → p c ≡ b
    → Matches (if b then epsilon else empty) s
    → Matches (class p) (c ∷ s)
class_unstep p c true e m = char c e (ap (λ t. c ∷ t) (Matches-epsilon m))
class_unstep p c false e m = absurd (Matches-empty m)

cat_unstep :
    (c : ℕ) (r q : Regex) {u : List ℕ}
    → ((s : List ℕ) → Matches (derive c r) s → Matches r (c ∷ s))
    → Matches (cat (derive c r) q) u
    → Matches (cat r q) (c ∷ u)
cat_unstep c r q back m =
    let (s, t, a, b, e) = Matches-cat m in both (c ∷ s) t (back s a) b (ap (λ v. c ∷ v) e)

cat_unstep_if :
    (c : ℕ) (r q : Regex) {u : List ℕ} (b : Bool)
    → nullable r ≡ b
    → ((s : List ℕ) → Matches (derive c r) s → Matches r (c ∷ s))
    → ((s : List ℕ) → Matches (derive c q) s → Matches q (c ∷ s))
    → Matches (if b then alt (cat (derive c r) q) (derive c q) else cat (derive c r) q) u
    → Matches (cat r q) (c ∷ u)
cat_unstep_if c r q {u} true e back_r back_q m = elim (Matches-alt m) [
  | inl a ↦ cat_unstep c r q back_r a
  | inr b ↦ both [] (c ∷ u) (nullable-Matches r e) (back_q u b) refl
]
cat_unstep_if c r q false e back_r back_q m = cat_unstep c r q back_r m

derive-Matches : (c : ℕ) (r : Regex) (s : List ℕ) → Matches (derive c r) s → Matches r (c ∷ s)
unfolding derive
derive-Matches c empty s m = absurd (Matches-empty m)
derive-Matches c epsilon s m = absurd (Matches-empty m)
derive-Matches c (class p) s m = class_unstep p c (p c) refl m
derive-Matches c (cat r q) s m =
    cat_unstep_if c r q (nullable r) refl (derive-Matches c r) (derive-Matches c q) m
derive-Matches c (alt r q) s m = elim (Matches-alt m) [
  | inl a ↦ left (derive-Matches c r s a)
  | inr b ↦ right (derive-Matches c q s b)
]
derive-Matches c (star r) s m =
    let (u, t, a, b, e) = Matches-cat m in
    more (c ∷ u) t (derive-Matches c r u a) b (ap (λ v. c ∷ v) e)

-- From the whole to the rest after one character.
class_step :
    (p : ℕ → Bool) (c : ℕ) (b : Bool) {s : List ℕ}
    → p c ≡ b
    → Matches (class p) (c ∷ s)
    → Matches (if b then epsilon else empty) s
class_step p c true e m = let (d, h, k) = Matches-class m in nothing (cc)
class_step p c false e m = let (d, h, k) = Matches-class m in absurd (ground arith)

cat_step :
    (c : ℕ) (r q : Regex) (b : Bool) {u : List ℕ} (s t : List ℕ)
    → nullable r ≡ b
    → Matches r s
    → Matches q t
    → c ∷ u ≡ s ++ t
    → ((v : List ℕ) → s ≡ c ∷ v → Matches (derive c r) v)
    → (t ≡ c ∷ u → Matches (derive c q) u)
    → Matches (if b then alt (cat (derive c r) q) (derive c q) else cat (derive c r) q) u
cat_step c r q true [] t n m k e step_r step_q = right (step_q (sym e))
cat_step c r q false [] t n m k e step_r step_q = absurd (ground (arith, Matches-nullable m refl))
cat_step c r q true (d ∷ s) t n m k e step_r step_q = left (both s t (step_r s (cc)) k (cc))
cat_step c r q false (d ∷ s) t n m k e step_r step_q = both s t (step_r s (cc)) k (cc)

Matches-derive :
    (c : ℕ) {r : Regex} {u : List ℕ}
    → Matches r u
    → (s : List ℕ) → u ≡ c ∷ s
    → Matches (derive c r) s
unfolding derive
Matches-derive c (nothing e) s h = absurd (cc)
Matches-derive c (char {p = p} d k e) s h = class_step p c (p c) refl (char d k (sym h ∙ e))
Matches-derive c (both {r = r} {q = q} v t m k e) s h =
    cat_step c r q (nullable r) v t refl m k (sym h ∙ e) (Matches-derive c m) (Matches-derive c k s)
Matches-derive c (left m) s h = left (Matches-derive c m s h)
Matches-derive c (right m) s h = right (Matches-derive c m s h)
Matches-derive c (stop e) s h = absurd (cc)
Matches-derive c (more [] t m k e) s h = Matches-derive c k s (cc)
Matches-derive c (more (d ∷ v) t m k e) s h = both v t (Matches-derive c m v (cc)) k (cc)

accepts-Matches : (r : Regex) (s : List ℕ) → accepts r s ≡ true → Matches r s
unfolding accepts
accepts-Matches r [] h = nullable-Matches r h
accepts-Matches r (c ∷ s) h = derive-Matches c r s (accepts-Matches (derive c r) s h)

Matches-accepts : (r : Regex) (s : List ℕ) → Matches r s → accepts r s ≡ true
unfolding accepts
Matches-accepts r [] m = Matches-nullable m refl
Matches-accepts r (c ∷ s) m = Matches-accepts (derive c r) s (Matches-derive c m s refl)

-- The matcher accepts a text exactly when the expression matches it.
pub accepts_iff : (r : Regex) (s : List ℕ) → (accepts r s ≡ true) ↔ Matches r s
accepts_iff r s = (accepts-Matches r s, Matches-accepts r s)
