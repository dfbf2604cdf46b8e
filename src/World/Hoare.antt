-- ===== src/World/Hoare.antt =====
-- Hoare triples on the actions of `M`, with a condition for success and one for failure.
use event_driven_ns.Domain.Error.{Result, ok, err}
use event_driven_ns.World.{World, M, ◌>>=◌, continue, attempt}

abbrev pub After :
    {A : Type 0} → (A → World → Type 0) → (World → Type 0) → Result A → World → Type 0
After Q E (ok a) v = Q a v
After Q E (err e) v = E v

pub record Hoare (I : World → Type 0) {A : Type 0} (m : M A) (Q : A → World → Type 0)
    (E : World → Type 0) : Type 0 where
  pub run : (w : World) → I w → After Q E (m w).0 (m w).1

module _ {E : World → Type 0} where
  continue-After :
      {A B : Type 0} {f : A → M B} {P : A → World → Type 0} {Q : B → World → Type 0}
      → ((a : A) → Hoare (P a) (f a) Q E)
      → (r : Result A) (v : World) → After P E r v
      → After Q E (continue r f v).0 (continue r f v).1
  continue-After u (ok a) v h = (u a).run v h
  continue-After u (err e) v h = h

  pub then_do :
      {I : World → Type 0} {A B : Type 0} {m : M A} {f : A → M B} {P : A → World → Type 0}
      {Q : B → World → Type 0}
      → Hoare I m P E
      → ((a : A) → Hoare (P a) (f a) Q E)
      → Hoare I (m >>= f) Q E
  then_do {m = m} {f = f} {P = P} {Q = Q} t u = record {
    run = λ w i. continue-After {f = f} {P = P} {Q = Q} u (m w).0 (m w).1 (t.run w i);
  }

-- An action that leaves the condition alone, whether it succeeds or fails.
abbrev pub Steady : (World → Type 0) → {A : Type 0} → M A → Type 0
Steady I {A} m = Hoare I m (λ _. I) I

module _ {I : World → Type 0} where
  pub attempt-Steady : {A : Type 0} {m : M A} → Steady I m → Steady I (attempt m)
  attempt-Steady {m = m} t = record { run = λ w i. joined (m w).0 (m w).1 (t.run w i) }
    where
      joined : {A : Type 0} (r : Result A) (v : World) → After (λ (_ : A). I) I r v → I v
      joined (ok a) v h = h
      joined (err e) v h = h

  pub Steady-intro : {A : Type 0} (m : M A) → ((w : World) → I w → I (m w).1) → Steady I m
  Steady-intro m keep = record { run = λ w i. both (m w).0 (m w).1 (keep w i) }
    where
      both : {A : Type 0} (r : Result A) (w : World) → I w → After (λ (_ : A). I) I r w
      both (ok a) w h = h
      both (err e) w h = h

After-map :
    {A : Type 0} (Q R : A → World → Type 0) (E : World → Type 0)
    → ((a : A) (w : World) → Q a w → R a w)
    → (r : Result A) (v : World) → After Q E r v
    → After R E r v
After-map Q R E k (ok a) v h = k a v h
After-map Q R E k (err e) v h = h

-- What does not depend on the world stays true, and a condition may be weakened.
module _ {I E : World → Type 0} {A : Type 0} {m : M A} {Q : A → World → Type 0} where
  pub frame : (F : Type 0) → Hoare I m Q E → Hoare (λ w. I w × F) m (λ a w. Q a w × F) E
  frame F t = record {
    run =
        λ w (i, f). After-map Q (λ a w. Q a w × F) E (λ a w q. (q, f)) (m w).0 (m w).1 (t.run w i);
  }

  pub consequence :
      (R : A → World → Type 0)
      → ((a : A) (w : World) → Q a w → R a w)
      → Hoare I m Q E
      → Hoare I m R E
  consequence R k t = record { run = λ w i. After-map Q R E k (m w).0 (m w).1 (t.run w i) }

After-errors :
    {A : Type 0} (Q : A → World → Type 0) (E F : World → Type 0)
    → ((w : World) → E w → F w)
    → (r : Result A) (v : World) → After Q E r v
    → After Q F r v
After-errors Q E F k (ok a) v h = h
After-errors Q E F k (err e) v h = k v h

After-also :
    {A : Type 0} (Q : A → World → Type 0) (E C : World → Type 0) (r : Result A) (v : World)
    → C v
    → After Q E r v
    → After (λ a w. Q a w × C w) E r v
After-also Q E C (ok a) v c h = (h, c)
After-also Q E C (err e) v c h = h

-- A condition that the action keeps whatever holds besides.
pub also :
    {I E C : World → Type 0} {A : Type 0} {m : M A} {Q : A → World → Type 0}
    → ((w : World) → C w → C (m w).1)
    → Hoare I m Q E
    → Hoare (λ w. I w × C w) m (λ a w. Q a w × C w) E
also {E = E} {C = C} {m = m} {Q = Q} keep t = record {
  run = λ w (i, c). After-also Q E C (m w).0 (m w).1 (keep w c) (t.run w i);
}

-- A weaker condition for failure.
pub on_errors :
    {I E : World → Type 0} {A : Type 0} {m : M A} {Q : A → World → Type 0} (F : World → Type 0)
    → ((w : World) → E w → F w)
    → Hoare I m Q E
    → Hoare I m Q F
on_errors {E = E} {m = m} {Q = Q} F k t = record {
  run = λ w i. After-errors Q E F k (m w).0 (m w).1 (t.run w i);
}
