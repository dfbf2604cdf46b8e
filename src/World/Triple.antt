-- ===== src/World/Triple.antt =====
-- Triples on the actions of `M`: a condition on the world that every action keeps, whether it
-- succeeds or fails, and a condition on the value of an action that succeeds.
use event_driven_ns.Domain.Error.{Error, Result, ok, err}
use event_driven_ns.World.{World, M, ◌>>=◌, continue, pure, raise, lift, attempt}

abbrev pub OnOk : {A : Type 0} → (A → Type 0) → Result A → Type 0
OnOk P (ok a) = P a
OnOk P (err e) = Unit

abbrev pub Any : {A : Type 0} → A → Type 0
Any a = Unit

pub OnOk-Any : {A : Type 0} (r : Result A) → OnOk Any r
OnOk-Any (ok a) = tt
OnOk-Any (err e) = tt

pub record Triple (I : World → Type 0) {A : Type 0} (m : M A) (P : A → Type 0) : Type 0 where
  pub keeps : (w : World) → I w → I (m w).1 × OnOk P (m w).0

module _ {I : World → Type 0} where
  continue-Triple :
      {A B : Type 0} {f : A → M B} {P : A → Type 0} {Q : B → Type 0}
      → ((a : A) → P a → Triple I (f a) Q)
      → (r : Result A) (v : World) → I v
      → OnOk P r
      → I (continue r f v).1 × OnOk Q (continue r f v).0
  continue-Triple u (ok a) v j k = (u a k).keeps v j
  continue-Triple u (err e) v j k = (j, tt)

  pub bind :
      {A B : Type 0} {m : M A} {f : A → M B} {P : A → Type 0} {Q : B → Type 0}
      → Triple I m P
      → ((a : A) → P a → Triple I (f a) Q)
      → Triple I (m >>= f) Q
  bind {m = m} {f = f} {P = P} {Q = Q} t u = record {
    keeps = λ w i.
        let (j, k) = t.keeps w i in continue-Triple {f = f} {P = P} {Q = Q} u (m w).0 (m w).1 j k;
  }

  pub attempt-Triple :
      {A : Type 0} {m : M A} {P : A → Type 0} → Triple I m P → Triple I (attempt m) Any
  attempt-Triple t = record { keeps = λ w i. ((t.keeps w i).0, tt) }

  pub pure-Triple : {A : Type 0} {P : A → Type 0} (a : A) → P a → Triple I (pure a) P
  pure-Triple a h = record { keeps = λ w i. (i, h) }

  pub raise-Triple : {A : Type 0} {P : A → Type 0} (e : Error) → Triple I (raise {A = A} e) P
  raise-Triple e = record { keeps = λ w i. (i, tt) }

  pub lift-Triple : {A : Type 0} {P : A → Type 0} (r : Result A) → OnOk P r → Triple I (lift r) P
  lift-Triple r h = record { keeps = λ w i. (i, h) }
