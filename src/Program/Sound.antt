-- ===== src/Program/Sound.antt =====
-- What is true of the tables at all times, and the statements that keep it so.
use mathlib.Core.Path.{subst}
use event_driven_ns.Prelude.{
  true, is_some, none, some, ◌≡◌, ◌∙◌, sym, refl, All, option_cases, inl, inr, Option,
}
use event_driven_ns.Prelude.Int.{ℤ, ◌+ℤ◌, int_laws, eq_of_parts}
use event_driven_ns.Domain.Error.{Error, Result}
use event_driven_ns.Domain.Status.{
  Status, pending, scheduled, processing, delivered, failed, cancelled,
}
use event_driven_ns.Domain.Notification.{Notification, priority_max_retries}
use event_driven_ns.Domain.Notification.Create.{IsAcceptable}
use event_driven_ns.Platform.{Platform}
use event_driven_ns.World.{World, NotificationBatch, tick}
use event_driven_ns.World.Triple.{OnOk, Triple}
use event_driven_ns.Postgres.Driver.Outcome.{run-healthy, run-fault}
use event_driven_ns.Postgres.Driver.{DbError, DbResult, rows, failure, Sql, translate, run}
use event_driven_ns.Postgres.Rows.{set_status, count_down, count_in, one_row}

-- What a status says of the other fields.
abbrev pub IsDated : Status → Notification → Type 0
IsDated scheduled n = is_some n.scheduled_at ≡ true
IsDated delivered n = (is_some n.sent_at ≡ true) × (is_some n.provider_message_id ≡ true)
IsDated failed n = (is_some n.failed_at ≡ true) × (is_some n.error_message ≡ true)
IsDated _ n = Unit

pub record IsConsistent (n : Notification) : Type 0 where
  pub acceptable : IsAcceptable n.channel n.recipient n.content n.priority
  pub attempts : n.max_retries ≡ priority_max_retries n.priority
  pub dated : IsDated n.status n

-- The sum of the four counters.
abbrev pub counted : NotificationBatch → ℤ
counted b = b.pending_count +ℤ b.delivered_count +ℤ b.failed_count +ℤ b.cancelled_count

abbrev pub IsBalanced : NotificationBatch → Type 0
IsBalanced b = counted b ≡ b.total_count

abbrev pub IsSound : World → Type 0
IsSound w = All IsConsistent w.notifications × All IsBalanced w.batches

-- What a row is set to: no status of it needs a date that the UPDATE does not write.
abbrev pub IsWritable : Notification → Type 0
IsWritable n = IsDated n.status (record n { scheduled_at = none })

set_status-IsDated :
    (s : Status) (n r : Notification)
    → IsDated s (record n { scheduled_at = none })
    → IsDated s (set_status n r)
unfolding set_status
set_status-IsDated scheduled n r h = absurd (cc)
set_status-IsDated delivered n r h = h
set_status-IsDated failed n r h = h
set_status-IsDated pending n r h = tt
set_status-IsDated processing n r h = tt
set_status-IsDated cancelled n r h = tt
set_status-IsDated (Status.other s) n r h = tt

pub set_status-IsConsistent :
    (n r : Notification) → IsWritable n → IsConsistent r → IsConsistent (set_status n r)
unfolding set_status
set_status-IsConsistent n r h c = record {
  acceptable = c.acceptable;
  attempts = c.attempts;
  dated = set_status-IsDated n.status n r h;
}

abbrev pub OnSome : {A : Type 0} → (A → Type 0) → Option A → Type 0
OnSome P none = Unit
OnSome P (some a) = P a

-- One notification leaves the pending ones and is counted elsewhere.
pub count_in-IsBalanced :
    (s : Status)
    → OnSome
        (λ f. (b : NotificationBatch) → IsBalanced b → IsBalanced (count_down (f b)))
        (count_in s)
unfolding count_in count_down
count_in-IsBalanced delivered = λ b h. eq_of_parts _ _ (omega int_laws) ∙ h
count_in-IsBalanced failed = λ b h. eq_of_parts _ _ (omega int_laws) ∙ h
count_in-IsBalanced cancelled = λ b h. eq_of_parts _ _ (omega int_laws) ∙ h
count_in-IsBalanced pending = tt
count_in-IsBalanced scheduled = tt
count_in-IsBalanced processing = tt
count_in-IsBalanced (Status.other s) = tt

abbrev pub OnRows : {A : Type 0} → (A → Type 0) → DbResult A → Type 0
OnRows P (rows a) = P a
OnRows P (failure e) = Unit

module _ ⦃p : Platform⦄ where
  translate-OnOk :
      {A : Type 0} (P : A → Type 0) (f : DbError → Error) (r : DbResult A)
      → OnRows P r
      → OnOk P (translate f r)
  translate-OnOk P f (rows a) h = h
  translate-OnOk P f (failure e) h = tt

  -- A statement that keeps a condition, sent to a server that may fail.
  pub run_keeps :
      {A : Type 0} (I : World → Type 0)
      → ((w : World) → I w → I (tick w))
      → (f : DbError → Error) (statement : Sql A) (P : A → Type 0)
      → ((w : World) → I w → I (statement w).1 × OnRows P (statement w).0)
      → Triple I (run f statement) P
  run_keeps {A = A} I later f statement P keep = record {
    keeps = λ w i. elim (option_cases (p.fault w.step)) [
      | inl h ↦
          let (j, k) = keep (tick w) (later w i) in
          subst (λ (x : Result A × World). I x.1 × OnOk P x.0) (sym (run-healthy f statement w h))
            (j, translate-OnOk P f (statement (tick w)).0 k)
      | inr (reason, h) ↦
          subst (λ (x : Result A × World). I x.1 × OnOk P x.0)
            (sym (run-fault f statement w reason h)) (later w i, tt)
    ];
  }

  pub run-Triple :
      {A : Type 0} (f : DbError → Error) (statement : Sql A) (P : A → Type 0)
      → ((w : World) → IsSound w → IsSound (statement w).1 × OnRows P (statement w).0)
      → Triple IsSound (run f statement) P
  run-Triple f statement P keep = run_keeps IsSound (λ w i. i) f statement P keep

pub one_row-OnRows :
    (P : Notification → Type 0) (o : Option Notification) (w : World)
    → ((n : Notification) → o ≡ some n → P n)
    → OnRows P (one_row o w).0
one_row-OnRows P none w h = tt
one_row-OnRows P (some n) w h = h n refl

pub one_row-world : {A : Type 0} (o : Option A) (w : World) → (one_row o w).1 ≡ w
one_row-world none w = refl
one_row-world (some n) w = refl
