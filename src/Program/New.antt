-- ===== src/Program/New.antt =====
-- What `NewNotification` makes may be inserted.
use mathlib.Core.Path.{subst}
use event_driven_ns.Prelude.{
  true, none, some, ◌≡◌, ◌⊎◌, refl, sym, Option, String, inl, inr, is_some, arith, if◌then◌else◌,
  ap, ◌∙◌,
}
use event_driven_ns.Domain.Error.{Result, ok}
use event_driven_ns.Domain.Channel.{Channel}
use event_driven_ns.Domain.Priority.{Priority}
use event_driven_ns.Domain.Status.{Status, pending, scheduled}
use event_driven_ns.Domain.Notification.{
  Uuid, Time, Notification, new_notification, priority_max_retries,
}
use event_driven_ns.Domain.Notification.Create.{IsAcceptable, new_notification_iff}
use event_driven_ns.Postgres.Rows.{inserted}
use event_driven_ns.Program.Sound.{IsDated}
use event_driven_ns.Program.Store.{IsInsertable}

-- A notification as `NewNotification` makes it.
pub record IsNew (n : Notification) : Type 0 where
  pub acceptable : IsAcceptable n.channel n.recipient n.content n.priority
  pub attempts : n.max_retries ≡ priority_max_retries n.priority
  pub start : (n.status ≡ pending) ⊎ ((n.status ≡ scheduled) × (is_some n.scheduled_at ≡ true))

start-IsDated :
    (n m : Notification)
    → (n.status ≡ pending) ⊎ ((n.status ≡ scheduled) × (is_some m.scheduled_at ≡ true))
    → IsDated n.status m
start-IsDated n m (inl e) = subst (λ s. IsDated s m) (sym e) tt
start-IsDated n m (inr (e, h)) = subst (λ s. IsDated s m) (sym e) h

pub IsNew-IsInsertable : (n : Notification) → IsNew n → IsInsertable n
unfolding inserted
IsNew-IsInsertable n h = record {
  acceptable = h.acceptable;
  attempts = h.attempts;
  dated = start-IsDated n (inserted n) h.start;
}

module _ (id : Uuid) (now : Time) (channel : Channel) (recipient content : String)
    (priority : Priority) (scheduled_at : Option Time) where
  abbrev pub made : Result Notification
  made = new_notification id now channel recipient content priority scheduled_at

  start_status :
      (s : Status) (o : Option Time)
      → s ≡ (if is_some o then scheduled else pending)
      → (s ≡ pending) ⊎ ((s ≡ scheduled) × (is_some o ≡ true))
  start_status s none e = inl e
  start_status s (some t) e = inr (e, refl)

  made_fields :
      (n : Notification)
      → made ≡ ok n
      → (n.channel ≡ channel)
        × (n.recipient ≡ recipient)
        × (n.content ≡ content)
        × (n.priority ≡ priority)
        × (n.max_retries ≡ priority_max_retries priority)
        × (n.scheduled_at ≡ scheduled_at)
        × (n.status ≡ (if is_some scheduled_at then scheduled else pending))
  unfolding new_notification
  made_fields n h = ground arith

  pub made-IsNew : (n : Notification) → made ≡ ok n → IsNew n
  made-IsNew n h =
      let (a, b, c, d, e, f, g) = made_fields n h in
      record {
        acceptable =
            rw (a, b, c, d)
              ((new_notification_iff id now channel recipient content priority scheduled_at).0
                (n, h));
        attempts = e ∙ ap priority_max_retries (sym d);
        start =
            start_status n.status n.scheduled_at
              (g ∙ ap (λ o. if is_some o then scheduled else pending) (sym f));
      }
