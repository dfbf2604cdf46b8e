-- ===== src/Postgres/Passing.antt =====
-- What `List` of internal/adapter/postgres/notification_repo.go is asked for: which notifications pass
-- a filter, which of two comes first, and how long a page is; and that the query tests for this.
use mathlib.Core.Path.{subst}
use event_driven_ns.Prelude.{
  ℕ, ◌<◌, ◌≤◌, Bool, true, false, ◌&&◌, ◌⊎◌, Option, none, some, ◌≡◌, ◌↔◌, refl, ap, arith, eq_iff,
  ==_iff, leb, ltb,
}
use event_driven_ns.Prelude.Int.{ℤ, pos, negsuc}
use event_driven_ns.Domain.Channel.{Channel, is_channel, sms, email, push}
use event_driven_ns.Domain.Status.{
  Status, is_status, pending, scheduled, processing, delivered, failed, cancelled,
}
use event_driven_ns.Domain.Notification.{Uuid, Notification}
use event_driven_ns.Postgres.Rows.{has_id}
use event_driven_ns.Postgres.Notifications.{
  NotificationFilter, given, selected, newer_first, effective_page_size,
}

-- What is asked of a field holds, if it is asked.
abbrev pub IfGiven : {A : Type 0} → Option A → (A → Type 0) → Type 0
IfGiven none P = Unit
IfGiven (some a) P = P a

-- The notification is one that the filter is for.
pub record Passes (f : NotificationFilter) (r : Notification) : Type 0 where
  pub status : IfGiven f.status (λ s. r.status ≡ s)
  pub channel : IfGiven f.channel (λ c. r.channel ≡ c)
  pub batch : IfGiven f.batch_id (λ b. r.batch_id ≡ some b)
  pub from : IfGiven f.date_from (λ t. t ≤ r.created_at)
  pub to : IfGiven f.date_to (λ t. r.created_at ≤ t)
  pub after : IfGiven f.cursor (λ i. r.id < i)

-- The first was made later, or at the same time and has no smaller identifier.
abbrev pub IsNewer : Notification → Notification → Type 0
IsNewer a b = (b.created_at < a.created_at) ⊎ ((a.created_at ≡ b.created_at) × (b.id ≤ a.id))

-- A page has the size that is asked for, from 1 to 100, and else 20.
abbrev pub IsPageSize : ℤ → ℕ → Type 0
IsPageSize (pos n) size = ((1 ≤ n) × (n ≤ 100) × (size ≡ n)) ⊎ (((n ≡ 0) ⊎ (101 ≤ n)) × (size ≡ 20))
IsPageSize (negsuc n) size = size ≡ 20

is_status_refl : (s : Status) → is_status s s ≡ true
unfolding is_status
is_status_refl pending = refl
is_status_refl scheduled = refl
is_status_refl processing = refl
is_status_refl delivered = refl
is_status_refl failed = refl
is_status_refl cancelled = refl
is_status_refl (Status.other x) = (eq_iff x x).1 refl

is_status-eq : (s t : Status) → is_status s t ≡ true → s ≡ t
unfolding is_status
is_status-eq pending pending h = refl
is_status-eq scheduled scheduled h = refl
is_status-eq processing processing h = refl
is_status-eq delivered delivered h = refl
is_status-eq failed failed h = refl
is_status-eq cancelled cancelled h = refl
is_status-eq (Status.other x) (Status.other y) h = ap Status.other ((eq_iff x y).0 h)
is_status-eq _ _ h = cc

is_status_iff : (s t : Status) → (is_status s t ≡ true) ↔ (s ≡ t)
is_status_iff s t = (is_status-eq s t, λ e. subst (λ x. is_status s x ≡ true) e (is_status_refl s))

is_channel_refl : (s : Channel) → is_channel s s ≡ true
unfolding is_channel
is_channel_refl sms = refl
is_channel_refl email = refl
is_channel_refl push = refl
is_channel_refl (Channel.other x) = (eq_iff x x).1 refl

is_channel-eq : (s t : Channel) → is_channel s t ≡ true → s ≡ t
unfolding is_channel
is_channel-eq sms sms h = refl
is_channel-eq email email h = refl
is_channel-eq push push h = refl
is_channel-eq (Channel.other x) (Channel.other y) h = ap Channel.other ((eq_iff x y).0 h)
is_channel-eq _ _ h = cc

is_channel_iff : (s t : Channel) → (is_channel s t ≡ true) ↔ (s ≡ t)
is_channel_iff s t =
    (is_channel-eq s t, λ e. subst (λ x. is_channel s x ≡ true) e (is_channel_refl s))

has_id_iff : (o : Option Uuid) (i : Uuid) → (has_id o i ≡ true) ↔ (o ≡ some i)
has_id_iff none i = (λ h. cc, λ h. cc)
has_id_iff (some j) i = (λ h. ap some ((==_iff j i).0 h), λ h. ground arith)

given_iff :
    {A : Type 0} (o : Option A) (test : A → Bool) (P : A → Type 0)
    → ((a : A) → (test a ≡ true) ↔ P a)
    → (given o test ≡ true) ↔ IfGiven o P
given_iff none test P h = (λ e. tt, λ u. refl)
given_iff (some a) test P h = h a

pub newer_first_iff : (a b : Notification) → (newer_first a b ≡ true) → IsNewer a b
unfolding newer_first
newer_first_iff a b h = ground arith

pub effective_page_size-IsPageSize : (n : ℤ) → IsPageSize n (effective_page_size n)
unfolding effective_page_size
effective_page_size-IsPageSize (pos n) = ground arith
effective_page_size-IsPageSize (negsuc n) = refl

both : (a b : Bool) → (a && b) ≡ true → (a ≡ true) × (b ≡ true)
both true true h = (refl, refl)
both true false h = cc
both false b h = cc

module _ (f : NotificationFilter) (r : Notification) where
  status_iff : (given f.status (is_status r.status) ≡ true) ↔ IfGiven f.status (λ s. r.status ≡ s)
  status_iff = given_iff f.status (is_status r.status) (λ s. r.status ≡ s) (is_status_iff r.status)

  channel_iff :
      (given f.channel (is_channel r.channel) ≡ true) ↔ IfGiven f.channel (λ c. r.channel ≡ c)
  channel_iff =
      given_iff f.channel (is_channel r.channel) (λ c. r.channel ≡ c) (is_channel_iff r.channel)

  batch_iff :
      (given f.batch_id (has_id r.batch_id) ≡ true) ↔ IfGiven f.batch_id (λ b. r.batch_id ≡ some b)
  batch_iff =
      given_iff f.batch_id (has_id r.batch_id) (λ b. r.batch_id ≡ some b) (has_id_iff r.batch_id)

  from_iff :
      (given f.date_from (λ t. leb t r.created_at) ≡ true)
      ↔ IfGiven f.date_from (λ t. t ≤ r.created_at)
  from_iff =
      given_iff f.date_from (λ t. leb t r.created_at) (λ t. t ≤ r.created_at)
        (λ t. (λ h. ground arith, λ h. ground arith))

  to_iff :
      (given f.date_to (λ t. leb r.created_at t) ≡ true) ↔ IfGiven f.date_to (λ t. r.created_at ≤ t)
  to_iff =
      given_iff f.date_to (λ t. leb r.created_at t) (λ t. r.created_at ≤ t)
        (λ t. (λ h. ground arith, λ h. ground arith))

  after_iff : (given f.cursor (λ i. ltb r.id i) ≡ true) ↔ IfGiven f.cursor (λ i. r.id < i)
  after_iff =
      given_iff f.cursor (λ i. ltb r.id i) (λ i. r.id < i)
        (λ i. (λ h. ground arith, λ h. ground arith))

  selected-Passes : selected f r ≡ true → Passes f r
  unfolding selected
  selected-Passes h =
      let (a, rest) = both _ _ h in
      let (b, rest) = both _ _ rest in
      let (c, rest) = both _ _ rest in
      let (d, rest) = both _ _ rest in
      let (e, g) = both _ _ rest in
      record {
        status = status_iff.0 a;
        channel = channel_iff.0 b;
        batch = batch_iff.0 c;
        from = from_iff.0 d;
        to = to_iff.0 e;
        after = after_iff.0 g;
      }

  Passes-selected : Passes f r → selected f r ≡ true
  unfolding selected
  Passes-selected h =
      rw
        (
          status_iff.1 h.status,
          channel_iff.1 h.channel,
          batch_iff.1 h.batch,
          from_iff.1 h.from,
          to_iff.1 h.to,
          after_iff.1 h.after,
        )
        refl

  -- The WHERE clause holds of the notifications that pass.
  pub selected_iff : (selected f r ≡ true) ↔ Passes f r
  selected_iff = (selected-Passes, Passes-selected)
