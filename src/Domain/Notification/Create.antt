-- ===== src/Domain/Notification/Create.antt =====
-- `NewNotification` accepts exactly what the channel and the priority allow.
use Prim.Native.String.len
use text.Mathlib.TextPositions.{len_utf8-pos}
use event_driven_ns.Prelude.{◌≤◌, Option, none, String, len, eq_iff, ◌≡◌, ◌≢◌, refl, ◌↔◌, arith}
use event_driven_ns.Domain.Error.{ok}
use event_driven_ns.Domain.Channel.{Channel, sms, email, push}
use event_driven_ns.Domain.Priority.{Priority}
use event_driven_ns.Domain.Validation.{
  codes, validate_channel, validate_recipient, validate_content, validate_priority,
}
use event_driven_ns.Domain.Validation.Recipient.{IsE164, IsEmail, e164_regex_iff, email_regex_iff}
use event_driven_ns.Domain.Notification.{Uuid, Time, Notification, new_notification}

-- What README.md promises of a notification, channel by channel.
abbrev pub IsReachable : Channel → String → Type 0
IsReachable sms recipient = IsE164 (codes recipient)
IsReachable email recipient = IsEmail (codes recipient)
IsReachable push recipient = Unit
IsReachable (Channel.other s) recipient = ⊥

abbrev pub Fits : Channel → String → Type 0
Fits sms content = len content ≤ 160
Fits email content = len content ≤ 10000
Fits push content = len content ≤ 4096
Fits (Channel.other s) content = ⊥

abbrev pub IsKnown : Priority → Type 0
IsKnown (Priority.other s) = ⊥
IsKnown _ = Unit

pub record IsAcceptable (channel : Channel) (recipient content : String) (priority : Priority)
    : Type 0 where
  pub recipient_given : recipient ≢ ""
  pub reachable : IsReachable channel recipient
  pub content_given : content ≢ ""
  pub fits : Fits channel content
  pub known_priority : IsKnown priority

recipient_ok :
    (c : Channel) (r : String)
    → validate_channel c ≡ none
    → validate_recipient c r ≡ none
    → (r ≢ "") × IsReachable c r
unfolding validate_channel validate_recipient
recipient_ok sms r k h = ground (arith, eq_iff r "", e164_regex_iff (codes r))
recipient_ok email r k h = ground (arith, eq_iff r "", email_regex_iff (codes r))
recipient_ok push r k h = ground (arith, eq_iff r "")
recipient_ok (Channel.other s) r k h = cc

len-pos : (s : String) → s ≢ "" → 1 ≤ len s
len-pos String.[] h = absurd (h refl)
len-pos (String.◌∷◌ c s) h = omega (arith, len.cons c s, (len_utf8-pos c).1)

ok_recipient :
    (c : Channel) (r : String)
    → r ≢ ""
    → IsReachable c r
    → (validate_channel c ≡ none) × (validate_recipient c r ≡ none)
unfolding validate_channel validate_recipient
ok_recipient sms r k h = ground (arith, eq_iff r "", (e164_regex_iff (codes r)).1 h)
ok_recipient email r k h = ground (arith, eq_iff r "", (email_regex_iff (codes r)).1 h)
ok_recipient push r k h = ground (arith, eq_iff r "", len-pos r k)
ok_recipient (Channel.other s) r k h = absurd h

content_ok : (c : Channel) (t : String) → validate_content c t ≡ none → (t ≢ "") × Fits c t
unfolding validate_content
content_ok sms t h = ground (arith, eq_iff t "")
content_ok email t h = ground (arith, eq_iff t "")
content_ok push t h = ground (arith, eq_iff t "")
content_ok (Channel.other s) t h = ground (arith, eq_iff t "")

ok_content : (c : Channel) (t : String) → t ≢ "" → Fits c t → validate_content c t ≡ none
unfolding validate_content
ok_content sms t k h = ground (arith, eq_iff t "")
ok_content email t k h = ground (arith, eq_iff t "")
ok_content push t k h = ground (arith, eq_iff t "")
ok_content (Channel.other s) t k h = absurd h

priority_ok : (p : Priority) → validate_priority p ≡ none → IsKnown p
unfolding validate_priority
priority_ok (Priority.other s) h = cc
priority_ok _ h = tt

ok_priority : (p : Priority) → IsKnown p → validate_priority p ≡ none
unfolding validate_priority
ok_priority (Priority.other s) h = absurd h
ok_priority _ h = refl

module _ (id : Uuid) (now : Time) (channel : Channel) (recipient content : String)
    (priority : Priority) (scheduled_at : Option Time) where
  abbrev Built : Notification → Type 0
  Built n = new_notification id now channel recipient content priority scheduled_at ≡ ok n

  pub validated :
      (n : Notification)
      → Built n
      → (validate_channel channel ≡ none)
        × (validate_recipient channel recipient ≡ none)
        × (validate_content channel content ≡ none)
        × (validate_priority priority ≡ none)
  unfolding new_notification
  validated n h = ground arith

  Built-IsAcceptable :
      (n : Notification) → Built n → IsAcceptable channel recipient content priority
  Built-IsAcceptable n h =
      let (a, b, c, d) = validated n h in
      let (e, f) = recipient_ok channel recipient a b in
      let (g, k) = content_ok channel content c in
      record {
        recipient_given = e;
        reachable = f;
        content_given = g;
        fits = k;
        known_priority = priority_ok priority d;
      }

  IsAcceptable-Built :
      IsAcceptable channel recipient content priority → (n : Notification) × Built n
  unfolding new_notification
  IsAcceptable-Built h =
      let (a, b) = ok_recipient channel recipient h.recipient_given h.reachable in
      rw
        (
          a,
          b,
          ok_content channel content h.content_given h.fits,
          ok_priority priority h.known_priority,
        )
        (_, refl)

  -- A notification is made exactly when the channel is one of the three, the recipient has the
  -- channel's format, the content is not empty and within the channel's limit in bytes, and the
  -- priority is one of the three.
  pub new_notification_iff :
      ((n : Notification) × (new_notification id now channel recipient content priority scheduled_at
          ≡ ok n))
      ↔ IsAcceptable channel recipient content priority
  new_notification_iff = (λ m. Built-IsAcceptable m.0 m.1, IsAcceptable-Built)
