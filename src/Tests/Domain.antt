-- ===== src/Tests/Domain.antt =====
-- The validators on texts.
use event_driven_ns.Prelude.{none, String, ◌≡◌, ◌↔◌, refl, true, false}
use event_driven_ns.Domain.Error.{ok}
use event_driven_ns.Domain.Channel.{sms}
use event_driven_ns.Domain.Priority.{high}
use event_driven_ns.Domain.Regex.{accepts}
use event_driven_ns.Domain.Regex.Correct.{Matches, accepts_iff}
use event_driven_ns.Domain.Validation.{codes, e164_regex, email_regex}
use event_driven_ns.Domain.Validation.Recipient.{IsE164, IsEmail, e164_regex_iff, email_regex_iff}
use event_driven_ns.Domain.Notification.{Notification, new_notification}
use event_driven_ns.Domain.Notification.Create.{IsAcceptable, new_notification_iff}

abbrev number : String
number = "+90500000000"

number_accepted : accepts e164_regex (codes number) ≡ true
unfolding accepts e164_regex
number_accepted = refl

short_number_refused : accepts e164_regex (codes "+905000") ≡ false
unfolding accepts e164_regex
short_number_refused = refl

abbrev address : String
address = "a.b@example.org"

address_accepted : accepts email_regex (codes address) ≡ true
unfolding accepts email_regex
address_accepted = refl

address_without_dot_refused : accepts email_regex (codes "a@b") ≡ false
unfolding accepts email_regex
address_without_dot_refused = refl

accepts_iff_example : (accepts e164_regex (codes number) ≡ true) ↔ Matches e164_regex (codes number)
accepts_iff_example = accepts_iff e164_regex (codes number)

e164_regex_iff_example : (accepts e164_regex (codes number) ≡ true) ↔ IsE164 (codes number)
e164_regex_iff_example = e164_regex_iff (codes number)

email_regex_iff_example : (accepts email_regex (codes address) ≡ true) ↔ IsEmail (codes address)
email_regex_iff_example = email_regex_iff (codes address)

new_notification_iff_example :
    ((n : Notification) × (new_notification 1 2 sms number "hello" high none ≡ ok n))
    ↔ IsAcceptable sms number "hello" high
new_notification_iff_example = new_notification_iff 1 2 sms number "hello" high none
