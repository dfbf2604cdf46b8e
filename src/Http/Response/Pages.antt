-- ===== src/Http/Response/Pages.antt =====
-- When the list of answers panics.
use event_driven_ns.Prelude.{List, [], ◌∷◌, none, some, ◌≡◌, ◌↔◌, refl, arith}
use event_driven_ns.Prelude.Int.{ℤ, pos, negsuc}
use event_driven_ns.Domain.Notification.{Notification}
use event_driven_ns.Platform.{Platform}
use event_driven_ns.Http.Response.{last, new_notification_list_response}

last-nonempty :
    (n : Notification) (ns : List Notification) → (m : Notification) × (last (n ∷ ns) ≡ some m)
unfolding last
last-nonempty n [] = (n, refl)
last-nonempty n (m ∷ ns) = last-nonempty m ns

module _ ⦃p : Platform⦄ where
  -- The list of answers panics exactly for an empty result under a page size of 0, which is what a
  -- query without a page size has.
  pub new_notification_list_response-panics :
      (ns : List Notification) (page_size : ℤ)
      → (new_notification_list_response ns page_size ≡ none) ↔ ((ns ≡ []) × (page_size ≡ pos 0))
  unfolding new_notification_list_response last
  new_notification_list_response-panics [] (pos n) = (λ h. ground arith, λ h. ground arith)
  new_notification_list_response-panics [] (negsuc n) = (λ h. absurd (cc), λ h. absurd (cc))
  new_notification_list_response-panics (n ∷ ns) (pos k) =
      (λ h. ground (arith, last-nonempty n ns), λ h. absurd (cc))
  new_notification_list_response-panics (n ∷ ns) (negsuc k) = (λ h. absurd (cc), λ h. absurd (cc))
