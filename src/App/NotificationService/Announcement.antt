-- ===== src/App/NotificationService/Announcement.antt =====
-- What is published of the notifications of a batch: the loop at the end of `CreateBatch` of
-- internal/app/notification_service.go.
use mathlib.Core.List.{map, map-append, append-nil, append_assoc}
use event_driven_ns.Prelude.{
  [], ◌∷◌, ◌++◌, List, Option, none, some, String, ◌≡◌, refl, ap, sym, ◌∙◌, inl, inr, option_cases,
}
use event_driven_ns.Domain.Error.{ok}
use event_driven_ns.Domain.Notification.{Time, Notification}
use event_driven_ns.Platform.{Platform}
use event_driven_ns.World.{World, M, Message}
use event_driven_ns.Postgres.Healthy.{IsHealthy}
use event_driven_ns.Queue.Publisher.{topic_for_priority, enqueue, enqueue_scheduled}
use event_driven_ns.Queue.Publisher.Healthy.{enqueue-healthy}
use event_driven_ns.App.NotificationService.{publish, publish_all}

-- The topic and the key of each message.
abbrev pub heads : World → List (String × String)
heads w = map (λ (m : Message). (m.topic, m.key)) w.messages

-- The message for a notification that is scheduled, or is not, on the topic of its priority.
abbrev announcement_at : Option Time → Option String → String → List (String × String)
announcement_at (some t) topic key = []
announcement_at none none key = []
announcement_at none (some topic) key = (topic, key) ∷ []

module _ ⦃p : Platform⦄ where
  -- What is published of a notification: nothing if it is scheduled, else one message on the topic of
  -- its priority, with its identifier for a key.
  abbrev pub announcement : Notification → List (String × String)
  announcement n =
      announcement_at n.scheduled_at (topic_for_priority n.priority) (p.uuid_string n.id)

  abbrev pub announced : List Notification → List (String × String)
  announced [] = []
  announced (n ∷ ns) = announcement n ++ announced ns

module _ ⦃p : Platform⦄ (healthy : IsHealthy p) where
  enqueue-announces :
      (n : Notification) (w : World)
      → heads (enqueue n w).1
        ≡ heads w ++ announcement_at none (topic_for_priority n.priority) (p.uuid_string n.id)
  unfolding enqueue
  enqueue-announces n w = elim (option_cases (topic_for_priority n.priority)) [
    | inl unknown ↦ rw (enqueue, unknown) (sym (append-nil (heads w)))
    | inr (topic, known) ↦
        rw (enqueue-healthy healthy topic n w known, known) (map-append _ w.messages _)
  ]

  publish_at :
      (o : Option Time) (n : Notification) (w : World)
      → let m : M (Unit {0}) = elim o [ some t ↦ enqueue_scheduled n | none ↦ enqueue n ] in
        heads (m w).1
        ≡ heads w ++ announcement_at o (topic_for_priority n.priority) (p.uuid_string n.id)
  unfolding enqueue_scheduled
  publish_at none n w = enqueue-announces n w
  publish_at (some t) n w = sym (append-nil (heads w))

  publish-announces :
      (n : Notification) (w : World) → heads (publish n w).1 ≡ heads w ++ announcement n
  unfolding publish
  publish-announces n w = publish_at n.scheduled_at n w

  pub publish_all-announces :
      (ns : List Notification) (w : World)
      → ((publish_all ns w).0 ≡ ok tt) × (heads (publish_all ns w).1 ≡ heads w ++ announced ns)
  unfolding publish_all
  publish_all-announces [] w = (refl, sym (append-nil (heads w)))
  publish_all-announces (n ∷ ns) w =
      let (done, sent) = publish_all-announces ns (publish n w).1 in
      (
        done,
        sent
            ∙ ap (λ hs. hs ++ announced ns) (publish-announces n w)
            ∙ append_assoc (heads w) (announcement n) (announced ns),
      )
