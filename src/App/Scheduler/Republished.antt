-- ===== src/App/Scheduler/Republished.antt =====
-- The loops of internal/app/scheduler.go on a store and a broker that do not fail.
use mathlib.Core.Option
use mathlib.Core.Path.{subst}
use event_driven_ns.Prelude.{
  Bool, true, false, ◌&&◌, ◌||◌, List, [], ◌∷◌, ◌++◌, Option, none, some, String, str_eq, eq_iff,
  ◌≡◌, refl, ap, sym, ◌∙◌, arith, option_cases, inl, inr, ◌==◌, ==_iff, All, is_some, if◌then◌else◌,
}
use event_driven_ns.Domain.Error.{Result, ok}
use event_driven_ns.Domain.Status.{pending}
use event_driven_ns.Domain.Notification.{Time, Notification}
use event_driven_ns.Platform.{Platform}
use event_driven_ns.World.{World, Bytes, json, other, Message, tick, time_now}
use event_driven_ns.Postgres.Table.{find_row, has_row, update_where}
use event_driven_ns.Postgres.Table.Lookup.{find_row-update_where}
use event_driven_ns.Postgres.Rows.{set_status}
use event_driven_ns.Postgres.Healthy.{IsHealthy, stored, update_status_lem}
use event_driven_ns.Queue.Publisher.{topic_for_priority, enqueue, write_message, payload}
use event_driven_ns.Queue.Publisher.Healthy.{enqueue-healthy}
use event_driven_ns.App.Scheduler.{mark_pending, requeue, requeue_all}

-- The message is one of this notification, on this topic.
unfoldable pub names : String → Bytes → Bool
names id (json load) = str_eq load.notification_id id
names id (other bytes) = false

module _ ⦃p : Platform⦄ where
  unfoldable pub is_message_of : String → Notification → Message → Bool
  unfolding names
  is_message_of topic n m = str_eq m.topic topic && names (p.uuid_string n.id) m.value

  -- The notification is pending, and a message of it waits on the topic of its priority.
  pub record IsRequeued (n : Notification) (w : World) : Type 0 where
    pub row : Option.map (λ r. r.status) (stored w n.id) ≡ some pending
    pub message :
        (topic : String)
        → topic_for_priority n.priority ≡ some topic
        → has_row (is_message_of topic n) w.messages ≡ true

has_row-append :
    {A : Type 0} (test : A → Bool) (xs ys : List A)
    → has_row test (xs ++ ys) ≡ (has_row test xs || has_row test ys)
unfolding has_row
has_row-append test [] ys = refl
has_row-append test (x ∷ xs) ys = ground (arith, has_row-append test xs ys)

module _ ⦃p : Platform⦄ (healthy : IsHealthy p) where
  -- The state in which the message is published.
  abbrev before_enqueue : Notification → World → World
  before_enqueue n w = record (tick (tick w)) {
    notifications =
        update_where (λ r. r.id == n.id) (set_status (mark_pending (p.now w.step) n))
          w.notifications;
  }

  requeue-enqueue :
      (n : Notification) (w : World)
      → (requeue n w).1 ≡ (enqueue (mark_pending (p.now w.step) n) (before_enqueue n w)).1
  unfolding requeue time_now mark_pending
  requeue-enqueue n w = rw (update_status_lem healthy (tick w) (mark_pending (p.now w.step) n)) refl

  requeue-ok : (n : Notification) (w : World) → (requeue n w).0 ≡ ok tt
  unfolding requeue time_now
  requeue-ok n w = rw (update_status_lem healthy (tick w) (mark_pending (p.now w.step) n)) refl

  enqueue-notifications :
      (n : Notification) (w : World) → (enqueue n w).1.notifications ≡ w.notifications
  unfolding enqueue write_message
  enqueue-notifications n w = ground arith

  enqueue-messages :
      (test : Message → Bool) (n : Notification) (w : World)
      → has_row test w.messages ≡ true
      → has_row test (enqueue n w).1.messages ≡ true
  unfolding enqueue write_message
  enqueue-messages test n w h = elim (option_cases (topic_for_priority n.priority)) [
    | inl e ↦ rw (enqueue, e) h
    | inr (topic, e) ↦
        rw (enqueue-healthy healthy topic n w e) (has_row-append test w.messages _ ∙ rw h refl)
  ]

  requeue-stored :
      (m n : Notification) (w : World)
      → stored (requeue m w).1 n.id ≡ (
          if m.id == n.id
          then Option.map (set_status (mark_pending (p.now w.step) m)) (stored w n.id)
          else stored w n.id)
  unfolding stored set_status
  requeue-stored m n w = rw (requeue-enqueue m w) (
      ap (find_row (λ r. r.id == n.id)) (enqueue-notifications _ _)
      ∙ find_row-update_where (λ (r : Notification). r.id) n.id m.id
          (set_status (mark_pending (p.now w.step) m)) w.notifications (λ r. refl))

  requeue-messages :
      (test : Message → Bool) (m : Notification) (w : World)
      → has_row test w.messages ≡ true
      → has_row test (requeue m w).1.messages ≡ true
  requeue-messages test m w h =
      rw (requeue-enqueue m w) (enqueue-messages test _ (before_enqueue m w) h)

  -- What is requeued stays so while others are.
  pending_kept :
      (again : Bool) (now : Time) (m : Notification) (o : Option Notification)
      → Option.map (λ r. r.status) o ≡ some pending
      → Option.map
          (λ r. r.status)
          (if again then Option.map (set_status (mark_pending now m)) o else o)
        ≡ some pending
  unfolding set_status mark_pending
  pending_kept true now m none h = h
  pending_kept true now m (some r) h = refl
  pending_kept false now m o h = h

  requeue-IsRequeued :
      (n m : Notification) (w : World) → IsRequeued n w → IsRequeued n (requeue m w).1
  requeue-IsRequeued n m w i = record {
    row =
        ap (Option.map (λ r. r.status)) (requeue-stored m n w)
        ∙ pending_kept (m.id == n.id) (p.now w.step) m (stored w n.id) i.row;
    message = λ topic known. requeue-messages (is_message_of topic n) m w (i.message topic known);
  }

  or_true : (a : Bool) → (a || true) ≡ true
  or_true true = refl
  or_true false = refl

  marked :
      (now : Time) (m : Notification) (o : Option Notification)
      → is_some o ≡ true
      → Option.map (λ r. r.status) (Option.map (set_status (mark_pending now m)) o) ≡ some pending
  unfolding set_status mark_pending
  marked now m none h = cc
  marked now m (some r) h = refl

  own_message :
      (topic : String) (n : Notification) (w : World)
      → topic_for_priority n.priority ≡ some topic
      → has_row
          (is_message_of topic n)
          (enqueue (mark_pending (p.now w.step) n) (before_enqueue n w)).1.messages
        ≡ true
  unfolding is_message_of names payload mark_pending has_row
  own_message topic n w known =
      let now = p.now w.step in
      rw (enqueue-healthy healthy topic (mark_pending now n) (before_enqueue n w) known) (
        has_row-append (is_message_of topic n) w.messages _
        ∙ rw
            ((eq_iff topic topic).1 refl, (eq_iff (p.uuid_string n.id) (p.uuid_string n.id)).1 refl)
            (or_true (has_row (is_message_of topic n) w.messages)))

  own_row :
      (n : Notification) (w : World)
      → is_some (stored w n.id) ≡ true
      → Option.map (λ r. r.status) (stored (requeue n w).1 n.id) ≡ some pending
  own_row n w h =
      ap (Option.map (λ r. r.status)) (requeue-stored n n w)
      ∙ rw ((==_iff n.id n.id).1 refl) (marked (p.now w.step) n (stored w n.id) h)

  own-IsRequeued :
      (n : Notification) (w : World) → is_some (stored w n.id) ≡ true → IsRequeued n (requeue n w).1
  own-IsRequeued n w h = record {
    row = own_row n w h;
    message = λ topic known. rw (requeue-enqueue n w) (own_message topic n w known);
  }

  -- The row of each is there.
  abbrev pub AreStored : List Notification → World → Type 0
  AreStored ns w = All (λ n. is_some (stored w n.id) ≡ true) ns

  still_some :
      (again : Bool) (f : Notification → Notification) (o : Option Notification)
      → is_some o ≡ true
      → is_some (if again then Option.map f o else o) ≡ true
  still_some true f none h = h
  still_some true f (some r) h = refl
  still_some false f o h = h

  requeue-AreStored :
      (m : Notification) (ns : List Notification) (w : World)
      → AreStored ns w
      → AreStored ns (requeue m w).1
  requeue-AreStored m [] w h = tt
  requeue-AreStored m (n ∷ ns) w (h, hs) = (
    ap is_some (requeue-stored m n w)
        ∙ still_some (m.id == n.id) (set_status (mark_pending (p.now w.step) m)) (stored w n.id) h,
    requeue-AreStored m ns w hs,
  )

  requeue_all-step :
      (n : Notification) (ns : List Notification) (w : World)
      → requeue_all (n ∷ ns) w ≡ requeue_all ns (requeue n w).1
  unfolding requeue_all
  requeue_all-step n ns w = rw (requeue-ok n w) refl

  pub requeue_all-keeps :
      (n : Notification) (ms : List Notification) (w : World)
      → IsRequeued n w
      → IsRequeued n (requeue_all ms w).1
  requeue_all-keeps n [] w i = unfold requeue_all in i
  requeue_all-keeps n (m ∷ ms) w i =
      rw (requeue_all-step m ms w)
        (requeue_all-keeps n ms (requeue m w).1 (requeue-IsRequeued n m w i))

  pub requeue_all-IsRequeued :
      (ns : List Notification) (w : World)
      → AreStored ns w
      → All (λ n. IsRequeued n (requeue_all ns w).1) ns
  requeue_all-IsRequeued [] w h = tt
  requeue_all-IsRequeued (n ∷ ns) w (h, hs) =
      subst (λ (x : Result {0} Unit × World). All (λ m. IsRequeued m x.1) (n ∷ ns))
        (sym (requeue_all-step n ns w))
        (
          requeue_all-keeps n ns (requeue n w).1 (own-IsRequeued n w h),
          requeue_all-IsRequeued ns (requeue n w).1 (requeue-AreStored n ns w hs),
        )

  pub requeue_all-ok : (ns : List Notification) (w : World) → (requeue_all ns w).0 ≡ ok tt
  requeue_all-ok [] w = unfold requeue_all in refl
  requeue_all-ok (n ∷ ns) w = rw (requeue_all-step n ns w) (requeue_all-ok ns (requeue n w).1)
