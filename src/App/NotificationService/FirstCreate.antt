-- ===== src/App/NotificationService/FirstCreate.antt =====
-- The first `Create` with an idempotency key, on a store that does not fail, and its repetition.
use mathlib.Core.Path.{subst}
use event_driven_ns.Prelude.{
  ℕ, Bool, ◌++◌, ◌≤◌, ◌+◌, true, false, List, [], ◌∷◌, Option, none, some, String, str_eq, ◌≡◌,
  refl, sym, ap, ◌∙◌, arith, ◌==◌, ltb,
}
use event_driven_ns.Domain.Error.{Result, ok}
use event_driven_ns.Domain.Notification.{Time, Notification}
use event_driven_ns.Platform.{Platform, UuidRoundTrip}
use event_driven_ns.World.{World, KeyRow, tick, time_now}
use event_driven_ns.World.Hoare.{After, Hoare, also, then_do}
use event_driven_ns.App.NotificationService.Clock.{
  content_of_clock, build_clock, create_clock, remember_clock,
}
use event_driven_ns.Postgres.Table.{find_row, has_row}
use event_driven_ns.Postgres.Driver.{run, query}
use event_driven_ns.Postgres.Rows.{inserted}
use event_driven_ns.Postgres.Healthy.{IsHealthy, stored}
use event_driven_ns.Postgres.Idempotency
use event_driven_ns.Postgres.Idempotency.{
  idempotency_ttl, add_key, is_live, select_key, check_result,
}
use event_driven_ns.Postgres.Driver.Outcome.{query-healthy}
use event_driven_ns.Postgres.Atomic.{Anything}
use event_driven_ns.App.NotificationService.{
  CreateNotificationInput, existing_id, hit, remember, create_new, create,
}
use event_driven_ns.App.NotificationService.Repeat.{
  added_row, live_row, live_row-remember, create-repeat,
}
use event_driven_ns.App.NotificationService.KeyRows.{
  IsFresh, IsRemembered, Stored, weak, has_row-found, prepared-Steady, built-Steady, create-Hoare,
  publish-Steady,
}

later : {a b c : ℕ} → b ≤ c → a ≤ b → a ≤ c
later h g = omega arith

find_row_more :
    {A : Type 0} (f : A → Bool) (rs more : List A) (r : A)
    → find_row f rs ≡ some r
    → find_row f (rs ++ more) ≡ some r
unfolding find_row
find_row_more f [] more r h = absurd (cc)
find_row_more f (x ∷ rs) more r h = ground (arith, find_row_more f rs more r)

module _ ⦃p : Platform⦄ (key : String) where
  module _ (healthy : IsHealthy p) (round_trip : UuidRoundTrip p) where
    notifications-remember :
        (n : Notification) (w : World) → (remember (some key) n w).1.notifications ≡ w.notifications
    unfolding remember Idempotency.set_nx run time_now
    notifications-remember n w =
        rw
          (
            round_trip.parse_string n.id,
            query-healthy (add_key key (n.id, none) (p.now w.step + idempotency_ttl)) (tick w)
                (healthy (tick w).step),
          )
          (unfold add_key in ground arith)

    module _ (start : ℕ) where
      -- The clock was called since.
      abbrev Since : World → Type 0
      Since w = start ≤ w.step

      remember-Hoare :
          (n : Notification)
          → Hoare
              (λ w. Stored key n w × Since w)
              (remember (some key) n)
              (λ _. IsRemembered key start n)
              Anything
      unfolding stored remember
      remember-Hoare n = record {
        run = λ w ((fresh, there), since). (
          ap (find_row (λ r. r.id == n.id)) (notifications-remember n w) ∙ there,
          (
            w,
            (
              since,
              (
                remember_clock key n w,
                λ now soon.
                    live_row-remember healthy round_trip w key n now fresh
                      (has_row-found n.id w.notifications (inserted n) there) soon,
              ),
            ),
          ),
        );
      }

      create_new-Hoare :
          (input : CreateNotificationInput)
          → input.idempotency_key ≡ some key
          → Hoare
              (λ w. IsFresh key w × Since w)
              (create_new input)
              (λ n. IsRemembered key start n)
              Anything
      unfolding create_new
      create_new-Hoare input k =
          then_do
            (also {C = Since} (λ w since. later (content_of_clock input w) since)
              (weak (prepared-Steady key input)))
            (λ content.
              then_do
                (also {C = Since} (λ w since. later (build_clock input content w) since)
                  (weak (built-Steady key input content)))
                (λ n.
                  then_do
                    (also {C = Since} (λ w since. later (create_clock n w) since)
                      (create-Hoare key n))
                    (λ _.
                      then_do
                        (subst
                          (λ o.
                            Hoare (λ w. Stored key n w × Since w) (remember o n)
                              (λ _. IsRemembered key start n) Anything)
                          (sym k) (remember-Hoare n))
                        (λ _.
                          then_do (weak (publish-Steady key start n))
                            (λ _. record { run = λ w i. i })))))

    find_row_unused :
        (now : Time) (rs : List KeyRow)
        → has_row (λ r. str_eq r.key key) rs ≡ false
        → find_row (is_live now key) rs ≡ none
    unfolding find_row has_row is_live
    find_row_unused now [] h = refl
    find_row_unused now (r ∷ rs) h = ground (arith, find_row_unused now rs)

    check_unused : (w : World) → IsFresh key w → Idempotency.check key w ≡ (ok (false, ""), tick w)
    unfolding Idempotency.check query select_key check_result
    check_unused w h = ground (arith, healthy w.step, find_row_unused (p.now w.step) w.keys h)

    existing_id_unused :
        (o : Option String) (w : World)
        → o ≡ some key
        → IsFresh key w
        → existing_id o w ≡ (ok none, tick w)
    unfolding existing_id
    existing_id_unused o w k h =
        ap (λ t. existing_id t w) k ∙ ap (λ x. (ok (hit x.0), x.1)) (check_unused w h)

    create_unused :
        (input : CreateNotificationInput) (w : World)
        → input.idempotency_key ≡ some key
        → IsFresh key w
        → create input w ≡ create_new input (tick w)
    unfolding create
    create_unused input w k h = rw (existing_id_unused input.idempotency_key w k h) refl

    -- When the store does not fail, identifiers survive being written and read, and no row has the
    -- key, a `Create` that succeeds with it stores its notification; and for 24 hours from what the
    -- clock gave at one of its own calls, each `Create` with this key, in any state where the rows of
    -- keys are those that it left and any more after them, gives the notification as it is stored
    -- then and changes nothing, whatever else it says.
    pub create-then_repeat :
        (input : CreateNotificationInput) (w : World) (n : Notification)
        → input.idempotency_key ≡ some key
        → has_row (λ r. str_eq r.key key) w.keys ≡ false
        → (create input w).0 ≡ ok n
        → let v = (create input w).1 in
          (stored v n.id ≡ some (inserted n))
          × ((call : ℕ) × ((w.step ≤ call)
                × ((call ≤ v.step)
                    × ((x : World) (more : List KeyRow) (m : Notification)
                          (input' : CreateNotificationInput)
                        → x.keys ≡ v.keys ++ more
                        → stored x n.id ≡ some m
                        → ltb (p.now x.step) (p.now call + idempotency_ttl) ≡ true
                        → input'.idempotency_key ≡ some key
                        → create input' x ≡ (ok m, tick (tick x))))))
    unfolding added_row live_row
    create-then_repeat input w n k fresh made =
        let e = create_unused input w k fresh in
        let (there, (u, (a, (b, live)))) =
          subst (λ r. After (λ m. IsRemembered key w.step m) Anything r (create input w).1) made
            (subst
              (λ (x : Result Notification × World).
                After (λ m. IsRemembered key w.step m) Anything x.0 x.1)
              (sym e) ((create_new-Hoare w.step input k).run (tick w) (fresh, omega arith))) in
        (
          there,
          (
            u.step,
            (
              a,
              (
                b,
                λ x more m input' same found soon k'.
                    create-repeat healthy round_trip x input' key (added_row u key n.id) m k'
                      (ap (find_row (is_live (p.now x.step) key)) same
                        ∙ find_row_more (is_live (p.now x.step) key) (create input w).1.keys more
                            (added_row u key n.id) (live (p.now x.step) soon))
                      found,
              ),
            ),
          ),
        )
