-- ===== src/Ws/Clients.antt =====
-- The steps of the hub of internal/adapter/ws/hub.go and what holds after any of them.
use event_driven_ns.Prelude.{
  ℕ, suc, ◌<◌, ◌+◌, true, not, ◌&&◌, List, [], ◌∷◌, ◌++◌, Option, none, some, String, ltb, ◌≡◌,
  refl, arith, length, All,
}
use event_driven_ns.World.{StatusUpdate}
use event_driven_ns.Postgres.Table.{has_row}
use event_driven_ns.Ws.Hub.{
  Conn, Job, Hub, new_hub, is_member, insert, delete, accept, broadcast, remove_client, write,
  end_read_pump, client_count,
}
use event_driven_ns.Ws.Conns.{
  IsUnique, is_member-insert, is_member-delete, insert-IsUnique, delete-IsUnique, delete-absent,
  length-delete, length-insert, is_member-cons,
}
use event_driven_ns.Postgres.Table.Every.{All-append}
use mathlib.Core.Path.{subst}
use event_driven_ns.Prelude.{map}

-- A client that connects or fails to, a broadcast, one of its goroutines, whichever it is, and the end
-- of the goroutine that reads from a connection that was opened.
pub data HubStep (h : Hub) : Hub → Type 0 where
  accepted : (answer : Option String) → HubStep h (accept answer h).1
  announced : (u : StatusUpdate) → HubStep h (broadcast u h)
  written :
      (front back : List Job) (job : Job) (answer : Option String)
      → h.waiting ≡ front ++ job ∷ back
      → HubStep h (write answer job (record h { waiting = front ++ back }))
  ended : (conn : Conn) → conn < h.opened → HubStep h (end_read_pump conn h)

pub data HubReachable : Hub → Type 0 where
  new : HubReachable new_hub
  next : (h k : Hub) → HubReachable h → HubStep h k → HubReachable k

-- What holds after any steps: each connection that was opened is registered or closed and not both,
-- and no other is either.
abbrev IsTracked : List Conn → ℕ → List Conn → Type 0
IsTracked clients opened closed =
    ((c : Conn) → is_member c clients ≡ (ltb c opened && not (is_member c closed)))
    × ((c : Conn) → is_member c closed ≡ true → c < opened)
    × IsUnique clients
    × (length clients + length closed ≡ opened)

abbrev IsBelow : ℕ → Job → Type 0
IsBelow n j = j.0 < n

abbrev AreBelow : ℕ → List Job → Type 0
AreBelow n jobs = All (IsBelow n) jobs

record IsWell (h : Hub) : Type 0 where
  tracked : IsTracked h.clients h.opened h.closed
  jobs : AreBelow h.opened h.waiting

removed-IsTracked :
    (c : Conn) (clients : List Conn) (opened : ℕ) (closed : List Conn)
    → c < opened
    → IsTracked clients opened closed
    → IsTracked (delete c clients) opened (insert c closed)
removed-IsTracked c clients opened closed b (r, k, u, e) = (
  λ d. ground (arith, is_member-delete d c clients, is_member-insert d c closed, r d),
  λ d h. ground (arith, is_member-insert d c closed, k d),
  delete-IsUnique c clients u,
  ground (arith, r c, length-insert c closed, length-delete c clients u, delete-absent c clients),
)

accepted-IsTracked :
    (clients : List Conn) (opened : ℕ) (closed : List Conn)
    → IsTracked clients opened closed
    → IsTracked (insert opened clients) (suc opened) closed
accepted-IsTracked clients opened closed (r, k, u, e) = (
  λ d. ground (arith, is_member-insert d opened clients, r d, k d),
  λ d h. ground (arith, k d),
  insert-IsUnique opened clients u,
  ground (arith, r opened, length-insert opened clients),
)

All-job :
    (opened : ℕ) (front back : List Job) (job : Job)
    → AreBelow opened (front ++ job ∷ back)
    → (job.0 < opened) × AreBelow opened (front ++ back)
All-job opened [] back job (h, hs) = (h, hs)
All-job opened (j ∷ front) back job (h, hs) =
    let (k, ks) = All-job opened front back job hs in (k, (h, ks))

All-more : (n : ℕ) (jobs : List Job) → AreBelow n jobs → AreBelow (suc n) jobs
All-more n [] h = tt
All-more n (j ∷ jobs) (h, hs) = (omega arith, All-more n jobs hs)

All-announced :
    (opened : ℕ) (u : StatusUpdate) (clients : List Conn)
    → ((c : Conn) → is_member c clients ≡ true → c < opened)
    → AreBelow opened (map (λ c. (c, u)) clients)
All-announced opened u [] h = tt
All-announced opened u (c ∷ clients) h = (
  h c (ground (arith, is_member-cons c c clients)),
  All-announced opened u clients (λ d k. h d (ground (arith, is_member-cons d c clients))),
)

HubStep-IsWell : (h k : Hub) → HubStep h k → IsWell h → IsWell k
unfolding accept broadcast write remove_client end_read_pump
HubStep-IsWell h k (accepted none) w = record {
  tracked = accepted-IsTracked h.clients h.opened h.closed w.tracked;
  jobs = All-more h.opened h.waiting w.jobs;
}
HubStep-IsWell h k (accepted (some reason)) w = w
HubStep-IsWell h k (announced u) w = record {
  tracked = w.tracked;
  jobs =
      All-append (IsBelow h.opened) h.waiting (map (λ c. (c, u)) h.clients) w.jobs
        (All-announced h.opened u h.clients (λ c m. ground (arith, w.tracked.0 c)));
}
HubStep-IsWell h k (written front back job none e) w =
    let (b, bs) = All-job h.opened front back job (subst (AreBelow h.opened) e w.jobs) in
    record { tracked = w.tracked; jobs = bs }
HubStep-IsWell h k (written front back job (some reason) e) w =
    let (b, bs) = All-job h.opened front back job (subst (AreBelow h.opened) e w.jobs) in
    record { tracked = removed-IsTracked job.0 h.clients h.opened h.closed b w.tracked; jobs = bs }
HubStep-IsWell h k (ended conn b) w = record {
  tracked = removed-IsTracked conn h.clients h.opened h.closed b w.tracked;
  jobs = w.jobs;
}

new_hub-IsWell : IsWell new_hub
unfolding new_hub is_member has_row
new_hub-IsWell = record { tracked = (λ c. ground arith, λ c h. ground arith, tt, refl); jobs = tt }

HubReachable-IsWell : (h : Hub) → HubReachable h → IsWell h
HubReachable-IsWell h new = new_hub-IsWell
HubReachable-IsWell h (next g k r s) = HubStep-IsWell g k s (HubReachable-IsWell g r)

pub HubReachable-IsUnique : (h : Hub) → HubReachable h → IsUnique h.clients
HubReachable-IsUnique h r = (HubReachable-IsWell h r).tracked.2

-- After any clients, broadcasts, writes and ends of readers, in any order: a connection is a client
-- exactly when it was opened and is not closed, and ClientCount with the closed connections makes up
-- all that were opened.
pub HubReachable-clients :
    (h : Hub)
    → HubReachable h
    → ((c : Conn) → is_member c h.clients ≡ (ltb c h.opened && not (is_member c h.closed)))
      × (client_count h + length h.closed ≡ h.opened)
unfolding client_count
HubReachable-clients h r = let w = HubReachable-IsWell h r in (w.tracked.0, w.tracked.3)
