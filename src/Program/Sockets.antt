-- ===== src/Program/Sockets.antt =====
-- cmd/api/main.go and cmd/worker/main.go: each process makes a hub of its own. The API serves /ws from
-- its hub and broadcasts nothing; the delivery service of the worker broadcasts on the worker's hub,
-- and the worker serves no request.
use event_driven_ns.Prelude.{
  ◌<◌, List, [], ◌∷◌, ◌++◌, Option, none, some, String, ◌≡◌, refl, sym, ◌∙◌, arith, length, drop,
}
use event_driven_ns.World.{World, StatusUpdate}
use event_driven_ns.Program.Reachable.{Step}
use event_driven_ns.Ws.Hub.{
  Conn, Job, Hub, new_hub, accept, broadcast, write, end_read_pump, remove_client,
}

pub record Processes : Type 0 where
  pub world : World
  pub api_hub : Hub
  pub worker_hub : Hub

-- `main` of both, on this database and broker.
unfoldable pub start : World → Processes
unfolding new_hub
start w = record { world = w; api_hub = new_hub; worker_hub = new_hub }

unfoldable pub broadcast_all : List StatusUpdate → Hub → Hub
unfolding broadcast
broadcast_all [] h = h
broadcast_all (u ∷ us) h = broadcast_all us (broadcast u h)

-- The updates that a step of the program added.
unfoldable pub added : World → World → List StatusUpdate
added w v = drop (length w.updates) v.updates

-- A step of the program, whose updates are those of ProcessDelivery; a client of the API that
-- connects or fails to, or whose reader ends; a goroutine of Broadcast in either process; the end of a
-- reader in the worker.
pub data ProcessStep (s : Processes) : Processes → Type 0 where
  worked :
      (v : World)
      → Step s.world v
      → ProcessStep s
          (record s { world = v; worker_hub = broadcast_all (added s.world v) s.worker_hub })
  connected :
      (answer : Option String) → ProcessStep s (record s { api_hub = (accept answer s.api_hub).1 })
  ended :
      (conn : Conn)
      → conn < s.api_hub.opened
      → ProcessStep s (record s { api_hub = end_read_pump conn s.api_hub })
  written :
      (front back : List Job) (job : Job) (answer : Option String)
      → s.api_hub.waiting ≡ front ++ job ∷ back
      → ProcessStep s
          (record s { api_hub = write answer job (record s.api_hub { waiting = front ++ back }) })
  worker_written :
      (front back : List Job) (job : Job) (answer : Option String)
      → s.worker_hub.waiting ≡ front ++ job ∷ back
      → ProcessStep s (record s {
        worker_hub = write answer job (record s.worker_hub { waiting = front ++ back });
      })
  worker_ended :
      (conn : Conn)
      → conn < s.worker_hub.opened
      → ProcessStep s (record s { worker_hub = end_read_pump conn s.worker_hub })

pub data ProcessReachable : Processes → Type 0 where
  started : (w : World) → ProcessReachable (start w)
  stepped : (s t : Processes) → ProcessReachable s → ProcessStep s t → ProcessReachable t

-- A hub on which nothing is written.
record IsSilent (h : Hub) : Type 0 where
  waiting : h.waiting ≡ []
  sent : h.sent ≡ []

record IsIdle (h : Hub) : Type 0 where
  silent : IsSilent h
  clients : h.clients ≡ []
  opened : h.opened ≡ 0

front_empty : {A : Type 0} (front back : List A) (a : A) → ¬ ([] ≡ front ++ a ∷ back)
front_empty [] back a e = cc
front_empty (b ∷ front) back a e = cc

broadcast-IsIdle : (u : StatusUpdate) (h : Hub) → IsIdle h → IsIdle (broadcast u h)
unfolding broadcast
broadcast-IsIdle u h i = record {
  silent = record { waiting = rw (i.clients, i.silent.waiting) refl; sent = i.silent.sent };
  clients = i.clients;
  opened = i.opened;
}

broadcast_all-IsIdle : (us : List StatusUpdate) (h : Hub) → IsIdle h → IsIdle (broadcast_all us h)
unfolding broadcast_all
broadcast_all-IsIdle [] h i = i
broadcast_all-IsIdle (u ∷ us) h i = broadcast_all-IsIdle us (broadcast u h) (broadcast-IsIdle u h i)

accept-IsSilent : (answer : Option String) (h : Hub) → IsSilent h → IsSilent (accept answer h).1
unfolding accept
accept-IsSilent none h i = record { waiting = i.waiting; sent = i.sent }
accept-IsSilent (some reason) h i = i

end_read_pump-IsSilent : (conn : Conn) (h : Hub) → IsSilent h → IsSilent (end_read_pump conn h)
unfolding end_read_pump remove_client
end_read_pump-IsSilent conn h i = record { waiting = i.waiting; sent = i.sent }

record IsMute (s : Processes) : Type 0 where
  api : IsSilent s.api_hub
  worker : IsIdle s.worker_hub

ProcessStep-IsMute : (s t : Processes) → ProcessStep s t → IsMute s → IsMute t
ProcessStep-IsMute s t (worked v step) m = record {
  api = m.api;
  worker = broadcast_all-IsIdle (added s.world v) s.worker_hub m.worker;
}
ProcessStep-IsMute s t (connected answer) m = record {
  api = accept-IsSilent answer s.api_hub m.api;
  worker = m.worker;
}
ProcessStep-IsMute s t (ended conn b) m = record {
  api = end_read_pump-IsSilent conn s.api_hub m.api;
  worker = m.worker;
}
ProcessStep-IsMute s t (written front back job answer e) m =
    absurd (front_empty front back job (sym m.api.waiting ∙ e))
ProcessStep-IsMute s t (worker_written front back job answer e) m =
    absurd (front_empty front back job (sym m.worker.silent.waiting ∙ e))
ProcessStep-IsMute s t (worker_ended conn b) m = absurd (omega (arith, m.worker.opened))

start-IsMute : (w : World) → IsMute (start w)
unfolding start new_hub
start-IsMute w = record {
  api = record { waiting = refl; sent = refl };
  worker = record {
    silent = record { waiting = refl; sent = refl };
    clients = refl;
    opened = refl;
  };
}

ProcessReachable-IsMute : (s : Processes) → ProcessReachable s → IsMute s
ProcessReachable-IsMute s (started w) = start-IsMute w
ProcessReachable-IsMute s (stepped u _ r step) =
    ProcessStep-IsMute u s step (ProcessReachable-IsMute u r)

-- In every state that the two processes reach, whoever connects and whatever is delivered: no client
-- was ever sent a status update, and no write to one waits.
pub no_client_is_told :
    (s : Processes)
    → ProcessReachable s
    → (s.api_hub.sent ≡ [])
      × (s.worker_hub.sent ≡ [])
      × (s.api_hub.waiting ≡ [])
      × (s.worker_hub.waiting ≡ [])
no_client_is_told s r =
    let m = ProcessReachable-IsMute s r in
    (m.api.sent, m.worker.silent.sent, m.api.waiting, m.worker.silent.waiting)
