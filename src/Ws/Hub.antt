-- ===== src/Ws/Hub.antt =====
-- internal/adapter/ws/hub.go. The mutex makes each method one step. The goroutines that Broadcast
-- starts are jobs that wait, and each of them is a step of its own, in any order; so is the end of a
-- goroutine that reads.
use event_driven_ns.Prelude.{
  ℕ, suc, Bool, not, List, [], ◌∷◌, ◌++◌, Option, none, some, String, ◌==◌, map, length,
  if◌then◌else◌,
}
use event_driven_ns.Domain.Error.{Result, ok, err, foreign}
use event_driven_ns.World.{StatusUpdate}
use event_driven_ns.Postgres.Table.{select_where, has_row}

-- A pointer to a connection of coder/websocket: they are numbered as they are opened.
abbrev pub Conn : Type 0
Conn = ℕ

-- A goroutine of Broadcast.
abbrev pub Job : Type 0
Job = Conn × StatusUpdate

-- The set `clients`, and what is seen of the connections: how many were opened, the writes that wait,
-- those that succeeded, oldest first, and the connections that were closed.
pub record Hub : Type 0 where
  pub clients : List Conn
  pub opened : ℕ
  pub waiting : List Job
  pub sent : List Job
  pub closed : List Conn

unfoldable pub new_hub : Hub
new_hub = record { clients = []; opened = 0; waiting = []; sent = []; closed = [] }

unfoldable pub is_member : Conn → List Conn → Bool
unfolding has_row
is_member conn conns = has_row (λ c. c == conn) conns

-- `m[conn] = struct{}{}`.
unfoldable pub insert : Conn → List Conn → List Conn
unfolding is_member
insert conn conns = if is_member conn conns then conns else conn ∷ conns

-- `delete(m, conn)`.
unfoldable pub delete : Conn → List Conn → List Conn
unfolding select_where
delete conn conns = select_where (λ c. not (c == conn)) conns

-- `websocket.Accept` answers with an error, or with a connection of its own.
unfoldable pub accept : Option String → Hub → Result {0} Unit × Hub
unfolding insert
accept (some reason) h = (err (foreign reason), h)
accept none h = (ok tt, record h { clients = insert h.opened h.clients; opened = suc h.opened })

-- `json.Marshal` of three texts does not fail.
unfoldable pub broadcast : StatusUpdate → Hub → Hub
broadcast u h = record h { waiting = h.waiting ++ map (λ c. (c, u)) h.clients }

-- Closing a connection that is closed changes nothing.
unfoldable pub remove_client : Conn → Hub → Hub
unfolding insert delete
remove_client conn h = record h { clients = delete conn h.clients; closed = insert conn h.closed }

-- The body of a goroutine of Broadcast, with what `Write` answers.
unfoldable pub write : Option String → Job → Hub → Hub
unfolding remove_client
write none job h = record h { sent = h.sent ++ job ∷ [] }
write (some reason) job h = remove_client job.0 h

-- `Read` fails, and the deferred call is made.
unfoldable pub end_read_pump : Conn → Hub → Hub
unfolding remove_client
end_read_pump conn h = remove_client conn h

unfoldable pub client_count : Hub → ℕ
client_count h = length h.clients
