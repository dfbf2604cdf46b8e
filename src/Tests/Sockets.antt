-- ===== src/Tests/Sockets.antt =====
-- A client of the API, while a notification is delivered in the worker.
use event_driven_ns.Prelude.{◌&&◌, ◌+◌, not, ◌&&◌, [], none, ◌≡◌, refl, ltb, length, if◌then◌else◌}
use event_driven_ns.World.{World, StatusUpdate}
use event_driven_ns.App.DeliveryService.{process_delivery}
use event_driven_ns.Queue.Consumer.{consume}
use event_driven_ns.Program.Reachable.{consumed}
use event_driven_ns.Program.Sockets.{
  Processes, start, ProcessReachable, started, stepped, connected, worked, no_client_is_told,
  broadcast_all, added,
}
use event_driven_ns.Ws.Hub.{Conn, Hub, new_hub, accept, broadcast, is_member, client_count}
use event_driven_ns.Ws.Clients.{HubReachable, new, next, accepted, HubReachable-clients}
use event_driven_ns.Ws.Reach.{run_writes, count_for, is_update, broadcast_reaches}
use event_driven_ns.Tests.Fixtures.{platform, queued}

-- A client connects, then the worker takes the message.
abbrev one_client : Processes
one_client = record (start queued) { api_hub = (accept none new_hub).1 }

abbrev after_delivery : World
after_delivery =
    consume ⦃p = platform 200 none⦄ (process_delivery ⦃p = platform 200 none⦄) "notifications.low"
      queued

abbrev delivered_state : Processes
delivered_state = record one_client {
  world = after_delivery;
  worker_hub = broadcast_all (added queued after_delivery) new_hub;
}

delivered_state-ProcessReachable : ProcessReachable delivered_state
unfolding start
delivered_state-ProcessReachable =
    stepped one_client _ (stepped (start queued) _ (started queued) (connected none))
      (worked after_delivery (consumed (platform 200 none) "notifications.low"))

-- The client is registered.
is_connected : client_count delivered_state.api_hub ≡ 1
unfolding start client_count accept
is_connected = refl

no_client_is_told_example :
    (delivered_state.api_hub.sent ≡ [])
    × (delivered_state.worker_hub.sent ≡ [])
    × (delivered_state.api_hub.waiting ≡ [])
    × (delivered_state.worker_hub.waiting ≡ [])
no_client_is_told_example = no_client_is_told delivered_state delivered_state-ProcessReachable

-- A hub with a client.
abbrev joined : Hub
joined = (accept none new_hub).1

joined-HubReachable : HubReachable joined
joined-HubReachable = next new_hub joined new (accepted none)

HubReachable-clients_example :
    ((c : Conn)
      → is_member c joined.clients ≡ (ltb c joined.opened && not (is_member c joined.closed)))
    × (client_count joined + length joined.closed ≡ joined.opened)
HubReachable-clients_example = HubReachable-clients joined joined-HubReachable

abbrev update : StatusUpdate
update = record { notification_id = "|||"; status = "delivered"; timestamp = "time" }

broadcast_reaches_example :
    count_for 0 update (run_writes (broadcast update joined)).sent
    ≡ count_for 0 update joined.sent
      + count_for 0 update joined.waiting
      + (if is_member 0 joined.clients && is_update update update then 1 else 0)
broadcast_reaches_example = broadcast_reaches joined joined-HubReachable update 0 update
