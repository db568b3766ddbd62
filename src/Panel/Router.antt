-- ===== src/Panel/Router.antt =====
-- The routes of the API (backend/internal/api/router.go), one after the other. The import and the
-- tests of exits are in Exits/History.
use yuchen_panel.Common.{String, List, [], ◌∷◌, Option, none, some, lookup}
use yuchen_panel.Model.{Time, Server, Client, Node, RelayRoute, LandingExit, AgentHeartbeat}
use yuchen_panel.Http.{Method}
use yuchen_panel.Store.{Store, Env}
use yuchen_panel.Clients.{clients, client_by_id}
use yuchen_panel.Nodes.{Keys, nodes, node_by_id}
use yuchen_panel.Relays.{relays, relay_by_id, CreateClientRelayRequest, create_client_with_relay}
use yuchen_panel.Servers.{servers, server_by_id}
use yuchen_panel.Exits.{landing_exits, exit_request}
use yuchen_panel.Agent.{agent_heartbeat}

-- One request: its method, its decoded body, and the path below the collection.
pub data Request : Type 0 where
  clients_request : Method → Option Client → Request
  client_request_by_id : Method → String → Option Client → Option CreateClientRelayRequest → Request
  nodes_request : Method → Option Node → Request
  node_request_by_id : Method → String → Option Node → Request
  relays_request : Method → Option RelayRoute → Request
  relay_request_by_id : Method → String → Option RelayRoute → Request
  servers_request : Method → Option Server → Request
  server_request_by_id : Method → String → Option Server → Request
  exits_request : Method → Option LandingExit → Request
  exit_request_by_id : Method → String → Option LandingExit → Request
  heartbeat_request : Method → String → Option AgentHeartbeat → Request

module _ (sha256_hex : String → String) (parse_time : String → Option Time) (keys : Keys) where
  -- the route of `Router` that serves the request
  unfoldable pub serve : Env → Request → Store → Store
  serve env (clients_request m body) s = (clients sha256_hex env m body s).0
  serve env (client_request_by_id m rest body relay) s =
      (client_by_id sha256_hex (create_client_with_relay parse_time env keys relay) env m rest body
        s).0
  serve env (nodes_request m body) s = (nodes env keys m body s).0
  serve env (node_request_by_id m id body) s = (node_by_id env keys m id body s).0
  serve env (relays_request m body) s = (relays env keys m body s).0
  serve env (relay_request_by_id m id body) s = (relay_by_id env keys m id body s).0
  serve env (servers_request m body) s = (servers env m body s).0
  serve env (server_request_by_id m id body) s = (server_by_id env m id body s).0
  serve env (exits_request m body) s = (landing_exits env m body s).0
  serve env (exit_request_by_id m id body) s = elim (lookup id s.memory.landing_exits) [
    | none ↦ s
    | some item ↦ (exit_request env m body id item s).0
  ]
  serve env (heartbeat_request m token body) s = (agent_heartbeat env m token body s).0

  -- requests in the order in which they hold the store's lock
  unfoldable pub run : List (Env × Request) → Store → Store
  run [] s = s
  run ((env, request) ∷ rest) s = run rest (serve env request s)
