-- ===== src/Panel/Interface.antt =====
-- What a property of the panel's data must be kept by, so that every sequence of requests keeps it.
use yuchen_panel.Common.{◌≡◌, String, Option, some, lookup, Map}
use yuchen_panel.Model.{
  Time, Server, Client, Node, RelayRoute, LandingExit, AgentHeartbeat, PanelData,
}
use yuchen_panel.Store.{Store, Env, normalize, add_log}
use yuchen_panel.Store.SingleMode.{ensure_single_mode_locked}
use yuchen_panel.Clients.{create_client, update_client, delete_client, reset_token}
use yuchen_panel.Nodes.{Keys, create_node, update_node, delete_node}
use yuchen_panel.Relays.{
  create_relay, update_relay, delete_relay, CreateClientRelayRequest, create_client_with_relay,
}
use yuchen_panel.Servers.{create_server, update_server, delete_server}
use yuchen_panel.Agent.{save_heartbeat}

pub record Keeps (parse_time : String → Option Time) (keys : Keys) (I : PanelData → Type 0)
    : Type 0 where
  pub saved : (d : PanelData) → I d → I (normalize d)
  pub logged :
      (env : Env) (action detail : String) (d : PanelData) → I d → I (add_log env action detail d)
  pub exits : (d : PanelData) (m : Map LandingExit) → I d → I (record d { landing_exits = m })
  pub settles : (env : Env) (s : Store) → I s.memory → I (ensure_single_mode_locked env s).memory
  pub creates_client :
      (env : Env) (body : Client) (s : Store) → I s.memory → I (create_client env body s).0.memory
  pub updates_client :
      (env : Env) (id : String) (item body : Client) (s : Store)
      → lookup id s.memory.clients ≡ some item
      → I s.memory
      → I (update_client env id item body s).0.memory
  pub deletes_client :
      (env : Env) (id : String) (s : Store) → I s.memory → I (delete_client env id s).0.memory
  pub resets_token :
      (env : Env) (id : String) (s : Store) → I s.memory → I (reset_token env id s).0.memory
  pub creates_with_relay :
      (env : Env) (body : Option CreateClientRelayRequest) (s : Store)
      → I s.memory
      → I (create_client_with_relay parse_time env keys body s).0.memory
  pub creates_node :
      (env : Env) (body : Node) (s : Store) → I s.memory → I (create_node env keys body s).0.memory
  pub updates_node :
      (env : Env) (id : String) (item body : Node) (s : Store)
      → I s.memory
      → I (update_node env keys id item body s).0.memory
  pub deletes_node :
      (env : Env) (id : String) (s : Store) → I s.memory → I (delete_node env id s).0.memory
  pub creates_relay :
      (env : Env) (body : RelayRoute) (s : Store)
      → I s.memory
      → I (create_relay env keys body s).0.memory
  pub updates_relay :
      (env : Env) (id : String) (item body : RelayRoute) (s : Store)
      → I s.memory
      → I (update_relay env keys id item body s).0.memory
  pub deletes_relay :
      (env : Env) (id : String) (s : Store) → I s.memory → I (delete_relay env id s).0.memory
  pub creates_server :
      (env : Env) (body : Server) (s : Store) → I s.memory → I (create_server env body s).0.memory
  pub updates_server :
      (env : Env) (id : String) (item body : Server) (s : Store)
      → I s.memory
      → I (update_server env id item body s).0.memory
  pub deletes_server :
      (env : Env) (id : String) (s : Store) → I s.memory → I (delete_server env id s).0.memory
  pub beats :
      (env : Env) (hb : AgentHeartbeat) (s : Store)
      → I s.memory
      → I (save_heartbeat env hb s).0.memory
