-- ===== src/Agent/Sync.antt =====
-- The configuration that an agent asks for (backend/internal/api/agent.go, `agentSync`). The text
-- that `ConfigHash` hashes is the JSON of the configuration, so the hash is an argument.
use yuchen_panel.Common.{
  ℕ, String, Bool, true, not, ◌&&◌, List, Map, Option, none, some, ltb_ℤ, eqb_ℤ, lookup, insert,
  values, keep_if, ◌==◌, if◌then◌else◌,
}
use yuchen_panel.Model.{Time, Server, Node, RelayRoute, Client, PanelData, AgentSyncRequest}
use yuchen_panel.Http.{Method, post, Reply, error, reply, method_not_allowed, bad_request}
use yuchen_panel.Store.{Store, Env, save_locked}
use yuchen_panel.Traffic.{enforce_billing}
use yuchen_panel.Agent.{validate_agent_token}
use yuchen_panel.Xray.Users.{before_text, sort_by}
use yuchen_panel.Xray.Config.{ServerConfig, generate_server_config}

pub record AgentSyncResponse : Type 0 where
  pub ok : Bool
  pub server_id : String
  pub desired_config_hash : String
  pub restart_required : Bool
  pub xray_config : ServerConfig
  pub next_interval_seconds : ℕ
  pub message : String

abbrev pub less_node : Node → Node → Bool
less_node a b = if not (eqb_ℤ a.port b.port) then ltb_ℤ a.port b.port else before_text a.id b.id

abbrev pub less_relay : RelayRoute → RelayRoute → Bool
less_relay a b =
    if not (eqb_ℤ a.relay_port b.relay_port)
    then ltb_ℤ a.relay_port b.relay_port
    else before_text a.id b.id

abbrev pub less_client : Client → Client → Bool
less_client a b =
    if not (a.username == b.username)
    then before_text a.username b.username
    else before_text a.id b.id

unfoldable pub synced_nodes : String → Map Node → List Node
unfolding keep_if values sort_by
synced_nodes id nodes =
    sort_by less_node (keep_if (λ n. n.server_id == id && n.enabled) (values nodes))

unfoldable pub synced_relays : String → Map RelayRoute → List RelayRoute
unfolding keep_if values sort_by
synced_relays id relays =
    sort_by less_relay (keep_if (λ r. r.relay_server_id == id && r.enabled) (values relays))

unfoldable pub synced_clients : Map Client → List Client
unfolding keep_if values sort_by
synced_clients clients = sort_by less_client (keep_if (λ c. c.enabled) (values clients))

-- the configuration of a server, from data whose billing is enforced
unfoldable pub synced_config : (String → String) → Time → String → PanelData → ServerConfig
unfolding synced_nodes synced_relays synced_clients
synced_config sha256_hex now id d =
    generate_server_config sha256_hex now (synced_nodes id d.nodes) (synced_clients d.clients)
      (synced_relays id d.relay_routes) d.nodes d.network_policy

-- what a sync writes into the record of its server
unfoldable pub syncing : Env → AgentSyncRequest → Server → Server
syncing env body s = record s {
  agent_version = body.agent_version;
  last_sync_at = env.now;
  last_sync_message = "agent sync requested";
  updated_at = env.now;
}

unfoldable pub sync_response :
    (ServerConfig → String) → AgentSyncRequest → ServerConfig → AgentSyncResponse
sync_response config_hash body cfg = record {
  ok = true;
  server_id = body.server_id;
  desired_config_hash = config_hash cfg;
  restart_required = not (body.config_hash == config_hash cfg);
  xray_config = cfg;
  next_interval_seconds = 30;
  message = "config generated";
}

-- the part of `agentSync` under the lock, for a server that exists
unfoldable pub sync_server :
    (String → String)
    → (ServerConfig → String)
    → Env
    → AgentSyncRequest
    → Server
    → Store
    → Store × Reply AgentSyncResponse
unfolding syncing
sync_server sha256_hex config_hash env body server s =
    let d = (enforce_billing env.now s.memory).0 in
    let cfg = synced_config sha256_hex env.now body.server_id d in
    let updated = syncing env body server in
    let stored = record d { servers = insert updated.id updated d.servers } in
    (
      (save_locked env.file_written (record s { memory = stored })).0,
      reply 200 (sync_response config_hash body cfg),
    )

-- `agentSync`
unfoldable pub agent_sync :
    (String → String)
    → (ServerConfig → String)
    → Env
    → Method
    → String
    → Option AgentSyncRequest
    → Store
    → Store × Reply AgentSyncResponse
agent_sync sha256_hex config_hash env post token none s = (s, bad_request "invalid json")
agent_sync sha256_hex config_hash env post token (some body) s =
    elim (validate_agent_token s.memory.servers token body.server_id) [
      | some (status, text) ↦ (s, error status text)
      | none ↦ elim (lookup body.server_id s.memory.servers) [
        | none ↦ (s, error 404 "server not registered")
        | some server ↦ sync_server sha256_hex config_hash env body server s
      ]
    ]
agent_sync sha256_hex config_hash env _ token body s = (s, method_not_allowed)
