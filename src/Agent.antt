-- ===== src/Agent.antt =====
-- The endpoints of the agents (backend/internal/api/agent.go): the token, and the heartbeat.
pub mod Rollback
pub mod Sync
pub mod Served
use yuchen_panel.Common.{
  ℕ, String, Bool, true, false, not, Option, none, some, Map, ℤ, pos, ltb_ℤ, lookup, insert, ◌==◌,
  if◌then◌else◌, Outcome, ok, err,
}
use yuchen_panel.Model.{Server, AgentHeartbeat, PanelData}
use yuchen_panel.Http.{Method, post, Reply, error, reply, method_not_allowed, bad_request}
use yuchen_panel.Store.{Store, Env, save_locked}
use yuchen_panel.Traffic.{account_traffic}

-- the zero value, which Go's map gives for a missing key
abbrev pub no_server : Server
no_server = record {
  cpu_cores = pos 0;
  mem_total_bytes = pos 0;
  id = "";
  name = "";
  ip = "";
  host = "";
  region = "";
  provider = "";
  status = "";
  agent_token = "";
  agent_version = "";
  xray_version = "";
  config_hash = "";
  last_sync_at = 0;
  last_sync_message = "";
  cpu_usage = 0;
  memory_usage = 0;
  disk_usage = 0;
  upload_total = pos 0;
  download_total = pos 0;
  created_at = 0;
  updated_at = 0;
}

-- `validateAgentToken`: the status and the text of a refusal; `token` is the header
unfoldable pub validate_agent_token : Map Server → String → String → Option (ℕ × String)
validate_agent_token servers token server_id =
    if server_id == ""
    then some (400, "missing server_id")
    else if token == ""
    then some (401, "missing agent token")
    else elim (lookup server_id servers) [
      | none ↦ some (404, "server not registered")
      | some s ↦ if not (token == s.agent_token) then some (401, "invalid agent token") else none
    ]

-- what a heartbeat writes into the record of its server
unfoldable pub beating : Env → AgentHeartbeat → Server → Server
beating env hb s = record s {
  status = "online";
  agent_version = hb.agent_version;
  xray_version = hb.xray_version;
  config_hash = hb.config_hash;
  last_sync_message = hb.last_message;
  cpu_cores = if ltb_ℤ (pos 0) hb.cpu_cores then hb.cpu_cores else s.cpu_cores;
  mem_total_bytes =
      if ltb_ℤ (pos 0) hb.mem_total_bytes then hb.mem_total_bytes else s.mem_total_bytes;
  cpu_usage = hb.cpu_usage;
  memory_usage = hb.memory_usage;
  disk_usage = hb.disk_usage;
  upload_total = hb.upload_total;
  download_total = hb.download_total;
  updated_at = env.now;
}

abbrev pub value_or : Server → Option Server → Server
value_or zero none = zero
value_or zero (some s) = s

-- the panel's data once a heartbeat is accounted
unfoldable pub record_heartbeat : Env → AgentHeartbeat → PanelData → PanelData
unfolding beating
record_heartbeat env hb d =
    let s = beating env hb (value_or no_server (lookup hb.server_id d.servers)) in
    let accounted = account_traffic env.now hb d in
    record accounted { servers = insert s.id s accounted.servers }

-- the part of `agentHeartbeat` under the lock: a failed save takes the accounting back
unfoldable pub save_heartbeat : Env → AgentHeartbeat → Store → Store × Reply ℕ
save_heartbeat env hb s =
    let previous = value_or no_server (lookup hb.server_id s.memory.servers) in
    let (s', saved) =
      save_locked env.file_written (record s { memory = record_heartbeat env hb s.memory }) in
    if saved then (s', reply 200 30) else (
      record s' {
        memory = record (s'.memory) {
          servers = insert hb.server_id previous s'.memory.servers;
          clients = s.memory.clients;
        };
      },
      error 500 "traffic persistence failed",
    )

-- `agentHeartbeat`; the reply of a success is the seconds until the next one
unfoldable pub agent_heartbeat :
    Env → Method → String → Option AgentHeartbeat → Store → Store × Reply ℕ
agent_heartbeat env post token none s = (s, bad_request "invalid json")
agent_heartbeat env post token (some hb) s =
    elim (validate_agent_token s.memory.servers token hb.server_id) [
      | some (status, text) ↦ (s, error status text)
      | none ↦ save_heartbeat env hb s
    ]
agent_heartbeat env _ token body s = (s, method_not_allowed)
