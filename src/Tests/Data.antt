-- ===== src/Tests/Data.antt =====
-- A small panel: one server with two inbounds and a relay route, and two clients.
use yuchen_panel.Common.{String, true, false, none, some, [], ◌∷◌, pos, ◌+◌, Option, ok}
use yuchen_panel.Model.{
  Node, Server, Client, RelayRoute, LandingExit, NetworkPolicy, PanelData, AgentHeartbeat, Time,
}
use yuchen_panel.Store.{Store, Env}
use yuchen_panel.Nodes.{Keys}

-- 2024-01-01, in nanoseconds since the zero time
abbrev pub noon : Time
noon = 63839664000000000000

abbrev pub server : Server
server = record {
  cpu_cores = pos 2;
  mem_total_bytes = pos 0;
  id = "s1";
  name = "local";
  ip = "203.0.113.1";
  host = "";
  region = "";
  provider = "";
  status = "online";
  agent_token = "secret";
  agent_version = "1.0.6";
  xray_version = "";
  config_hash = "";
  last_sync_at = noon;
  last_sync_message = "";
  cpu_usage = 0;
  memory_usage = 0;
  disk_usage = 0;
  upload_total = pos 0;
  download_total = pos 0;
  created_at = noon;
  updated_at = noon;
}

abbrev pub node : Node
node = record {
  id = "n1";
  server_id = "s1";
  name = "first";
  protocol = "vless";
  host = "203.0.113.1";
  port = pos 443;
  transport = "tcp";
  security = "tls";
  sni = "example.com";
  path = "";
  fingerprint = "";
  reality_dest = "";
  reality_private_key = "";
  reality_public_key = "";
  reality_short_id = "";
  reality_spider_x = "";
  socks_username = "";
  socks_password = "";
  socks_udp = false;
  ss_method = "";
  ss_password = "";
  remark = "";
  enabled = true;
  created_at = noon;
  updated_at = noon;
}

abbrev pub socks : Node
socks = record node {
  id = "n2";
  name = "second";
  protocol = "socks";
  port = pos 1080;
  security = "none";
  socks_username = "u";
  socks_password = "p";
}

abbrev pub landing_exit : LandingExit
landing_exit = record {
  id = "e1";
  name = "exit";
  host = "198.51.100.7";
  port = pos 1080;
  username = "u";
  password = "p";
  udp = true;
  region = "";
  provider = "";
  bandwidth_mbps = pos 100;
  remark = "";
  enabled = true;
  last_test_ip = "";
  last_test_msg = "";
  last_test_at = 0;
  created_at = noon;
  updated_at = noon;
}

abbrev pub route : RelayRoute
route = record {
  id = "r1";
  name = "route";
  relay_server_id = "s1";
  landing_node_id = "";
  relay_host = "203.0.113.1";
  relay_port = pos 12000;
  landing_mode = "manual_socks5";
  manual_socks_host = "198.51.100.7";
  manual_socks_port = pos 1080;
  manual_socks_username = "u";
  manual_socks_password = "p";
  manual_socks_udp = true;
  route_mode = "socks5_route";
  relay_network = "tcp";
  relay_sni = "www.intel.com";
  relay_fingerprint = "chrome";
  relay_reality_dest = "www.intel.com:443";
  relay_reality_private_key = "private";
  relay_reality_public_key = "public";
  relay_reality_short_id = "ab";
  relay_reality_spider_x = "/";
  remark = "";
  enabled = true;
  created_at = noon;
  updated_at = noon;
}

abbrev pub client : Client
client = record {
  remark = "";
  id = "c1";
  username = "alice";
  email = "a@example.com";
  uuid = "uuid-1";
  password = "password-1";
  traffic_limit_gb = pos 1;
  traffic_used_gb = pos 0;
  traffic_used_bytes = pos 1000;
  billing_cycle_start = noon;
  billing_cycle_days = pos 30;
  traffic_reset_at = 0;
  traffic_cursors =
      ("s1", record { epoch = "e1"; uplink = pos 100; downlink = pos 200; sample_at = noon }) ∷ [];
  expire_at = noon + 1000;
  subscribe_token = "token-1";
  enabled = true;
  node_ids = "n1" ∷ "n2" ∷ [];
  relay_route_ids = "r1" ∷ [];
  created_at = noon;
  updated_at = noon;
}

abbrev pub guest : Client
guest = record client {
  id = "c2";
  username = "bob";
  subscribe_token = "token-2";
  node_ids = "n2" ∷ [];
  relay_route_ids = [];
}

abbrev pub policy : NetworkPolicy
policy = record {
  mode = "default";
  public_dns = false;
  dns_servers = [];
  query_strategy = "";
  disable_fallback = false;
  disable_fallback_if_match = false;
  block_dns_53 = false;
  block_china_dns = false;
  block_quic = false;
  ipv6_strategy = "";
  clash_include_quad9 = false;
  sing_box_include_quad9 = false;
  updated_at = 0;
  updated_by = "";
}

abbrev pub panel : PanelData
panel = record {
  version = "";
  admins = [];
  servers = ("s1", server) ∷ [];
  nodes = ("n1", node) ∷ ("n2", socks) ∷ [];
  clients = ("c1", client) ∷ ("c2", guest) ∷ [];
  relay_routes = ("r1", route) ∷ [];
  landing_exits = ("e1", landing_exit) ∷ [];
  operation_logs = [];
  network_policy = policy;
  network_policy_backup = policy;
}

abbrev pub store : Store
store = record { memory = panel; disk = none }

abbrev pub no_setting : String → String
no_setting key = ""

abbrev pub env : Env
env = record {
  now = noon + 5;
  new_id = "new";
  relay_id = "new-relay";
  log_id = "log";
  server_id = "new-server";
  uuid = "new-uuid";
  token = "new-token";
  password = "new-password";
  server_token = "new-server-token";
  file_written = true;
  mode_written = true;
  getenv = no_setting;
  actor = "admin";
  client_ip = "192.0.2.1";
}

abbrev pub any_public : String → Option String
any_public private = some "public"

abbrev pub keys : Keys
keys = record {
  new_keys = ok ("private", "public");
  public_of = any_public;
  short_id = "abcd";
  random_bytes = none;
}

abbrev pub heartbeat : AgentHeartbeat
heartbeat = record {
  traffic_by_client = ("c1", record { uplink = pos 150; downlink = pos 260 }) ∷ [];
  traffic_epoch = "e1";
  traffic_sample_at = noon + 10;
  cpu_cores = pos 2;
  mem_total_bytes = pos 0;
  server_id = "s1";
  hostname = "";
  agent_version = "1.0.6";
  xray_version = "";
  config_hash = "";
  last_message = "";
  cpu_usage = 0;
  memory_usage = 0;
  disk_usage = 0;
  upload_total = pos 0;
  download_total = pos 0;
}
