-- ===== src/Xray/Inbounds.antt =====
-- The inbounds of nodes (backend/internal/xray/config.go, the first loop of
-- `GenerateServerConfig`, `applyRealitySettings` and `trimSlash`). The JSON objects are records, in
-- which the keys with a constant value are left out and an absent key is `none`.
use yuchen_panel.Common.{
  String, Bool, not, ◌&&◌, ◌||◌, List, [], ◌∷◌, Option, none, some, ℤ, to_lower, trim_space,
  trim_left, trim_right, eqb, ◌==◌, if◌then◌else◌,
}
use yuchen_panel.Model.{Time, Node, Client}
use yuchen_panel.Nodes.{or_text}
use yuchen_panel.Xray.Users.{InboundUser, make_inbound_clients}

pub record Reality : Type 0 where
  pub dest : String
  pub server_name : String
  pub private_key : String
  pub short_id : String
  pub spider_x : String

unfoldable pub apply_reality_settings : String → String → String → String → String → Reality
apply_reality_settings dest server_name private_key short_id spider_x = record {
  dest = or_text dest "www.intel.com:443";
  server_name = or_text server_name "www.intel.com";
  private_key = private_key;
  short_id = short_id;
  spider_x = or_text spider_x "/";
}

-- the object `streamSettings`
pub record Stream : Type 0 where
  pub network : String
  pub security : String
  pub ws_path : Option String
  pub grpc_service : Option String
  pub tls_name : Option String
  pub reality : Option Reality

-- SOCKS5 accounts, users of a protocol, a forwarded address, and the local statistics
pub data InboundSettings : Type 0 where
  socks_settings : String → List (String × String) → Bool → InboundSettings
  user_settings : List InboundUser → Option String → Stream → InboundSettings
  forward_settings : String → ℤ → String → InboundSettings
  stats_settings : String → InboundSettings

pub record Inbound : Type 0 where
  pub listen : String
  pub port : ℤ
  pub protocol : String
  pub settings : InboundSettings
  pub tag : String

-- "/" at both ends
unfoldable pub trim_slash : String → String
trim_slash s =
    let t = trim_right (λ c. eqb c b'/') (trim_left (λ c. eqb c b'/') s) in or_text t "yuchen"

unfoldable pub socks_inbound : Node → Inbound
socks_inbound node =
    let open_to_all = node.socks_username == "" || node.socks_password == "" in
    record {
      listen = "0.0.0.0";
      port = node.port;
      protocol = "socks";
      settings =
          socks_settings (if open_to_all then "noauth" else "password")
            (if open_to_all then [] else (node.socks_username, node.socks_password) ∷ [])
            node.socks_udp;
      tag = node.id;
    }

-- VMess has no Reality
unfoldable pub security_of : Node → String
security_of node =
    if to_lower node.protocol == "vmess" && to_lower node.security == "reality"
    then "none"
    else node.security

abbrev pub service_name : Node → String
service_name node = if node.path == "" || node.path == "/" then "yuchen" else node.path

unfoldable pub node_stream : Node → Stream
unfolding security_of trim_slash apply_reality_settings
node_stream node = record {
  network = node.transport;
  security = security_of node;
  ws_path = if node.transport == "ws" then some node.path else none;
  grpc_service = if node.transport == "grpc" then some (trim_slash (service_name node)) else none;
  tls_name = if security_of node == "tls" then some node.sni else none;
  reality =
      if security_of node == "reality"
      then some (
          apply_reality_settings node.reality_dest node.sni node.reality_private_key
            node.reality_short_id node.reality_spider_x)
      else none;
}

unfoldable pub client_inbound : (String → String) → Time → List Client → Node → Inbound
unfolding node_stream
client_inbound sha256_hex now clients node = record {
  listen = "0.0.0.0";
  port = node.port;
  protocol = node.protocol;
  settings =
      user_settings (make_inbound_clients sha256_hex now node.id node.protocol clients)
        (if to_lower node.protocol == "vmess" || to_lower node.protocol == "trojan"
          then none
          else some "none")
        (node_stream node);
  tag = node.id;
}

-- one round of the loop over the nodes; Shadowsocks is retired
unfoldable pub node_inbound : (String → String) → Time → List Client → Node → Option Inbound
unfolding socks_inbound client_inbound
node_inbound sha256_hex now clients node =
    if not node.enabled || to_lower (trim_space node.protocol) == "shadowsocks"
    then none
    else if node.protocol == "socks"
    then some (socks_inbound node)
    else some (client_inbound sha256_hex now clients node)
