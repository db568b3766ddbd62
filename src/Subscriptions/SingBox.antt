-- ===== src/Subscriptions/SingBox.antt =====
-- The sing-box configuration (backend/internal/api/singbox.go), without the keys that are the same
-- in every configuration.
use yuchen_panel.Common.{
  String, Bool, true, false, ◌&&◌, ◌||◌, List, [], ◌∷◌, ◌++◌, map, Option, none, some, ℤ, pos,
  to_lower, trim_space, keep_if, ◌==◌, if◌then◌else◌,
}
use yuchen_panel.Model.{Client, Node, RelayRoute, NetworkPolicy}
use yuchen_panel.Nodes.{or_text}
use yuchen_panel.Xray.Credentials.{trojan_client_password}
use yuchen_panel.Subscriptions.Snapshot.{is_shareable_node_protocol}
use yuchen_panel.Subscriptions.Names.{node_host, unique_subscription_names}
use yuchen_panel.Subscriptions.Links.{grpc_service, unbracketed}

pub data BoxCredential : Type 0 where
  by_password : String → BoxCredential
  by_uuid : String → Bool → BoxCredential

pub record BoxTls : Type 0 where
  pub server_name : String
  pub fingerprint : String
  pub reality : Option (String × String)

pub data BoxTransport : Type 0 where
  ws : String → BoxTransport
  grpc : String → BoxTransport

-- an outbound to a proxy; `by_uuid` says whether the cipher is "auto"
pub record BoxNode : Type 0 where
  pub protocol : String
  pub tag : String
  pub server : String
  pub server_port : ℤ
  pub credential : BoxCredential
  pub tls : Option BoxTls
  pub transport : Option BoxTransport

abbrev pub box_tls : Node → String → BoxTls
box_tls n security = record {
  server_name = or_text n.sni (node_host n);
  fingerprint = or_text n.fingerprint "chrome";
  reality = if security == "reality" then some (n.reality_public_key, n.reality_short_id) else none;
}

unfoldable pub sing_box_node : (String → String) → Client → Node → BoxNode
unfolding to_lower trim_space unbracketed grpc_service
sing_box_node sha256_hex c n =
    let protocol = to_lower (trim_space n.protocol) in
    let security = to_lower n.security in
    let transport = to_lower n.transport in
    record {
      protocol = protocol;
      tag = n.name;
      server = unbracketed (node_host n);
      server_port = n.port;
      credential =
          if protocol == "trojan"
          then by_password (trojan_client_password sha256_hex c)
          else by_uuid c.uuid (protocol == "vmess");
      tls =
          if security == "tls" || security == "reality" || protocol == "trojan"
          then some (box_tls n security)
          else none;
      transport =
          if transport == "ws"
          then some (ws (or_text n.path "/yuchen"))
          else if transport == "grpc"
          then some (grpc (grpc_service n.path))
          else none;
    }

-- the zero value
abbrev no_node : Node
no_node = record {
  id = "";
  server_id = "";
  name = "";
  protocol = "";
  host = "";
  port = pos 0;
  transport = "";
  security = "";
  sni = "";
  path = "";
  fingerprint = "";
  reality_dest = "";
  reality_private_key = "";
  reality_public_key = "";
  reality_short_id = "";
  reality_spider_x = "";
  socks_username = "";
  socks_password = "";
  socks_udp = false;
  ss_method = "";
  ss_password = "";
  remark = "";
  enabled = false;
  created_at = 0;
  updated_at = 0;
}

-- the node that stands for a relay route
abbrev pub relay_node : RelayRoute → Node
relay_node r = record no_node {
  name = r.name;
  protocol = "vless";
  host = or_text r.relay_host "127.0.0.1";
  port = r.relay_port;
  transport = "tcp";
  security = "reality";
  sni = or_text r.relay_sni "www.intel.com";
  fingerprint = or_text r.relay_fingerprint "chrome";
  reality_public_key = r.relay_reality_public_key;
  reality_short_id = r.relay_reality_short_id;
}

pub data BoxOutbound : Type 0 where
  selector : List String → String → BoxOutbound
  proxy : BoxNode → BoxOutbound
  direct : BoxOutbound

abbrev pub box_tag : BoxOutbound → String
box_tag (selector choices selected) = "PROXY"
box_tag (proxy n) = n.tag
box_tag direct = "direct"

pub record BoxConfig : Type 0 where
  pub has_tun : Bool
  pub outbounds : List BoxOutbound
  pub dns_servers : List String

abbrev pub first_or_direct : List String → String
first_or_direct [] = "direct"
first_or_direct (t ∷ ts) = t

-- the selector, the proxies, and the direct outbound
unfoldable pub box_outbounds : List BoxNode → List BoxOutbound
box_outbounds proxies =
    let tags = map (λ n. n.tag) proxies in
    selector (tags ++ ("direct" ∷ [])) (first_or_direct tags) ∷ (map proxy proxies ++ (direct ∷ []))

abbrev pub is_visible : Node → Bool
is_visible n = n.enabled && is_shareable_node_protocol n.protocol

abbrev pub is_active : RelayRoute → Bool
is_active r = r.enabled && r.route_mode == "socks5_route"

unfoldable pub build_sing_box_subscription :
    (String → String) → List Node → List RelayRoute → Client → NetworkPolicy → BoxConfig
unfolding keep_if unique_subscription_names box_outbounds sing_box_node is_shareable_node_protocol
build_sing_box_subscription sha256_hex nodes relays c policy =
    let (visible, active) =
      unique_subscription_names (keep_if is_visible nodes) (keep_if is_active relays) in
    record {
      has_tun = false;
      outbounds = box_outbounds (
          map (sing_box_node sha256_hex c) visible
          ++ map (λ r. sing_box_node sha256_hex c (relay_node r)) active);
      dns_servers =
          "cloudflare" ∷ "google" ∷ (if policy.sing_box_include_quad9 then "quad9" ∷ [] else []);
    }

-- `addSingBoxTunProfile`
unfoldable pub add_sing_box_tun_profile : BoxConfig → BoxConfig
add_sing_box_tun_profile config = record config { has_tun = true }
