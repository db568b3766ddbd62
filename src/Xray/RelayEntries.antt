-- ===== src/Xray/RelayEntries.antt =====
-- What relay routes add to a configuration (backend/internal/xray/config.go, the second loop of
-- `GenerateServerConfig`).
use yuchen_panel.Common.{
  String, not, ◌||◌, List, [], ◌∷◌, Map, Option, none, some, append, ℤ, pos, leb_ℤ, lookup, ◌==◌,
  if◌then◌else◌,
}
use yuchen_panel.Model.{Time, Node, Client, RelayRoute}
use yuchen_panel.Nodes.{or_text}
use yuchen_panel.Xray.Users.{make_relay_vless_clients}
use yuchen_panel.Xray.Policy.{Rule, inbound_rule}
use yuchen_panel.Xray.Inbounds.{Inbound, user_settings, forward_settings, apply_reality_settings}

-- an upstream SOCKS5 server: its tag, its address, its port, its user and its password
pub data Outbound : Type 0 where
  freedom : String → Outbound
  blackhole : String → Outbound
  socks_outbound : String → String → ℤ → String → String → Outbound

abbrev pub tag_of : Outbound → String
tag_of (freedom tag) = tag
tag_of (blackhole tag) = tag
tag_of (socks_outbound tag address port user password) = tag

pub record Target : Type 0 where
  pub host : String
  pub port : ℤ
  pub user : String
  pub password : String

-- an enabled node with a port
abbrev pub usable_landing : Map Node → String → Option Node
usable_landing all_nodes id = elim (lookup id all_nodes) [
  | none ↦ none
  | some n ↦ if not n.enabled || leb_ℤ n.port (pos 0) then none else some n
]

abbrev pub landing_mode_of : RelayRoute → String
landing_mode_of r =
    if r.landing_mode == ""
    then (if r.landing_node_id == "" then "manual_socks5" else "panel_node")
    else r.landing_mode

abbrev pub node_target : Option Node → Option Target
node_target none = none
node_target (some n) =
    if not (n.protocol == "socks")
    then none
    else some (record {
      host = or_text n.host "127.0.0.1";
      port = n.port;
      user = n.socks_username;
      password = n.socks_password;
    })

abbrev pub if_complete : Option Target → Option Target
if_complete none = none
if_complete (some t) =
    if t.host == "" || leb_ℤ t.port (pos 0) || t.user == "" || t.password == ""
    then none
    else some t

unfoldable pub route_target : Map Node → RelayRoute → Option Target
route_target all_nodes r = if_complete (
    if landing_mode_of r == "manual_socks5"
    then some (record {
      host = r.manual_socks_host;
      port = r.manual_socks_port;
      user = r.manual_socks_username;
      password = r.manual_socks_password;
    })
    else node_target (usable_landing all_nodes r.landing_node_id))

-- what a relay route adds: an inbound and, for a fixed exit, an outbound with its rule
pub data RelayEntry : Type 0 where
  forward_entry : Inbound → RelayEntry
  exit_entry : Inbound → Outbound → Rule → RelayEntry

unfoldable pub exit_entry_of : Time → List Client → RelayRoute → Target → RelayEntry
unfolding apply_reality_settings
exit_entry_of now clients r t =
    let inbound_tag = append "in_" r.id in
    let outbound_tag = append "out_" r.id in
    exit_entry
      (record {
        listen = "0.0.0.0";
        port = r.relay_port;
        protocol = "vless";
        settings = user_settings (make_relay_vless_clients now r.id clients) (some "none") (record {
          network = "tcp";
          security = "reality";
          ws_path = none;
          grpc_service = none;
          tls_name = none;
          reality = some (
              apply_reality_settings r.relay_reality_dest r.relay_sni r.relay_reality_private_key
                r.relay_reality_short_id r.relay_reality_spider_x);
        });
        tag = inbound_tag;
      })
      (socks_outbound outbound_tag t.host t.port t.user t.password)
      (inbound_rule inbound_tag outbound_tag)

unfoldable pub forward_entry_of : RelayRoute → Node → RelayEntry
forward_entry_of r landing = forward_entry (record {
  listen = "0.0.0.0";
  port = r.relay_port;
  protocol = "dokodemo-door";
  settings =
      forward_settings (or_text landing.host "127.0.0.1") landing.port
        (or_text r.relay_network "tcp");
  tag = r.id;
})

abbrev pub map_some : {A B : Type 0} → (A → B) → Option A → Option B
map_some f none = none
map_some f (some x) = some (f x)

-- one round of the loop over the relay routes
unfoldable pub relay_entry : Time → List Client → Map Node → RelayRoute → Option RelayEntry
unfolding route_target exit_entry_of forward_entry_of
relay_entry now clients all_nodes r =
    if not r.enabled || leb_ℤ r.relay_port (pos 0)
    then none
    else if or_text r.route_mode "tcp_forward" == "socks5_route"
    then map_some (exit_entry_of now clients r) (route_target all_nodes r)
    else map_some (forward_entry_of r) (usable_landing all_nodes r.landing_node_id)

abbrev pub inbound_of : RelayEntry → Inbound
inbound_of (forward_entry i) = i
inbound_of (exit_entry i o rule) = i

unfoldable pub outbounds_of : List RelayEntry → List Outbound
outbounds_of [] = []
outbounds_of (forward_entry i ∷ rest) = outbounds_of rest
outbounds_of (exit_entry i o rule ∷ rest) = o ∷ outbounds_of rest

unfoldable pub rules_of : List RelayEntry → List Rule
rules_of [] = []
rules_of (forward_entry i ∷ rest) = rules_of rest
rules_of (exit_entry i o rule ∷ rest) = rule ∷ rules_of rest
