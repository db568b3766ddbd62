-- ===== src/Xray/Config.antt =====
-- The configuration of a server (backend/internal/xray/config.go, `GenerateServerConfig` and
-- `GenerateInboundConfig`).
use yuchen_panel.Common.{
  ℕ, zero, suc, String, Bool, false, List, [], ◌∷◌, ◌++◌, map, Map, Option, ℤ, pos, eqb_ℤ, length,
  any, if◌then◌else◌,
}
use yuchen_panel.Model.{Time, Node, Client, RelayRoute, NetworkPolicy}
use yuchen_panel.Xray.Users.{collect}
use yuchen_panel.Xray.Policy.{Dns, Rule, inbound_rule, policy_rules, dns_config_from_policy}
use yuchen_panel.Xray.Inbounds.{Inbound, stats_settings, node_inbound}
use yuchen_panel.Xray.RelayEntries.{
  Outbound, freedom, blackhole, relay_entry, inbound_of, outbounds_of, rules_of,
}

abbrev pub in_use : List ℤ → ℕ → Bool
in_use used port = any (λ u. eqb_ℤ u (pos port)) used

-- `for usedPorts[statsPort] { statsPort++ }`, as many rounds as there are ports and one more
unfoldable pub free_port : ℕ → List ℤ → ℕ → ℕ
unfolding any
free_port zero used port = port
free_port (suc fuel) used port =
    let next = free_port fuel used (suc port) in if in_use used port then next else port

unfoldable pub used_ports : List Node → List RelayRoute → List ℤ
used_ports nodes relays = map (λ n. n.port) nodes ++ map (λ r. r.relay_port) relays

unfoldable pub stats_port : List ℤ → ℕ
unfolding free_port
stats_port used = free_port (suc (length used)) used 10000

pub record ServerConfig : Type 0 where
  pub inbounds : List Inbound
  pub outbounds : List Outbound
  pub rules : List Rule
  pub dns : Option Dns

unfoldable pub stats_inbound : ℕ → Inbound
stats_inbound port = record {
  listen = "127.0.0.1";
  port = pos port;
  protocol = "dokodemo-door";
  settings = stats_settings "127.0.0.1";
  tag = "api";
}

-- `GenerateServerConfig`; without the parts that are the same in every configuration
unfoldable pub generate_server_config :
    (String → String)
    → Time
    → List Node
    → List Client
    → List RelayRoute
    → Map Node
    → NetworkPolicy
    → ServerConfig
unfolding node_inbound relay_entry collect outbounds_of rules_of policy_rules stats_inbound
    used_ports stats_port
generate_server_config sha256_hex now nodes clients relays all_nodes policy =
    let entries = collect (relay_entry now clients all_nodes) relays in
    record {
      inbounds =
          collect (node_inbound sha256_hex now clients) nodes
          ++ (map inbound_of entries
              ++ (stats_inbound (stats_port (used_ports nodes relays)) ∷ []));
      outbounds = freedom "direct" ∷ blackhole "blocked" ∷ outbounds_of entries;
      rules = inbound_rule "api" "api" ∷ (rules_of entries ++ policy_rules policy);
      dns = dns_config_from_policy policy;
    }

-- the zero value of the policy
abbrev pub no_policy : NetworkPolicy
no_policy = record {
  mode = "";
  public_dns = false;
  dns_servers = [];
  query_strategy = "";
  disable_fallback = false;
  disable_fallback_if_match = false;
  block_dns_53 = false;
  block_china_dns = false;
  block_quic = false;
  ipv6_strategy = "";
  clash_include_quad9 = false;
  sing_box_include_quad9 = false;
  updated_at = 0;
  updated_by = "";
}

-- `GenerateInboundConfig`
unfoldable pub generate_inbound_config :
    (String → String) → Time → Node → List Client → ServerConfig
unfolding generate_server_config
generate_inbound_config sha256_hex now node clients =
    generate_server_config sha256_hex now (node ∷ []) clients [] [] no_policy
