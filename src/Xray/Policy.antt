-- ===== src/Xray/Policy.antt =====
-- The network policy in the configuration of Xray (backend/internal/xray/config.go,
-- `normalizeNetworkPolicy`, `dnsConfigFromPolicy`, `applyNetworkPolicy`).
use yuchen_panel.Common.{
  String, Bool, true, false, not, ◌&&◌, ◌||◌, List, [], ◌∷◌, ◌++◌, Option, none, some, keep_if,
  ◌==◌, if◌then◌else◌,
}
use yuchen_panel.Model.{NetworkPolicy}
use yuchen_panel.Store.Policy.{default_dns, is_empty}
use yuchen_panel.Xray.Users.{before_text, sort_by}

abbrev pub dns_or_default : List String → List String
dns_or_default servers = if is_empty servers then default_dns else servers

abbrev pub compat_policy : NetworkPolicy → NetworkPolicy
compat_policy p = record p {
  mode = "compat";
  public_dns = true;
  dns_servers = default_dns;
  query_strategy = "UseIPv4";
  disable_fallback = false;
  disable_fallback_if_match = false;
  block_dns_53 = false;
  block_china_dns = false;
  block_quic = false;
}

-- the modes "public_dns" and "dns_leak_guard"
abbrev pub public_policy : NetworkPolicy → NetworkPolicy
public_policy p = record p {
  public_dns = true;
  dns_servers = dns_or_default p.dns_servers;
  query_strategy = "UseIPv4";
  disable_fallback = false;
  disable_fallback_if_match = false;
  block_dns_53 = false;
  block_china_dns = false;
  block_quic = false;
}

abbrev pub strict_policy : NetworkPolicy → NetworkPolicy
strict_policy p = record p {
  public_dns = true;
  dns_servers = dns_or_default p.dns_servers;
  query_strategy = "UseIPv4";
  disable_fallback = true;
  disable_fallback_if_match = true;
  block_dns_53 = true;
  block_china_dns = true;
  block_quic = true;
}

abbrev pub custom_policy : NetworkPolicy → NetworkPolicy
custom_policy p = record p {
  dns_servers = if p.public_dns && is_empty p.dns_servers then default_dns else p.dns_servers;
  query_strategy = if p.query_strategy == "" then "AsIs" else p.query_strategy;
}

-- an unknown mode is "compat", for which the source calls itself once more
unfoldable pub policy_in_force : NetworkPolicy → NetworkPolicy
policy_in_force p =
    if p.mode == "" || p.mode == "compat"
    then compat_policy p
    else if p.mode == "public_dns" || p.mode == "dns_leak_guard"
    then public_policy p
    else if p.mode == "strict"
    then strict_policy p
    else if p.mode == "custom"
    then custom_policy p
    else compat_policy p

-- the object `dns`; its flags stand for keys that are there when they are true
pub record Dns : Type 0 where
  pub servers : List String
  pub query_strategy : Option String
  pub disable_fallback : Bool
  pub disable_fallback_if_match : Bool

abbrev pub named_strategy : String → Option String
named_strategy q = if not (q == "") && not (q == "AsIs") then some q else none

-- an empty object has none of the keys
abbrev pub is_none : Option String → Bool
is_none none = true
is_none (some q) = false

abbrev pub if_any_key : Dns → Option Dns
if_any_key d =
    if is_empty d.servers
      && is_none d.query_strategy
      && not d.disable_fallback
      && not d.disable_fallback_if_match
    then none
    else some d

unfoldable pub dns_config_from_policy : NetworkPolicy → Option Dns
unfolding policy_in_force sort_by keep_if
dns_config_from_policy policy =
    let p = policy_in_force policy in
    if_any_key (record {
      servers =
          if p.public_dns || not (is_empty p.dns_servers)
          then keep_if (λ s. not (s == "")) (sort_by before_text p.dns_servers)
          else [];
      query_strategy = named_strategy p.query_strategy;
      disable_fallback = p.disable_fallback;
      disable_fallback_if_match = p.disable_fallback_if_match;
    })

-- the routing rules: from an inbound, for a port and a network, and for addresses
pub data Rule : Type 0 where
  inbound_rule : String → String → Rule
  port_rule : String → String → String → Rule
  ip_rule : List String → String → Rule

abbrev pub outbound_of : Rule → String
outbound_of (inbound_rule inbound outbound) = outbound
outbound_of (port_rule port network outbound) = outbound
outbound_of (ip_rule ips outbound) = outbound

abbrev pub china_dns : List String
china_dns =
    "114.114.114.114" ∷ "114.114.115.115" ∷ "223.5.5.5" ∷ "223.6.6.6" ∷ "119.29.29.29"
    ∷ "180.76.76.76" ∷ "1.2.4.8" ∷ "210.2.4.8" ∷ []

abbrev pub rule_if : Bool → Rule → List Rule
rule_if b rule = if b then rule ∷ [] else []

unfoldable pub rules_in_force : NetworkPolicy → List Rule
rules_in_force p =
    rule_if p.block_dns_53 (port_rule "53" "tcp,udp" "blocked")
    ++ (rule_if p.block_china_dns (ip_rule china_dns "blocked")
        ++ rule_if p.block_quic (port_rule "443" "udp" "blocked"))

unfoldable pub policy_rules : NetworkPolicy → List Rule
unfolding policy_in_force rules_in_force
policy_rules policy = rules_in_force (policy_in_force policy)
